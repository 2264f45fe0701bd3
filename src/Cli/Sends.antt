-- ===== src/Cli/Sends.antt =====
-- The bytes that a successful session of src/bin/stcbsl.rs has put on the wire.
use stcbsl.Base.{
  ℕ, ◌*◌, ◌≡◌, refl, ap, ◌∙◌, inl, inr, Option, none, some, List, [], ◌∷◌, ◌++◌, append_assoc, map,
  replicate, Result, ok, err, Result-cases, Bool-cases, length,
}
use mathlib.Core.Path.{subst}
use stcbsl.Base.Bytes.{Bytes}
use stcbsl.Base.Text.{Text}
use stcbsl.Frame.{Frame, encode}
use stcbsl.Protocol.{Job, TargetInfo}
use stcbsl.Session.{Step, new}
use stcbsl.Stc89.{plan}
use stcbsl.Stc89.Status.{stc89, parse_status}
use stcbsl.Driver.{Outcome, done, panicked, out_of_fuel, run as run_session}
use stcbsl.Driver.Honest.{Honest}
use stcbsl.Driver.Run.{run-Honest}
use stcbsl.Driver.Handshake.{Met, met, unended, handshake}
use stcbsl.Driver.Handshake.Sound.{handshake-Sound}
use stcbsl.Driver.Handshake.Pulses.{handshake-Pulsed}
use stcbsl.Transport.{as_opened, open_port}
use stcbsl.Cli.{Args}
use stcbsl.Cli.Console.{System, CliWire, say, unless_quiet, planned, cli_world}
use stcbsl.Cli.Explain.{Ended, over, exits, panics}
use stcbsl.Cli.Recorded.{Recorded, sent_by, cli_world-Traced, say-sent}
use stcbsl.Cli.Run.{
  Fuel, options_of, drain_of, with_word, after_run, run_plan, after_handshake, announce, on_port,
  with_port, cmd_session,
}

module _ {P E F M : Type 0} (sent : M → List Bytes) where
  -- What has been sent when a command returns Ok.
  abbrev pub Sends : (List Bytes → Type 0) → Ended P E F M → Type 0
  Sends Q (over (ok u) m) = Q (sent m)
  Sends Q (over (err e) m) = Unit
  Sends Q (exits n m) = Unit
  Sends Q panics = Unit
  Sends Q Ended.unended = Unit

  pub Sends-map :
      (Q R : List Bytes → Type 0) (o : Ended P E F M)
      → ((l : List Bytes) → Q l → R l)
      → Sends Q o
      → Sends R o
  Sends-map Q R (over (ok u) m) f h = f (sent m) h
  Sends-map Q R (over (err e) m) f h = tt
  Sends-map Q R (exits n m) f h = tt
  Sends-map Q R panics f h = tt
  Sends-map Q R Ended.unended f h = tt

module _ {P E F M : Type 0} (system : System P E F M) (sent : M → List Bytes)
    (recorded : Recorded system sent) (args : Args) where
  -- The bytes that a session of the job puts on the wire, behind what has been sent before: pulses,
  -- and the frames that are planned from the answer to the status frame of a chip.
  abbrev pub SessionSent : Job → List Bytes → List Bytes → Type 0
  SessionSent job before after =
      (info : TargetInfo) × (frame : Frame) × (steps : List Step) × (n : ℕ) × (parse_status frame
          args.handshake_baud
        ≡ ok info)
      × (plan info job (options_of args) ≡ ok steps)
      × (after
          ≡ before ++ (replicate n (0x7F ∷ []) ++ map (λ (step : Step). encode step.frame) steps))

  abbrev Wrote : List Step → List Bytes → List Bytes → Type 0
  Wrote steps before after = after ≡ before ++ map (λ (step : Step). encode step.frame) steps

  after_run-Sends :
      (job : Job) (steps : List Step) (before : List Bytes) (o : Outcome E (CliWire M))
      → Honest
          (cli_world system args.quiet)
          (sent_by sent)
          (cli_world-Traced system sent recorded args.quiet)
          steps
          before
          o
      → Sends sent (Wrote steps before) (after_run system job o)
  after_run-Sends job steps before (done (ok u) s w) (fin, intact, e) =
      recorded.prints _ w.wire.port ∙ e
  after_run-Sends job steps before (done (err x) s w) h = tt
  after_run-Sends job steps before panicked h = tt
  after_run-Sends job steps before out_of_fuel h = tt

  run_plan-Sends :
      (fuel : Fuel) (job : Job) (steps : List Step) (w : CliWire M)
      → Sends sent (Wrote steps (sent_by sent w)) (run_plan system fuel args job (ok steps) w)
  unfolding run_plan
  run_plan-Sends fuel job steps w =
      let start = unless_quiet args.quiet (say system (planned (length steps))) w in
      subst
        (λ (l : List Bytes). Sends sent (Wrote steps l) (
          after_run system job (
            run_session (cli_world system args.quiet) fuel.polls fuel.rounds (drain_of args)
              (new steps) start)))
        (say-sent system sent recorded args.quiet (planned (length steps)) w)
        (after_run-Sends job steps (sent_by sent start) _ (
          run-Honest (cli_world system args.quiet) (sent_by sent)
            (cli_world-Traced system sent recorded args.quiet) steps fuel.polls fuel.rounds
            (drain_of args) start))

  with_word-Sends :
      (Q : List Bytes → Type 0) (words : List ℕ) (o : Ended P E F M)
      → Sends sent Q o
      → Sends sent Q (with_word system words o)
  with_word-Sends Q [] o h = tt
  with_word-Sends Q (f ∷ fs) o h = h

  -- From the plan on, after a handshake that has sent `n` pulses.
  planned-Sends :
      (fuel : Fuel) (job : Job) (before : List Bytes) (info : TargetInfo) (frame : Frame) (n : ℕ)
      (w : CliWire M)
      → parse_status frame args.handshake_baud ≡ ok info
      → sent_by sent w ≡ before ++ replicate n (0x7F ∷ [])
      → Sends sent
          (SessionSent job before)
          (run_plan system fuel args job (plan info job (options_of args)) w)
  planned-Sends fuel job before info frame n w seen pulsed =
      elim (Result-cases (plan info job (options_of args))) [
        | inr (e, q) ↦ rw q (unfold run_plan in tt)
        | inl (steps, q) ↦ rw q (
            Sends-map sent (Wrote steps (sent_by sent w)) (SessionSent job before) _
              (λ l e. (
                info,
                frame,
                steps,
                n,
                seen,
                q,
                e
                    ∙ ap (λ (x : List Bytes). x ++ map (λ (step : Step). encode step.frame) steps)
                        pulsed
                    ∙ append_assoc before (replicate n (0x7F ∷ []))
                        (map (λ (step : Step). encode step.frame) steps),
              ))
              (run_plan-Sends fuel job steps w))
      ]

  met-Sends :
      (fuel : Fuel) (job : Job) (w0 : CliWire M) (r : Met E (CliWire M))
      → handshake fuel.syncs
          (cli_world system args.quiet)
          stc89
          (options_of args)
          (args.wait_s * 1_000_000_000)
          w0
        ≡ r
      → Sends sent (SessionSent job (sent_by sent w0)) (after_handshake system fuel args job r)
  unfolding after_handshake
  met-Sends fuel job w0 unended e = tt
  met-Sends fuel job w0 (met (err x) w) e = tt
  met-Sends fuel job w0 (met (ok info) w) e =
      let world = cli_world system args.quiet in
      let wait = args.wait_s * 1_000_000_000 in
      let (frame, is_status, seen) =
        handshake-Sound world stc89 fuel.syncs (options_of args) wait w0 w info e in
      let (n, pulsed) =
        handshake-Pulsed world (sent_by sent) (cli_world-Traced system sent recorded args.quiet)
          stc89 fuel.syncs (options_of args) wait w0 w info e in
      with_word-Sends (SessionSent job (sent_by sent w0)) info.freq_words _ (
        planned-Sends fuel job (sent_by sent w0) info frame n _ seen
          (recorded.prints _ w.wire.port ∙ pulsed))

  announce-sent :
      (port : Text) (w : CliWire M) → sent_by sent (announce system args port w) ≡ sent_by sent w
  announce-sent port w = elim (Bool-cases args.quiet) [
    | inl e ↦ rw e refl
    | inr e ↦ rw e (recorded.prints _ _ ∙ recorded.prints _ w.wire.port)
  ]

  on_port-Sends :
      (fuel : Fuel) (job : Job) (port : Text) (m : M) (o : Result P (Unit {0}) × M)
      → sent o.1 ≡ sent m
      → Sends sent
          (SessionSent job (sent m))
          (on_port system fuel args job port (as_opened system.serial args.handshake_baud o))
  unfolding on_port
  on_port-Sends fuel job port m (err e, m') same = tt
  on_port-Sends fuel job port m (ok u, m') same =
      let w0 =
        announce system args port
          (record { wire = record { port = m'; baud = args.handshake_baud }; noise = 0 }) in
      subst
        (λ (l : List Bytes). Sends sent (SessionSent job l) (
          after_handshake system fuel args job (
            handshake fuel.syncs (cli_world system args.quiet) stc89 (options_of args)
              (args.wait_s * 1_000_000_000) w0)))
        (announce-sent port _ ∙ same) (met-Sends fuel job w0 _ refl)

  with_port-Sends :
      (fuel : Fuel) (job : Job) (o : Option Text) (m : M)
      → Sends sent (SessionSent job (sent m)) (with_port system fuel args job o m)
  unfolding with_port open_port
  with_port-Sends fuel job none m = tt
  with_port-Sends fuel job (some port) m = on_port-Sends fuel job port m _ (recorded.opens _ m)

  pub cmd_session-Sends :
      (fuel : Fuel) (job : Job) (m : M)
      → Sends sent (SessionSent job (sent m)) (cmd_session system fuel args job m)
  unfolding cmd_session
  cmd_session-Sends fuel job m = with_port-Sends fuel job args.port m
