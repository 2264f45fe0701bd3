-- ===== src/Cli/Served.antt =====
-- `cmd_session` of src/bin/stcbsl.rs on a port where nothing fails, with a chip that answers.
use mathlib.Core.Path.{subst}
use stcbsl.Base.{
  ℕ, suc, ◌*◌, ◌≤◌, ◌<◌, ◌≡◌, refl, sym, ap, ◌∙◌, Bool, true, false, Option, none, some, List, [],
  ◌∷◌, Result, ok, err, length, arith, All, inl, inr, Bool-cases,
}
use stcbsl.Base.Bytes.{Bytes}
use stcbsl.Base.Text.{Text}
use stcbsl.Frame.{Frame, encode}
use stcbsl.Protocol.{Job, TargetInfo}
use stcbsl.Session.{Step}
use stcbsl.Stc89.{plan}
use stcbsl.Stc89.Status.{stc89, is_status_frame, parse_status, target_info}
use stcbsl.Stc89.Status.Laws.{parse_status-eq-ok_iff}
use stcbsl.Driver.{Outcome, done, panicked, out_of_fuel}
use stcbsl.Driver.Served.{run-Succeeds}
use stcbsl.Driver.Serves.{IsOk, Serves, IsAnswered, Succeeds}
use stcbsl.Driver.Handshake.{Met, met, unended}
use stcbsl.Driver.Handshake.Served.{Meets, handshake-Meets}
use stcbsl.Transport.{PortSettings, SerialWire, tuned, drain_port, as_opened, open_port, polled}
use stcbsl.Cli.{Args}
use stcbsl.Cli.Console.{Line, System, CliWire, say, unless_quiet, planned, target, cli_world}
use stcbsl.Cli.Explain.{Ended, over, exits, panics}
use stcbsl.Cli.Timed.{some_words}
use stcbsl.Cli.Run.{
  Fuel, options_of, drain_of, after_run, run_plan, with_word, after_handshake, announce, on_port,
  with_port, cmd_session,
}

-- Nothing fails on the port, and a chip stands behind it: `ready` is what it has sent and nobody has
-- read yet, `answer` what it sends when it is written to.
pub record ServedBy {P E F M : Type 0} (system : System P E F M) (ready : M → Bytes)
    (answer : Bytes → Bytes) : Type 0 where
  pub opens :
      (s : PortSettings) (m : M)
      → IsOk (system.serial.open_native s m).0 × (ready (system.serial.open_native s m).1 ≡ ready m)
  pub writes :
      (bs : Bytes) (m : M)
      → ready m ≡ []
      → IsOk (system.serial.write_all bs m).0 × (ready (system.serial.write_all bs m).1 ≡ answer bs)
  pub reads :
      (n : ℕ) (m : M)
      → length (ready m) ≤ n
      → ((system.serial.read n m).0 ≡ ok (ready m)) × (ready (system.serial.read n m).1 ≡ [])
  pub tunes :
      (b : ℕ) (m : M)
      → IsOk (system.serial.set_baud_rate b m).0
        × (ready (system.serial.set_baud_rate b m).1 ≡ ready m)
  pub flushes :
      (m : M) → IsOk (system.serial.flush m).0 × (ready (system.serial.flush m).1 ≡ ready m)
  pub drains :
      (m : M) → ((system.serial.tcdrain m).0 ≡ 0) × (ready (system.serial.tcdrain m).1 ≡ ready m)
  pub sleeps : (ms : ℕ) (m : M) → ready (system.serial.sleep ms m) ≡ ready m
  pub prints : (line : Line) (m : M) → ready (system.print line m) ≡ ready m

-- One round of pulses, two polls for a reply, and a round for each step and one more.
abbrev pub fuel_for : List Step → Fuel
fuel_for steps = record { syncs = 1; polls = 2; rounds = suc (length steps) }

module _ {P E F M : Type 0} (system : System P E F M) (ready : M → Bytes) (answer : Bytes → Bytes)
    (served : ServedBy system ready answer) where
  abbrev ready_at : CliWire M → Bytes
  ready_at w = ready w.wire.port

  polled-ok :
      (r : Result E Bytes) (bs : Bytes) → r ≡ ok bs → polled system.serial.timed_out r ≡ ok bs
  polled-ok (ok x) bs e = e
  polled-ok (err x) bs e = cc

  tuned-ok :
      (b : ℕ) (wire : SerialWire M) (r : Result P (Unit {0}) × M) (l : Bytes)
      → IsOk r.0 × (ready r.1 ≡ l)
      → IsOk (tuned system.serial b wire r).0 × (ready (tuned system.serial b wire r).1.port ≡ l)
  tuned-ok b wire (ok u, m) l (o, e) = (tt, e)
  tuned-ok b wire (err x, m) l (o, e) = absurd o

  drain_port-ok :
      (wire : SerialWire M) (r : Result E (Unit {0}) × M) (l : Bytes)
      → IsOk r.0 × (ready r.1 ≡ l)
      → IsOk (drain_port system.serial wire r).0
        × (ready (drain_port system.serial wire r).1.port ≡ l)
  drain_port-ok wire (ok u, m) l (o, e) =
      let (zero_code, same) = served.drains m in rw zero_code (tt, same ∙ e)
  drain_port-ok wire (err x, m) l (o, e) = absurd o

  say-ready :
      (quiet : Bool) (line : Line) (w : CliWire M)
      → ready_at (unless_quiet quiet (say system line) w) ≡ ready_at w
  say-ready true line w = refl
  say-ready false line w = served.prints line w.wire.port

  cli_world-Serves : (quiet : Bool) → Serves (cli_world system quiet) ready_at answer
  unfolding cli_world
  cli_world-Serves quiet = record {
    writes = λ bs w e. served.writes bs w.wire.port e;
    reads = λ n w h.
        let (all, none_left) = served.reads n w.wire.port h in (polled-ok _ _ all, none_left);
    tunes = λ b w. tuned-ok b w.wire _ _ (served.tunes b w.wire.port);
    flushes = λ w. served.flushes w.wire.port;
    drains = λ w. drain_port-ok w.wire _ _ (served.flushes w.wire.port);
    sleeps = λ ms w. served.sleeps ms w.wire.port;
    logs_step = λ l bs w. say-ready quiet _ w;
    logs_reply = λ f w. say-ready quiet _ w;
    logs_note = λ n w. say-ready quiet _ w;
  }

  -- The command returns Ok.
  abbrev pub Works : Ended P E F M → Type 0
  Works (over (ok u) m) = Unit
  Works (over (err e) m) = ⊥
  Works (exits n m) = ⊥
  Works panics = ⊥
  Works Ended.unended = ⊥

  after_run-Works :
      (job : Job) (o : Outcome E (CliWire M)) → Succeeds o → Works (after_run system job o)
  after_run-Works job (done (ok u) s w) h = tt
  after_run-Works job (done (err x) s w) h = h
  after_run-Works job panicked h = h
  after_run-Works job out_of_fuel h = h

  module _ (args : Args) (job : Job) (steps : List Step)
      (answered : All (IsAnswered answer) steps) where
    run_plan-Works :
        (w : CliWire M)
        → ready_at w ≡ []
        → Works (run_plan system (fuel_for steps) args job (ok steps) w)
    unfolding run_plan
    run_plan-Works w quiet = after_run-Works job _ (
        run-Succeeds (cli_world system args.quiet) ready_at answer (cli_world-Serves args.quiet)
          steps 0 (drain_of args) _ answered
          (say-ready args.quiet (planned (length steps)) w ∙ quiet))

    module _ (frame : Frame) (info : TargetInfo)
        (parsed : parse_status frame args.handshake_baud ≡ ok info)
        (is_planned : plan info job (options_of args) ≡ ok steps) where
      with_word-Works :
          (words : List ℕ) (o : Ended P E F M)
          → (x : ℕ) × (xs : List ℕ) × (words ≡ x ∷ xs)
          → Works o
          → Works (with_word system words o)
      with_word-Works words o (x, xs, e) h = rw e h

      after_handshake-Works :
          (r : Met E (CliWire M))
          → Meets
              (cli_world system args.quiet)
              ready_at
              answer
              (cli_world-Serves args.quiet)
              stc89
              args.handshake_baud
              frame
              info
              r
          → Works (after_handshake system (fuel_for steps) args job r)
      unfolding after_handshake target_info
      after_handshake-Works unended h = h
      after_handshake-Works (met (err x) w) h = h
      after_handshake-Works (met (ok i) w) (same, quiet) =
          let reads = ((parse_status-eq-ok_iff frame args.handshake_baud info).0 parsed).1 in
          let words =
            some_words frame.payload info.freq_words
              (ap (λ (i : TargetInfo). i.freq_words) reads) in
          subst
            (λ (i : TargetInfo).
              Works (after_handshake system (fuel_for steps) args job (met (ok i) w)))
            (sym same)
            (with_word-Works info.freq_words _ words (
              rw is_planned (
                run_plan-Works (say system (target info args.handshake_baud) w)
                  (served.prints _ w.wire.port ∙ quiet))))

      announce-ready :
          (port : Text) (w : CliWire M) → ready_at (announce system args port w) ≡ ready_at w
      announce-ready port w = elim (Bool-cases args.quiet) [
        | inl e ↦ rw e refl
        | inr e ↦ rw e (served.prints _ _ ∙ served.prints _ w.wire.port)
      ]

      module _ (is_status : is_status_frame frame ≡ true) (short : length frame.payload ≤ 248)
          (answers : answer (0x7F ∷ []) ≡ encode frame) (pos : 0 < args.wait_s) where
        on_port-Works :
            (port : Text) (o : Result P (Unit {0}) × M)
            → IsOk o.0 × (ready o.1 ≡ [])
            → Works (
                on_port system
                  (fuel_for steps)
                  args
                  job
                  port
                  (as_opened system.serial args.handshake_baud o))
        unfolding on_port
        on_port-Works port (err e, m) (o, quiet) = absurd o
        on_port-Works port (ok u, m) (o, quiet) = after_handshake-Works _ (
            handshake-Meets (cli_world system args.quiet) ready_at answer
              (cli_world-Serves args.quiet) stc89 (options_of args) frame info 0
              (args.wait_s * 1_000_000_000) _ is_status parsed short answers (omega arith)
              (announce-ready port _ ∙ quiet))

        with_port-Works :
            (port : Text) (o : Option Text) (m : M)
            → o ≡ some port
            → ready m ≡ []
            → Works (with_port system (fuel_for steps) args job o m)
        unfolding with_port open_port
        with_port-Works port none m e quiet = cc
        with_port-Works port (some p) m e quiet =
            let (fine, same) = served.opens _ m in on_port-Works p _ (fine, same ∙ quiet)

-- A command works when the chip does. On a port where nothing fails, idle at first, with a chip that
-- answers the pulse with a status frame and each step of the plan made from it as the step expects
-- (`IsAnswered`), `cmd_session` returns Ok, whatever the job: the handshake takes one round, each
-- wait two polls, and the session a round for each step and one more. A port is given, the time to
-- wait is not 0, the status frame has at most 248 bytes of payload, and each answer is handed over
-- in one read.
pub cmd_session-Works :
    {P E F M : Type 0} (system : System P E F M) (ready : M → Bytes) (answer : Bytes → Bytes)
    (served : ServedBy system ready answer) (args : Args) (job : Job) (port : Text) (frame : Frame)
    (info : TargetInfo) (steps : List Step) (m : M)
    → args.port ≡ some port
    → 0 < args.wait_s
    → is_status_frame frame ≡ true
    → parse_status frame args.handshake_baud ≡ ok info
    → length frame.payload ≤ 248
    → answer (0x7F ∷ []) ≡ encode frame
    → plan info job (options_of args) ≡ ok steps
    → All (IsAnswered answer) steps
    → ready m ≡ []
    → Works system ready answer served (cmd_session system (fuel_for steps) args job m)
unfolding cmd_session
cmd_session-Works system ready answer served args job port frame info steps m given pos is_status
      parsed short answers is_planned answered quiet =
    with_port-Works system ready answer served args job steps answered frame info parsed is_planned
      is_status short answers pos port args.port m given quiet
