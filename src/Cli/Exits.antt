-- ===== src/Cli/Exits.antt =====
-- `main` of src/bin/stcbsl.rs ends, on a serial port whose reads take time.
use stcbsl.Base.{
  map, ℕ, suc, ◌*◌, ◌≤◌, ◌≡◌, refl, ap, ◌||◌, Bool, true, false, Option, none, some, List, [], ◌∷◌,
  Result, ok, err, length, if◌then◌else◌, arith,
}
use stcbsl.Base.Text.{Text, codes}
use stcbsl.Ihex.{Image, HexError, parse}
use stcbsl.Protocol.{Job, identify, erase, flash, TargetInfo, ProtocolError}
use stcbsl.Session.{Step}
use stcbsl.Stc89.{plan}
use stcbsl.Stc89.Status.{stc89, target_info}
use stcbsl.Stc89.Status.Laws.{parse_status-eq-ok_iff}
use stcbsl.Driver.{Outcome, done, panicked, out_of_fuel}
use stcbsl.Driver.Fuel.{Returns, run-Returns}
use stcbsl.Driver.Handshake.{Met, met, unended, handshake}
use stcbsl.Driver.Handshake.Sound.{handshake-Sound}
use stcbsl.Driver.Handshake.Ends.{IsEnded, handshake-IsEnded}
use stcbsl.Transport.{Opened, opened, not_opened}
use stcbsl.Cli.{Args, Halt, usage, bad_args, parse_args, is_text}
use stcbsl.Cli.Console.{target, System, CliWire, say, unless_quiet, planned, cli_world}
use stcbsl.Cli.Explain.{
  Ended, over, exits, panics, explain_file, explain_image, load_image, on_text, on_parsed, or_stop,
  cmd_explain,
}
use stcbsl.Cli.Run.{
  Fuel, options_of, drain_of, with_word, after_run, run_plan, after_handshake, announce, on_port,
  with_port, cmd_session, cmd_ports, flash_file, dispatch, with_command, with_args, run, exit_of,
  collect_args, main,
}
use stcbsl.Cli.Timed.{Timed, some_words, timely}

module _ {P E F M : Type 0} (system : System P E F M) (timed : Timed system) where
  -- A command that comes back to `main`, or has ended the program itself, with the code 0 or 1.
  abbrev pub Exited : Ended P E F M → Type 0
  Exited (over r m) = Unit
  Exited (exits n m) = n ≤ 1
  Exited panics = ⊥
  Exited Ended.unended = ⊥

  abbrev Ends : (Fuel → Ended P E F M) → Type 0
  Ends f = (fuel : Fuel) × Exited (f fuel)

  abbrev no_fuel : Fuel
  no_fuel = record { syncs = 0; polls = 0; rounds = 0 }

  if-Ends :
      (b : Bool) (f g : Fuel → Ended P E F M)
      → Ends f
      → Ends g
      → Ends (λ fuel. if b then f fuel else g fuel)
  if-Ends true f g h k = h
  if-Ends false f g h k = k

  module _ (args : Args) (job : Job) where
    after_run-Exited :
        (steps : List Step) (o : Outcome E (CliWire M))
        → Returns (cli_world system args.quiet) (timely system timed args.quiet) steps o
        → Exited (after_run system job o)
    after_run-Exited steps (done (ok u) s w) h = tt
    after_run-Exited steps (done (err x) s w) h = tt
    after_run-Exited steps panicked h = h
    after_run-Exited steps out_of_fuel h = h

    -- The rest of a session, from the plan on.
    abbrev Rest : ℕ → (Fuel → Ended P E F M) → Type 0
    Rest syncs f =
        (polls : ℕ) × (rounds : ℕ) × Exited
          (f (record { syncs = syncs; polls = polls; rounds = rounds }))

    run_plan-Ends :
        (syncs : ℕ) (r : Result ProtocolError (List Step)) (w : CliWire M)
        → Rest syncs (λ fuel. run_plan system fuel args job r w)
    unfolding run_plan
    run_plan-Ends syncs (err e) w = (0, 0, tt)
    run_plan-Ends syncs (ok steps) w =
        let start = unless_quiet args.quiet (say system (planned (length steps))) w in
        let (enough, h) =
          run-Returns (cli_world system args.quiet) (timely system timed args.quiet) steps
            (drain_of args) start in
        (enough, suc (length steps), after_run-Exited steps _ (h enough (omega arith)))

    with_word-Rest :
        (syncs : ℕ) (words : List ℕ) (f : Fuel → Ended P E F M)
        → (x : ℕ) × (xs : List ℕ) × (words ≡ x ∷ xs)
        → Rest syncs f
        → Rest syncs (λ fuel. with_word system words (f fuel))
    with_word-Rest syncs words f (x, xs, e) h = rw e h

    after_handshake-Ends :
        (syncs : ℕ) (w0 : CliWire M) (r : Met E (CliWire M))
        → handshake syncs
            (cli_world system args.quiet)
            stc89
            (options_of args)
            (args.wait_s * 1_000_000_000)
            w0
          ≡ r
        → IsEnded
            (cli_world system args.quiet)
            (timely system timed args.quiet)
            stc89
            args.handshake_baud
            r
        → Rest syncs (λ fuel. after_handshake system fuel args job r)
    unfolding after_handshake target_info
    after_handshake-Ends syncs w0 unended e h = absurd h
    after_handshake-Ends syncs w0 (met (err x) w) e h = (0, 0, tt)
    after_handshake-Ends syncs w0 (met (ok info) w) e h =
        let (frame, is_status, seen) =
          handshake-Sound (cli_world system args.quiet) stc89 syncs (options_of args)
            (args.wait_s * 1_000_000_000) w0 w info e in
        let same = ((parse_status-eq-ok_iff frame args.handshake_baud info).0 seen).1 in
        with_word-Rest syncs info.freq_words
          (λ fuel.
            run_plan system fuel args job (plan info job (options_of args))
              (say system (target info args.handshake_baud) w))
          (some_words frame.payload info.freq_words (ap (λ (i : TargetInfo). i.freq_words) same))
          (run_plan-Ends syncs (plan info job (options_of args))
            (say system (target info args.handshake_baud) w))

    on_port-Ends :
        (port : Text) (o : Opened P M) → Ends (λ fuel. on_port system fuel args job port o)
    unfolding on_port
    on_port-Ends port (not_opened e m) = (no_fuel, tt)
    on_port-Ends port (opened wire) =
        let wait = args.wait_s * 1_000_000_000 in
        let w0 = announce system args port (record { wire = wire; noise = 0 }) in
        let (polls, rounds, h) = after_handshake-Ends (suc wait) w0 _ refl (
          handshake-IsEnded (cli_world system args.quiet) (timely system timed args.quiet) stc89
            (suc wait) (options_of args) wait w0 (omega arith)) in
        (record { syncs = suc wait; polls = polls; rounds = rounds }, h)

    with_port-Ends : (o : Option Text) (m : M) → Ends (λ fuel. with_port system fuel args job o m)
    unfolding with_port
    with_port-Ends none m = (no_fuel, tt)
    with_port-Ends (some port) m = on_port-Ends port _

    cmd_session-Ends : (m : M) → Ends (λ fuel. cmd_session system fuel args job m)
    unfolding cmd_session
    cmd_session-Ends m = with_port-Ends args.port m

  module _ (args : Args) where
    explain_file-Exited :
        (paths : List Text) (m : M) → Exited (explain_file system args.quiet paths m)
    unfolding load_image
    explain_file-Exited [] m = tt
    explain_file-Exited (path ∷ paths) m = on_text-Exited (system.read_to_string path m)
      where
        on_parsed-Exited :
            (r : Result HexError Image) (m : M)
            → Exited (
                or_stop system
                  (on_parsed system args.quiet path r m)
                  (λ image m'. over (ok tt) (explain_image system image m')))
        on_parsed-Exited (ok image) m = tt
        on_parsed-Exited (err e) m = tt

        on_text-Exited :
            (r : Result F Text × M)
            → Exited (
                or_stop system
                  (on_text system args.quiet path r)
                  (λ image m'. over (ok tt) (explain_image system image m')))
        on_text-Exited (ok text, m) = on_parsed-Exited (parse text) m
        on_text-Exited (err e, m) = tt

    flash_parsed-Ends :
        (path : Text) (r : Result HexError Image) (m : M)
        → Ends (λ fuel.
          or_stop system
            (on_parsed system args.quiet path r m)
            (λ image m'. cmd_session system fuel args (flash image args.write_options) m'))
    flash_parsed-Ends path (ok image) m =
        cmd_session-Ends args (flash image.bytes args.write_options) _
    flash_parsed-Ends path (err e) m = (no_fuel, tt)

    flash_text-Ends :
        (path : Text) (r : Result F Text × M)
        → Ends (λ fuel.
          or_stop system
            (on_text system args.quiet path r)
            (λ image m'. cmd_session system fuel args (flash image args.write_options) m'))
    flash_text-Ends path (ok text, m) = flash_parsed-Ends path (parse text) m
    flash_text-Ends path (err e, m) = (no_fuel, tt)

    flash_file-Ends :
        (paths : List Text) (m : M) → Ends (λ fuel. flash_file system fuel args paths m)
    unfolding flash_file load_image
    flash_file-Ends [] m = (no_fuel, tt)
    flash_file-Ends (path ∷ paths) m = flash_text-Ends path (system.read_to_string path m)

    cmd_ports-Exited : (m : M) → Exited (cmd_ports system m)
    unfolding cmd_ports
    cmd_ports-Exited m = tt

    dispatch-Ends : (cmd : Text) (m : M) → Ends (λ fuel. dispatch system fuel args cmd m)
    unfolding dispatch cmd_explain
    dispatch-Ends cmd m =
        if-Ends (is_text (codes "ports") cmd) _ _ (no_fuel, cmd_ports-Exited m)
          (if-Ends (is_text (codes "explain") cmd) _ _
            (no_fuel, explain_file-Exited args.positional m)
            (if-Ends (is_text (codes "identify") cmd || is_text (codes "info") cmd) _ _
              (cmd_session-Ends args identify m)
              (if-Ends (is_text (codes "erase") cmd) _ _
                (cmd_session-Ends args (erase args.blocks) m)
                (if-Ends (is_text (codes "write") cmd || is_text (codes "flash") cmd) _ _
                  (flash_file-Ends args.positional m) (no_fuel, tt)))))

    with_command-Ends : (o : Option Text) (m : M) → Ends (λ fuel. with_command system fuel args o m)
    with_command-Ends none m = (no_fuel, tt)
    with_command-Ends (some cmd) m = dispatch-Ends cmd m

  with_args-Ends : (r : Result Halt Args) (m : M) → Ends (λ fuel. with_args system fuel r m)
  with_args-Ends (ok args) m = with_command-Ends args args.command m
  with_args-Ends (err usage) m = (no_fuel, omega arith)
  with_args-Ends (err (bad_args e)) m = (no_fuel, tt)

  run-Ends : (argv : List Text) (m : M) → Ends (λ fuel. run system fuel argv m)
  unfolding run
  run-Ends [] m = (no_fuel, tt)
  run-Ends (arg ∷ argv) m = with_args-Ends (parse_args (arg ∷ argv)) m

  -- The program has ended with the exit code 0 or 1.
  abbrev pub ExitsWell : Ended P E F M → Type 0
  ExitsWell (over r m) = ⊥
  ExitsWell (exits n m) = n ≤ 1
  ExitsWell panics = ⊥
  ExitsWell Ended.unended = ⊥

  module _ (taken : (m : M) → system.refused m ≡ false) where
    exit_of-ExitsWell : (o : Ended P E F M) → Exited o → ExitsWell (exit_of system o)
    exit_of-ExitsWell (over (ok u) m) h = rw (taken m) (omega arith)
    exit_of-ExitsWell (over (err e) m) h = rw (taken (system.complain e m)) (omega arith)
    exit_of-ExitsWell (exits n m) h = rw (taken m) h
    exit_of-ExitsWell panics h = h
    exit_of-ExitsWell Ended.unended h = h

collect_args-some : (argv : List Text) → collect_args (map some argv) ≡ some argv
unfolding collect_args
collect_args-some [] = refl
collect_args-some (arg ∷ argv) = rw (collect_args-some argv) refl

-- The program ends, and does not panic, whatever the file and the chip are, and whatever its
-- arguments are, as long as they are Unicode and the outputs take all that it prints: with some
-- bounds on the loops of the model, `main` ends with the exit code 0 or 1. A read of the port takes
-- time and fills no more than its buffer, and the clock does not go back.
pub main-ExitsWell :
    {P E F M : Type 0} (system : System P E F M) (timed : Timed system)
    (taken : (m : M) → system.refused m ≡ false) (argv : List Text) (m : M)
    → (fuel : Fuel) × ExitsWell system timed (main system fuel (map some argv) m)
unfolding main
main-ExitsWell system timed taken argv m =
    let (fuel, h) = run-Ends system timed argv m in
    (
      fuel,
      rw (collect_args-some argv) (exit_of-ExitsWell system timed taken (run system fuel argv m) h),
    )
