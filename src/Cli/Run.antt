-- ===== src/Cli/Run.antt =====
-- `cmd_session`, `cmd_ports`, `run` and `main` of src/bin/stcbsl.rs, built with the feature
-- `serial`. The loops of the driver are on fuel.
use stcbsl.Base.{
  ℕ, ◌*◌, ◌||◌, Option, none, some, List, [], ◌∷◌, Result, ok, err, length, Bool, if◌then◌else◌,
}
use stcbsl.Base.Text.{Text, codes, same_text}
use stcbsl.Protocol.{
  Job, identify, erase, flash, SessionOptions, default_options, TargetInfo, ProtocolError,
}
use stcbsl.Session.{Step, new}
use stcbsl.Stc89.{plan}
use stcbsl.Stc89.Status.{stc89}
use stcbsl.Driver.{DrainConfig, run as run_session, Outcome, done, panicked, out_of_fuel}
use stcbsl.Driver.Handshake.{Met, met, handshake}
use stcbsl.Transport.{Parity, no_parity, even, Opened, opened, not_opened, open_port, list}
use stcbsl.Cli.{Args, Halt, usage, bad_args, parse_args, is_text}
use stcbsl.Cli.Console.{
  usage_text, no_ports_found, port_name, waiting, power_cycle, target, planned, finished_job,
  bad_arg, no_command, no_port, unknown_command, needs_file, cannot_open, of_driver, of_plan,
  System, CliWire, unless_quiet, say, cli_world,
}
use stcbsl.Cli.Explain.{Ended, over, exits, panics, unended, load_image, or_stop, cmd_explain}

-- The bounds on the loops of `handshake`, of a wait for a reply, and of `driver::run`.
pub record Fuel : Type 0 where
  pub syncs : ℕ
  pub polls : ℕ
  pub rounds : ℕ

abbrev pub options_of : Args → SessionOptions
options_of args = record default_options {
  handshake_baud = args.handshake_baud;
  transfer_baud = args.transfer_baud;
}

abbrev pub parity_for : Bool → Parity
parity_for b = if b then even else no_parity

abbrev pub drain_of : Args → DrainConfig
drain_of args = record { mode = args.drain_mode; margin_ms = args.drain_margin_ms }

-- An argument in front of the others.
abbrev pub and_args : Text → Option (List Text) → Option (List Text)
and_args arg none = none
and_args arg (some args) = some (arg ∷ args)

-- `std::env::args()` behind the program's name, where `none` stands for an argument that is not
-- Unicode: collecting it panics.
unfoldable pub collect_args : List (Option Text) → Option (List Text)
collect_args [] = some []
collect_args (none ∷ rest) = none
collect_args (some arg ∷ rest) = and_args arg (collect_args rest)

module _ {P E F M : Type 0} (system : System P E F M) where
  -- `info.freq_words[0]`, before the rest.
  abbrev pub with_word : List ℕ → Ended P E F M → Ended P E F M
  with_word [] rest = panics
  with_word (f ∷ fs) rest = rest

  -- `report_target`.
  abbrev pub report_target :
      TargetInfo → ℕ → CliWire M → (CliWire M → Ended P E F M) → Ended P E F M
  report_target info baud w rest =
      with_word info.freq_words (rest (say system (target info baud) w))

  abbrev pub after_run : Job → Outcome E (CliWire M) → Ended P E F M
  after_run job (done (ok u) s w) = over (ok tt) (system.print (finished_job job) w.wire.port)
  after_run job (done (err e) s w) = over (err (of_driver e)) w.wire.port
  after_run job panicked = panics
  after_run job out_of_fuel = unended

  -- On the plan.
  unfoldable pub run_plan :
      Fuel → Args → Job → Result ProtocolError (List Step) → CliWire M → Ended P E F M
  unfolding cli_world
  run_plan fuel args job (ok steps) w = after_run job (
      run_session (cli_world system args.quiet) fuel.polls fuel.rounds (drain_of args) (new steps)
        (unless_quiet args.quiet (say system (planned (length steps))) w))
  run_plan fuel args job (err e) w = over (err (of_plan e)) w.wire.port

  unfoldable pub after_handshake : Fuel → Args → Job → Met E (CliWire M) → Ended P E F M
  unfolding run_plan
  after_handshake fuel args job (met (ok info) w) =
      report_target info args.handshake_baud w
        (run_plan fuel args job (plan info job (options_of args)))
  after_handshake fuel args job (met (err e) w) = over (err (of_driver e)) w.wire.port
  after_handshake fuel args job Met.unended = Ended.unended

  -- What is said before the handshake.
  abbrev pub announce : Args → Text → CliWire M → CliWire M
  announce args port w =
      unless_quiet args.quiet
        (λ w. say system power_cycle (say system (waiting args.wait_s args.handshake_baud port) w))
        w

  -- On the opened port.
  unfoldable pub on_port : Fuel → Args → Job → Text → Opened P M → Ended P E F M
  unfolding after_handshake cli_world
  on_port fuel args job port (opened wire) = after_handshake fuel args job (
      handshake fuel.syncs (cli_world system args.quiet) stc89 (options_of args)
        (args.wait_s * 1_000_000_000) (announce args port (record { wire = wire; noise = 0 })))
  on_port fuel args job port (not_opened e m) = over (err (cannot_open port e)) m

  -- `args.port.clone().ok_or(..)?`, before the rest.
  unfoldable pub with_port : Fuel → Args → Job → Option Text → M → Ended P E F M
  unfolding on_port
  with_port fuel args job none m = over (err no_port) m
  with_port fuel args job (some port) m =
      on_port fuel args job port
        (open_port system.serial port args.handshake_baud (parity_for args.parity_even) m)

  unfoldable pub cmd_session : Fuel → Args → Job → M → Ended P E F M
  unfolding with_port
  cmd_session fuel args job m = with_port fuel args job args.port m

  unfoldable pub print_ports : List Text → M → M
  print_ports [] m = m
  print_ports (p ∷ ps) m = print_ports ps (system.print (port_name p) m)

  abbrev pub show_ports : List Text → M → M
  show_ports [] m = system.print no_ports_found m
  show_ports (p ∷ ps) m = print_ports (p ∷ ps) m

  unfoldable pub cmd_ports : M → Ended P E F M
  unfolding print_ports
  cmd_ports m = let (ports, m') = list system.serial m in over (ok tt) (show_ports ports m')

  -- `write`, from the first positional argument on.
  unfoldable pub flash_file : Fuel → Args → List Text → M → Ended P E F M
  unfolding load_image cmd_session
  flash_file fuel args [] m = over (err (needs_file (codes "write"))) m
  flash_file fuel args (path ∷ paths) m =
      or_stop system (load_image system path args.quiet m)
        (λ image m'. cmd_session fuel args (flash image args.write_options) m')

  -- The match on the command.
  unfoldable pub dispatch : Fuel → Args → Text → M → Ended P E F M
  unfolding flash_file cmd_ports cmd_explain same_text
  dispatch fuel args cmd m =
      if is_text (codes "ports") cmd
      then cmd_ports m
      else if is_text (codes "explain") cmd
      then cmd_explain system args m
      else if is_text (codes "identify") cmd || is_text (codes "info") cmd
      then cmd_session fuel args identify m
      else if is_text (codes "erase") cmd
      then cmd_session fuel args (erase args.blocks) m
      else if is_text (codes "write") cmd || is_text (codes "flash") cmd
      then flash_file fuel args args.positional m
      else over (err (unknown_command cmd)) m

  abbrev pub with_command : Fuel → Args → Option Text → M → Ended P E F M
  with_command fuel args none m = over (err no_command) m
  with_command fuel args (some cmd) m = dispatch fuel args cmd m

  -- On what `parse_args` returned, or on its exit.
  abbrev pub with_args : Fuel → Result Halt Args → M → Ended P E F M
  with_args fuel (ok args) m = with_command fuel args args.command m
  with_args fuel (err usage) m = exits 0 (system.print usage_text m)
  with_args fuel (err (bad_args e)) m = over (err (bad_arg e)) m

  unfoldable pub run : Fuel → List Text → M → Ended P E F M
  unfolding parse_args dispatch
  run fuel [] m = over (ok tt) (system.print usage_text m)
  run fuel (arg ∷ argv) m = with_args fuel (parse_args (arg ∷ argv)) m

  -- A program that could not print has panicked there; of a panic, no state is kept.
  abbrev pub unless_refused : M → Ended P E F M → Ended P E F M
  unless_refused m o = if system.refused m then panics else o

  abbrev pub exit_of : Ended P E F M → Ended P E F M
  exit_of (over (ok u) m) = unless_refused m (exits 0 m)
  exit_of (over (err e) m) = unless_refused (system.complain e m) (exits 1 (system.complain e m))
  exit_of (exits n m) = unless_refused m (exits n m)
  exit_of panics = panics
  exit_of unended = unended

  abbrev pub with_argv : Fuel → Option (List Text) → M → Ended P E F M
  with_argv fuel none m = panics
  with_argv fuel (some argv) m = exit_of (run fuel argv m)

  unfoldable pub main : Fuel → List (Option Text) → M → Ended P E F M
  unfolding run collect_args
  main fuel args m = with_argv fuel (collect_args args) m
