-- ===== src/Cli/Console.antt =====
-- What the commands of src/bin/stcbsl.rs print, kept as what the lines are formatted from, and
-- `CliLog`, which with `SerialWire` makes the world of the driver.
use stcbsl.Base.{ℕ, ◌+◌, Bool, Result, length, if◌then◌else◌, ltb, take}
use stcbsl.Base.Bytes.{Bytes}
use stcbsl.Base.Text.{Text}
use stcbsl.Frame.Hex.{hex}
use stcbsl.Protocol.{Job, TargetInfo, ProtocolError}
use stcbsl.Ihex.{HexError}
use stcbsl.Driver.{World, Note, Error}
use stcbsl.Transport.{Serial, SerialWire, write_all, read, tune, flush, drain}
use stcbsl.Cli.{ArgError}

-- The lines on the standard output. Of `label` and `bytes`, `sends` shows the bytes in full and
-- `sends_long` the first of them and their number.
pub data Line : Type 0 where
  usage_text : Line
  image_size : Text → ℕ → Line
  lowest_note gap_note : ℕ → Line
  erase_rule write_count : ℕ → Line
  block_row : ℕ → ℕ → Bool → Line
  explain_end no_ports_found : Line
  port_name : Text → Line
  waiting : ℕ → ℕ → Text → Line
  power_cycle : Line
  target : TargetInfo → ℕ → Line
  planned : ℕ → Line
  finished_job : Job → Line
  sends : Text → Text → Line
  sends_long : Text → Text → ℕ → Line
  replied : ℕ → ℕ → Line
  noted : Note → Line
  discards : ℕ → ℕ → Line

-- The errors of the commands, with those of the port (`P`), of input and output (`E`) and of files
-- (`F`).
pub data CliError (P E F : Type 0) : Type 0 where
  bad_arg : ArgError → CliError P E F
  no_command no_port : CliError P E F
  unknown_command needs_file : Text → CliError P E F
  unreadable : Text → F → CliError P E F
  bad_hex : Text → HexError → CliError P E F
  cannot_open : Text → P → CliError P E F
  of_driver : Error E → CliError P E F
  of_plan : ProtocolError → CliError P E F

-- What is outside of the program: the serial port, `std::fs::read_to_string`, and the two outputs.
-- `println!` and `eprintln!` panic when the output cannot be written; `refused` tells of a state
-- whether that has happened by then, and `main` asks it at its end: up to there the model goes on, so
-- that what it says of a command is said of outputs that take every line.
pub record System (P E F M : Type 0) : Type 0 where
  pub serial : Serial P E M
  pub read_to_string : Text → M → Result F Text × M
  pub print : Line → M → M
  pub complain : CliError P E F → M → M
  pub refused : M → Bool

-- A wire, and the field of `CliLog` that changes.
pub record CliWire (M : Type 0) : Type 0 where
  pub wire : SerialWire M
  pub noise : ℕ

abbrev pub on_wire : {M A : Type 0} → CliWire M → A × SerialWire M → A × CliWire M
on_wire w (a, wire) = (a, record w { wire = wire })

abbrev pub on_machine : {M : Type 0} → (M → M) → CliWire M → CliWire M
on_machine f w = record w { wire = record w.wire { port = f w.wire.port } }

-- Text that is printed unless `--quiet` is given.
abbrev pub unless_quiet : {A : Type 0} → Bool → (A → A) → A → A
unless_quiet quiet f a = if quiet then a else f a

module _ {P E F M : Type 0} (system : System P E F M) where
  abbrev pub say : Line → CliWire M → CliWire M
  say line w = on_machine (system.print line) w

  -- `CliLog::step`.
  abbrev pub step_line : Text → Bytes → Line
  step_line label bytes =
      if ltb 24 (length bytes)
      then sends_long label (hex (take 16 bytes)) (length bytes)
      else sends label (hex bytes)

  -- `CliLog::discarded`.
  abbrev pub count_discarded : Bool → Bytes → CliWire M → CliWire M
  count_discarded quiet bytes w =
      let total = w.noise + length bytes in
      unless_quiet quiet (say (discards (length bytes) total)) (record w { noise = total })

  unfoldable pub cli_world : Bool → World E (CliWire M)
  cli_world quiet = record {
    write_all = λ bytes w. on_wire w (write_all system.serial bytes w.wire);
    read = λ n w. on_wire w (read system.serial n w.wire);
    tune = λ b w. on_wire w (tune system.serial b w.wire);
    flush = λ w. on_wire w (flush system.serial w.wire);
    drain = λ w. on_wire w (drain system.serial w.wire);
    now = λ w. system.serial.now w.wire.port;
    sleep = λ ms w. on_machine (system.serial.sleep ms) w;
    log_step = λ label bytes w. unless_quiet quiet (say (step_line label bytes)) w;
    log_reply = λ f w. unless_quiet quiet (say (replied f.cmd (length f.payload))) w;
    log_note = λ note w. unless_quiet quiet (say (noted note)) w;
    log_discarded = λ bytes w. count_discarded quiet bytes w;
  }
