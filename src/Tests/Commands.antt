-- ===== src/Tests/Commands.antt =====
-- src/bin/stcbsl.rs on a simulated machine: a file, and a port on which a chip answers.
use stcbsl.Base.{
  map, concat, ℕ, ◌+◌, ◌≤◌, ◌<◌, ◌≡◌, refl, sym, ap, inl, Bool, true, false, some, List, [], ◌∷◌,
  ◌++◌, length, replicate, take, length-take, Result, ok, err, arith,
}
use stcbsl.Base.Int.{negsuc}
use stcbsl.Base.Bytes.{Bytes}
use stcbsl.Base.Text.{Text, codes, decimal}
use stcbsl.Frame.{Frame, mcu, encode, decode}
use stcbsl.Protocol.{flash, TargetInfo, default_options}
use stcbsl.Session.{
  Step, Expect, reply_ack, next_action, on_reply, send_step, reply_at, check_reply, settle,
}
use stcbsl.Stc89.{plan}
use stcbsl.Ihex.{parse}
use stcbsl.Receiver.{next_frame}
use stcbsl.Stc89.{
  plan_work, job_blocks, link_test_steps, flash_steps, probe_step, commit_step, erase_step,
  run_step, link_test_step, options_step, write_steps, chunks,
}
use stcbsl.Stc89.Frames.{timer_reload, frequency_hz}
use stcbsl.Stc89.Status.{is_status_frame, parse_status, any_differs, read_words, target_info}
use stcbsl.Driver.Handshake.{handshake}
use stcbsl.Transport.{open_port}
use stcbsl.Driver.{run as run_session, compute_wire_time}
use stcbsl.Cli.{Args, parse_args, default_args}
use stcbsl.Cli.Console.{System}
use stcbsl.Cli.Explain.{Ended, over, exits, panics, unended, explain_rows}
use stcbsl.Cli.Explained.{rows_of, explain_rows-plan}
use stcbsl.Cli.Recorded.{Recorded}
use stcbsl.Cli.Run.{Fuel, run, main, cmd_session}
use stcbsl.Cli.ReadBack.{cmd_session-ReadAs}
use stcbsl.Stc89.ReadBack.{wire, ReadAs}
use stcbsl.Cli.Settings.{Setting, command_line, make_all, parse_args-command_line}
use stcbsl.Cli.Flashed.{FlashesFirst, run-flash}
use stcbsl.Cli.Exits.{ExitsWell, main-ExitsWell}
use stcbsl.Cli.Timed.{Timed}
use stcbsl.Tests.Plans.{info, planned, is_planned, image, status_frame}

abbrev settings : List Setting
settings =
    Setting.port (codes "/dev/ttyUSB0")
    ∷ Setting.baud 9600
    ∷ Setting.drain_margin (negsuc 4)
    ∷ Setting.drain_mode compute_wire_time
    ∷ Setting.operand (codes "write")
    ∷ Setting.parity_even true
    ∷ Setting.baud 115200
    ∷ Setting.operand (codes "a.hex")
    ∷ []

settings_read : parse_args (command_line settings) ≡ ok (make_all settings default_args)
unfolding parse_args decimal
settings_read = refl

parse_args-command_line_example :
    parse_args (command_line settings) ≡ ok (make_all settings default_args)
parse_args-command_line_example =
    parse_args-command_line settings
      (tt, (omega arith, (omega arith, (tt, (refl, (tt, (omega arith, (refl, tt))))))))

explain_rows-plan_example : explain_rows image ≡ rows_of planned
explain_rows-plan_example = explain_rows-plan info image true default_options is_planned

-- The machine: what has been sent, the answers to come, and the clock.
pub record Machine : Type 0 where
  pub sent : List Bytes
  pub replies : List Bytes
  pub time : ℕ

abbrev answer : ℕ → List Bytes → Machine → Result ℕ Bytes × Machine
answer n [] m = (err 110, record m { time = 20_000_000 + m.time })
answer n (r ∷ rs) m = (ok (take n r), record m { replies = rs; time = 20_000_000 + m.time })

abbrev one_file : Text
one_file = codes ":03000000010203F7"

abbrev machine : System ℕ ℕ ℕ Machine
machine = record {
  serial = record {
    open_native = λ s m. (ok tt, m);
    available_ports = λ m. (ok (codes "/dev/ttyUSB0" ∷ []), m);
    set_baud_rate = λ b m. (ok tt, m);
    write_all = λ bs m. (ok tt, record m { sent = m.sent ++ bs ∷ [] });
    read = λ n m. answer n m.replies m;
    flush = λ m. (ok tt, m);
    tcdrain = λ m. (0, m);
    last_os_error = λ m. 5;
    timed_out = λ e. true;
    other = λ e. e;
    now = λ m. m.time;
    sleep = λ ms m. m;
  };
  read_to_string = λ path m. (ok one_file, m);
  print = λ line m. m;
  complain = λ e m. m;
  refused = λ m. false;
}

abbrev reply_to : Step → Expect → List Bytes
reply_to step Expect.nothing = []
reply_to step Expect.echo = encode (mcu step.frame.cmd step.frame.payload) ∷ []
reply_to step (Expect.ack cmd payload) = encode (mcu cmd payload) ∷ []
reply_to step (Expect.ack_len cmd n) = encode (mcu cmd (replicate n 0x00)) ∷ []
reply_to step (Expect.block_ack v) = encode (mcu reply_ack (v ∷ [])) ∷ []

abbrev replies_to : List Step → List Bytes
replies_to [] = []
replies_to (s ∷ ss) = reply_to s s.expect ++ replies_to ss

abbrev waiting_chip : Machine
waiting_chip = record { sent = []; replies = encode status_frame ∷ replies_to planned; time = 0 }

abbrev argv : List Text
argv = codes "-p" ∷ codes "/dev/ttyUSB0" ∷ codes "write" ∷ codes "a.hex" ∷ []

abbrev fuel : Fuel
fuel = record { syncs = 3; polls = 4; rounds = 15 }

abbrev the_end : Ended ℕ ℕ ℕ Machine
the_end = run machine fuel argv waiting_chip

abbrev state_of : Ended ℕ ℕ ℕ Machine → Machine
state_of (over r m) = m
state_of (exits n m) = m
state_of _ = waiting_chip

abbrev left : Machine
left = state_of the_end

abbrev is_ok : Ended ℕ ℕ ℕ Machine → Bool
is_ok (over (ok u) m) = true
is_ok _ = false

is_ok-over : (o : Ended ℕ ℕ ℕ Machine) → is_ok o ≡ true → o ≡ over (ok tt) (state_of o)
is_ok-over (over (ok u) m) e = refl
is_ok-over (over (err x) m) e = cc
is_ok-over (exits n m) e = cc
is_ok-over panics e = cc
is_ok-over unended e = cc

ends_ok : is_ok the_end ≡ true
unfolding run parse open_port handshake next_frame encode decode is_status_frame parse_status
    any_differs read_words frequency_hz target_info plan plan_work timer_reload job_blocks
    run_session next_action send_step on_reply reply_at settle check_reply link_test_steps
    flash_steps probe_step commit_step erase_step run_step link_test_step options_step write_steps
    chunks
ends_ok = refl

abbrev sent : Machine → List Bytes
sent m = m.sent

answer-sent : (n : ℕ) (rs : List Bytes) (m : Machine) → (answer n rs m).1.sent ≡ m.sent
answer-sent n [] m = refl
answer-sent n (r ∷ rs) m = refl

machine-Recorded : Recorded machine sent
machine-Recorded = record {
  writes = λ bs m m' u e. ap (λ (p : Result ℕ (Unit {0}) × Machine). p.1.sent) (sym e);
  opens = λ s m. refl;
  reads = λ n m. answer-sent n m.replies m;
  tunes = λ b m. refl;
  flushes = λ m. refl;
  drains = λ m. refl;
  sleeps = λ ms m. refl;
  reads_file = λ path m. refl;
  prints = λ line m. refl;
}

answer-later : (n : ℕ) (rs : List Bytes) (m : Machine) → m.time < (answer n rs m).1.time
answer-later n [] m = omega arith
answer-later n (r ∷ rs) m = omega arith

answer-fills :
    (n : ℕ) (rs : List Bytes) (m : Machine) (bs : Bytes) → (answer n rs m).0 ≡ ok bs → length bs ≤ n
answer-fills n [] m bs e = cc
answer-fills n (r ∷ rs) m bs e =
    let same : take n r ≡ bs = cc in rw (← same) (omega (arith, length-take n r))

machine-Timed : Timed machine
machine-Timed = record {
  reads = λ n m. answer-later n m.replies m;
  fills = λ n m bs e. answer-fills n m.replies m bs e;
  writes = λ bs m. omega arith;
  flushes = λ m. omega arith;
  prints = λ line m. omega arith;
}

abbrev args : Args
args = record default_args {
  port = some (codes "/dev/ttyUSB0");
  command = some (codes "write");
  positional = codes "a.hex" ∷ [];
}

args_read : parse_args argv ≡ ok args
unfolding parse_args
args_read = refl

run-flash_example : FlashesFirst machine sent machine-Recorded args waiting_chip (sent left)
run-flash_example =
    run-flash machine sent machine-Recorded fuel argv args (codes "write") waiting_chip left
      (inl refl) args_read refl (is_ok-over the_end ends_ok)

main-ExitsWell_example :
    (fuel : Fuel) × ExitsWell machine machine-Timed (main machine fuel (map some argv) waiting_chip)
main-ExitsWell_example = main-ExitsWell machine machine-Timed (λ m. refl) argv waiting_chip

-- The session alone, of the same image.
abbrev session_end : Ended ℕ ℕ ℕ Machine
session_end = cmd_session machine fuel args (flash image true) waiting_chip

session_ok : is_ok session_end ≡ true
unfolding cmd_session open_port handshake next_frame encode decode is_status_frame parse_status
    any_differs read_words frequency_hz target_info plan plan_work timer_reload job_blocks
    run_session next_action send_step on_reply reply_at settle check_reply link_test_steps
    flash_steps probe_step commit_step erase_step run_step link_test_step options_step write_steps
    chunks
session_ok = refl

cmd_session-ReadAs_example :
    (frame : Frame) × (info : TargetInfo) × (steps : List Step) × (n : ℕ) × (parse_status frame 2400
      ≡ ok info)
    × (plan info (flash image true) default_options ≡ ok steps)
    × ((state_of session_end).sent ≡ wire n steps)
    × ((pieces : List Bytes) → concat pieces ≡ concat (wire n steps) → ReadAs n steps pieces)
cmd_session-ReadAs_example =
    cmd_session-ReadAs machine sent machine-Recorded args fuel (flash image true) waiting_chip
      (state_of session_end) (is_ok-over session_end session_ok)
