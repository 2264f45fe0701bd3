-- ===== src/Tests/Chips.antt =====
-- `run` of src/driver.rs and `cmd_session` of src/bin/stcbsl.rs against a simulated chip.
use stcbsl.Base.{
  ℕ, ◌+◌, ◌≡◌, refl, true, false, some, ◌||◌, replicate, List, [], ◌∷◌, ◌==◌, if◌then◌else◌, take,
  drop, take_all, drop_all, ap, Result, ok, err, arith, All,
}
use stcbsl.Base.Bytes.{Bytes}
use stcbsl.Frame.{Frame, FrameError, mcu, encode, decode}
use stcbsl.Session.{Step, new}
use stcbsl.Base.Text.{codes}
use stcbsl.Protocol.{erase}
use stcbsl.Stc89.{
  plan, plan_work, job_blocks, probe_step, commit_step, link_test_step, link_test_steps,
  flash_steps, erase_step, run_step,
}
use stcbsl.Stc89.Frames.{block_ack, timer_reload, frequency_hz}
use stcbsl.Stc89.Plan.{work_steps}
use stcbsl.Stc89.Status.{is_status_frame, parse_status, any_differs, read_words, target_info}
use stcbsl.Cli.{Args, default_args}
use stcbsl.Cli.Console.{System}
use stcbsl.Cli.Run.{options_of, cmd_session}
use stcbsl.Cli.Served.{ServedBy, Works, fuel_for, cmd_session-Works}
use stcbsl.Tests.Plans.{info, status_frame}
use stcbsl.Driver.{World, default_drain, run}
use stcbsl.Driver.Served.{run-Succeeds}
use stcbsl.Driver.Serves.{Serves, IsAnswered, Succeeds}
use stcbsl.Tests.Sessions.{two_steps, block, release}

-- The bytes on the way to the host, and the clock.
pub record Chip : Type 0 where
  pub ready : Bytes
  pub time : ℕ

abbrev answer_to : Result FrameError Frame → Bytes
answer_to (ok f) = if f.cmd == 0x00 then encode (mcu 0x80 (block_ack f.payload ∷ [])) else []
answer_to (err e) = []

abbrev answer : Bytes → Bytes
answer bs = answer_to (decode bs)

abbrev chip : World ℕ Chip
chip = record {
  write_all = λ bs w. (ok tt, record w { ready = answer bs });
  read = λ n w. (ok (take n w.ready), record { ready = drop n w.ready; time = 1000 + w.time });
  tune = λ b w. (ok tt, w);
  flush = λ w. (ok tt, w);
  drain = λ w. (ok tt, w);
  now = λ w. w.time;
  sleep = λ ms w. w;
  log_step = λ l bs w. w;
  log_reply = λ f w. w;
  log_note = λ n w. w;
  log_discarded = λ bs w. w;
}

abbrev ready : Chip → Bytes
ready w = w.ready

chip-Serves : Serves chip ready answer
chip-Serves = record {
  writes = λ bs w e. (tt, refl);
  reads = λ n w h. (ap ok (take_all n w.ready h), drop_all n w.ready h);
  tunes = λ b w. (tt, refl);
  flushes = λ w. (tt, refl);
  drains = λ w. (tt, refl);
  sleeps = λ ms w. refl;
  logs_step = λ l bs w. refl;
  logs_reply = λ f w. refl;
  logs_note = λ n w. refl;
}

block-IsAnswered : IsAnswered answer block
unfolding encode decode block_ack
block-IsAnswered = record {
  answers = λ e. (mcu 0x80 (0x03 ∷ []), refl, omega arith, (refl, (refl, refl)), omega arith);
  silent = λ e. cc;
}

release-IsAnswered : IsAnswered answer release
unfolding encode decode
release-IsAnswered = record { answers = λ e. cc; silent = λ e. refl }

abbrev at_rest : Chip
at_rest = record { ready = []; time = 0 }

run-Succeeds_example : Succeeds (run chip 2 3 default_drain (new two_steps) at_rest)
run-Succeeds_example =
    run-Succeeds chip ready answer chip-Serves two_steps 0 default_drain at_rest
      (block-IsAnswered, (release-IsAnswered, tt)) refl

-- A chip that also answers the pulse, echoes the baud rates, and knows link tests and erasing.
abbrev reply_of : Frame → Bytes
reply_of f =
    if f.cmd == 0x8F || f.cmd == 0x8E
    then encode (mcu f.cmd f.payload)
    else if f.cmd == 0x80
    then encode (mcu 0x80 [])
    else if f.cmd == 0x84
    then encode (mcu 0x80 (replicate 7 0x00))
    else []

abbrev reply_to : Result FrameError Frame → Bytes
reply_to (ok f) = reply_of f
reply_to (err e) = encode status_frame

abbrev replies : Bytes → Bytes
replies bs = reply_to (decode bs)

abbrev board : System ℕ ℕ ℕ Chip
board = record {
  serial = record {
    open_native = λ s m. (ok tt, m);
    available_ports = λ m. (ok [], m);
    set_baud_rate = λ b m. (ok tt, m);
    write_all = λ bs m. (ok tt, record m { ready = replies bs });
    read = λ n m. (ok (take n m.ready), record { ready = drop n m.ready; time = 1000 + m.time });
    flush = λ m. (ok tt, m);
    tcdrain = λ m. (0, m);
    last_os_error = λ m. 5;
    timed_out = λ e. true;
    other = λ e. e;
    now = λ m. m.time;
    sleep = λ ms m. m;
  };
  read_to_string = λ path m. (err 2, m);
  print = λ line m. m;
  complain = λ e m. m;
  refused = λ m. false;
}

board-ServedBy : ServedBy board ready replies
board-ServedBy = record {
  opens = λ s m. (tt, refl);
  writes = λ bs m e. (tt, refl);
  reads = λ n m h. (ap ok (take_all n m.ready h), drop_all n m.ready h);
  tunes = λ b m. (tt, refl);
  flushes = λ m. (tt, refl);
  drains = λ m. (refl, refl);
  sleeps = λ ms m. refl;
  prints = λ line m. refl;
}

abbrev args : Args
args = record default_args { port = some (codes "/dev/ttyUSB0") }

abbrev erasing : List Step
erasing = work_steps info (erase (some 2)) (options_of args) 0xFD 2

probe-IsAnswered : IsAnswered replies (probe_step 0xFD (options_of args))
unfolding probe_step encode decode
probe-IsAnswered = record {
  answers = λ e. (
    mcu 0x8F (probe_step 0xFD (options_of args)).frame.payload,
    refl,
    omega arith,
    (refl, (refl, refl, refl)),
    omega arith,
  );
  silent = λ e. cc;
}

commit-IsAnswered : IsAnswered replies (commit_step 0xFD (options_of args))
unfolding commit_step encode decode
commit-IsAnswered = record {
  answers = λ e. (
    mcu 0x8E (commit_step 0xFD (options_of args)).frame.payload,
    refl,
    omega arith,
    (refl, (refl, refl, refl)),
    omega arith,
  );
  silent = λ e. cc;
}

link_test-IsAnswered : (i : ℕ) → IsAnswered replies (link_test_step info (options_of args) i)
unfolding link_test_step encode decode target_info
link_test-IsAnswered i = record {
  answers = λ e. (mcu 0x80 [], refl, omega arith, (refl, (refl, refl)), omega arith);
  silent = λ e. cc;
}

erase-IsAnswered : IsAnswered replies (erase_step 2 (options_of args))
unfolding erase_step encode decode
erase-IsAnswered = record {
  answers =
      λ e. (mcu 0x80 (replicate 7 0x00), refl, omega arith, (refl, (refl, refl)), omega arith);
  silent = λ e. cc;
}

run-IsAnswered : IsAnswered replies (run_step (options_of args))
unfolding run_step encode decode
run-IsAnswered = record { answers = λ e. cc; silent = λ e. refl }

erasing-IsAnswered : All (IsAnswered replies) erasing
unfolding link_test_steps flash_steps
erasing-IsAnswered = (
  probe-IsAnswered,
  (
    commit-IsAnswered,
    (
      link_test-IsAnswered 0,
      (
        link_test-IsAnswered 1,
        (
          link_test-IsAnswered 2,
          (link_test-IsAnswered 3, (erase-IsAnswered, (run-IsAnswered, tt))),
        ),
      ),
    ),
  ),
)

status_parsed : parse_status status_frame 2400 ≡ ok info
unfolding parse_status any_differs read_words frequency_hz
status_parsed = refl

is_status : is_status_frame status_frame ≡ true
unfolding is_status_frame
is_status = refl

erasing_planned : plan info (erase (some 2)) (options_of args) ≡ ok erasing
unfolding plan plan_work timer_reload job_blocks frequency_hz target_info
erasing_planned = refl

pulse_answered : replies (0x7F ∷ []) ≡ encode status_frame
unfolding decode
pulse_answered = refl

cmd_session-Works_example :
    Works board ready replies board-ServedBy
      (cmd_session board (fuel_for erasing) args (erase (some 2)) at_rest)
cmd_session-Works_example =
    cmd_session-Works board ready replies board-ServedBy args (erase (some 2))
      (codes "/dev/ttyUSB0") status_frame info erasing at_rest refl (omega arith) is_status
      status_parsed (omega arith) pulse_answered erasing_planned erasing-IsAnswered refl
