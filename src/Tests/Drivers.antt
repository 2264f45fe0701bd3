-- ===== src/Tests/Drivers.antt =====
-- src/driver.rs on a scripted wire, which answers each read with the next of its replies.
use stcbsl.Base.{
  ℕ, ◌+◌, ◌≤◌, ◌<◌, ◌≡◌, refl, sym, ap, map, List, [], ◌∷◌, ◌++◌, length, take, length-take, Result,
  ok, err, arith,
}
use stcbsl.Base.Bytes.{Bytes}
use stcbsl.Frame.{host, mcu, encode, decode}
use stcbsl.Session.{
  Step, new, next_action, on_reply, send_step, reply_at, check_reply, settle,
  flash_is_indeterminate,
}
use stcbsl.Receiver.{next_frame}
use stcbsl.Driver.{World, default_drain, done, indeterminate_flash, timeout, run}
use stcbsl.Driver.Traced.{Traced}
use stcbsl.Driver.Honest.{Honest}
use stcbsl.Driver.Run.{run-Honest}
use stcbsl.Driver.Wait.{IsTimely}
use stcbsl.Driver.Fuel.{Returns, run-Returns}
use stcbsl.Tests.Sessions.{two_steps, all_done, block_sent}

pub record Bench : Type 0 where
  pub sent : List Bytes
  pub replies : List Bytes
  pub time : ℕ

abbrev read_reply : ℕ → List Bytes → Bench → Result ℕ Bytes × Bench
read_reply n [] w = (ok [], record w { time = 100_000_000 + w.time })
read_reply n (r ∷ rs) w = (ok (take n r), record w { replies = rs; time = 100_000_000 + w.time })

abbrev pub bench : World ℕ Bench
bench = record {
  write_all = λ bs w. (ok tt, record w { sent = w.sent ++ bs ∷ [] });
  read = λ n w. read_reply n w.replies w;
  tune = λ b w. (ok tt, w);
  flush = λ w. (ok tt, w);
  drain = λ w. (ok tt, w);
  now = λ w. w.time;
  sleep = λ ms w. record w { time = w.time };
  log_step = λ l bs w. w;
  log_reply = λ f w. w;
  log_note = λ n w. w;
  log_discarded = λ bs w. w;
}

abbrev pub written : Bench → List Bytes
written w = w.sent

read_reply-sent : (n : ℕ) (rs : List Bytes) (w : Bench) → (read_reply n rs w).1.sent ≡ w.sent
read_reply-sent n [] w = refl
read_reply-sent n (r ∷ rs) w = refl

read_reply-time : (n : ℕ) (rs : List Bytes) (w : Bench) → w.time < (read_reply n rs w).1.time
read_reply-time n [] w = omega arith
read_reply-time n (r ∷ rs) w = omega arith

abbrev bytes_of : Result ℕ Bytes × Bench → ℕ
bytes_of (ok bs, w) = length bs
bytes_of (err e, w) = 0

read_reply-length : (n : ℕ) (rs : List Bytes) (w : Bench) → bytes_of (read_reply n rs w) ≤ n
read_reply-length n [] w = omega arith
read_reply-length n (r ∷ rs) w = omega (arith, length-take n r)

pub bench-Traced : Traced bench written
bench-Traced = record {
  writes = λ bs w w' u e. ap (λ (p : Result ℕ (Unit {0}) × Bench). p.1.sent) (sym e);
  reads = λ n w. read_reply-sent n w.replies w;
  tunes = λ b w. refl;
  flushes = λ w. refl;
  drains = λ w. refl;
  sleeps = λ ms w. refl;
  logs_step = λ l bs w. refl;
  logs_reply = λ f w. refl;
  logs_note = λ n w. refl;
  logs_discarded = λ bs w. refl;
}

pub bench-IsTimely : IsTimely bench
bench-IsTimely = record {
  reads = λ n w. read_reply-time n w.replies w;
  fills = λ n w w' bs e. rw e at (read_reply-length n w.replies w);
  writes = λ bs w. omega arith;
  flushes = λ w. omega arith;
  logs_note = λ n w. omega arith;
  logs_discarded = λ bs w. omega arith;
}

abbrev fresh : Bench
fresh = record { sent = []; replies = encode (mcu 0x80 (0x03 ∷ [])) ∷ []; time = 0 }

abbrev after : Bench
after = record {
  sent = map (λ (step : Step). encode step.frame) two_steps;
  replies = [];
  time = 100_000_000;
}

runs : run bench 4 3 default_drain (new two_steps) fresh ≡ done (ok tt) all_done after
unfolding run next_action send_step next_frame encode decode on_reply reply_at settle check_reply
runs = refl

-- No reply comes: the error tells that the flash is indeterminate.
abbrev pub silent : Bench
silent = record { sent = []; replies = []; time = 0 }

abbrev pub after_silence : Bench
after_silence = record {
  sent = encode (host 0x00 (0x01 ∷ 0x02 ∷ [])) ∷ [];
  replies = [];
  time = 100_000_000;
}

pub times_out :
    run bench 4 3 default_drain (new two_steps) silent
    ≡ done (err (indeterminate_flash (timeout [] 100))) block_sent after_silence
unfolding run next_action send_step next_frame encode flash_is_indeterminate
times_out = refl

run-Honest_example :
    Honest bench written bench-Traced two_steps []
      (run bench 4 3 default_drain (new two_steps) fresh)
run-Honest_example = run-Honest bench written bench-Traced two_steps 4 3 default_drain fresh

run-Returns_example :
    (enough : ℕ) × ((polls : ℕ)
      → enough ≤ polls
      → Returns bench bench-IsTimely two_steps
          (run bench polls 3 default_drain (new two_steps) fresh))
run-Returns_example = run-Returns bench bench-IsTimely two_steps default_drain fresh
