-- ===== src/Tests/Probes.antt =====
-- The loop of src/bin/rxprobe.rs on a scripted port, where a read takes a second.
use stcbsl.Base.{ℕ, ◌+◌, ◌<◌, ◌≡◌, refl, List, [], ◌∷◌, ◌++◌, Result, ok, err, take, arith, true}
use stcbsl.Base.Bytes.{Bytes}
use stcbsl.Base.Text.{codes}
use stcbsl.Transport.{Serial, SerialWire}
use stcbsl.Rxprobe.{Probe, tally, legible, count_loop}
use stcbsl.Rxprobe.Count.{Heeds, Reports, count_loop-legible}

record Script : Type 0 where
  replies : List Bytes
  received : Bytes
  time : ℕ

abbrev play : ℕ → List Bytes → Script → Result ℕ Bytes × Script
play n [] m = (err 110, record m { time = 1_000_000_000 + m.time })
play n (r ∷ rs) m = (
  ok (take n r),
  record { replies = rs; received = m.received ++ take n r; time = 1_000_000_000 + m.time },
)

abbrev script : Serial ℕ ℕ Script
script = record {
  open_native = λ s m. (ok tt, m);
  available_ports = λ m. (ok [], m);
  set_baud_rate = λ b m. (ok tt, m);
  write_all = λ bs m. (ok tt, m);
  read = λ n m. play n m.replies m;
  flush = λ m. (ok tt, m);
  tcdrain = λ m. (0, m);
  last_os_error = λ m. 5;
  timed_out = λ e. true;
  other = λ e. e;
  now = λ m. m.time;
  sleep = λ ms m. m;
}

abbrev probe : Probe ℕ ℕ Script
probe = record { serial = script; print = λ line m. m }

abbrev received_by : Script → Bytes
received_by m = m.received

abbrev Adds : Result ℕ Bytes × Script → Bytes → Type 0
Adds (ok bs, m) before = m.received ≡ before ++ bs
Adds (err e, m) before = m.received ≡ before

play-Adds : (n : ℕ) (rs : List Bytes) (m : Script) → Adds (play n rs m) m.received
play-Adds n [] m = refl
play-Adds n (r ∷ rs) m = refl

play-time : (n : ℕ) (rs : List Bytes) (m : Script) → m.time < (play n rs m).1.time
play-time n [] m = omega arith
play-time n (r ∷ rs) m = omega arith

script-Heeds : Heeds script received_by
script-Heeds = record {
  reads = λ n m m' bs e. rw e at (play-Adds n m.replies m);
  fails = λ n m m' x e. rw e at (play-Adds n m.replies m);
  lasts = λ n m. play-time n m.replies m;
}

abbrev listening : SerialWire Script
listening = record {
  port = record { replies = codes "say hel" ∷ codes "lo!" ∷ []; received = []; time = 0 };
  baud = 9600;
}

abbrev listened : SerialWire Script
listened = record {
  port = record { replies = []; received = codes "say hello!"; time = 4_000_000_000 };
  baud = 9600;
}

counts : count_loop probe 5 4_000_000_000 0 [] listening ≡ tally 10 (codes "say hello!") listened
unfolding count_loop
counts = refl

is_legible : legible (codes "say hello!") ≡ true
unfolding legible
is_legible = refl

count_loop-legible_example :
    Reports probe received_by [] 4_000_000_000
      (count_loop probe 4_000_000_001 4_000_000_000 0 [] listening)
count_loop-legible_example =
    count_loop-legible probe received_by script-Heeds 4_000_000_001 4 listening (omega arith)
