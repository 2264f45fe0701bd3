-- ===== src/Tests/Handshakes.antt =====
-- `handshake` of src/driver.rs on a scripted wire: a byte of noise, then the status frame.
use stcbsl.Base.{
  ◌+◌, ◌≤◌, ap, length, length-take, ◌*◌, ◌<◌, map, take, ◌++◌, append-nil, sym, Result, err, ℕ,
  ◌≡◌, refl, List, [], ◌∷◌, ok, arith, All,
}
use stcbsl.Frame.{Frame, encode, decode, byte_at}
use stcbsl.Receiver.{next_frame}
use stcbsl.Session.{Step}
use stcbsl.Protocol.{Job, SessionOptions, default_options}
use stcbsl.Stc89.{plan}
use stcbsl.Stc89.Frames.{frequency_hz}
use stcbsl.Stc89.Status.{stc89, is_status_frame, parse_status, any_differs, read_words}
use stcbsl.Stc89.Status.Laws.{IsStatus, reported}
use stcbsl.Stc89.Plan.Order.{OptionIs}
use stcbsl.Driver.Handshake.{met, handshake}
use stcbsl.Driver.Handshake.Ends.{IsEnded, handshake-IsEnded}
use stcbsl.Driver.Handshake.Pacing.{Stamped, pulses_at, IsSpaced, handshake-paced}
use stcbsl.Driver.Wait.{IsTimely}
use stcbsl.Driver.Handshake.Heard.{Hears, handshake_from_wire}
use stcbsl.Base.Bytes.{Bytes, IsByte, u8}
use stcbsl.Driver.{World}
use stcbsl.Tests.Plans.{status_frame, info}
use stcbsl.Tests.Drivers.{Bench, bench, bench-IsTimely}

abbrev calling : Bench
calling = record { sent = []; replies = (0x00 ∷ encode status_frame) ∷ []; time = 0 }

abbrev called : Bench
called = record { sent = (0x7F ∷ []) ∷ []; replies = []; time = 100_000_000 }

hears_status : handshake 3 bench stc89 default_options 200_000_000 calling ≡ met (ok info) called
unfolding handshake next_frame encode decode is_status_frame parse_status any_differs read_words
    frequency_hz
hears_status = refl

handshake-IsEnded_example :
    IsEnded bench bench-IsTimely stc89 2400
      (handshake 200_000_001 bench stc89 default_options 200_000_000 calling)
handshake-IsEnded_example =
    handshake-IsEnded bench bench-IsTimely stc89 200_000_001 default_options 200_000_000 calling
      (omega arith)

-- The bench, and the time of each write.
record Clocked : Type 0 where
  stamps : List (ℕ × Bytes)
  replies : List Bytes
  time : ℕ

abbrev slow_reply : ℕ → List Bytes → Clocked → Result ℕ Bytes × Clocked
slow_reply n [] w = (ok [], record w { time = 20_000_000 + w.time })
slow_reply n (r ∷ rs) w = (ok (take n r), record w { replies = rs; time = 20_000_000 + w.time })

abbrev clocked : World ℕ Clocked
clocked = record {
  write_all = λ bs w. (ok tt, record w { stamps = w.stamps ++ (w.time, bs) ∷ [] });
  read = λ n w. slow_reply n w.replies w;
  tune = λ b w. (ok tt, w);
  flush = λ w. (ok tt, w);
  drain = λ w. (ok tt, w);
  now = λ w. w.time;
  sleep = λ ms w. w;
  log_step = λ l bs w. w;
  log_reply = λ f w. w;
  log_note = λ n w. w;
  log_discarded = λ bs w. w;
}

slow_reply-stamps :
    (n : ℕ) (rs : List Bytes) (w : Clocked) → (slow_reply n rs w).1.stamps ≡ w.stamps
slow_reply-stamps n [] w = refl
slow_reply-stamps n (r ∷ rs) w = refl

slow_reply-time : (n : ℕ) (rs : List Bytes) (w : Clocked) → w.time < (slow_reply n rs w).1.time
slow_reply-time n [] w = omega arith
slow_reply-time n (r ∷ rs) w = omega arith

abbrev slow_bytes : Result ℕ Bytes × Clocked → ℕ
slow_bytes (ok bs, w) = length bs
slow_bytes (err e, w) = 0

slow_reply-length : (n : ℕ) (rs : List Bytes) (w : Clocked) → slow_bytes (slow_reply n rs w) ≤ n
slow_reply-length n [] w = omega arith
slow_reply-length n (r ∷ rs) w = omega (arith, length-take n r)

clocked-Stamped : Stamped clocked (λ (w : Clocked). w.stamps)
clocked-Stamped = record {
  writes = λ bs w w' u e. ap (λ (p : Result ℕ (Unit {0}) × Clocked). p.1.stamps) (sym e);
  reads = λ n w. slow_reply-stamps n w.replies w;
  tunes = λ b w. refl;
  flushes = λ w. refl;
  logs_reply = λ f w. refl;
  logs_note = λ n w. refl;
  logs_discarded = λ bs w. refl;
}

clocked-IsTimely : IsTimely clocked
clocked-IsTimely = record {
  reads = λ n w. slow_reply-time n w.replies w;
  fills = λ n w w' bs e. rw e at (slow_reply-length n w.replies w);
  writes = λ bs w. omega arith;
  flushes = λ w. omega arith;
  logs_note = λ n w. omega arith;
  logs_discarded = λ bs w. omega arith;
}

-- Two reads in vain before the chip answers: the second round is too early for another pulse.
abbrev ringing : Clocked
ringing = record { stamps = []; replies = [] ∷ [] ∷ (0x00 ∷ encode status_frame) ∷ []; time = 0 }

abbrev rung : Clocked
rung = record {
  stamps = (0, 0x7F ∷ []) ∷ (40_000_000, 0x7F ∷ []) ∷ [];
  replies = [];
  time = 60_000_000;
}

rings_twice : handshake 4 clocked stc89 default_options 200_000_000 ringing ≡ met (ok info) rung
unfolding handshake next_frame encode decode is_status_frame parse_status any_differs read_words
    frequency_hz
rings_twice = refl

handshake-paced_example :
    (times : List ℕ) × (rung.stamps ≡ pulses_at times)
    × IsSpaced 0 times
    × (length times * 30_000_000 < 230_000_000)
handshake-paced_example =
    handshake-paced clocked (λ (w : Clocked). w.stamps) clocked-Stamped clocked-IsTimely stc89 4
      default_options 200_000_000 ringing rung info rings_twice

-- A wire that records what it has given: bytes of the next reply.
record Ear : Type 0 where
  replies : List Bytes
  received : Bytes

abbrev byte : ℕ → ℕ
byte b = u8 b

abbrev hear_reply : ℕ → List Bytes → Ear → Result ℕ Bytes × Ear
hear_reply n [] w = (ok [], w)
hear_reply n (r ∷ rs) w = (
  ok (map byte (take n r)),
  record { replies = rs; received = w.received ++ map byte (take n r) },
)

abbrev ear : World ℕ Ear
ear = record {
  write_all = λ bs w. (ok tt, w);
  read = λ n w. hear_reply n w.replies w;
  tune = λ b w. (ok tt, w);
  flush = λ w. (ok tt, w);
  drain = λ w. (ok tt, w);
  now = λ w. 0;
  sleep = λ ms w. w;
  log_step = λ l bs w. w;
  log_reply = λ f w. w;
  log_note = λ n w. w;
  log_discarded = λ bs w. w;
}

All-byte : (bs : Bytes) → All IsByte (map byte bs)
All-byte [] = tt
All-byte (b ∷ bs) = (omega arith, All-byte bs)

abbrev Heard : Result ℕ Bytes × Ear → Bytes → Type 0
Heard (ok bs, w) before = (w.received ≡ before ++ bs) × All IsByte bs
Heard (err e, w) before = Unit

hear_reply-Heard : (n : ℕ) (rs : List Bytes) (w : Ear) → Heard (hear_reply n rs w) w.received
hear_reply-Heard n [] w = (sym (append-nil w.received), tt)
hear_reply-Heard n (r ∷ rs) w = (refl, All-byte (take n r))

ear-Hears : Hears ear (λ (w : Ear). w.received)
ear-Hears = record {
  reads = λ n w w' bs e. rw e at (hear_reply-Heard n w.replies w);
  writes = λ bs w. refl;
  tunes = λ b w. refl;
  flushes = λ w. refl;
  logs_reply = λ f w. refl;
  logs_note = λ n w. refl;
  logs_discarded = λ bs w. refl;
}

abbrev listening : Ear
listening = record { replies = (0x00 ∷ encode status_frame) ∷ []; received = [] }

abbrev listened : Ear
listened = record { replies = []; received = 0x00 ∷ encode status_frame }

hears_frame : handshake 3 ear stc89 default_options 200_000_000 listening ≡ met (ok info) listened
unfolding handshake next_frame encode decode is_status_frame parse_status any_differs read_words
    frequency_hz
hears_frame = refl

handshake_from_wire_example :
    (frame : Frame) × (front : Bytes) × (back : Bytes) × (listened.received
      ≡ front ++ (encode frame ++ back))
    × IsStatus frame 2400
    × (info ≡ reported frame 2400)
    × ((job : Job) (later : SessionOptions) (steps : List Step)
        → plan info job later ≡ ok steps
        → All (OptionIs (byte_at frame.payload 18)) steps)
handshake_from_wire_example =
    handshake_from_wire ear (λ (w : Ear). w.received) ear-Hears 3 default_options 200_000_000
      listening listened info hears_frame
