-- ===== src/Driver/Wait.antt =====
-- The wait for a reply in `run` of src/driver.rs ends: how many rounds it can make.
use stcbsl.Base.{
  List-cases, ℕ, zero, suc, ◌+◌, ◌-◌, ◌*◌, ◌≤◌, ◌<◌, leb, ◌≡◌, refl, inl, inr, Bool-cases, none,
  some, ◌∷◌, length, length-append, arith, Result, ok, err,
}
use stcbsl.Base.Bytes.{Bytes}
use stcbsl.Base.Text.{Text}
use stcbsl.Receiver.{Receiver, feed, Polled, next_frame}
use stcbsl.Receiver.Chunks.{Shrinks, next_frame-Shrinks}
use stcbsl.Driver.{
  World, Note, rehunting, Awaited, got, failed, waits_on, report_discarded, after_read, wait_round,
  await,
}

-- A read takes time, and fills no more than its buffer; the clock does not go back while bytes or
-- a line of the log are written.
pub record IsTimely {E W : Type 0} (world : World E W) : Type 0 where
  pub reads : (n : ℕ) (w : W) → world.now w < world.now (world.read n w).1
  pub fills : (n : ℕ) (w w' : W) (bs : Bytes) → world.read n w ≡ (ok bs, w') → length bs ≤ n
  pub writes : (bs : Bytes) (w : W) → world.now w ≤ world.now (world.write_all bs w).1
  pub flushes : (w : W) → world.now w ≤ world.now (world.flush w).1
  pub logs_note : (n : Note) (w : W) → world.now w ≤ world.now (world.log_note n w)
  pub logs_discarded : (bs : Bytes) (w : W) → world.now w ≤ world.now (world.log_discarded bs w)

module _ {E W : Type 0} (world : World E W) (timely : IsTimely world) where
  -- The number of rounds that a wait can make: a read of 512 bytes for each tick up to the
  -- deadline, and a bad frame for each byte.
  abbrev pub wait_bound : ℕ → Receiver → W → ℕ
  wait_bound deadline rx w = (deadline - world.now w) * 513 + length rx.buf

  abbrev pub Ended : Awaited E W → Type 0
  Ended (got f rx w) = Unit
  Ended (failed e w) = Unit
  Ended waits_on = ⊥

  -- Two waits that end, and in the same way.
  abbrev Same : Awaited E W → Awaited E W → Type 0
  Same a b = (a ≡ b) × Ended a

  pub report_discarded-later :
      (rx : Receiver) (w : W)
      → (length (report_discarded world rx w).0.buf ≡ length rx.buf)
        × (world.now w ≤ world.now (report_discarded world rx w).1)
  report_discarded-later rx w = elim (List-cases rx.discarded) [
    | inl e ↦ rw e (refl, omega arith)
    | inr (b, bs, e) ↦ rw e (refl, timely.logs_discarded (b ∷ bs) w)
  ]

  module _ (label : Text) (timeout_ms deadline : ℕ) (p q : Receiver → W → Awaited E W) where
    after_read-Same :
        (rx rx' : Receiver) (w : W) (r : Result E Bytes × W)
        → world.read 512 w ≡ r
        → world.now w < deadline
        → length rx'.buf ≤ length rx.buf
        → ((x : Receiver) (v : W)
            → wait_bound deadline x v < wait_bound deadline rx w
            → Same (p x v) (q x v))
        → Same (after_read world r rx' p) (after_read world r rx' q)
    after_read-Same rx rx' w (ok bytes, w') e early l h =
        let later : world.now w < world.now w' = rw e at (timely.reads 512 w) in
        let few = timely.fills 512 w w' bytes e in
        h (feed rx' bytes) w' (omega (arith, length-append rx'.buf bytes))
    after_read-Same rx rx' w (err x, w') e early l h = (refl, tt)

    wait_round-Same :
        (rx : Receiver) (w : W) (o : Polled)
        → Shrinks rx o
        → ((x : Receiver) (v : W)
            → wait_bound deadline x v < wait_bound deadline rx w
            → Same (p x v) (q x v))
        → Same
            (wait_round world label timeout_ms deadline o w p)
            (wait_round world label timeout_ms deadline o w q)
    unfolding wait_round
    wait_round-Same rx w (some (ok f), rx') l h = (refl, tt)
    wait_round-Same rx w (some (err e), rx') l h =
        let (x, v) = report_discarded world rx' w in
        let (same, later) = report_discarded-later rx' w in
        let later' = timely.logs_note (rehunting e) v in
        h x (world.log_note (rehunting e) v) (omega arith)
    wait_round-Same rx w (none, rx') l h = elim (Bool-cases (leb deadline (world.now w))) [
      | inl e ↦ rw e (refl, tt)
      | inr e ↦ rw e (after_read-Same rx rx' w (world.read 512 w) refl (ground arith) l h)
    ]

  pub await-Same :
      (k j : ℕ) (label : Text) (timeout_ms deadline : ℕ) (rx : Receiver) (w : W)
      → wait_bound deadline rx w < k
      → wait_bound deadline rx w < j
      → Same
          (await world k label timeout_ms deadline rx w)
          (await world j label timeout_ms deadline rx w)
  unfolding await
  await-Same zero j label t d rx w hk hj = absurd (omega arith)
  await-Same (suc k) zero label t d rx w hk hj = absurd (omega arith)
  await-Same (suc k) (suc j) label t d rx w hk hj =
      wait_round-Same label t d (await world k label t d) (await world j label t d) rx w
        (next_frame rx) (next_frame-Shrinks rx)
        (λ x v h. await-Same k j label t d x v (omega arith) (omega arith))
