-- ===== src/Driver/Handshake/Ends.antt =====
-- `handshake` of src/driver.rs ends, on a wire whose reads take time.
use stcbsl.Base.{
  ℕ, zero, suc, ◌+◌, ◌-◌, ◌≤◌, ◌<◌, ◌≡◌, refl, inl, inr, not, ◌&&◌, Bool-cases, ltb, leb, none,
  some, [], ◌∷◌, Result, ok, err, length, arith,
}
use stcbsl.Frame.{Frame, FrameError}
use stcbsl.Receiver.{Receiver, Polled, next_frame, feed, pending}
use stcbsl.Receiver.Chunks.{Shrinks, next_frame-Shrinks}
use stcbsl.Protocol.{ProtocolFamily, SessionOptions}
use stcbsl.Driver.{World, ignoring, malformed, report_discarded}
use stcbsl.Driver.Wait.{IsTimely, report_discarded-later}
use stcbsl.Driver.Handshake.{
  Met, met, unended, Sync, sync_byte, or_io, on_frame, frame_round, frames_loop, read_round, pulse,
  partial_stall, sync_loop, handshake,
}

le_trans : {a b c : ℕ} → a ≤ b → b ≤ c → a ≤ c
le_trans h h' = omega arith

later_still : (started a b c : ℕ) → started ≤ a → a ≤ b → b < c → started ≤ c
later_still started a b c l h h' = omega arith

fuel_left :
    (started a wait fuel : ℕ) → a - started < wait → wait < a - started + suc fuel → 0 < fuel
fuel_left started a wait fuel early h = omega arith

time_left :
    (started a b c wait fuel : ℕ)
    → started ≤ a
    → a ≤ b
    → b < c
    → wait < a - started + suc fuel
    → wait < c - started + fuel
time_left started a b c wait fuel l h h' left = omega arith

module _ {E W : Type 0} (world : World E W) (timely : IsTimely world) (family : ProtocolFamily)
    (baud : ℕ) where
  abbrev pub IsEnded : Met E W → Type 0
  IsEnded (met r w) = Unit
  IsEnded unended = ⊥

  -- A continuation that ends at every state that is not before `w`.
  abbrev From : W → (Receiver → ℕ → W → Met E W) → Type 0
  From w f =
      (rx : Receiver) (noise : ℕ) (w' : W) → world.now w ≤ world.now w' → IsEnded (f rx noise w')

  or_io-IsEnded :
      {A : Type 0} (r : Result E A × W) (rest : A → W → Met E W)
      → ((a : A) (w : W) → r ≡ (ok a, w) → IsEnded (rest a w))
      → IsEnded (or_io r rest)
  unfolding or_io
  or_io-IsEnded (ok a, w) rest h = h a w refl
  or_io-IsEnded (err e, w) rest h = tt

  -- One round of the inner loop, on a buffer of less than `fuel` bytes more.
  module _ (w : W) (fuel : ℕ) (again : Receiver → ℕ → W → Met E W)
      (go : (x : Receiver) (n : ℕ) (v : W)
        → length x.buf < fuel
        → world.now w ≤ world.now v
        → IsEnded (again x n v)) where
    on_frame-IsEnded :
        (r : Result FrameError Frame) (x : Receiver) (n : ℕ) (v : W)
        → length x.buf < fuel
        → world.now w ≤ world.now v
        → IsEnded (on_frame world family baud r x n v again)
    unfolding on_frame
    on_frame-IsEnded (ok f) x n v l later = elim (Bool-cases (family.is_status_frame f)) [
      | inl e ↦ rw e tt
      | inr e ↦
          let later' = timely.logs_note (ignoring f.cmd) v in
          rw e (go x n (world.log_note (ignoring f.cmd) v) l (le_trans later later'))
    ]
    on_frame-IsEnded (err e) x n v l later =
        go x n (world.log_note (malformed e) v) l
          (le_trans later (timely.logs_note (malformed e) v))

    frame_round-IsEnded :
        (rx : Receiver) (o : Polled) (noise : ℕ) (rest : Receiver → ℕ → W → Met E W)
        → length rx.buf ≤ fuel
        → Shrinks rx o
        → From w rest
        → IsEnded (frame_round world family baud o noise w again rest)
    unfolding frame_round
    frame_round-IsEnded rx (none, x) noise rest l s h = h x noise w (omega arith)
    frame_round-IsEnded rx (some r, x) noise rest l s h =
        let (same, later) = report_discarded-later world timely x w in
        let (x', w') = report_discarded world x w in
        on_frame-IsEnded r x' (noise + length x.discarded) w' (omega arith) later

  frames_loop-IsEnded :
      (fuel : ℕ) (rest : Receiver → ℕ → W → Met E W) (rx : Receiver) (noise : ℕ) (w : W)
      → length rx.buf < fuel
      → From w rest
      → IsEnded (frames_loop world family baud fuel rest rx noise w)
  unfolding frames_loop
  frames_loop-IsEnded zero rest rx noise w l h = absurd (omega arith)
  frames_loop-IsEnded (suc fuel) rest rx noise w l h =
      frame_round-IsEnded w fuel (frames_loop world family baud fuel rest)
        (λ x n v l' later.
          frames_loop-IsEnded fuel rest x n v l' (λ y m u later'. h y m u (le_trans later later')))
        rx (next_frame rx) noise rest (omega arith) (next_frame-Shrinks rx) h

  -- A round of the outer loop takes time.
  read_round-IsEnded :
      (w : W) (s : Sync) (again : Sync → W → Met E W)
      → ((s : Sync) (w' : W) → world.now w < world.now w' → IsEnded (again s w'))
      → IsEnded (read_round world family baud (world.read 256 w) s again)
  unfolding read_round
  read_round-IsEnded w s again h = or_io-IsEnded (world.read 256 w) _ (λ bytes w1 e.
      let later : world.now w < world.now w1 = rw e at (timely.reads 256 w) in
      frames_loop-IsEnded (suc (length (feed s.rx bytes).buf)) _ (feed s.rx bytes) s.noise w1
        (omega arith)
        (λ rx2 noise2 w2 later2.
          let (same, later3) = report_discarded-later world timely rx2 w2 in h _ _ (omega arith)))

  pulse-IsEnded :
      (s : Sync) (w : W) (rest : Sync → W → Met E W)
      → ((s : Sync) (w' : W) → world.now w ≤ world.now w' → IsEnded (rest s w'))
      → IsEnded (pulse world family baud s w rest)
  unfolding pulse
  pulse-IsEnded s w rest h =
      elim (Bool-cases (
        not (ltb 0 (pending s.rx) && ltb (world.now w - s.last_byte) partial_stall)
        && leb s.pulse_due (world.now w))) [
          | inl e ↦ rw e (
              or_io-IsEnded (world.write_all (sync_byte ∷ []) w) _ (λ u w1 e1.
                let later1 : world.now w ≤ world.now w1 =
                  rw e1 at (timely.writes (sync_byte ∷ []) w) in
                or_io-IsEnded (world.flush w1) _ (λ v w2 e2.
                  let later2 : world.now w1 ≤ world.now w2 = rw e2 at (timely.flushes w1) in
                  h _ w2 (omega arith))))
          | inr e ↦ rw e (h s w (omega arith))
        ]

  sync_loop-IsEnded :
      (fuel started wait : ℕ) (s : Sync) (w : W)
      → 0 < fuel
      → started ≤ world.now w
      → wait < world.now w - started + fuel
      → IsEnded (sync_loop world family baud fuel started wait s w)
  unfolding sync_loop
  sync_loop-IsEnded zero started wait s w pos l h = absurd (omega arith)
  sync_loop-IsEnded (suc fuel) started wait s w pos l h =
      elim (Bool-cases (ltb (world.now w - started) wait)) [
        | inr e ↦ rw e tt
        | inl e ↦ rw e (
            pulse-IsEnded s w _ (λ s1 w1 later. read_round-IsEnded w1 s1 _ (λ s2 w2 later2.
              sync_loop-IsEnded fuel started wait s2 w2
                (fuel_left started (world.now w) wait fuel (ground arith) h)
                (later_still started (world.now w) (world.now w1) (world.now w2) l later later2)
                (time_left started (world.now w) (world.now w1) (world.now w2) wait fuel l later
                  later2 h))))
      ]

-- On a wire whose reads take time, under a clock that does not go back, `handshake` ends, whatever
-- comes in: one round more than the nanoseconds it is to wait is enough.
pub handshake-IsEnded :
    {E W : Type 0} (world : World E W) (timely : IsTimely world) (family : ProtocolFamily)
    (fuel : ℕ) (opts : SessionOptions) (wait : ℕ) (w : W)
    → wait < fuel
    → IsEnded world timely family opts.handshake_baud (handshake fuel world family opts wait w)
unfolding handshake
handshake-IsEnded world timely family fuel opts wait w h =
    or_io-IsEnded world timely family opts.handshake_baud (world.tune opts.handshake_baud w) _
      (λ u w1 e.
        sync_loop-IsEnded world timely family opts.handshake_baud fuel (world.now w1) wait _ w1
          (omega arith) (omega arith) (omega arith))
