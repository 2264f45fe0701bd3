-- ===== src/Driver/Handshake/Pacing.antt =====
-- How often `handshake` of src/driver.rs puts a pulse on the wire.
use stcbsl.Base.{
  List-cases, ℕ, suc, ◌+◌, ◌-◌, ◌*◌, ◌≤◌, ◌<◌, ◌≡◌, refl, sym, ap, ◌∙◌, inl, inr, List, [], ◌∷◌,
  ◌++◌, map, append_assoc, append-nil, ok, length, arith,
}
use stcbsl.Base.Bytes.{Bytes}
use stcbsl.Frame.{Frame}
use stcbsl.Receiver.{Receiver}
use stcbsl.Protocol.{ProtocolFamily, TargetInfo, SessionOptions}
use stcbsl.Driver.{World, Note, report_discarded}
use stcbsl.Driver.Wait.{IsTimely}
use stcbsl.Driver.Handshake.{met, sync_byte, pulse_every, handshake}
use stcbsl.Driver.Handshake.Rule.{Rule, handshake_rule}

-- `stamped` is the list of the byte strings that went out, each with the time at which its
-- `write_all` began: one that succeeds adds to it, and nothing else in a handshake changes it.
pub record Stamped {E W : Type 0} (world : World E W) (stamped : W → List (ℕ × Bytes))
    : Type 0 where
  pub writes :
      (bs : Bytes) (w w' : W) (u : Unit {0})
      → world.write_all bs w ≡ (ok u, w')
      → stamped w' ≡ stamped w ++ (world.now w, bs) ∷ []
  pub reads : (n : ℕ) (w : W) → stamped (world.read n w).1 ≡ stamped w
  pub tunes : (b : ℕ) (w : W) → stamped (world.tune b w).1 ≡ stamped w
  pub flushes : (w : W) → stamped (world.flush w).1 ≡ stamped w
  pub logs_reply : (f : Frame) (w : W) → stamped (world.log_reply f w) ≡ stamped w
  pub logs_note : (n : Note) (w : W) → stamped (world.log_note n w) ≡ stamped w
  pub logs_discarded : (bs : Bytes) (w : W) → stamped (world.log_discarded bs w) ≡ stamped w

-- Pulses that begin at the times.
abbrev pub pulses_at : List ℕ → List (ℕ × Bytes)
pulses_at times = map (λ t. (t, sync_byte ∷ [])) times

-- No time comes before `from`, and between two of them lies the interval.
pub IsSpaced : ℕ → List ℕ → Type 0
IsSpaced from [] = Unit
IsSpaced from (t ∷ times) = (from ≤ t) × IsSpaced (t + pulse_every) times

-- The same, and after the last of them the interval has passed at `due`.
SpacedTo : ℕ → List ℕ → ℕ → Type 0
SpacedTo from [] due = from ≤ due
SpacedTo from (t ∷ times) due = (from ≤ t) × SpacedTo (t + pulse_every) times due

SpacedTo-IsSpaced :
    (from : ℕ) (times : List ℕ) (due : ℕ) → SpacedTo from times due → IsSpaced from times
unfolding SpacedTo IsSpaced
SpacedTo-IsSpaced from [] due h = tt
SpacedTo-IsSpaced from (t ∷ times) due (h, rest) =
    (h, SpacedTo-IsSpaced (t + pulse_every) times due rest)

SpacedTo-snoc :
    (from : ℕ) (times : List ℕ) (due t due' : ℕ)
    → SpacedTo from times due
    → due ≤ t
    → t + pulse_every ≤ due'
    → SpacedTo from (times ++ t ∷ []) due'
unfolding SpacedTo
SpacedTo-snoc from [] due t due' h l l' = (omega arith, l')
SpacedTo-snoc from (x ∷ times) due t due' (h, rest) l l' =
    (h, SpacedTo-snoc (x + pulse_every) times due t due' rest l l')

-- The intervals fit between the beginning and the end.
SpacedTo-length :
    (from : ℕ) (times : List ℕ) (due : ℕ)
    → SpacedTo from times due
    → from + length times * pulse_every ≤ due
unfolding SpacedTo
SpacedTo-length from [] due h = omega arith
SpacedTo-length from (t ∷ times) due (h, rest) =
    let tail = SpacedTo-length (t + pulse_every) times due rest in omega arith

pulses_at-snoc :
    (times : List ℕ) (t : ℕ)
    → pulses_at (times ++ t ∷ []) ≡ pulses_at times ++ (t, sync_byte ∷ []) ∷ []
pulses_at-snoc [] t = refl
pulses_at-snoc (x ∷ times) t = ap (◌∷◌ (x, sync_byte ∷ [])) (pulses_at-snoc times t)

length-snoc : (times : List ℕ) (t : ℕ) → length (times ++ t ∷ []) ≡ suc (length times)
length-snoc [] t = refl
length-snoc (x ∷ times) t = ap suc (length-snoc times t)

module _ {E W : Type 0} (world : World E W) (stamped : W → List (ℕ × Bytes))
    (stamps : Stamped world stamped) where
  report_discarded-stamped :
      (rx : Receiver) (w : W) → stamped (report_discarded world rx w).1 ≡ stamped w
  report_discarded-stamped rx w = elim (List-cases rx.discarded) [
    | inl e ↦ rw e refl
    | inr (b, bs, e) ↦ rw e (stamps.logs_discarded (b ∷ bs) w)
  ]

  module _ (timely : IsTimely world) (wait baud : ℕ) (start : W) where
    -- The pulses begin at the times, and nothing else has been written since the start.
    Pulsed : List ℕ → W → Type 0
    Pulsed times w = stamped w ≡ stamped start ++ pulses_at times

    abbrev Paced : ℕ → ℕ → W → Type 0
    Paced started due w =
        (times : List ℕ) × Pulsed times w
        × SpacedTo started times due
        × (length times * pulse_every < wait + pulse_every)

    Pulsed-pulse :
        (times : List ℕ) (w w1 w2 : W) (u v : Unit {0})
        → Pulsed times w
        → world.write_all (sync_byte ∷ []) w ≡ (ok u, w1)
        → world.flush w1 ≡ (ok v, w2)
        → Pulsed (times ++ world.now w ∷ []) w2
    unfolding Pulsed
    Pulsed-pulse times w w1 w2 u v e q1 q2 =
        sym (ap (λ x. stamped x.1) q2)
        ∙ stamps.flushes w1
        ∙ stamps.writes _ w w1 u q1
        ∙ ap (λ (l : List (ℕ × Bytes)). l ++ (world.now w, sync_byte ∷ []) ∷ []) e
        ∙ append_assoc (stamped start) (pulses_at times) ((world.now w, sync_byte ∷ []) ∷ [])
        ∙ ap (◌++◌ (stamped start)) (sym (pulses_at-snoc times (world.now w)))

    Paced-pulse :
        (started due : ℕ) (w w1 w2 : W) (u v : Unit {0})
        → Paced started due w
        → world.now w - started < wait
        → due ≤ world.now w
        → world.write_all (sync_byte ∷ []) w ≡ (ok u, w1)
        → world.flush w1 ≡ (ok v, w2)
        → Paced started (world.now w2 + pulse_every) w2
    Paced-pulse started due w w1 w2 u v (times, e, spaced, fits) early late q1 q2 =
        let later1 : world.now w ≤ world.now w1 = rw q1 at (timely.writes (sync_byte ∷ []) w) in
        let later2 : world.now w1 ≤ world.now w2 = rw q2 at (timely.flushes w1) in
        let so_far = SpacedTo-length started times due spaced in
        let longer = length-snoc times (world.now w) in
        (
          times ++ world.now w ∷ [],
          Pulsed-pulse times w w1 w2 u v e q1 q2,
          SpacedTo-snoc started times due (world.now w) (world.now w2 + pulse_every) spaced late
              (omega arith),
          omega arith,
        )

    Paced-carry :
        (started due : ℕ) (w w' : W)
        → stamped w' ≡ stamped w
        → Paced started due w
        → Paced started due w'
    unfolding Pulsed
    Paced-carry started due w w' q (times, e, spaced, fits) = (times, q ∙ e, spaced, fits)

    -- What a handshake keeps: when it began, and the spaced pulses.
    Keeps : ℕ → ℕ → Receiver → W → Type 0
    Keeps started due rx w = (world.now (world.tune baud start).1 ≡ started) × Paced started due w

    -- What it has done at its end.
    abbrev Done : TargetInfo → W → Type 0
    Done info w =
        (times : List ℕ) × Pulsed times w
        × IsSpaced (world.now (world.tune baud start).1) times
        × (length times * pulse_every < wait + pulse_every)

    Paced-Done :
        (started due : ℕ) (rx : Receiver) (info : TargetInfo) (w : W)
        → Keeps started due rx w
        → Done info w
    unfolding Keeps
    Paced-Done started due rx info w (began, (times, e, spaced, fits)) =
        (times, e, SpacedTo-IsSpaced _ times due (rw began spaced), fits)

    pacing : (family : ProtocolFamily) → Rule world family baud wait start Keeps Done
    unfolding Keeps
    pacing family = record {
      starts = λ u w q. (
        ap (λ x. world.now x.1) q,
        (
          [],
          unfold Pulsed in
              sym (ap (λ x. stamped x.1) q)
              ∙ stamps.tunes baud start
              ∙ sym (append-nil (stamped start)),
          unfold SpacedTo in omega arith,
          omega arith,
        ),
      );
      pulses = λ started due rx w w1 w2 u v (began, paced) early late q1 q2.
          (began, Paced-pulse started due w w1 w2 u v paced early late q1 q2);
      reads = λ started due rx bs w w1 (began, paced) q. (
        began,
        Paced-carry started due w w1 (sym (ap (λ x. stamped x.1) q) ∙ stamps.reads 256 w) paced,
      );
      waits = λ started due rx rx' w h q. h;
      reports = λ started due rx w (began, paced).
          (began, Paced-carry started due w _ (report_discarded-stamped rx w) paced);
      skips = λ started due rx rx' r note w (began, paced) q. (
        began,
        Paced-carry started due w _ (stamps.logs_note note _ ∙ report_discarded-stamped rx' w)
            paced,
      );
      answers = λ started due rx rx' f info w (began, paced) q is_status parsed.
          Paced-Done started due rx' info _ (
            began,
            Paced-carry started due w _ (stamps.logs_reply f _ ∙ report_discarded-stamped rx' w)
                paced,
          );
    }

-- A handshake that succeeds sends synchronisation bytes only, and no faster than its interval. When a
-- handshake with a chip of any family succeeds, all that it has written is the one byte 0x7F, each
-- time alone, at certain times. The first of these is not before the end of the change of baud
-- rate, every other is at least the interval of 30 ms after the one before it, and their number
-- times the interval is less than the time to wait and one interval more. What is written is
-- recorded, with the time at which its write began, in a list to which a write that succeeds adds
-- and which reads, changes of the baud rate, flushes and the log leave as it is; a read takes time
-- and fills no more than its buffer, and writes, flushes and notes do not set the clock back.
pub handshake-paced :
    {E W : Type 0} (world : World E W) (stamped : W → List (ℕ × Bytes))
    (stamps : Stamped world stamped) (timely : IsTimely world) (family : ProtocolFamily) (fuel : ℕ)
    (opts : SessionOptions) (wait : ℕ) (w w' : W) (info : TargetInfo)
    → handshake fuel world family opts wait w ≡ met (ok info) w'
    → (times : List ℕ) × (stamped w' ≡ stamped w ++ pulses_at times)
      × IsSpaced (world.now (world.tune opts.handshake_baud w).1) times
      × (length times * pulse_every < wait + pulse_every)
unfolding Pulsed
handshake-paced world stamped stamps timely family fuel opts wait w w' info e =
    handshake_rule world family opts wait w _ _
      (pacing world stamped stamps timely wait opts.handshake_baud w family) fuel w' info e
