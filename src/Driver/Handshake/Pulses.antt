-- ===== src/Driver/Handshake/Pulses.antt =====
-- What `handshake` of src/driver.rs puts on the wire.
use stcbsl.Base.{
  ℕ, zero, suc, ◌+◌, ◌-◌, ◌≤◌, ◌<◌, ◌≡◌, refl, sym, ap, ◌∙◌, List, [], ◌∷◌, ◌++◌, append_assoc,
  append-nil, ok, replicate,
}
use stcbsl.Base.Bytes.{Bytes}
use stcbsl.Receiver.{Receiver}
use stcbsl.Protocol.{ProtocolFamily, TargetInfo, SessionOptions}
use stcbsl.Driver.{World}
use stcbsl.Driver.Traced.{Traced, report_discarded-written}
use stcbsl.Driver.Handshake.{met, sync_byte, pulse_every, handshake}
use stcbsl.Driver.Handshake.Rule.{Rule, handshake_rule}

replicate-snoc : {A : Type 0} (n : ℕ) (a : A) → replicate n a ++ a ∷ [] ≡ replicate (suc n) a
replicate-snoc zero a = refl
replicate-snoc (suc n) a = ap (◌∷◌ a) (replicate-snoc n a)

module _ {E W : Type 0} (world : World E W) (written : W → List Bytes)
    (traced : Traced world written) (before : List Bytes) where
  -- `n` pulses have been written, and nothing else.
  abbrev Wrote : ℕ → W → Type 0
  Wrote n w = written w ≡ before ++ replicate n (sync_byte ∷ [])

  Wrote-pulse :
      (n : ℕ) (w w1 w2 : W) (u v : Unit {0})
      → Wrote n w
      → world.write_all (sync_byte ∷ []) w ≡ (ok u, w1)
      → world.flush w1 ≡ (ok v, w2)
      → Wrote (suc n) w2
  Wrote-pulse n w w1 w2 u v e q1 q2 =
      sym (ap (λ x. written x.1) q2)
      ∙ traced.flushes w1
      ∙ traced.writes _ w w1 u q1
      ∙ ap (λ (l : List Bytes). l ++ (sync_byte ∷ []) ∷ []) e
      ∙ append_assoc before (replicate n (sync_byte ∷ [])) ((sync_byte ∷ []) ∷ [])
      ∙ ap (◌++◌ before) (replicate-snoc n (sync_byte ∷ []))

  -- An invariant that counts the pulses makes a rule, if it starts and each pulse keeps it.
  Counted : (ℕ → ℕ → ℕ → Type 0) → ℕ → ℕ → Receiver → W → Type 0
  Counted C started due rx w = (n : ℕ) × Wrote n w × C n started due

  counting :
      (family : ProtocolFamily) (baud wait : ℕ) (start : W) (C : ℕ → ℕ → ℕ → Type 0)
      → written start ≡ before
      → ((now : ℕ) → C 0 now now)
      → ((n started due : ℕ) (w w1 w2 : W) (u v : Unit {0})
          → C n started due
          → world.now w - started < wait
          → due ≤ world.now w
          → world.write_all (sync_byte ∷ []) w ≡ (ok u, w1)
          → world.flush w1 ≡ (ok v, w2)
          → C (suc n) started (world.now w2 + pulse_every))
      → Rule world family baud wait start
          (Counted C)
          (λ info w. (n : ℕ) × Wrote n w × (started : ℕ) × (due : ℕ) × C n started due)
  unfolding Counted
  counting family baud wait start C fresh none_yet one_more = record {
    starts = λ u w q. (
      0,
      sym (ap (λ x. written x.1) q) ∙ traced.tunes baud start ∙ fresh ∙ sym (append-nil before),
      none_yet (world.now w),
    );
    pulses = λ started due rx w w1 w2 u v h early late q1 q2.
        let (n, e, c) = h in
        (
          suc n,
          Wrote-pulse n w w1 w2 u v e q1 q2,
          one_more n started due w w1 w2 u v c early late q1 q2,
        );
    reads = λ started due rx bs w w1 h q.
        let (n, e, c) = h in (n, sym (ap (λ x. written x.1) q) ∙ traced.reads 256 w ∙ e, c);
    waits = λ started due rx rx' w h q. h;
    reports = λ started due rx w h.
        let (n, e, c) = h in (n, report_discarded-written world written traced rx w ∙ e, c);
    skips = λ started due rx rx' r note w h q.
        let (n, e, c) = h in
        (n, traced.logs_note note _ ∙ report_discarded-written world written traced rx' w ∙ e, c);
    answers = λ started due rx rx' f info w h q is_status parsed.
        let (n, e, c) = h in
        (
          n,
          traced.logs_reply f _ ∙ report_discarded-written world written traced rx' w ∙ e,
          started,
          due,
          c,
        );
  }

-- A handshake that succeeds has written nothing but synchronisation bytes, each 0x7F alone.
pub handshake-Pulsed :
    {E W : Type 0} (world : World E W) (written : W → List Bytes) (traced : Traced world written)
    (family : ProtocolFamily) (fuel : ℕ) (opts : SessionOptions) (wait : ℕ) (w w' : W)
    (info : TargetInfo)
    → handshake fuel world family opts wait w ≡ met (ok info) w'
    → (n : ℕ) × (written w' ≡ written w ++ replicate n (sync_byte ∷ []))
handshake-Pulsed world written traced family fuel opts wait w w' info e =
    let (n, wrote, started, due, counted) =
      handshake_rule world family opts wait w _ _
        (counting world written traced (written w) family opts.handshake_baud wait w
          (λ n started due. Unit) refl (λ now. tt)
          (λ n started due w0 w1 w2 u v c early late q1 q2. tt))
        fuel w' info e in
    (n, wrote)
