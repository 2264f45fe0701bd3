-- ===== src/Driver/Handshake/Rule.antt =====
-- How to prove what a successful `handshake` of src/driver.rs has done: by what holds at the start
-- and is kept by every round.
use stcbsl.Base.{
  List-cases, ℕ, zero, suc, ◌+◌, ◌-◌, ◌≤◌, ◌<◌, ◌≡◌, refl, sym, inl, inr, true, not, ◌&&◌,
  Bool-cases, ltb, leb, leb→le, ltb→lt, none, some, [], ◌∷◌, Result, ok, err, length, if◌then◌else◌,
}
use mathlib.Core.Path.{subst}
use stcbsl.Base.Bytes.{Bytes}
use stcbsl.Frame.{Frame, FrameError}
use stcbsl.Receiver.{Receiver, new, Polled, next_frame, feed, pending}
use stcbsl.Protocol.{ProtocolFamily, ProtocolError, TargetInfo, SessionOptions}
use stcbsl.Driver.{World, Note, ignoring, malformed, report_discarded}
use stcbsl.Driver.Handshake.{
  Met, met, unended, Sync, sync_byte, pulse_every, as_met, or_io, on_frame, count_noise,
  frame_round, frames_loop, read_round, pulse, partial_stall, sync_loop, handshake,
}

-- What holds of the moment the next pulse is due, the receiver and the world while the handshake
-- goes on, and what holds of the answer and the world at its end. `started` is the time after the
-- first change of the baud rate.
pub record Rule {E W : Type 0} (world : World E W) (family : ProtocolFamily) (baud wait : ℕ)
    (start : W) (Holds : ℕ → ℕ → Receiver → W → Type 0) (Answer : TargetInfo → W → Type 0)
    : Type 0 where
  pub starts :
      (u : Unit {0}) (w : W)
      → world.tune baud start ≡ (ok u, w)
      → Holds (world.now w) (world.now w) new w
  pub pulses :
      (started due : ℕ) (rx : Receiver) (w w1 w2 : W) (u v : Unit {0})
      → Holds started due rx w
      → world.now w - started < wait
      → due ≤ world.now w
      → world.write_all (sync_byte ∷ []) w ≡ (ok u, w1)
      → world.flush w1 ≡ (ok v, w2)
      → Holds started (world.now w2 + pulse_every) rx w2
  pub reads :
      (started due : ℕ) (rx : Receiver) (bs : Bytes) (w w' : W)
      → Holds started due rx w
      → world.read 256 w ≡ (ok bs, w')
      → Holds started due (feed rx bs) w'
  pub waits :
      (started due : ℕ) (rx rx' : Receiver) (w : W)
      → Holds started due rx w
      → next_frame rx ≡ (none, rx')
      → Holds started due rx' w
  pub reports :
      (started due : ℕ) (rx : Receiver) (w : W)
      → Holds started due rx w
      → Holds started due (record rx { discarded = [] }) (report_discarded world rx w).1
  pub skips :
      (started due : ℕ) (rx rx' : Receiver) (r : Result FrameError Frame) (note : Note) (w : W)
      → Holds started due rx w
      → next_frame rx ≡ (some r, rx')
      → Holds started due
          (record rx' { discarded = [] })
          (world.log_note note (report_discarded world rx' w).1)
  pub answers :
      (started due : ℕ) (rx rx' : Receiver) (f : Frame) (info : TargetInfo) (w : W)
      → Holds started due rx w
      → next_frame rx ≡ (some (ok f), rx')
      → family.is_status_frame f ≡ true
      → family.parse_status f baud ≡ ok info
      → Answer info (world.log_reply f (report_discarded world rx' w).1)

report_discarded-rx :
    {E W : Type 0} (world : World E W) (rx : Receiver) (w : W)
    → (report_discarded world rx w).0 ≡ record rx { discarded = [] }
report_discarded-rx world rx w = elim (List-cases rx.discarded) [
  | inl e ↦ rw e refl
  | inr (b, bs, e) ↦ rw e refl
]

module _ {E W : Type 0} (world : World E W) (family : ProtocolFamily) (baud wait : ℕ) (start : W)
    (Holds : ℕ → ℕ → Receiver → W → Type 0) (Answer : TargetInfo → W → Type 0)
    (rule : Rule world family baud wait start Holds Answer) where
  abbrev Gives : Met E W → Type 0
  Gives (met (ok info) w) = Answer info w
  Gives (met (err e) w) = Unit
  Gives unended = Unit

  or_io-Gives :
      {A : Type 0} (r : Result E A × W) (rest : A → W → Met E W)
      → ((a : A) (w : W) → r ≡ (ok a, w) → Gives (rest a w))
      → Gives (or_io r rest)
  unfolding or_io
  or_io-Gives (ok a, w) rest h = h a w refl
  or_io-Gives (err e, w) rest h = tt

  count_noise-Gives :
      (rx : Receiver) (noise : ℕ) (w : W) (rest : Receiver → ℕ → W → Met E W)
      → Gives (
          rest
            (record rx { discarded = [] })
            (noise + length rx.discarded)
            (report_discarded world rx w).1)
      → Gives (count_noise world family baud rx noise w rest)
  count_noise-Gives rx noise w rest h =
      subst
        (λ (x : Receiver).
          Gives (rest x (noise + length rx.discarded) (report_discarded world rx w).1))
        (sym (report_discarded-rx world rx w)) h

  module _ (started : ℕ) where
    -- A continuation that may be called at any moment at which the invariant holds.
    abbrev From : ℕ → (Receiver → ℕ → W → Met E W) → Type 0
    From due f = (rx : Receiver) (noise : ℕ) (w : W) → Holds started due rx w → Gives (f rx noise w)

    as_met-Gives :
        (w : W) (r : Result ProtocolError TargetInfo)
        → ((info : TargetInfo) → r ≡ ok info → Answer info w)
        → Gives (met (as_met r) w)
    as_met-Gives w (ok info) h = h info refl
    as_met-Gives w (err e) h = tt

    frame_round-Gives :
        (due : ℕ) (rx rx' : Receiver) (r : Result FrameError Frame) (noise : ℕ) (w : W)
        (again : Receiver → ℕ → W → Met E W)
        → Holds started due rx w
        → next_frame rx ≡ (some r, rx')
        → From due again
        → Gives (
            on_frame world family baud r
              (record rx' { discarded = [] })
              noise
              (report_discarded world rx' w).1
              again)
    unfolding on_frame
    frame_round-Gives due rx rx' (err e) noise w again h q go =
        go _ noise _ (rule.skips started due rx rx' (err e) (malformed e) w h q)
    frame_round-Gives due rx rx' (ok f) noise w again h q go =
        elim (Bool-cases (family.is_status_frame f)) [
          | inl e ↦ rw e (
              as_met-Gives _ (family.parse_status f baud)
                (λ info p. rule.answers started due rx rx' f info w h q e p))
          | inr e ↦
              rw e (go _ noise _ (rule.skips started due rx rx' (ok f) (ignoring f.cmd) w h q))
        ]

    polled-Gives :
        (due : ℕ) (rx : Receiver) (o : Polled) (noise : ℕ) (w : W)
        (again rest : Receiver → ℕ → W → Met E W)
        → Holds started due rx w
        → next_frame rx ≡ o
        → From due again
        → From due rest
        → Gives (frame_round world family baud o noise w again rest)
    unfolding frame_round
    polled-Gives due rx (none, rx') noise w again rest h q go end =
        end rx' noise w (rule.waits started due rx rx' w h q)
    polled-Gives due rx (some r, rx') noise w again rest h q go end =
        count_noise-Gives rx' noise w
          (λ rx2 noise2 w2. on_frame world family baud r rx2 noise2 w2 again)
          (frame_round-Gives due rx rx' r (noise + length rx'.discarded) w again h q go)

    frames_loop-Gives :
        (due fuel : ℕ) (rest : Receiver → ℕ → W → Met E W)
        → From due rest
        → From due (frames_loop world family baud fuel rest)
    unfolding frames_loop
    frames_loop-Gives due zero rest end rx noise w h = tt
    frames_loop-Gives due (suc fuel) rest end rx noise w h =
        polled-Gives due rx (next_frame rx) noise w (frames_loop world family baud fuel rest) rest h
          refl (frames_loop-Gives due fuel rest end) end

    -- The time of the last byte, after a read.
    abbrev last_heard : Sync → Bytes → W → ℕ
    last_heard s bs w = if ltb 0 (length bs) then world.now w else s.last_byte

    read_round-Gives :
        (s : Sync) (w : W) (again : Sync → W → Met E W)
        → Holds started s.pulse_due s.rx w
        → ((s' : Sync) (w' : W)
            → s'.pulse_due ≡ s.pulse_due
            → Holds started s.pulse_due s'.rx w'
            → Gives (again s' w'))
        → Gives (read_round world family baud (world.read 256 w) s again)
    unfolding read_round
    read_round-Gives s w again h go = or_io-Gives (world.read 256 w) _ (λ bs w' q.
        frames_loop-Gives s.pulse_due (suc (length (feed s.rx bs).buf)) _
          (λ rx1 noise1 w1 h1.
            count_noise-Gives rx1 noise1 w1
              (λ rx2 noise2 w2.
                again (record s { rx = rx2; noise = noise2; last_byte = last_heard s bs w' }) w2)
              (go _ _ refl (rule.reports started s.pulse_due rx1 w1 h1)))
          (feed s.rx bs) s.noise w' (rule.reads started s.pulse_due s.rx bs w w' h q))

    pulse-Gives :
        (s : Sync) (w : W) (rest : Sync → W → Met E W)
        → Holds started s.pulse_due s.rx w
        → world.now w - started < wait
        → ((s' : Sync) (w' : W) → Holds started s'.pulse_due s'.rx w' → Gives (rest s' w'))
        → Gives (pulse world family baud s w rest)
    unfolding pulse
    pulse-Gives s w rest h early go =
        elim (Bool-cases
          (not (ltb 0 (pending s.rx) && ltb (world.now w - s.last_byte) partial_stall))) [
            | inr e ↦ rw e (go s w h)
            | inl e ↦ elim (Bool-cases (leb s.pulse_due (world.now w))) [
              | inr l ↦ rw (e, l) (go s w h)
              | inl l ↦
                  rw (e, l)
                    (or_io-Gives (world.write_all (sync_byte ∷ []) w) _ (λ u w1 q1.
                      or_io-Gives (world.flush w1) _ (λ v w2 q2. go _ w2 (
                        rule.pulses started s.pulse_due s.rx w w1 w2 u v h early
                          (leb→le s.pulse_due (world.now w) l) q1 q2))))
            ]
          ]

    sync_loop-Gives :
        (fuel : ℕ) (s : Sync) (w : W)
        → Holds started s.pulse_due s.rx w
        → Gives (sync_loop world family baud fuel started wait s w)
    unfolding sync_loop
    sync_loop-Gives zero s w h = tt
    sync_loop-Gives (suc fuel) s w h = elim (Bool-cases (ltb (world.now w - started) wait)) [
      | inr e ↦ rw e tt
      | inl e ↦ rw e (
          pulse-Gives s w _ h (ltb→lt (world.now w - started) wait e) (λ s1 w1 h1.
            read_round-Gives s1 w1 _ h1 (λ s2 w2 same h2. sync_loop-Gives fuel s2 w2 (rw same h2))))
    ]

-- The rule: what starts and is kept holds at the end.
pub handshake_rule :
    {E W : Type 0} (world : World E W) (family : ProtocolFamily) (opts : SessionOptions) (wait : ℕ)
    (w : W) (Holds : ℕ → ℕ → Receiver → W → Type 0) (Answer : TargetInfo → W → Type 0)
    → Rule world family opts.handshake_baud wait w Holds Answer
    → (fuel : ℕ) (w' : W) (info : TargetInfo)
    → handshake fuel world family opts wait w ≡ met (ok info) w'
    → Answer info w'
unfolding handshake
handshake_rule world family opts wait w Holds Answer rule fuel w' info e =
    let baud = opts.handshake_baud in
    subst (Gives world family baud wait w Holds Answer rule) e (
      or_io-Gives world family baud wait w Holds Answer rule (world.tune baud w) _ (λ u w1 q.
        sync_loop-Gives world family baud wait w Holds Answer rule (world.now w1) fuel _ w1
          (rule.starts u w1 q)))
