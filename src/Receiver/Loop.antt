-- ===== src/Receiver/Loop.antt =====
-- `Receiver::next_frame` of src/frame.rs as the loop it is: the bound on its rounds is never felt.
use stcbsl.Base.{
  ℕ, zero, suc, ◌≤◌, ◌<◌, ◌≡◌, ◌≢◌, refl, sym, ap, ◌∙◌, none, some, [], ◌++◌, Result, ok, err,
  length, take, drop, arith, append-nil,
}
use stcbsl.Base.Bytes.{Bytes}
use stcbsl.Frame.{Frame, FrameError, decode}
use stcbsl.Receiver.{
  Receiver, Hunt, need_more, advanced, frame, hunt_loop, hunt, Polled, accept, take_frame,
  after_hunt, next_loop, next_frame,
}
use stcbsl.Receiver.Hunting.{Bounds, hunt_loop-Bounds, Resumes, hunt_loop-append}

pub hunt-Bounds : (rx : Receiver) → Bounds rx.buf (hunt rx)
unfolding hunt
hunt-Bounds rx = hunt_loop-Bounds rx.buf rx.discarded

-- The rounds left matter only for a receiver that has become shorter.
after_hunt-agree :
    (buf : Bytes) (h : Hunt) (rx : Receiver) (p q : Receiver → Polled)
    → Bounds buf (h, rx)
    → ((r : Receiver) → length r.buf < length buf → p r ≡ q r)
    → after_hunt h rx p ≡ after_hunt h rx q
unfolding after_hunt
after_hunt-agree buf need_more rx p q b same = refl
after_hunt-agree buf advanced rx p q b same = same rx b
after_hunt-agree buf (frame n) rx p q b same = refl

pub next_loop_fuel :
    (k j : ℕ) (rx : Receiver)
    → length rx.buf < k
    → length rx.buf < j
    → next_loop k rx ≡ next_loop j rx
unfolding next_loop
next_loop_fuel zero j rx hk hj = absurd (omega arith)
next_loop_fuel (suc k) zero rx hk hj = absurd (omega arith)
next_loop_fuel (suc k) (suc j) rx hk hj =
    after_hunt-agree rx.buf (hunt rx).0 (hunt rx).1 (next_loop k) (next_loop j) (hunt-Bounds rx)
      (λ r h. next_loop_fuel k j r (omega arith) (omega arith))

-- The equation of the loop without the bound on its rounds.
pub next_frame_loop :
    (rx : Receiver) → next_frame rx ≡ after_hunt (hunt rx).0 (hunt rx).1 next_frame
unfolding next_frame
next_frame_loop rx =
    unfold next_loop in
    after_hunt-agree rx.buf (hunt rx).0 (hunt rx).1 (next_loop (length rx.buf)) next_frame
      (hunt-Bounds rx)
      (λ r h. next_loop_fuel (length rx.buf) (suc (length r.buf)) r h (omega arith))

-- To prove a property of what `next_frame` returns: prove it at each way the loop ends, and that
-- it carries back over one more round.
pub next_frame_rule {ℓ} :
    (P : Receiver → Polled → Type ℓ)
    → ((rx rx' : Receiver) → hunt rx ≡ (need_more, rx') → P rx (none, rx'))
    → ((rx rx' : Receiver) (o : Polled) → hunt rx ≡ (advanced, rx') → P rx' o → P rx o)
    → ((rx rx' : Receiver) (n : ℕ) → hunt rx ≡ (frame n, rx') → P rx (take_frame n rx'))
    → (rx : Receiver) → P rx (next_frame rx)
next_frame_rule P stop round take_it rx = go (suc (length rx.buf)) rx (omega arith)
  where
    split :
        (fuel : ℕ) (rx : Receiver) (h : Hunt) (rx' : Receiver)
        → hunt rx ≡ (h, rx')
        → Bounds rx.buf (h, rx')
        → length rx.buf ≤ fuel
        → ((r : Receiver) → length r.buf < fuel → P r (next_frame r))
        → P rx (after_hunt h rx' next_frame)
    split fuel rx need_more rx' e b l rec = unfold after_hunt in stop rx rx' e
    split fuel rx advanced rx' e b l rec =
        unfold after_hunt in round rx rx' (next_frame rx') e (rec rx' (omega arith))
    split fuel rx (frame n) rx' e b l rec = unfold after_hunt in take_it rx rx' n e

    go : (fuel : ℕ) (rx : Receiver) → length rx.buf < fuel → P rx (next_frame rx)
    go zero rx l = absurd (omega arith)
    go (suc fuel) rx l =
        rw (next_frame_loop rx)
          (split fuel rx (hunt rx).0 (hunt rx).1 refl (hunt-Bounds rx) (omega arith) (go fuel))

-- The source's unbounded loop, run to its end: each derivation is a finite number of rounds.
pub data Runs : Receiver → Polled → Type 0 where
  stops : {rx rx' : Receiver} → hunt rx ≡ (need_more, rx') → Runs rx (none, rx')
  goes_round : {rx rx' : Receiver} {o : Polled} → hunt rx ≡ (advanced, rx') → Runs rx' o → Runs rx o
  takes :
      {rx rx' : Receiver} {o : Polled} (n : ℕ)
      → hunt rx ≡ (frame n, rx')
      → o ≡ take_frame n rx'
      → Runs rx o

-- What a loop that has ended has returned.
Runs-next_frame : {rx : Receiver} {o : Polled} → Runs rx o → o ≡ next_frame rx
unfolding after_hunt
Runs-next_frame (stops {rx = rx} e) = sym (next_frame_loop rx ∙ rw e refl)
Runs-next_frame (goes_round {rx = rx} e r) =
    Runs-next_frame r ∙ sym (next_frame_loop rx ∙ rw e refl)
Runs-next_frame (takes {rx = rx} n e is) = is ∙ sym (next_frame_loop rx ∙ rw e refl)

-- The loop of `Receiver::next_frame`, which the source does not bound, ends on every receiver, and
-- what it returns is what the model does, and nothing else. The loop is taken as it is written:
-- hunt once, then stop for more bytes, take a frame, or go round again with the receiver that the
-- hunt has left.
pub next_frame-Runs :
    (rx : Receiver) → Runs rx (next_frame rx) × ((o : Polled) → Runs rx o → o ≡ next_frame rx)
next_frame-Runs rx = (
  next_frame_rule Runs (λ rx rx' e. stops e) (λ rx rx' o e r. goes_round e r)
      (λ rx rx' n e. takes n e refl) rx,
  λ o r. Runs-next_frame r,
)

-- `take_frame` always reports something.
pub take_frame-ne-none : (n : ℕ) (rx rx' : Receiver) → take_frame n rx ≢ (none, rx')
unfolding take_frame
take_frame-ne-none n rx rx' e = accepts (decode (take n rx.buf)) e
  where
    accepts :
        (r : Result FrameError Frame)
        → accept r (take n rx.buf) (record rx { buf = drop n rx.buf }) ≢ (none, rx')
    accepts (ok f) q = cc (ap (λ (o : Polled). o.0) q)
    accepts (err x) q = cc (ap (λ (o : Polled). o.0) q)

-- A hunt that waits, waits again where it stopped.
hunt_waits : (rx rx' : Receiver) → hunt rx ≡ (need_more, rx') → hunt rx' ≡ (need_more, rx')
unfolding hunt
hunt_waits rx rx' e =
    let again : Resumes [] (hunt rx) (hunt_loop (rx.buf ++ []) rx.discarded) =
      hunt_loop-append rx.buf rx.discarded [] in
    sym (rw (e, append-nil, append-nil) at again) ∙ e

abbrev Waiting : Receiver → Polled → Type 0
Waiting rx (none, rx') = hunt rx' ≡ (need_more, rx')
Waiting rx (some r, rx') = Unit

-- `next_frame` answers `None` only when it has to: what is left in the buffer makes `hunt` ask for
-- more bytes, and no frame, bad header or noise byte is still to be taken from it.
pub next_frame_waits :
    (rx rx' : Receiver) → next_frame rx ≡ (none, rx') → hunt rx' ≡ (need_more, rx')
next_frame_waits rx rx' e = rw e at (
    next_frame_rule Waiting hunt_waits (λ rx rx' o e h. h)
      (λ rx r n e. reported rx (take_frame n r) (take_frame-ne-none n r)) rx)
  where
    reported : (s : Receiver) (o : Polled) → ((r : Receiver) → o ≢ (none, r)) → Waiting s o
    reported s (none, r) h = absurd (h r refl)
    reported s (some x, r) h = tt
