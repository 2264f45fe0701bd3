-- ===== src/Receiver/Chunks.antt =====
-- The receiver of src/frame.rs does not see how its input was cut into reads.
use stcbsl.Base.{
  ℕ, zero, suc, ◌≤◌, ◌<◌, ◌≡◌, refl, sym, ap, ◌∙◌, Option, none, some, List, [], ◌∷◌, ◌++◌, Result,
  ok, err, length, take, drop, arith, append_assoc, take-append_le, drop-append_le, length-append,
  length-take, length-drop,
}
use stcbsl.Base.Bytes.{Bytes}
use stcbsl.Frame.{Frame, FrameError, decode}
use stcbsl.Receiver.{
  Receiver, Hunt, need_more, advanced, frame, feed, hunt, Polled, accept, take_frame, after_hunt,
  next_frame,
}
use stcbsl.Receiver.Hunting.{Bounds, Resumes, hunt_loop-append}
use stcbsl.Receiver.Loop.{next_frame_loop, next_frame_rule, hunt-Bounds, take_frame-ne-none}

module _ (more : Bytes) where
  hunt-feed : (rx : Receiver) → Resumes more (hunt rx) (hunt (feed rx more))
  unfolding hunt
  hunt-feed rx = hunt_loop-append rx.buf rx.discarded more

  feed_polled : Polled → Polled
  feed_polled (o, rx) = (o, feed rx more)

  accept-feed :
      (r : Result FrameError Frame) (bytes : Bytes) (rx : Receiver)
      → accept r bytes (feed rx more) ≡ feed_polled (accept r bytes rx)
  unfolding accept feed_polled
  accept-feed (ok f) bytes rx = refl
  accept-feed (err e) bytes rx =
      ap
        (λ (b : Bytes).
          (some (err e), record { buf = b; discarded = rx.discarded ++ take 1 bytes }))
        (sym (append_assoc (drop 1 bytes) rx.buf more))

  take_frame-feed :
      (n : ℕ) (rx : Receiver)
      → n ≤ length rx.buf
      → take_frame n (feed rx more) ≡ feed_polled (take_frame n rx)
  unfolding take_frame
  take_frame-feed n rx h =
      rw (take-append_le n rx.buf more h, drop-append_le n rx.buf more h)
        (accept-feed (decode (take n rx.buf)) (take n rx.buf) (record rx { buf = drop n rx.buf }))

  abbrev Continues : Receiver → Polled → Type 0
  Continues rx (none, rx') = next_frame (feed rx more) ≡ next_frame (feed rx' more)
  Continues rx (some r, rx') = next_frame (feed rx more) ≡ (some r, feed rx' more)

  Continues-polled :
      (rx : Receiver) (o : Polled)
      → next_frame (feed rx more) ≡ feed_polled o
      → (o.0 ≡ none → ⊥)
      → Continues rx o
  unfolding feed_polled
  Continues-polled rx (none, rx') e h = absurd (h refl)
  Continues-polled rx (some r, rx') e h = e

  step_loop :
      (rx r' : Receiver) (h : Hunt)
      → hunt (feed rx more) ≡ (h, r')
      → next_frame (feed rx more) ≡ after_hunt h r' next_frame
  step_loop rx r' h e = rw e at (next_frame_loop (feed rx more))

  same_hunt : (a b : Receiver) → hunt a ≡ hunt b → next_frame a ≡ next_frame b
  same_hunt a b e =
      next_frame_loop a
      ∙ ap (λ (p : Hunt × Receiver). after_hunt p.0 p.1 next_frame) e
      ∙ sym (next_frame_loop b)

  same_waiting :
      (rx rx' : Receiver) → hunt rx ≡ (need_more, rx') → hunt (feed rx more) ≡ hunt (feed rx' more)
  same_waiting rx rx' e =
      let r : Resumes more (need_more, rx') (hunt (feed rx more)) = rw e at (hunt-feed rx) in
      unfold hunt in r

  round_loop :
      (rx rx' : Receiver)
      → hunt rx ≡ (advanced, rx')
      → next_frame (feed rx more) ≡ next_frame (feed rx' more)
  round_loop rx rx' e =
      unfold after_hunt in step_loop rx (feed rx' more) advanced (rw e at (hunt-feed rx))

  Continues-back :
      (rx rx' : Receiver) (o : Polled)
      → next_frame (feed rx more) ≡ next_frame (feed rx' more)
      → Continues rx' o
      → Continues rx o
  Continues-back rx rx' (none, r) e c = e ∙ c
  Continues-back rx rx' (some x, r) e c = e ∙ c

  take_loop :
      (rx rx' : Receiver) (n : ℕ)
      → hunt rx ≡ (frame n, rx')
      → next_frame (feed rx more) ≡ feed_polled (take_frame n rx')
  unfolding after_hunt
  take_loop rx rx' n e =
      let b : Bounds rx.buf (frame n, rx') = rw e at (hunt-Bounds rx) in
      step_loop rx (feed rx' more) (frame n) (rw e at (hunt-feed rx)) ∙ take_frame-feed n rx' b.1

  next_frame-Continues : (rx : Receiver) → Continues rx (next_frame rx)
  next_frame-Continues =
      next_frame_rule Continues
        (λ rx rx' e. same_hunt (feed rx more) (feed rx' more) (same_waiting rx rx' e))
        (λ rx rx' o e c. Continues-back rx rx' o (round_loop rx rx' e) c)
        (λ rx rx' n e. Continues-polled rx (take_frame n rx') (take_loop rx rx' n e) (λ q.
          take_frame-ne-none n rx' (take_frame n rx').1 (
            ap
              (λ (x : Option (Result FrameError Frame)).
                let p : Polled = (x, (take_frame n rx').1) in p)
              q)))

-- Reads of the receiver until it waits: the answers in order, and the receiver then. The caller
-- loops in this way each time the wire has given it bytes.
pub data Drains : Receiver → List (Result FrameError Frame) → Receiver → Type 0 where
  idle : {rx rx' : Receiver} → next_frame rx ≡ (none, rx') → Drains rx [] rx'
  got :
      {rx rx' rx'' : Receiver} {r : Result FrameError Frame} {rs : List (Result FrameError Frame)}
      → next_frame rx ≡ (some r, rx')
      → Drains rx' rs rx''
      → Drains rx (r ∷ rs) rx''

Drains-same :
    {a b c : Receiver} {rs : List (Result FrameError Frame)}
    → next_frame a ≡ next_frame b
    → Drains b rs c
    → Drains a rs c
Drains-same e (idle q) = idle (e ∙ q)
Drains-same e (got q d) = got (e ∙ q) d

-- The answers do not depend on how the input was cut: draining what is there, feeding more and
-- draining again gives in sequence what feeding all of it at once and draining gives, and leaves
-- the same receiver.
pub Drains-feed :
    {rx rx' rx'' : Receiver} {rs rs' : List (Result FrameError Frame)} (more : Bytes)
    → Drains rx rs rx'
    → Drains (feed rx' more) rs' rx''
    → Drains (feed rx more) (rs ++ rs') rx''
Drains-feed more (idle {rx = a} q) later = Drains-same (rw q at (next_frame-Continues more a)) later
Drains-feed more (got {rx = a} q d) later =
    got (rw q at (next_frame-Continues more a)) (Drains-feed more d later)

-- An answer makes the buffer shorter, and no call makes it longer.
abbrev pub Shrinks : Receiver → Polled → Type 0
Shrinks rx (none, rx') = length rx'.buf ≤ length rx.buf
Shrinks rx (some r, rx') = length rx'.buf < length rx.buf

accept-Shrinks :
    (r : Result FrameError Frame) (n : ℕ) (rx : Receiver)
    → 8 ≤ n
    → n ≤ length rx.buf
    → Shrinks rx (accept r (take n rx.buf) (record rx { buf = drop n rx.buf }))
unfolding accept
accept-Shrinks (ok f) n rx h l = omega (arith, length-drop n rx.buf)
accept-Shrinks (err e) n rx h l = omega (
  arith,
  length-drop n rx.buf,
  length-append (drop 1 (take n rx.buf)) (drop n rx.buf),
  length-drop 1 (take n rx.buf),
  length-take n rx.buf,
)

Shrinks-shorter :
    (rx rx' : Receiver) (o : Polled) → length rx'.buf ≤ length rx.buf → Shrinks rx' o → Shrinks rx o
Shrinks-shorter rx rx' (none, r) l s = omega arith
Shrinks-shorter rx rx' (some x, r) l s = omega arith

pub next_frame-Shrinks : (rx : Receiver) → Shrinks rx (next_frame rx)
next_frame-Shrinks =
    next_frame_rule Shrinks (λ rx rx' e. waiting rx rx' e)
      (λ rx rx' o e s. Shrinks-shorter rx rx' o (le_of_advanced rx rx' e) s)
      (λ rx rx' n e. taken rx rx' n (rw e at (hunt-Bounds rx)))
  where
    waiting : (rx rx' : Receiver) → hunt rx ≡ (need_more, rx') → length rx'.buf ≤ length rx.buf
    waiting rx rx' e = let b : Bounds rx.buf (need_more, rx') = rw e at (hunt-Bounds rx) in b

    le_of_advanced :
        (rx rx' : Receiver) → hunt rx ≡ (advanced, rx') → length rx'.buf ≤ length rx.buf
    le_of_advanced rx rx' e =
        let b : Bounds rx.buf (advanced, rx') = rw e at (hunt-Bounds rx) in omega arith

    taken :
        (rx rx' : Receiver) (n : ℕ) → Bounds rx.buf (frame n, rx') → Shrinks rx (take_frame n rx')
    taken rx rx' n b =
        unfold take_frame in
        Shrinks-shorter rx rx' (take_frame n rx') b.2
          (accept-Shrinks (decode (take n rx'.buf)) n rx' b.0 b.1)

drains :
    (fuel : ℕ) (rx : Receiver) (o : Polled)
    → length rx.buf < fuel
    → next_frame rx ≡ o
    → (rs : List (Result FrameError Frame)) × (rx' : Receiver) × Drains rx rs rx'
drains zero rx o l e = absurd (omega arith)
drains (suc fuel) rx (none, r) l e = ([], r, idle e)
drains (suc fuel) rx (some x, r) l e =
    let s : Shrinks rx (some x, r) = rw e at (next_frame-Shrinks rx) in
    let (rs, last, d) = drains fuel r (next_frame r) (omega arith) refl in (x ∷ rs, last, got e d)

-- Draining ends from every state of the receiver.
pub Drains-total :
    (rx : Receiver) → (rs : List (Result FrameError Frame)) × (rx' : Receiver) × Drains rx rs rx'
Drains-total rx = drains (suc (length rx.buf)) rx (next_frame rx) (omega arith) refl
