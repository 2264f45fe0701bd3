-- ===== src/Driver/Serves.antt =====
-- A wire with a chip behind it that answers what src/driver.rs sends, and what a `Session` and a
-- `Receiver` make of the answers.
use stcbsl.Base.{
  ℕ, suc, ◌≤◌, ◌<◌, ◌≡◌, refl, sym, ap, ◌∙◌, inl, inr, true, false, Bool-cases, some, [],
  append-nil, length, get_elem?, arith, Result, ok, err, if◌then◌else◌,
}
use stcbsl.Base.Bytes.{Bytes}
use stcbsl.Base.Text.{Text}
use stcbsl.Frame.{Frame, encode, wire_len}
use stcbsl.Frame.RoundTrip.{length-encode}
use stcbsl.Receiver.{new, next_frame}
use stcbsl.Receiver.Resync.{next_frame-encode}
use stcbsl.Session.{Step, Session, send, expects_reply, send_step, advance_past, on_reply}
use stcbsl.Session.Reply.{Meets, on_reply-cases}
use stcbsl.Session.Progress.{send_of}
use stcbsl.Driver.{World, Note, Outcome, done, panicked, out_of_fuel}

abbrev pub IsOk : {E A : Type 0} → Result E A → Type 0
IsOk (ok a) = Unit
IsOk (err e) = ⊥

-- A wire on which nothing fails, with a chip behind it. `ready` is what the chip has sent and
-- nobody has read yet; `answer` is what it sends when it is written to.
pub record Serves {E W : Type 0} (world : World E W) (ready : W → Bytes) (answer : Bytes → Bytes)
    : Type 0 where
  pub writes :
      (bs : Bytes) (w : W)
      → ready w ≡ []
      → IsOk (world.write_all bs w).0 × (ready (world.write_all bs w).1 ≡ answer bs)
  pub reads :
      (n : ℕ) (w : W)
      → length (ready w) ≤ n
      → ((world.read n w).0 ≡ ok (ready w)) × (ready (world.read n w).1 ≡ [])
  pub tunes : (b : ℕ) (w : W) → IsOk (world.tune b w).0 × (ready (world.tune b w).1 ≡ ready w)
  pub flushes : (w : W) → IsOk (world.flush w).0 × (ready (world.flush w).1 ≡ ready w)
  pub drains : (w : W) → IsOk (world.drain w).0 × (ready (world.drain w).1 ≡ ready w)
  pub sleeps : (ms : ℕ) (w : W) → ready (world.sleep ms w) ≡ ready w
  pub logs_step : (l : Text) (bs : Bytes) (w : W) → ready (world.log_step l bs w) ≡ ready w
  pub logs_reply : (f : Frame) (w : W) → ready (world.log_reply f w) ≡ ready w
  pub logs_note : (n : Note) (w : W) → ready (world.log_note n w) ≡ ready w

-- The chip answers a step with a frame that the step expects and that one read can hold, and that
-- it is given time for; to a step that expects no reply it says nothing.
pub record IsAnswered (answer : Bytes → Bytes) (step : Step) : Type 0 where
  pub answers :
      expects_reply step.expect ≡ true
      → (f : Frame) × (answer (encode step.frame) ≡ encode f)
        × (length f.payload ≤ 504)
        × Meets step f
        × (0 < step.timeout_ms)
  pub silent : expects_reply step.expect ≡ false → answer (encode step.frame) ≡ []

abbrev pub Succeeds : {E W : Type 0} → Outcome E W → Type 0
Succeeds (done (ok u) s w) = Unit
Succeeds (done (err e) s w) = ⊥
Succeeds panicked = ⊥
Succeeds out_of_fuel = ⊥

-- The session after a step has been sent.
abbrev pub sent_session : Step → Session → Session
sent_session step s = (send_step step s).1

pub send_step-Send :
    (step : Step) (s : Session)
    → s.awaiting ≡ false
    → (send_step step s ≡ (send (send_of s.at step), sent_session step s))
      × ((sent_session step s).steps ≡ s.steps)
      × ((sent_session step s).awaiting ≡ expects_reply step.expect)
      × ((sent_session step s).at ≡ (if expects_reply step.expect then s.at else suc s.at))
unfolding send_step advance_past
send_step-Send step s idle = elim (Bool-cases (expects_reply step.expect)) [
  | inl e ↦ rw (sent_session, e) (refl, refl, refl, refl)
  | inr e ↦ rw (sent_session, e) (refl, refl, refl, refl)
]

pub at_stays :
    (step : Step) (s : Session)
    → expects_reply step.expect ≡ true
    → (sent_session step s).at ≡ (if expects_reply step.expect then s.at else suc s.at)
    → (sent_session step s).at ≡ s.at
at_stays step s x e = e ∙ rw x refl

pub at_moves :
    (step : Step) (s : Session)
    → expects_reply step.expect ≡ false
    → (sent_session step s).at ≡ (if expects_reply step.expect then s.at else suc s.at)
    → (sent_session step s).at ≡ suc s.at
at_moves step s x e = e ∙ rw x refl

pub one_read : (f : Frame) → length f.payload ≤ 504 → length (encode f) ≤ 512
unfolding wire_len
one_read f h = omega (arith, length-encode f)

pub on_reply-Meets :
    (step : Step) (f : Frame) (s : Session)
    → s.awaiting ≡ true
    → get_elem? s.steps s.at ≡ some step
    → Meets step f
    → on_reply f s ≡ some (ok tt, advance_past step s)
on_reply-Meets step f s busy here meets = elim (on_reply-cases step f s busy here) [
  | inl (m, e) ↦ e
  | inr (refused, x, e) ↦ absurd (refused meets)
]

pub polled_frame :
    (f : Frame)
    → length f.payload ≤ 1018
    → next_frame (record { buf = encode f; discarded = [] }) ≡ (some (ok f), new)
polled_frame f h =
    ap (λ (b : Bytes). next_frame (record { buf = b; discarded = [] }))
      (sym (append-nil (encode f)))
    ∙ next_frame-encode [] f [] [] tt h
