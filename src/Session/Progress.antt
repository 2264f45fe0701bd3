-- ===== src/Session/Progress.antt =====
-- What a driver can see of a `Session` (src/session.rs), whatever it calls and whatever it is told:
-- the frames sent so far, and the report on the flash.
use mathlib.Core.Path.{subst}
use stcbsl.Base.{
  ℕ, zero, suc, ◌+◌, ◌≤◌, ◌≡◌, ◌⊎◌, refl, sym, ap, ◌∙◌, inl, inr, true, false, ◌&&◌, Option, none,
  some, List, [], ◌∷◌, ◌++◌, Result, ok, err, length, get_elem?, take, drop, arith, Bool-cases,
  append-nil, take_all, drop_all,
}
use stcbsl.Frame.{Frame, encode, mcu_to_host, dir_eq}
use stcbsl.Session.{
  Step, expects_reply, Session, new, advance_past, send_step, next_action, Send, send, settle,
  reply_at, check_reply, Action, SessionError, on_reply, flash_is_indeterminate, is_finished,
}
use stcbsl.Session.Inv.{
  sent, IsConsistent, new-IsConsistent, next_action-IsConsistent, on_reply-IsConsistent,
  next_action_waiting, next_action_finished, next_action_sends, on_reply_idle, on_reply_at,
}
use stcbsl.Session.Flags.{any_write, get_elem?-cases}

-- What `next_action` tells the driver to send for the step at an index.
abbrev pub send_of : ℕ → Step → Send
send_of i step = record {
  index = i;
  label = step.label;
  phase = step.phase;
  bytes = encode step.frame;
  expect_reply = expects_reply step.expect;
  timeout_ms = step.timeout_ms;
  retune_before_send = step.retune_before_send;
  retune_after_send = step.retune_after_send;
}

abbrev pub sends_from : ℕ → List Step → List Send
sends_from i [] = []
sends_from i (step ∷ steps) = send_of i step ∷ sends_from (suc i) steps

abbrev pub sends_of : Action → List Send
sends_of (send x) = x ∷ []
sends_of _ = []

-- The states that a new session comes to under any calls of its methods, with what it has told the
-- driver to send on the way, in order.
pub data Reaches (steps : List Step) : List Send → Session → Type 0 where
  start : Reaches steps [] (new steps)
  acts :
      {log : List Send} {s s' : Session} {a : Action}
      → Reaches steps log s
      → next_action s ≡ some (a, s')
      → Reaches steps (log ++ sends_of a) s'
  hears :
      {log : List Send} {s s' : Session} {r : Result SessionError (Unit {0})} (reply : Frame)
      → Reaches steps log s
      → on_reply reply s ≡ some (r, s')
      → Reaches steps log s'

-- What holds of a returned pair holds of it under its other description.
abbrev Returns {ℓ} : {A : Type 0} → (A → Session → Type ℓ) → Option (A × Session) → Type ℓ
Returns P none = Unit
Returns P (some (a, s)) = P a s

pub Reaches-IsConsistent :
    {steps : List Step} {log : List Send} {s : Session} → Reaches steps log s → IsConsistent s
Reaches-IsConsistent {steps} start = new-IsConsistent steps
Reaches-IsConsistent (acts {s = s} r e) =
    let (a, t, q, c) = next_action-IsConsistent s (Reaches-IsConsistent r) in
    subst (Returns (λ x. IsConsistent)) (sym q ∙ e) c
Reaches-IsConsistent (hears {s = s} reply r e) =
    let (a, t, q, c) = on_reply-IsConsistent reply s (Reaches-IsConsistent r) in
    subst (Returns (λ x. IsConsistent)) (sym q ∙ e) c

sent-cases : (s : Session) → (sent s ≡ s.at) ⊎ (sent s ≡ suc s.at)
sent-cases s = ground arith

-- Where no write step is left from `at` on, all that were sent are before `at`.
any_write-take_sent :
    (k : ℕ) (l : List Step)
    → any_write (drop k l) ≡ false
    → any_write (take (suc k) l) ≡ any_write (take k l)
any_write-take_sent zero [] e = refl
any_write-take_sent zero (s ∷ ss) e = ground arith
any_write-take_sent (suc k) [] e = refl
any_write-take_sent (suc k) (s ∷ ss) e = ground (arith, any_write-take_sent k ss e)

indeterminate :
    (s : Session)
    → IsConsistent s
    → flash_is_indeterminate s
      ≡ (any_write (take (sent s) s.steps) && any_write (drop s.at s.steps))
unfolding flash_is_indeterminate
indeterminate s c =
    ground (arith, c.started, c.finished, sent-cases s, any_write-take_sent s.at s.steps)

-- The report on the flash is honest. In every state that a session can come to,
-- `flash_is_indeterminate` says exactly this: a write block has been sent, and a write block is
-- left that has not been acknowledged.
pub flash_is_indeterminate_iff :
    {steps : List Step} {log : List Send} {s : Session}
    → Reaches steps log s
    → flash_is_indeterminate s
      ≡ (any_write (take (sent s) s.steps) && any_write (drop s.at s.steps))
flash_is_indeterminate_iff {s = s} r = indeterminate s (Reaches-IsConsistent r)

sends_from-take-suc :
    (i k : ℕ) (l : List Step) (step : Step)
    → get_elem? l k ≡ some step
    → sends_from i (take k l) ++ send_of (i + k) step ∷ [] ≡ sends_from i (take (suc k) l)
sends_from-take-suc i k [] step e = cc
sends_from-take-suc i zero (s ∷ ss) step e = ground arith
sends_from-take-suc i (suc k) (s ∷ ss) step e =
    ground (arith, sends_from-take-suc (suc i) k ss step e)

-- The log is the plan, cut after the step that was sent last.
abbrev pub Logged : List Step → List Send → Session → Type 0
Logged steps log s = (s.steps ≡ steps) × (log ≡ sends_from 0 (take (sent s) steps))

send_step-Logged :
    (steps : List Step) (log : List Send) (s : Session) (step : Step)
    → s.awaiting ≡ false
    → get_elem? s.steps s.at ≡ some step
    → Logged steps log s
    → Logged steps (log ++ sends_of (send_step step s).0) (send_step step s).1
unfolding send_step advance_past
send_step-Logged steps log s step idle e (same, l) =
    ground (arith, sends_from-take-suc 0 s.at steps step (rw (← same) e))

settle-Logged :
    (steps : List Step) (log : List Send) (s : Session) (step : Step)
    (r : Result SessionError (Unit {0}))
    → s.awaiting ≡ true
    → Logged steps log s
    → Logged steps log (settle r step s).1
unfolding settle advance_past
settle-Logged steps log s step (ok u) busy l = ground arith
settle-Logged steps log s step (err x) busy l = l

reply_at-Logged :
    (steps : List Step) (log : List Send) (s : Session) (step : Step) (reply : Frame)
    → s.awaiting ≡ true
    → Logged steps log s
    → Logged steps log (reply_at step reply s).1
unfolding reply_at
reply_at-Logged steps log s step reply busy l = elim (Bool-cases (dir_eq reply.dir mcu_to_host)) [
  | inr e ↦ rw e l
  | inl e ↦ rw e (settle-Logged steps log s step (check_reply step step.expect reply) busy l)
]

next_action-Logged :
    (steps : List Step) (log : List Send) (s : Session)
    → Logged steps log s
    → Returns (λ a s'. Logged steps (log ++ sends_of a) s') (next_action s)
next_action-Logged steps log s l = elim (Bool-cases s.awaiting) [
  | inl busy ↦ rw (next_action_waiting s busy, append-nil) l
  | inr idle ↦ elim (get_elem?-cases s.steps s.at) [
    | inl (out, e) ↦ rw (next_action_finished s idle out, append-nil) l
    | inr (step, inside, e) ↦
        rw (next_action_sends s step idle e) (send_step-Logged steps log s step idle e l)
  ]
]

on_reply-Logged :
    (steps : List Step) (log : List Send) (reply : Frame) (s : Session)
    → IsConsistent s
    → Logged steps log s
    → Returns (λ r s'. Logged steps log s') (on_reply reply s)
on_reply-Logged steps log reply s c l = elim (Bool-cases s.awaiting) [
  | inr idle ↦ rw (on_reply_idle reply s idle) l
  | inl busy ↦
      let (step, e, x) = c.waits busy in
      rw (on_reply_at reply s step busy e) (reply_at-Logged steps log s step reply busy l)
]

pub Reaches-Logged :
    {steps : List Step} {log : List Send} {s : Session} → Reaches steps log s → Logged steps log s
Reaches-Logged start = (refl, refl)
Reaches-Logged {steps} (acts {log = log} {s = s} {s' = s'} {a = a} r e) =
    subst (Returns (λ b t. Logged steps (log ++ sends_of b) t)) e
      (next_action-Logged steps log s (Reaches-Logged r))
Reaches-Logged {steps} {log} (hears {s = s} reply r e) =
    subst (Returns (λ b t. Logged steps log t)) e
      (on_reply-Logged steps log reply s (Reaches-IsConsistent r) (Reaches-Logged r))

-- Whatever the driver calls and whatever it is told, the frames that a session has it send are
-- those of the planned steps, in the plan's order, each once and none skipped: a front part of the
-- plan, up to the step at `at`, which is included while its reply is outstanding.
pub Reaches-sends :
    {steps : List Step} {log : List Send} {s : Session}
    → Reaches steps log s
    → log ≡ sends_from 0 (take (sent s) steps)
Reaches-sends r = (Reaches-Logged r).1

-- A finished session has sent the whole plan, and its flash is not indeterminate.
pub is_finished_sends :
    {steps : List Step} {log : List Send} {s : Session}
    → Reaches steps log s
    → is_finished s ≡ true
    → (log ≡ sends_from 0 steps) × (flash_is_indeterminate s ≡ false)
unfolding is_finished
is_finished_sends {steps} {log} {s} r e =
    let (same, l) = Reaches-Logged r in
    let idle : s.awaiting ≡ false = ground arith in
    let out : length s.steps ≤ s.at = ground arith in
    (
      l ∙ ap (sends_from 0) (rw idle (take_all s.at steps (rw same at out))),
      indeterminate s (Reaches-IsConsistent r) ∙ ground (arith, drop_all s.at s.steps out),
    )
