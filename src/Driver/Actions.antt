-- ===== src/Driver/Actions.antt =====
-- What src/driver.rs can rely on when it calls a `Session`: the actions it is given when no reply is
-- outstanding, and that an accepted reply is no longer awaited. Also when `wrap` wraps.
use stcbsl.Base.{
  ◌≡◌, refl, ap, ◌∙◌, ◌⊎◌, inl, inr, Bool, true, false, Bool-cases, Option, none, some, arith,
  Result, ok, err,
}
use stcbsl.Frame.{Frame, mcu_to_host, dir_eq}
use stcbsl.Session.{
  Step, Session, SessionError, Send, Action, send, finished, next_action, on_reply,
  flash_is_indeterminate, is_finished, expects_reply, send_step, advance_past, settle, reply_at,
  check_reply,
}
use stcbsl.Session.Progress.{send_of}
use stcbsl.Session.Inv.{IsConsistent, next_action_finished, next_action_sends, on_reply_at}
use stcbsl.Session.Flags.{get_elem?-cases}
use stcbsl.Driver.{Error, indeterminate_flash, wrap}

abbrev pub is_wrapped : {E : Type 0} → Error E → Bool
is_wrapped (indeterminate_flash e) = true
is_wrapped _ = false

pub wrap-is_wrapped :
    {E : Type 0} (s : Session) (e : Error E)
    → is_wrapped e ≡ false
    → is_wrapped (wrap s e) ≡ flash_is_indeterminate s
unfolding wrap
wrap-is_wrapped s e h = elim (Bool-cases (flash_is_indeterminate s)) [
  | inl i ↦ rw i refl
  | inr i ↦ rw i h
]

-- What `next_action` does when no reply is outstanding.
pub next_action-cases :
    (s : Session)
    → s.awaiting ≡ false
    → ((next_action s ≡ some (finished, s)) × (is_finished s ≡ true))
      ⊎ ((x : Send) × (s' : Session) × (next_action s ≡ some (send x, s'))
          × (x.expect_reply ≡ s'.awaiting))
unfolding is_finished
next_action-cases s idle = elim (get_elem?-cases s.steps s.at) [
  | inl (out, e) ↦ inl (next_action_finished s idle out, ground arith)
  | inr (step, inside, e) ↦
      let (same, expects) = send_step-sends step s idle in
      inr (
        send_of s.at step,
        (send_step step s).1,
        next_action_sends s step idle e ∙ ap (λ (p : Action × Session). some p) same,
        expects,
      )
]
  where
    send_step-sends :
        (step : Step) (s : Session)
        → s.awaiting ≡ false
        → (send_step step s ≡ (send (send_of s.at step), (send_step step s).1))
          × (expects_reply step.expect ≡ (send_step step s).1.awaiting)
    send_step-sends step s idle =
        unfold send_step advance_past in
        elim (Bool-cases (expects_reply step.expect)) [
          | inl e ↦ rw e (refl, refl)
          | inr e ↦ rw e (refl, refl)
        ]

-- A reply that is accepted is no longer awaited.
abbrev pub Heard : Option (Result SessionError (Unit {0}) × Session) → Type 0
Heard none = ⊥
Heard (some (ok u, s)) = s.awaiting ≡ false
Heard (some (err e, s)) = Unit

settle-Heard :
    (r : Result SessionError (Unit {0})) (step : Step) (s : Session)
    → Heard (some (settle r step s))
unfolding settle advance_past
settle-Heard (ok u) step s = refl
settle-Heard (err e) step s = tt

reply_at-Heard : (step : Step) (f : Frame) (s : Session) → Heard (some (reply_at step f s))
unfolding reply_at
reply_at-Heard step f s = elim (Bool-cases (dir_eq f.dir mcu_to_host)) [
  | inl e ↦ rw e (settle-Heard (check_reply step step.expect f) step s)
  | inr e ↦ rw e tt
]

pub on_reply-Heard :
    (f : Frame) (s : Session) → IsConsistent s → s.awaiting ≡ true → Heard (on_reply f s)
on_reply-Heard f s c busy =
    let (step, e, x) = c.waits busy in rw (on_reply_at f s step busy e) (reply_at-Heard step f s)
