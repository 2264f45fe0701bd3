-- ===== src/Session/Complete.antt =====
-- A `Session` (src/session.rs) that hears the replies it expects comes to its end.
use stcbsl.Base.{
  ℕ, zero, suc, ◌+◌, ◌≤◌, ◌≡◌, ◌⊎◌, ◌++◌, refl, ap, inl, inr, true, false, Bool-cases, some, List,
  [], ◌∷◌, length, get_elem?, arith, All,
}
use mathlib.Core.Option.{some-injective}
use mathlib.Core.Path.{subst}
use stcbsl.Frame.{Frame}
use stcbsl.Session.{
  Step, Session, Send, expects_reply, new, advance_past, send_step, flash_is_indeterminate,
  is_finished,
}
use stcbsl.Session.Flags.{get_elem?-cases}
use stcbsl.Session.Inv.{next_action_sends}
use stcbsl.Session.Reply.{Meets, on_reply-cases}
use stcbsl.Session.Progress.{
  Reaches, start, acts, hears, sends_of, sends_from, Reaches-Logged, is_finished_sends,
}

-- The chip answers every request that expects a reply as it should.
abbrev pub IsObeyed : (Step → Frame) → Step → Type 0
IsObeyed reply step = expects_reply step.expect ≡ true → Meets step (reply step)

pub All-get_elem? :
    (P : Step → Type 0) (l : List Step) (k : ℕ) (step : Step)
    → All P l
    → get_elem? l k ≡ some step
    → P step
All-get_elem? P [] k step h e = cc
All-get_elem? P (s ∷ ss) zero step (h, hs) e = subst P (some-injective s step e) h
All-get_elem? P (s ∷ ss) (suc k) step (h, hs) e = All-get_elem? P ss k step hs e

-- The session after a step has been sent.
abbrev after_send : Step → Session → Session
after_send step s = (send_step step s).1

send_step-at :
    (step : Step) (s : Session)
    → s.awaiting ≡ false
    → ((expects_reply step.expect ≡ true)
        × ((after_send step s).awaiting ≡ true)
        × ((after_send step s).at ≡ s.at)
        × ((after_send step s).steps ≡ s.steps))
      ⊎ (((after_send step s).awaiting ≡ false)
          × ((after_send step s).at ≡ suc s.at)
          × ((after_send step s).steps ≡ s.steps))
unfolding send_step advance_past
send_step-at step s idle = elim (Bool-cases (expects_reply step.expect)) [
  | inl e ↦ inl (e, rw (after_send, e) refl, rw (after_send, e) refl, rw (after_send, e) refl)
  | inr e ↦ inr (rw (after_send, e) refl, rw (after_send, e) refl, rw (after_send, e) refl)
]

module _ (steps : List Step) (reply : Step → Frame) (obeyed : All (IsObeyed reply) steps) where
  abbrev Finishes : Type 0
  Finishes = (log : List Send) × (s : Session) × Reaches steps log s × (is_finished s ≡ true)

  -- One exchange, and then the rest.
  goes_on :
      (log : List Send) (s : Session) (step : Step)
      → Reaches steps log s
      → s.awaiting ≡ false
      → get_elem? s.steps s.at ≡ some step
      → (log' : List Send) × (s' : Session) × Reaches steps log' s'
        × (s'.awaiting ≡ false)
        × (s'.at ≡ suc s.at)
        × (s'.steps ≡ s.steps)
  unfolding advance_past
  goes_on log s step r idle here =
      let sends = next_action_sends s step idle here in
      let r' = acts r sends in
      elim (send_step-at step s idle) [
        | inr (idle', at', same) ↦
            (log ++ sends_of (send_step step s).0, after_send step s, r', idle', at', same)
        | inl (expects, busy, at', same) ↦
            let meets =
              All-get_elem? (IsObeyed reply) steps s.at step obeyed
                (rw (Reaches-Logged r).0 at here) expects in
            elim (on_reply-cases step (reply step) (after_send step s) busy (rw (same, at') here)) [
              | inl (m, e) ↦ (
                log ++ sends_of (send_step step s).0,
                advance_past step (after_send step s),
                hears (reply step) r' e,
                refl,
                ap suc at',
                same,
              )
              | inr (refused, x, e) ↦ absurd (refused meets)
            ]
      ]

  finishes :
      (left : ℕ) (log : List Send) (s : Session)
      → Reaches steps log s
      → s.awaiting ≡ false
      → length s.steps ≤ s.at + left
      → Finishes
  unfolding is_finished
  finishes zero log s r idle l = (log, s, r, ground arith)
  finishes (suc left) log s r idle l = elim (get_elem?-cases s.steps s.at) [
    | inl (out, e) ↦ (log, s, r, ground arith)
    | inr (step, inside, e) ↦
        let (log', s', r', idle', at', same) = goes_on log s step r idle e in
        finishes left log' s' r' idle' (rw (same, at') (omega arith))
  ]

-- If the chip answers every request that expects a reply as its `Expect` asks, then calling
-- `next_action` and `on_reply` in turn brings the session to its end: it is finished, all of the
-- plan has been sent, in order, and the flash is not indeterminate.
pub obeyed_finishes :
    (steps : List Step) (reply : Step → Frame)
    → All (IsObeyed reply) steps
    → (s : Session) × Reaches steps (sends_from 0 steps) s
      × (is_finished s ≡ true)
      × (flash_is_indeterminate s ≡ false)
obeyed_finishes steps reply obeyed =
    let (log, s, r, fin) =
      finishes steps reply obeyed (length steps) [] (new steps) start refl (omega arith) in
    let (all_sent, intact) = is_finished_sends r fin in
    (s, subst (λ (l : List Send). Reaches steps l s) all_sent r, fin, intact)
