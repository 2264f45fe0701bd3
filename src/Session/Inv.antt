-- ===== src/Session/Inv.antt =====
-- The invariant of `Session` (src/session.rs), kept by each of its methods.
use stcbsl.Base.{
  if◌then◌else◌, ℕ, suc, ◌≤◌, ◌<◌, ◌≡◌, refl, inl, inr, true, false, not, ◌&&◌, some, List, Result,
  ok, err, length, get_elem?, take, drop, leb, arith, Bool-cases,
}
use stcbsl.Frame.{Frame, dir_eq, mcu_to_host}
use stcbsl.Session.{
  Step, is_write, expects_reply, Session, new, advance_past, with_step, send_step, next_action,
  settle, not_awaiting, awaiting_reply, finished, Action, SessionError, check_reply, reply_at,
  on_reply,
}
use stcbsl.Session.Flags.{
  any_write, any_write-take-suc, any_write-drop, last_write_iff, get_elem?-lt, get_elem?-cases,
}

-- How many steps have been sent: the one whose reply is outstanding is among them.
abbrev pub sent : Session → ℕ
sent s = if s.awaiting then suc s.at else s.at

-- The flags are what the list of steps says of them, `at` is inside it, and a reply is awaited only
-- for a step that has one.
pub record IsConsistent (s : Session) : Type 0 where
  pub bound : s.at ≤ length s.steps
  pub started : s.writes_started ≡ any_write (take (sent s) s.steps)
  pub finished :
      s.writes_finished ≡ (any_write (take s.at s.steps) && not (any_write (drop s.at s.steps)))
  pub waits :
      s.awaiting ≡ true
      → (step : Step) × (get_elem? s.steps s.at ≡ some step) × (expects_reply step.expect ≡ true)

lt→leb_false : (a b : ℕ) → a < b → leb b a ≡ false
lt→leb_false a b h = ground arith

le→leb : (a b : ℕ) → a ≤ b → leb a b ≡ true
le→leb a b h = ground arith

module _ (step : Step) (s : Session) (here : get_elem? s.steps s.at ≡ some step) where
  at_lt_length : s.at < length s.steps
  at_lt_length = get_elem?-lt s.steps s.at here

  -- Going on to the next step sets the flags as the list of steps says.
  pub advance_past-IsConsistent :
      s.writes_finished ≡ (any_write (take s.at s.steps) && not (any_write (drop s.at s.steps)))
      → s.writes_started ≡ any_write (take (suc s.at) s.steps)
      → IsConsistent (advance_past step s)
  unfolding advance_past
  advance_past-IsConsistent fin started = record {
    bound = at_lt_length;
    started = started;
    finished = ground (
      arith,
      any_write-take-suc s.at s.steps step here,
      any_write-drop s.at s.steps step here,
      last_write_iff 0 s.at s.at s.steps step here,
    );
    waits = λ e. cc;
  }

-- The session with a frame on its way: `writes_started` counts the step.
abbrev starting : Step → Session → Session
starting step s = record s {
  writes_started = if is_write step.phase then true else s.writes_started;
}

abbrev waiting : Step → Session → Session
waiting step s = record (starting step s) { awaiting = true }

module _ (step : Step) (s : Session) (here : get_elem? s.steps s.at ≡ some step)
    (c : IsConsistent s) where
  starting-started :
      s.awaiting ≡ false → (starting step s).writes_started ≡ any_write (take (suc s.at) s.steps)
  starting-started idle = ground (arith, any_write-take-suc s.at s.steps step here, c.started)

  send_step-IsConsistent : s.awaiting ≡ false → IsConsistent (send_step step s).1
  unfolding send_step
  send_step-IsConsistent idle = elim (Bool-cases (expects_reply step.expect)) [
    | inl e ↦ rw e (waits_now e)
    | inr e ↦
        rw e
          (advance_past-IsConsistent step (starting step s) here c.finished (starting-started idle))
  ]
    where
      waits_now : expects_reply step.expect ≡ true → IsConsistent (waiting step s)
      waits_now expects = record {
        bound = c.bound;
        started = starting-started idle;
        finished = c.finished;
        waits = λ _. (step, here, expects);
      }

  settle-IsConsistent :
      (r : Result SessionError (Unit {0})) → s.awaiting ≡ true → IsConsistent (settle r step s).1
  unfolding settle
  settle-IsConsistent (ok u) busy =
      advance_past-IsConsistent step s here c.finished (ground (arith, c.started))
  settle-IsConsistent (err e) busy = c

  reply_at-IsConsistent :
      (reply : Frame) → s.awaiting ≡ true → IsConsistent (reply_at step reply s).1
  unfolding reply_at
  reply_at-IsConsistent reply busy = elim (Bool-cases (dir_eq reply.dir mcu_to_host)) [
    | inr e ↦ rw e c
    | inl e ↦ rw e (settle-IsConsistent (check_reply step step.expect reply) busy)
  ]

pub new-IsConsistent : (steps : List Step) → IsConsistent (new steps)
new-IsConsistent steps = record {
  bound = omega arith;
  started = refl;
  finished = refl;
  waits = λ e. cc;
}

pub next_action_waiting :
    (s : Session) → s.awaiting ≡ true → next_action s ≡ some (awaiting_reply, s)
unfolding next_action
next_action_waiting s busy = simp busy

pub next_action_finished :
    (s : Session) → s.awaiting ≡ false → length s.steps ≤ s.at → next_action s ≡ some (finished, s)
unfolding next_action
next_action_finished s idle out = simp (idle, le→leb (length s.steps) s.at out)

pub next_action_sends :
    (s : Session) (step : Step)
    → s.awaiting ≡ false
    → get_elem? s.steps s.at ≡ some step
    → next_action s ≡ some (send_step step s)
unfolding next_action
next_action_sends s step idle e =
    simp (idle, lt→leb_false s.at (length s.steps) (get_elem?-lt s.steps s.at e))
      (rw (e, with_step))

pub on_reply_idle :
    (reply : Frame) (s : Session)
    → s.awaiting ≡ false
    → on_reply reply s ≡ some (err not_awaiting, s)
unfolding on_reply
on_reply_idle reply s idle = simp idle

pub on_reply_at :
    (reply : Frame) (s : Session) (step : Step)
    → s.awaiting ≡ true
    → get_elem? s.steps s.at ≡ some step
    → on_reply reply s ≡ some (reply_at step reply s)
unfolding on_reply
on_reply_at reply s step busy e = simp busy (rw (e, with_step))

-- `next_action` never panics on a consistent session, and leaves one.
pub next_action-IsConsistent :
    (s : Session)
    → IsConsistent s
    → (a : Action) × (s' : Session) × (next_action s ≡ some (a, s')) × IsConsistent s'
next_action-IsConsistent s c = elim (Bool-cases s.awaiting) [
  | inl busy ↦ (awaiting_reply, s, next_action_waiting s busy, c)
  | inr idle ↦ elim (get_elem?-cases s.steps s.at) [
    | inl (out, e) ↦ (finished, s, next_action_finished s idle out, c)
    | inr (step, inside, e) ↦ (
      (send_step step s).0,
      (send_step step s).1,
      next_action_sends s step idle e,
      send_step-IsConsistent step s e c idle,
    )
  ]
]

-- `on_reply` never panics on a consistent session, whatever the frame, and leaves one.
pub on_reply-IsConsistent :
    (reply : Frame) (s : Session)
    → IsConsistent s
    → (r : Result SessionError (Unit {0})) × (s' : Session) × (on_reply reply s ≡ some (r, s'))
      × IsConsistent s'
on_reply-IsConsistent reply s c = elim (Bool-cases s.awaiting) [
  | inr idle ↦ (err not_awaiting, s, on_reply_idle reply s idle, c)
  | inl busy ↦
      let (step, e, x) = c.waits busy in
      (
        (reply_at step reply s).0,
        (reply_at step reply s).1,
        on_reply_at reply s step busy e,
        reply_at-IsConsistent step s e c reply busy,
      )
]
