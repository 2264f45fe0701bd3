-- ===== src/Session/Reply.antt =====
-- Which replies `Session::on_reply` (src/session.rs) accepts, against what each `Expect` means.
use stcbsl.Base.{
  ◌≡◌, ◌⊎◌, refl, sym, ap, ◌∙◌, inl, inr, true, false, some, [], ◌∷◌, Result, ok, err, length,
  get_elem?, arith, Bool-cases,
}
use stcbsl.Base.Bytes.{Bytes}
use stcbsl.Frame.{Dir, host_to_mcu, mcu_to_host, dir_eq, Frame, bytes_eq, is_echo_of, byte_at}
use stcbsl.Session.{
  Expect, nothing, echo, ack, ack_len, block_ack, Step, Session, SessionError, wrong_direction,
  advance_past, check_reply, settle, reply_at, on_reply,
}
use stcbsl.Frame.Shape.{bytes_eq→eq}
use stcbsl.Session.Inv.{on_reply_at}

-- What the protocol asks of a reply to the request `req`.
abbrev pub Answers : Frame → Expect → Frame → Type 0
Answers req nothing reply = ⊥
Answers req echo reply =
    (req.dir ≡ host_to_mcu) × (reply.cmd ≡ req.cmd) × (reply.payload ≡ req.payload)
Answers req (ack cmd payload) reply = (reply.cmd ≡ cmd) × (reply.payload ≡ payload)
Answers req (ack_len cmd n) reply = (reply.cmd ≡ cmd) × (length reply.payload ≡ n)
Answers req (block_ack sum) reply = (reply.cmd ≡ 0x80) × (reply.payload ≡ sum ∷ [])

abbrev pub Meets : Step → Frame → Type 0
Meets step reply = (reply.dir ≡ mcu_to_host) × Answers step.frame step.expect reply

pub bytes_eq_self : (bs : Bytes) → bytes_eq bs bs ≡ true
unfolding bytes_eq
bytes_eq_self [] = refl
bytes_eq_self (b ∷ bs) = ground (arith, bytes_eq_self bs)

-- `check_reply` accepts exactly the replies that answer the request.
check_reply-Answers :
    (step : Step) (e : Expect) (reply : Frame)
    → reply.dir ≡ mcu_to_host
    → Answers step.frame e reply
    → check_reply step e reply ≡ ok tt
unfolding check_reply is_echo_of dir_eq
check_reply-Answers step nothing reply d h = absurd h
check_reply-Answers step echo reply d h = ground (arith, bytes_eq_self reply.payload)
check_reply-Answers step (ack cmd payload) reply d h = ground (arith, bytes_eq_self reply.payload)
check_reply-Answers step (ack_len cmd n) reply d h = ground arith
check_reply-Answers step (block_ack sum) reply d h = ground arith

byte_of_one : (bs : Bytes) → length bs ≡ 1 → bs ≡ byte_at bs 0 ∷ []
byte_of_one [] h = absurd (omega arith)
byte_of_one (b ∷ []) h = refl
byte_of_one (b ∷ c ∷ bs) h = absurd (omega arith)

Answers-check_reply :
    (step : Step) (e : Expect) (reply : Frame)
    → check_reply step e reply ≡ ok tt
    → Answers step.frame e reply
unfolding check_reply is_echo_of dir_eq
Answers-check_reply step nothing reply h = cc
Answers-check_reply step echo reply h = ground (arith, bytes_eq→eq reply.payload step.frame.payload)
Answers-check_reply step (ack cmd payload) reply h =
    ground (arith, bytes_eq→eq reply.payload payload)
Answers-check_reply step (ack_len cmd n) reply h = ground arith
Answers-check_reply step (block_ack sum) reply h = ground (arith, byte_of_one reply.payload)

dir_eq→eq : (d : Dir) → dir_eq d mcu_to_host ≡ true → d ≡ mcu_to_host
unfolding dir_eq
dir_eq→eq d e = ground arith

module _ (step : Step) (reply : Frame) (s : Session) where
  abbrev Accepted : Type 0
  Accepted = Meets step reply × (reply_at step reply s ≡ (ok tt, advance_past step s))

  abbrev Refused : Type 0
  Refused = (¬ Meets step reply) × (e : SessionError) × (reply_at step reply s ≡ (err e, s))

  check_reply-cases :
      (r : Result SessionError (Unit {0}))
      → reply.dir ≡ mcu_to_host
      → check_reply step step.expect reply ≡ r
      → reply_at step reply s ≡ settle r step s
      → Accepted ⊎ Refused
  unfolding settle
  check_reply-cases (ok u) d e q = inl ((d, Answers-check_reply step step.expect reply e), q)
  check_reply-cases (err x) d e q = inr (
    (λ m.
        let bad : ◌≡◌ {A = Result SessionError (Unit {0})} (ok tt) (err x) =
          sym (check_reply-Answers step step.expect reply d m.1) ∙ e in
        cc),
    x,
    q,
  )

  reply_at-cases : Accepted ⊎ Refused
  unfolding reply_at
  reply_at-cases = elim (Bool-cases (dir_eq reply.dir mcu_to_host)) [
    | inl e ↦
        check_reply-cases (check_reply step step.expect reply) (dir_eq→eq reply.dir e) refl (rw e)
    | inr e ↦ inr (
      (λ m. let q : dir_eq mcu_to_host mcu_to_host ≡ false = rw m.0 at e in unfold dir_eq in cc),
      wrong_direction step.label reply.dir,
      rw e,
    )
  ]

-- While a reply is awaited, `on_reply` does one of two things, and which of them depends only on
-- whether the reply comes from the chip and answers the request as its `Expect` asks. If it does,
-- the call succeeds and the session goes on to the next step; if not, the call reports an error,
-- and the session is unchanged: it still awaits the reply.
pub on_reply-cases :
    (step : Step) (reply : Frame) (s : Session)
    → s.awaiting ≡ true
    → get_elem? s.steps s.at ≡ some step
    → (Meets step reply × (on_reply reply s ≡ some (ok tt, advance_past step s)))
      ⊎ ((¬ Meets step reply) × (e : SessionError) × (on_reply reply s ≡ some (err e, s)))
on_reply-cases step reply s busy here = elim (reply_at-cases step reply s) [
  | inl (m, e) ↦ inl (
    m,
    on_reply_at reply s step busy here
        ∙ ap (λ (p : Result SessionError (Unit {0}) × Session). some p) e,
  )
  | inr (m, x, e) ↦ inr (
    m,
    x,
    on_reply_at reply s step busy here
        ∙ ap (λ (p : Result SessionError (Unit {0}) × Session). some p) e,
  )
]
