-- ===== src/Session.antt =====
-- src/session.rs: `Phase`, `Expect`, `Step`, `Action`, `SessionError`, and `Session` with its
-- methods. A method returns the new session beside its result; an index out of range, on which the
-- source panics, is `none`.
pub mod Shown
pub mod Flags
pub mod Inv
pub mod Reply
pub mod Progress
pub mod Complete
use stcbsl.Base.{
  ℕ, zero, suc, Bool, true, false, not, ◌&&◌, Option, none, some, List, [], ◌∷◌, Result, ok, err,
  length, get_elem?, leb, ◌==◌, ◌!=◌, if◌then◌else◌,
}
use stcbsl.Base.Bytes.{Bytes}
use stcbsl.Base.Text.{Text}
use stcbsl.Frame.{Dir, mcu_to_host, dir_eq, Frame, encode, is_echo_of, bytes_eq, byte_at}

-- `REPLY_ACK` of src/protocol/stc89.rs, which the session code reads too.
abbrev pub reply_ack : ℕ
reply_ack = 0x80

pub data Phase : Type 0 where
  sync status baud_probe baud_commit link_test erase write options run : Phase

-- The derived `PartialEq` of `Phase`, as `== Phase::Write` and `!= Phase::Write` use it.
abbrev pub is_write : Phase → Bool
is_write write = true
is_write _ = false

pub data Expect : Type 0 where
  nothing echo : Expect
  ack : ℕ → Bytes → Expect
  ack_len : ℕ → ℕ → Expect
  block_ack : ℕ → Expect

-- `step.expect != Expect::Nothing`.
abbrev pub expects_reply : Expect → Bool
expects_reply nothing = false
expects_reply _ = true

pub record Step : Type 0 where
  pub phase : Phase
  pub label : Text
  pub frame : Frame
  pub expect : Expect
  pub timeout_ms : ℕ
  pub retune_before_send : Option ℕ
  pub retune_after_send : Option ℕ
  pub write_addr : Option ℕ

-- `Action::Send` carries its fields as a record.
pub record Send : Type 0 where
  pub index : ℕ
  pub label : Text
  pub phase : Phase
  pub bytes : Bytes
  pub expect_reply : Bool
  pub timeout_ms : ℕ
  pub retune_before_send : Option ℕ
  pub retune_after_send : Option ℕ

pub data Action : Type 0 where
  send : Send → Action
  set_baud : ℕ → Action
  awaiting_reply finished : Action

pub data SessionError : Type 0 where
  not_awaiting : SessionError
  wrong_command : Text → ℕ → ℕ → SessionError
  wrong_direction : Text → Dir → SessionError
  not_an_echo : Text → Frame → SessionError
  wrong_payload : Text → Bytes → Bytes → SessionError
  wrong_payload_len : Text → ℕ → ℕ → SessionError
  block_ack_mismatch : ℕ → ℕ → ℕ → SessionError

pub record Session : Type 0 where
  pub steps : List Step
  pub at : ℕ
  pub awaiting : Bool
  pub writes_started : Bool
  pub writes_finished : Bool

-- `Session::new`.
abbrev pub new : List Step → Session
new steps = record {
  steps = steps;
  at = 0;
  awaiting = false;
  writes_started = false;
  writes_finished = false;
}

-- `iter().rposition(|s| s.phase == Phase::Write)`; `i` is the index of the list's head.
unfoldable pub rposition_write : ℕ → List Step → Option ℕ
rposition_write i [] = none
rposition_write i (s ∷ ss) = elim (rposition_write (suc i) ss) [
  | none ↦ if is_write s.phase then some i else none
  | some j ↦ some j
]

-- `unwrap_or`.
abbrev pub unwrap_or : Option ℕ → ℕ → ℕ
unwrap_or none d = d
unwrap_or (some n) d = n

-- `Session::advance`, at the step that `self.steps[self.at]` reads.
unfoldable pub advance_past : Step → Session → Session
unfolding rposition_write
advance_past step s =
    let last_write = unwrap_or (rposition_write 0 s.steps) s.at in
    record s {
      at = suc s.at;
      awaiting = false;
      writes_finished =
          if is_write step.phase && s.at == last_write then true else s.writes_finished;
    }

abbrev pub with_step : {A : Type 0} → Session → (Step → A) → Option A
with_step s f = elim (get_elem? s.steps s.at) [ none ↦ none | some step ↦ some (f step) ]

unfoldable pub advance : Session → Option Session
unfolding advance_past
advance s = with_step s (λ step. advance_past step s)

-- `Session::next_action` from the index on.
unfoldable pub send_step : Step → Session → Action × Session
unfolding advance_past
send_step step s =
    let s' = record s { writes_started = if is_write step.phase then true else s.writes_started } in
    let action = send (record {
      index = s.at;
      label = step.label;
      phase = step.phase;
      bytes = encode step.frame;
      expect_reply = expects_reply step.expect;
      timeout_ms = step.timeout_ms;
      retune_before_send = step.retune_before_send;
      retune_after_send = step.retune_after_send;
    }) in
    if expects_reply step.expect
    then (action, record s' { awaiting = true })
    else (action, advance_past step s')

unfoldable pub next_action : Session → Option (Action × Session)
next_action s =
    if s.awaiting
    then some (awaiting_reply, s)
    else if leb (length s.steps) s.at
    then some (finished, s)
    else with_step s (λ step. send_step step s)

-- The match on `step.expect` in `Session::on_reply`.
unfoldable pub check_reply : Step → Expect → Frame → Result SessionError (Unit {0})
unfolding is_echo_of
check_reply step nothing reply = err not_awaiting
check_reply step echo reply =
    if not (is_echo_of reply step.frame) then err (not_an_echo step.label reply) else ok tt
check_reply step (ack cmd payload) reply =
    if reply.cmd != cmd
    then err (wrong_command step.label cmd reply.cmd)
    else if not (bytes_eq reply.payload payload)
    then err (wrong_payload step.label payload reply.payload)
    else ok tt
check_reply step (ack_len cmd payload_len) reply =
    if reply.cmd != cmd
    then err (wrong_command step.label cmd reply.cmd)
    else if length reply.payload != payload_len
    then err (wrong_payload_len step.label payload_len (length reply.payload))
    else ok tt
check_reply step (block_ack sum) reply =
    if reply.cmd != reply_ack
    then err (wrong_command step.label reply_ack reply.cmd)
    else if length reply.payload != 1
    then err (wrong_payload_len step.label 1 (length reply.payload))
    else if byte_at reply.payload 0 != sum
    then err (block_ack_mismatch (unwrap_or step.write_addr 0) sum (byte_at reply.payload 0))
    else ok tt

-- The end of `on_reply`: an error returns early, and leaves the session as it is.
unfoldable pub settle :
    Result SessionError (Unit {0}) → Step → Session → Result SessionError (Unit {0}) × Session
unfolding advance_past
settle (ok u) step s = (ok u, advance_past step s)
settle (err e) step s = (err e, s)

-- `Session::on_reply` at the current step.
unfoldable pub reply_at : Step → Frame → Session → Result SessionError (Unit {0}) × Session
unfolding dir_eq
reply_at step reply s =
    if not (dir_eq reply.dir mcu_to_host)
    then (err (wrong_direction step.label reply.dir), s)
    else settle (check_reply step step.expect reply) step s

unfoldable pub on_reply : Frame → Session → Option (Result SessionError (Unit {0}) × Session)
on_reply reply s =
    if not s.awaiting
    then some (err not_awaiting, s)
    else with_step s (λ step. reply_at step reply s)

unfoldable pub flash_is_indeterminate : Session → Bool
flash_is_indeterminate s = s.writes_started && not s.writes_finished

unfoldable pub is_finished : Session → Bool
is_finished s = leb (length s.steps) s.at && not s.awaiting

unfoldable pub progress : Session → ℕ × ℕ
progress s = (s.at, length s.steps)
