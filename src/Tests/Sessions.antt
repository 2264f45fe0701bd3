-- ===== src/Tests/Sessions.antt =====
-- src/session.rs on concrete plans; the first examples are those of its own tests.
use stcbsl.Base.{◌≡◌, refl, true, false, none, some, List, [], ◌∷◌, ◌⊎◌, Result, ok, err, take, All}
use stcbsl.Frame.{Frame, host, mcu, dir_eq}
use stcbsl.Session.{
  Phase, Expect, Step, Session, SessionError, send, Action, new, advance_past, next_action,
  on_reply, flash_is_indeterminate, is_finished, not_awaiting, block_ack_mismatch, send_step,
  reply_at, check_reply, settle, rposition_write,
}
use stcbsl.Session.Inv.{
  IsConsistent, new-IsConsistent, next_action-IsConsistent, on_reply-IsConsistent, sent,
}
use stcbsl.Session.Complete.{IsObeyed}
use stcbsl.Session.Reply.{Meets, on_reply-cases}
use stcbsl.Session.Progress.{
  send_of, sends_from, Reaches, start, acts, hears, Reaches-IsConsistent,
  flash_is_indeterminate_iff, Reaches-sends, is_finished_sends,
}

-- A block that is written, and the release of the chip.
abbrev pub block : Step
block = record {
  phase = Phase.write;
  label = [];
  frame = host 0x00 (0x01 ∷ 0x02 ∷ []);
  expect = Expect.block_ack 3;
  timeout_ms = 100;
  retune_before_send = none;
  retune_after_send = none;
  write_addr = some 0x80;
}

abbrev pub release : Step
release = record {
  phase = Phase.run;
  label = [];
  frame = host 0x82 [];
  expect = Expect.nothing;
  timeout_ms = 100;
  retune_before_send = none;
  retune_after_send = none;
  write_addr = none;
}

abbrev pub two_steps : List Step
two_steps = block ∷ release ∷ []

abbrev pub block_sent : Session
block_sent = record {
  steps = two_steps;
  at = 0;
  awaiting = true;
  writes_started = true;
  writes_finished = false;
}

abbrev block_done : Session
block_done = record {
  steps = two_steps;
  at = 1;
  awaiting = false;
  writes_started = true;
  writes_finished = true;
}

abbrev pub all_done : Session
all_done = record {
  steps = two_steps;
  at = 2;
  awaiting = false;
  writes_started = true;
  writes_finished = true;
}

sends_block : next_action (new two_steps) ≡ some (send (send_of 0 block), block_sent)
unfolding next_action send_step
sends_block = refl

hears_ack : on_reply (mcu 0x80 (0x03 ∷ [])) block_sent ≡ some (ok tt, block_done)
unfolding on_reply reply_at check_reply settle advance_past dir_eq rposition_write
hears_ack = refl

sends_release : next_action block_done ≡ some (send (send_of 1 release), all_done)
unfolding next_action send_step advance_past rposition_write
sends_release = refl

-- A reply with the wrong sum names the address of the block.
wrong_sum :
    on_reply (mcu 0x80 (0x04 ∷ [])) block_sent
    ≡ some (err (block_ack_mismatch 0x80 3 4), block_sent)
unfolding on_reply reply_at check_reply settle dir_eq
wrong_sum = refl

not_asked : on_reply (mcu 0x80 (0x03 ∷ [])) block_done ≡ some (err not_awaiting, block_done)
unfolding on_reply
not_asked = refl

Reaches-sent : Reaches two_steps (send_of 0 block ∷ []) block_sent
Reaches-sent = acts start sends_block

Reaches-done : Reaches two_steps (send_of 0 block ∷ send_of 1 release ∷ []) all_done
Reaches-done = acts (hears (mcu 0x80 (0x03 ∷ [])) Reaches-sent hears_ack) sends_release

flash_is_indeterminate_iff_example : flash_is_indeterminate block_sent ≡ true
flash_is_indeterminate_iff_example = flash_is_indeterminate_iff Reaches-sent

Reaches-sends_example :
    (send_of 0 block ∷ send_of 1 release ∷ []) ≡ sends_from 0 (take (sent all_done) two_steps)
Reaches-sends_example = Reaches-sends Reaches-done

is_done : is_finished all_done ≡ true
unfolding is_finished
is_done = refl

is_finished_sends_example :
    ((send_of 0 block ∷ send_of 1 release ∷ []) ≡ sends_from 0 two_steps)
    × (flash_is_indeterminate all_done ≡ false)
is_finished_sends_example = is_finished_sends Reaches-done is_done

on_reply-cases_example :
    (Meets block (mcu 0x80 (0x04 ∷ []))
      × (on_reply (mcu 0x80 (0x04 ∷ [])) block_sent ≡ some (ok tt, advance_past block block_sent)))
    ⊎ ((¬ Meets block (mcu 0x80 (0x04 ∷ [])))
        × (e : SessionError) × (on_reply (mcu 0x80 (0x04 ∷ [])) block_sent
            ≡ some (err e, block_sent)))
on_reply-cases_example = on_reply-cases block (mcu 0x80 (0x04 ∷ [])) block_sent refl refl

next_action-IsConsistent_example :
    (a : Action) × (s' : Session) × (next_action (new two_steps) ≡ some (a, s')) × IsConsistent s'
next_action-IsConsistent_example =
    next_action-IsConsistent (new two_steps) (new-IsConsistent two_steps)

block_sent-IsConsistent : IsConsistent block_sent
block_sent-IsConsistent = Reaches-IsConsistent Reaches-sent

on_reply-IsConsistent_example :
    (r : Result SessionError (Unit {0})) × (s' : Session) × (on_reply
        (mcu 0x80 (0x04 ∷ []))
        block_sent
      ≡ some (r, s'))
    × IsConsistent s'
on_reply-IsConsistent_example =
    on_reply-IsConsistent (mcu 0x80 (0x04 ∷ [])) block_sent block_sent-IsConsistent

abbrev acks : Step → Frame
acks step = mcu 0x80 (0x03 ∷ [])

acks-IsObeyed : All (IsObeyed acks) two_steps
acks-IsObeyed = ((λ e. (refl, (refl, refl))), ((λ e. cc), tt))
