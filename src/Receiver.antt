-- ===== src/Receiver.antt =====
-- The resynchronising decoder of src/frame.rs: `Receiver`, `Hunt` and their methods. The two
-- buffers are the state; each method returns the new state beside its result.
pub mod Hunting
pub mod Loop
pub mod Stream
pub mod Chunks
pub mod Pieces
pub mod Resync
use stcbsl.Base.{
  ℕ, zero, suc, ◌+◌, Bool, not, ◌&&◌, Option, none, some, [], ◌∷◌, ◌++◌, Result, ok, err, length,
  take, drop, ltb, leb, ◌!=◌, if◌then◌else◌,
}
use stcbsl.Base.Bytes.{Bytes, u16_from_be}
use stcbsl.Frame.{Frame, FrameError, decode, byte_at, min_len_field, max_len_field}

pub record Receiver : Type 0 where
  pub buf : Bytes
  pub discarded : Bytes

pub data Hunt : Type 0 where
  need_more advanced : Hunt
  frame : ℕ → Hunt

-- `Receiver::new`.
abbrev pub new : Receiver
new = record { buf = []; discarded = [] }

abbrev pub feed : Receiver → Bytes → Receiver
feed rx bytes = record rx { buf = rx.buf ++ bytes }

abbrev pub take_discarded : Receiver → Bytes × Receiver
take_discarded rx = (rx.discarded, record rx { discarded = [] })

abbrev pub pending : Receiver → ℕ
pending rx = length rx.buf

-- `(MIN_LEN_FIELD..=MAX_LEN_FIELD).contains(&declared)`.
abbrev pub plausible : ℕ → Bool
plausible declared = leb min_len_field declared && leb declared max_len_field

-- `Receiver::hunt`: each `continue` has moved the first byte of the buffer to the discarded ones.
unfoldable pub hunt_loop : Bytes → Bytes → Hunt × Receiver
hunt_loop [] d = (need_more, record { buf = []; discarded = d })
hunt_loop (b ∷ rest) d =
    let buf = b ∷ rest in
    let skipped = hunt_loop rest (d ++ b ∷ []) in
    let declared = u16_from_be (byte_at buf 3) (byte_at buf 4) in
    let here : Receiver = record { buf = buf; discarded = d } in
    if b != 0x46
    then skipped
    else if ltb (length buf) 2
    then (need_more, here)
    else if byte_at buf 1 != 0xB9
    then skipped
    else if ltb (length buf) 5
    then (need_more, here)
    else if not (plausible declared)
    then (advanced, record { buf = rest; discarded = d ++ b ∷ [] })
    else if ltb (length buf) (declared + 2)
    then (need_more, here)
    else (frame (declared + 2), here)

unfoldable pub hunt : Receiver → Hunt × Receiver
unfolding hunt_loop
hunt rx = hunt_loop rx.buf rx.discarded

-- What `next_frame` returns, with the receiver after it.
abbrev pub Polled : Type 0
Polled = Option (Result FrameError Frame) × Receiver

-- The frame's bytes have been drained from the buffer: on an error all but the first go back.
unfoldable pub accept : Result FrameError Frame → Bytes → Receiver → Polled
accept (ok f) bytes rx = (some (ok f), rx)
accept (err e) bytes rx = (
  some (err e),
  record { buf = drop 1 bytes ++ rx.buf; discarded = rx.discarded ++ take 1 bytes },
)

unfoldable pub take_frame : ℕ → Receiver → Polled
unfolding accept
take_frame n rx =
    accept (decode (take n rx.buf)) (take n rx.buf) (record rx { buf = drop n rx.buf })

unfoldable pub after_hunt : Hunt → Receiver → (Receiver → Polled) → Polled
unfolding take_frame
after_hunt need_more rx again = (none, rx)
after_hunt advanced rx again = again rx
after_hunt (frame n) rx again = take_frame n rx

-- The loop of `next_frame`. Each round that goes on has shortened the buffer, so that more rounds
-- than the buffer has bytes are never made.
unfoldable pub next_loop : ℕ → Receiver → Polled
unfolding hunt after_hunt
next_loop zero rx = (none, rx)
next_loop (suc fuel) rx = let (h, rx') = hunt rx in after_hunt h rx' (next_loop fuel)

unfoldable pub next_frame : Receiver → Polled
unfolding next_loop
next_frame rx = next_loop (suc (length rx.buf)) rx
