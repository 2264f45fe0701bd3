-- ===== src/Receiver/Stream.antt =====
-- Conservation: what `Receiver::next_frame` of src/frame.rs does with the bytes it was fed.
use stcbsl.Base.{
  ℕ, ◌≡◌, refl, sym, ap, ◌∙◌, Option, none, some, [], ◌∷◌, ◌++◌, Result, ok, err, take, drop, arith,
  append_assoc, All, All-append, All-take, All-drop, take-append-drop,
}
use stcbsl.Base.Bytes.{Bytes, IsByte}
use stcbsl.Frame.{Frame, FrameError, decode, encode}
use stcbsl.Frame.RoundTrip.{encode-decode}
use stcbsl.Receiver.{
  Receiver, Hunt, need_more, advanced, frame, hunt_loop, hunt, Polled, accept, take_frame,
  next_frame,
}
use stcbsl.Receiver.Hunting.{stream, hunt_loop-stream}
use stcbsl.Receiver.Loop.{next_frame_rule}

-- The bytes that leave with the answer: those of an accepted frame.
abbrev pub handed : Option (Result FrameError Frame) → Bytes
handed none = []
handed (some (ok f)) = encode f
handed (some (err e)) = []

hunt_loop-All : (buf d : Bytes) → All IsByte buf → All IsByte (hunt_loop buf d).1.buf
unfolding hunt_loop
hunt_loop-All [] d h = tt
hunt_loop-All (b ∷ rest) d h = ground (arith, hunt_loop-All rest (d ++ b ∷ []) h.1)

hunt-stream : (rx rx' : Receiver) (h : Hunt) → hunt rx ≡ (h, rx') → stream rx' ≡ stream rx
unfolding hunt
hunt-stream rx rx' h e = rw e at (hunt_loop-stream rx.buf rx.discarded)

hunt-All :
    (rx rx' : Receiver) (h : Hunt) → hunt rx ≡ (h, rx') → All IsByte rx.buf → All IsByte rx'.buf
unfolding hunt
hunt-All rx rx' h e b = rw e at (hunt_loop-All rx.buf rx.discarded b)

abbrev Keeps : Receiver → Polled → Type 0
Keeps rx (o, rx') =
    All IsByte rx.buf → (rx'.discarded ++ (handed o ++ rx'.buf) ≡ stream rx) × All IsByte rx'.buf

accept-Keeps :
    (r : Result FrameError Frame) (n : ℕ) (rx : Receiver)
    → decode (take n rx.buf) ≡ r
    → Keeps rx (accept r (take n rx.buf) (record rx { buf = drop n rx.buf }))
unfolding accept
accept-Keeps (ok f) n rx e h = (
  rw (encode-decode (take n rx.buf) (All-take IsByte n rx.buf h) e, take-append-drop n rx.buf),
  All-drop IsByte n rx.buf h,
)
accept-Keeps (err x) n rx e h =
    let bs = take n rx.buf in
    let rest = drop n rx.buf in
    (
      append_assoc rx.discarded (take 1 bs) (drop 1 bs ++ rest)
          ∙ ap (◌++◌ rx.discarded) (
              sym (append_assoc (take 1 bs) (drop 1 bs) rest)
              ∙ ap (λ (t : Bytes). t ++ rest) (take-append-drop 1 bs)
              ∙ take-append-drop n rx.buf),
      All-append IsByte (drop 1 bs) rest (All-drop IsByte 1 bs (All-take IsByte n rx.buf h))
          (All-drop IsByte n rx.buf h),
    )

take_frame-Keeps : (n : ℕ) (rx : Receiver) → Keeps rx (take_frame n rx)
unfolding take_frame
take_frame-Keeps n rx = accept-Keeps (decode (take n rx.buf)) n rx refl

hunt-Keeps :
    (rx rx' : Receiver) (h : Hunt) (o : Polled) → hunt rx ≡ (h, rx') → Keeps rx' o → Keeps rx o
hunt-Keeps rx rx' h (o, last) e k b =
    let (s, b') = k (hunt-All rx rx' h e b) in (s ∙ hunt-stream rx rx' h e, b')

-- No byte is lost, repeated or moved by `next_frame`: what it has discarded by then, the encoding
-- of the frame it hands out (nothing on an error or when it waits), and what stays in the buffer
-- are, in this order, all that it had discarded and buffered before. The buffer stays a string of
-- bytes.
pub next_frame-stream :
    (rx : Receiver)
    → All IsByte rx.buf
    → ((next_frame rx).1.discarded ++ (handed (next_frame rx).0 ++ (next_frame rx).1.buf)
        ≡ stream rx)
      × All IsByte (next_frame rx).1.buf
next_frame-stream =
    next_frame_rule Keeps (λ rx rx' e. hunt-Keeps rx rx' need_more (none, rx') e (λ b. (refl, b)))
      (λ rx rx' o e. hunt-Keeps rx rx' advanced o e)
      (λ rx rx' n e. hunt-Keeps rx rx' (frame n) (take_frame n rx') e (take_frame-Keeps n rx'))
