-- ===== src/Receiver/Hunting.antt =====
-- What one call of `Receiver::hunt` (src/frame.rs) does to the two buffers.
use stcbsl.Base.{
  ℕ, ◌+◌, ◌≤◌, ◌<◌, ◌≡◌, refl, inl, inr, true, false, not, [], ◌∷◌, ◌++◌, length, take, drop, ltb,
  ◌!=◌, if◌then◌else◌, arith, append_assoc, Bool-cases, length-append,
}
use stcbsl.Base.Bytes.{Bytes, u16_from_be}
use stcbsl.Receiver.{plausible, feed, Receiver, Hunt, need_more, advanced, frame, hunt_loop}

-- All that a receiver has been fed and has not handed out.
abbrev pub stream : Receiver → Bytes
stream rx = rx.discarded ++ rx.buf

-- `hunt` only moves bytes from the front of the buffer to the end of the discarded ones.
pub hunt_loop-stream : (buf d : Bytes) → stream (hunt_loop buf d).1 ≡ d ++ buf
unfolding hunt_loop
hunt_loop-stream [] d = refl
hunt_loop-stream (b ∷ rest) d =
    ground (arith, hunt_loop-stream rest (d ++ b ∷ []), append_assoc d (b ∷ []) rest)

abbrev pub Bounds : Bytes → Hunt × Receiver → Type 0
Bounds buf (need_more, rx) = length rx.buf ≤ length buf
Bounds buf (advanced, rx) = length rx.buf < length buf
Bounds buf (frame n, rx) = (8 ≤ n) × (n ≤ length rx.buf) × (length rx.buf ≤ length buf)

pub hunt_loop-Bounds : (buf d : Bytes) → Bounds buf (hunt_loop buf d)
unfolding hunt_loop
hunt_loop-Bounds [] d = omega arith
hunt_loop-Bounds (b ∷ rest) d = ground (arith, hunt_loop-Bounds rest (d ++ b ∷ []))

module _ (b : ℕ) (d : Bytes) where
  -- A byte that opens no frame is passed over,
  pub hunt_noise :
      (rest : Bytes) → (b != 0x46) ≡ true → hunt_loop (b ∷ rest) d ≡ hunt_loop rest (d ++ b ∷ [])
  unfolding hunt_loop
  hunt_noise rest noise = rw noise

  pub hunt_alone :
      (b != 0x46) ≡ false
      → hunt_loop (b ∷ []) d ≡ (need_more, record { buf = b ∷ []; discarded = d })
  unfolding hunt_loop
  hunt_alone first = rw first (ground arith)

  -- and so is a first marker with no second one behind it.
  pub hunt_lone :
      (c : ℕ) (rest : Bytes)
      → (b != 0x46) ≡ false
      → (c != 0xB9) ≡ true
      → hunt_loop (b ∷ c ∷ rest) d ≡ hunt_loop (c ∷ rest) (d ++ b ∷ [])
  unfolding hunt_loop
  hunt_lone c rest first noise = rw (first, noise) (ground arith)

  -- Behind both markers the hunt waits for the length field, and then decides by it.
  pub hunt_short :
      (c : ℕ) (rest : Bytes)
      → (b != 0x46) ≡ false
      → (c != 0xB9) ≡ false
      → length rest < 3
      → hunt_loop (b ∷ c ∷ rest) d ≡ (need_more, record { buf = b ∷ c ∷ rest; discarded = d })
  unfolding hunt_loop
  hunt_short c rest first second h = ground arith

abbrev pub header_verdict : Bytes → Bytes → ℕ → Hunt × Receiver
header_verdict buf d declared =
    if not (plausible declared)
    then (advanced, record { buf = drop 1 buf; discarded = d ++ take 1 buf })
    else if ltb (length buf) (declared + 2)
    then (need_more, record { buf = buf; discarded = d })
    else (frame (declared + 2), record { buf = buf; discarded = d })

pub hunt_header :
    (b c x y z : ℕ) (rest d : Bytes)
    → (b != 0x46) ≡ false
    → (c != 0xB9) ≡ false
    → hunt_loop (b ∷ c ∷ x ∷ y ∷ z ∷ rest) d
      ≡ header_verdict (b ∷ c ∷ x ∷ y ∷ z ∷ rest) d (u16_from_be y z)
unfolding hunt_loop
hunt_header b c x y z rest d first second = rw (first, second) (ground arith)

-- How the hunt over a longer buffer continues the hunt over its front.
abbrev pub Resumes : Bytes → Hunt × Receiver → Hunt × Receiver → Type 0
Resumes more (need_more, rx) r = r ≡ hunt_loop (rx.buf ++ more) rx.discarded
Resumes more (advanced, rx) r = r ≡ (advanced, feed rx more)
Resumes more (frame n, rx) r = r ≡ (frame n, feed rx more)

-- The hunt at two markers, with `l` left behind them.
hunt_marked-append :
    (b c : ℕ) (l d more : Bytes)
    → (b != 0x46) ≡ false
    → (c != 0xB9) ≡ false
    → Resumes more (hunt_loop (b ∷ c ∷ l) d) (hunt_loop (b ∷ c ∷ l ++ more) d)
hunt_marked-append b c [] d more first second =
    rw (hunt_short b d c [] first second (omega arith)) refl
hunt_marked-append b c (x ∷ []) d more first second =
    rw (hunt_short b d c (x ∷ []) first second (omega arith)) refl
hunt_marked-append b c (x ∷ y ∷ []) d more first second =
    rw (hunt_short b d c (x ∷ y ∷ []) first second (omega arith)) refl
hunt_marked-append b c (x ∷ y ∷ z ∷ rest) d more first second = ground (
  arith,
  hunt_header b c x y z rest d first second,
  hunt_header b c x y z (rest ++ more) d first second,
  length-append rest more,
)

hunt_marker-append :
    (b : ℕ) (rest d more : Bytes)
    → (b != 0x46) ≡ false
    → Resumes more (hunt_loop rest (d ++ b ∷ [])) (hunt_loop (rest ++ more) (d ++ b ∷ []))
    → Resumes more (hunt_loop (b ∷ rest) d) (hunt_loop (b ∷ rest ++ more) d)
hunt_marker-append b [] d more first ih = rw (hunt_alone b d first) refl
hunt_marker-append b (c ∷ rest) d more first ih = elim (Bool-cases (c != 0xB9)) [
  | inl noise ↦ rw (hunt_lone b d c rest first noise, hunt_lone b d c (rest ++ more) first noise) ih
  | inr second ↦ hunt_marked-append b c rest d more first second
]

pub hunt_loop-append :
    (buf d more : Bytes) → Resumes more (hunt_loop buf d) (hunt_loop (buf ++ more) d)
hunt_loop-append [] d more = unfold hunt_loop in refl
hunt_loop-append (b ∷ rest) d more = elim (Bool-cases (b != 0x46)) [
  | inl noise ↦
      rw (hunt_noise b d rest noise, hunt_noise b d (rest ++ more) noise)
        (hunt_loop-append rest (d ++ b ∷ []) more)
  | inr first ↦ hunt_marker-append b rest d more first (hunt_loop-append rest (d ++ b ∷ []) more)
]
