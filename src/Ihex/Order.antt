-- ===== src/Ihex/Order.antt =====
-- The order of the data records in a file that src/ihex.rs reads, where they do not overlap.
use stcbsl.Base.{
  ℕ, suc, ◌+◌, ◌≤◌, ◌<◌, ◌≡◌, refl, sym, ap, ◌∙◌, ◌⊎◌, inl, inr, Option, none, some, List, [], ◌∷◌,
  ok, length, get_or, arith, All,
}
use stcbsl.Base.Bytes.{Bytes}
use stcbsl.Ihex.{Image, parse, or_zero}
use stcbsl.Ihex.File.{print_file}
use stcbsl.Ihex.Cells.{stored, max}
use stcbsl.Ihex.Meaning.{file_of, parse-file_of}
use stcbsl.Ihex.Pieces.{Piece, IsPiece, later, last_write, end_of, min, lowest_of, uncovered}

-- Two pieces that do not overlap.
abbrev pub Apart : Piece → Piece → Type 0
Apart p q = (p.addr + length p.bytes ≤ q.addr) ⊎ (q.addr + length q.bytes ≤ p.addr)

-- Pieces that follow one another change places, if they do not overlap, xs often xs one likes.
pub data Reorders : List Piece → List Piece → Type 0 where
  done : Reorders [] []
  keeps : {ps qs : List Piece} (p : Piece) → Reorders ps qs → Reorders (p ∷ ps) (p ∷ qs)
  swaps : (p q : Piece) (ps : List Piece) → Apart p q → Reorders (p ∷ q ∷ ps) (q ∷ p ∷ ps)
  chains : {ps qs rs : List Piece} → Reorders ps qs → Reorders qs rs → Reorders ps rs

later_swap :
    (x : Option ℕ) (p q : Piece) (a : ℕ)
    → Apart p q
    → later (later x (stored q.addr q.bytes a none)) (stored p.addr p.bytes a none)
      ≡ later (later x (stored p.addr p.bytes a none)) (stored q.addr q.bytes a none)
later_swap (some b) p q a h = refl
later_swap none p q a (inl h) = ground arith
later_swap none p q a (inr h) = ground arith

max_swap : (a b c : ℕ) → max a (max b c) ≡ max b (max a c)
max_swap a b c = ground arith

min_swap : (a b c : ℕ) → min a (min b c) ≡ min b (min a c)
min_swap a b c = ground arith

Reorders-last_write :
    {ps qs : List Piece} (a : ℕ) → Reorders ps qs → last_write ps a ≡ last_write qs a
Reorders-last_write a done = refl
Reorders-last_write a (keeps p r) =
    ap (λ (x : Option ℕ). later x (stored p.addr p.bytes a none)) (Reorders-last_write a r)
Reorders-last_write a (swaps p q ps h) = later_swap (last_write ps a) p q a h
Reorders-last_write a (chains r s) = Reorders-last_write a r ∙ Reorders-last_write a s

Reorders-end_of : {ps qs : List Piece} → Reorders ps qs → end_of ps ≡ end_of qs
Reorders-end_of done = refl
Reorders-end_of (keeps p r) = ap (max (p.addr + length p.bytes)) (Reorders-end_of r)
Reorders-end_of (swaps p q ps h) =
    max_swap (p.addr + length p.bytes) (q.addr + length q.bytes) (end_of ps)
Reorders-end_of (chains r s) = Reorders-end_of r ∙ Reorders-end_of s

Reorders-lowest_of : {ps qs : List Piece} → Reorders ps qs → lowest_of ps ≡ lowest_of qs
Reorders-lowest_of done = refl
Reorders-lowest_of (keeps p r) = ap (min p.addr) (Reorders-lowest_of r)
Reorders-lowest_of (swaps p q ps h) = min_swap p.addr q.addr (lowest_of ps)
Reorders-lowest_of (chains r s) = Reorders-lowest_of r ∙ Reorders-lowest_of s

Reorders-All : {ps qs : List Piece} → Reorders ps qs → All IsPiece ps → All IsPiece qs
Reorders-All done h = h
Reorders-All (keeps p r) (h, hs) = (h, Reorders-All r hs)
Reorders-All (swaps p q ps _) (h, (k, hs)) = (k, (h, hs))
Reorders-All (chains r s) h = Reorders-All s (Reorders-All r h)

-- Byte strings of one length that agree at every place.
get_or_ext :
    (xs bs : Bytes) → length xs ≡ length bs → ((i : ℕ) → get_or xs i 0 ≡ get_or bs i 0) → xs ≡ bs
get_or_ext [] [] e h = refl
get_or_ext [] (b ∷ bs) e h = absurd (omega arith)
get_or_ext (a ∷ xs) [] e h = absurd (omega arith)
get_or_ext (a ∷ xs) (b ∷ bs) e h = λ i. h 0 i ∷ get_or_ext xs bs (omega arith) (λ j. h (suc j)) i

Image_ext :
    (i j : Image)
    → i.bytes ≡ j.bytes
    → i.lowest_addr ≡ j.lowest_addr
    → i.gap_bytes ≡ j.gap_bytes
    → i ≡ j
Image_ext i j b l g = λ k. record { bytes = b k; lowest_addr = l k; gap_bytes = g k }

-- The order of data records that do not overlap does not matter. Take a file of data records, each
-- of at most 255 bytes below 64 KB, not all of them empty, with the end-of-file record behind
-- them, and a second that arises from it by exchanging neighbouring records that do not overlap,
-- any number of times. `parse` answers the same image on both: the same bytes, the same lowest
-- address and the same number of gaps.
pub parse-Reorders :
    (ps qs : List Piece)
    → Reorders ps qs
    → All IsPiece ps
    → 0 < end_of ps
    → (image : Image) × (parse (print_file (file_of ps)) ≡ ok image)
      × (parse (print_file (file_of qs)) ≡ ok image)
parse-Reorders [] qs r h l = absurd (omega arith)
parse-Reorders (p ∷ ps) [] r h l = absurd (omega (arith, Reorders-end_of r))
parse-Reorders (p ∷ ps) (q ∷ qs) r h l =
    let same_end = Reorders-end_of r in
    let (i, read, described) = parse-file_of (p ∷ ps) h l in
    let (long, holds, low, gap) = described in
    let (j, read', described') = parse-file_of (q ∷ qs) (Reorders-All r h) (rw (sym same_end) l) in
    let (long', holds', low', gap') = described' in
    let same : (a : ℕ) → last_write (p ∷ ps) a ≡ last_write (q ∷ qs) a =
      λ a. Reorders-last_write a r in
    let i_is_j : i ≡ j =
      Image_ext i j
        (get_or_ext i.bytes j.bytes (long ∙ same_end ∙ sym long')
          (λ a. holds a ∙ ap or_zero (same a) ∙ sym (holds' a)))
        (low ∙ Reorders-lowest_of r ∙ sym low')
        (gap ∙ (λ k. uncovered (λ a. same a k) (same_end k)) ∙ sym gap') in
    (i, read, read' ∙ ap ok (sym i_is_j))
