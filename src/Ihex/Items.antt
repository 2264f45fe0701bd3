-- ===== src/Ihex/Items.antt =====
-- Files of records of every type that `parse` of src/ihex.rs knows, and the image that they describe.
use stcbsl.Base.{
  ℕ, suc, ◌+◌, ◌*◌, ◌/◌, ◌%◌, ◌≤◌, ◌<◌, ◌≡◌, refl, ap, ◌∙◌, Bool, true, false, List, [], ◌∷◌,
  Result, ok, ◌>>=◌, length, ltb, arith, All,
}
use stcbsl.Base.Bytes.{Bytes, IsByte, u16_to_be}
use stcbsl.Ihex.{Record, Image, HexError, Memory, go_on, store_data, apply, blank, image_of, parse}
use stcbsl.Ihex.Print.{IsRecord}
use stcbsl.Ihex.File.{print_file, apply_all, parse-print_file}
use stcbsl.Ihex.Pieces.{
  Piece, IsPiece, end_of, Covers, after_piece, after_piece-Covers, after_piece-lowest,
  after_piece-base, after_piece-saw_data, Covers-cons, Describes, image_of-Describes,
}

-- A record before the end-of-file record: data at an offset, the paragraph of a segment, the linear
-- segment 0, or the entry point of a debugger.
pub data Item : Type 0 where
  put : ℕ → Bytes → Item
  segment : ℕ → Item
  linear : Item
  start_segment start_linear : Bytes → Item

abbrev pub record_of : Item → Record
record_of (put offset bytes) = record { offset = offset; rtype = 0; payload = bytes }
record_of (segment paragraph) = record { offset = 0; rtype = 2; payload = u16_to_be paragraph }
record_of linear = record { offset = 0; rtype = 4; payload = 0 ∷ 0 ∷ [] }
record_of (start_segment bytes) = record { offset = 0; rtype = 3; payload = bytes }
record_of (start_linear bytes) = record { offset = 0; rtype = 5; payload = bytes }

abbrev pub end_of_file : Record
end_of_file = record { offset = 0; rtype = 1; payload = [] }

abbrev pub records_of : List Item → List Record
records_of [] = end_of_file ∷ []
records_of (i ∷ is) = record_of i ∷ records_of is

-- The numbers of an item fit its record.
abbrev pub IsItem : Item → Type 0
IsItem (put offset bytes) = (offset < 0x1_0000) × (length bytes < 256) × All IsByte bytes
IsItem (segment paragraph) = paragraph < 0x1_0000
IsItem linear = Unit
IsItem (start_segment bytes) = (length bytes < 256) × All IsByte bytes
IsItem (start_linear bytes) = (length bytes < 256) × All IsByte bytes

-- The data at their addresses: an offset counts from the segment that was given last, and at first
-- from 0; a segment begins at sixteen times its paragraph.
abbrev pub pieces_of : ℕ → List Item → List Piece
pieces_of base [] = []
pieces_of base (put offset bytes ∷ is) =
    record { addr = base + offset; bytes = bytes } ∷ pieces_of base is
pieces_of base (segment paragraph ∷ is) = pieces_of (paragraph * 16) is
pieces_of base (linear ∷ is) = pieces_of 0 is
pieces_of base (start_segment bytes ∷ is) = pieces_of base is
pieces_of base (start_linear bytes ∷ is) = pieces_of base is

record_of-IsRecord : (i : Item) → IsItem i → IsRecord (record_of i)
record_of-IsRecord (put offset bytes) h = record {
  offset_fits = h.0;
  type_fits = omega arith;
  payload_fits = h.1;
  payload_bytes = h.2;
}
record_of-IsRecord (segment paragraph) h = record {
  offset_fits = omega arith;
  type_fits = omega arith;
  payload_fits = omega arith;
  payload_bytes = omega arith;
}
record_of-IsRecord linear h = record {
  offset_fits = omega arith;
  type_fits = omega arith;
  payload_fits = omega arith;
  payload_bytes = omega arith;
}
record_of-IsRecord (start_segment bytes) h = record {
  offset_fits = omega arith;
  type_fits = omega arith;
  payload_fits = h.0;
  payload_bytes = h.1;
}
record_of-IsRecord (start_linear bytes) h = record {
  offset_fits = omega arith;
  type_fits = omega arith;
  payload_fits = h.0;
  payload_bytes = h.1;
}

records_of-IsRecord : (is : List Item) → All IsItem is → All IsRecord (records_of is)
records_of-IsRecord [] h = (
  record {
    offset_fits = omega arith;
    type_fits = omega arith;
    payload_fits = omega arith;
    payload_bytes = tt;
  },
  tt,
)
records_of-IsRecord (i ∷ is) (h, hs) = (record_of-IsRecord i h, records_of-IsRecord is hs)

apply-put :
    (line base offset : ℕ) (bytes : Bytes) (m : Memory)
    → m.base ≡ base
    → base + offset + length bytes ≤ 0x1_0000
    → apply line (record_of (put offset bytes)) m
      ≡ ok (go_on (after_piece (record { addr = base + offset; bytes = bytes }) m))
unfolding apply store_data after_piece
apply-put line base offset bytes m e inside =
    let same : m.base + offset ≡ base + offset = omega arith in
    let fits : ltb 0x1_0000 (base + offset + length bytes) ≡ false = ground arith in
    rw (same, fits) refl

apply-segment :
    (line paragraph : ℕ) (m : Memory)
    → paragraph < 0x1_0000
    → apply line (record_of (segment paragraph)) m ≡ ok (go_on (record m { base = paragraph * 16 }))
unfolding apply
apply-segment line paragraph m h =
    let e : paragraph / 0x100 % 0x100 * 0x100 + paragraph % 0x100 ≡ paragraph = omega arith in
    rw e refl

apply-linear :
    (line : ℕ) (m : Memory) → apply line (record_of linear) m ≡ ok (go_on (record m { base = 0 }))
unfolding apply
apply-linear line m = refl

apply-start_segment :
    (line : ℕ) (bytes : Bytes) (m : Memory)
    → apply line (record_of (start_segment bytes)) m ≡ ok (go_on m)
unfolding apply
apply-start_segment line bytes m = refl

apply-start_linear :
    (line : ℕ) (bytes : Bytes) (m : Memory)
    → apply line (record_of (start_linear bytes)) m ≡ ok (go_on m)
unfolding apply
apply-start_linear line bytes m = refl

-- Only whether there was a piece.
abbrev seen_after : List Piece → Bool → Bool
seen_after [] b = b
seen_after (p ∷ ps) b = true

abbrev Applied : ℕ → ℕ → List Item → Memory → Type 0
Applied line base is m =
    (m' : Memory) × (apply_all line (records_of is) m ≡ ok m')
    × Covers m (pieces_of base is) m'
    × (m'.saw_data ≡ seen_after (pieces_of base is) m.saw_data)

-- The cells do not depend on the base.
rebased :
    (m m' : Memory) (b : ℕ) (ps : List Piece)
    → Covers (record m { base = b }) ps m'
    → Covers m ps m'
rebased m m' b ps c = record { size = c.size; cells = c.cells; low = c.low }

seen_after-true : (ps : List Piece) → seen_after ps true ≡ true
seen_after-true [] = refl
seen_after-true (p ∷ ps) = refl

records_of-Applied :
    (line base : ℕ) (is : List Item) (m : Memory)
    → All IsItem is
    → All IsPiece (pieces_of base is)
    → m.base ≡ base
    → m.lowest ≤ 0xFFFF_FFFF
    → Applied line base is m
unfolding apply_all
records_of-Applied line base [] m h k e top = (
  m,
  unfold apply in refl,
  record { size = ground arith; cells = λ a. refl; low = ground arith },
  refl,
)
records_of-Applied line base (put offset bytes ∷ is) m (h, hs) (k, ks) e top =
    let piece : Piece = record { addr = base + offset; bytes = bytes } in
    let inside = k.inside in
    let (m', q, c, seen) =
      records_of-Applied (suc line) base is (after_piece piece m) hs ks
        (after_piece-base piece m ∙ e) (after_piece-lowest piece m top) in
    (
      m',
      rw (apply-put line base offset bytes m e inside) q,
      Covers-cons piece (pieces_of base is) m (after_piece piece m) m' k
          (after_piece-Covers piece m k) c,
      seen
          ∙ ap (seen_after (pieces_of base is)) (after_piece-saw_data piece m)
          ∙ seen_after-true (pieces_of base is),
    )
records_of-Applied line base (segment paragraph ∷ is) m (h, hs) ks e top =
    let (m', q, c, seen) =
      records_of-Applied (suc line) (paragraph * 16) is (record m { base = paragraph * 16 }) hs ks
        refl top in
    (m', rw (apply-segment line paragraph m h) q, rebased m m' (paragraph * 16) _ c, seen)
records_of-Applied line base (linear ∷ is) m (h, hs) ks e top =
    let (m', q, c, seen) =
      records_of-Applied (suc line) 0 is (record m { base = 0 }) hs ks refl top in
    (m', rw (apply-linear line m) q, rebased m m' 0 _ c, seen)
records_of-Applied line base (start_segment bytes ∷ is) m (h, hs) ks e top =
    let (m', q, c, seen) = records_of-Applied (suc line) base is m hs ks e top in
    (m', rw (apply-start_segment line bytes m) q, c, seen)
records_of-Applied line base (start_linear bytes ∷ is) m (h, hs) ks e top =
    let (m', q, c, seen) = records_of-Applied (suc line) base is m hs ks e top in
    (m', rw (apply-start_linear line bytes m) q, c, seen)

-- A file of records gives the image that they describe. The records before the end-of-file record
-- are data records, extended segment addresses, extended linear addresses 0 and start addresses,
-- in any order, whose numbers fit; each datum, at its offset from the segment given last, lies
-- below 64 KB and has at most 255 bytes, and not all are empty. Then `parse` succeeds, and the
-- image is the one that the data describe at these addresses: it reaches to the highest end of
-- them, holds at each address the byte that the last of them puts there, and 0x00 where there is
-- none, and reports the lowest address and the number of addresses that none covers.
pub parse-records_of :
    (is : List Item)
    → All IsItem is
    → All IsPiece (pieces_of 0 is)
    → 0 < end_of (pieces_of 0 is)
    → (image : Image) × (parse (print_file (records_of is)) ≡ ok image)
      × Describes (pieces_of 0 is) image
parse-records_of [] h k some_bytes = absurd (omega arith)
parse-records_of (i ∷ is) (h, hs) k some_bytes =
    let (m, q, c, seen) = records_of-Applied 1 0 (i ∷ is) blank (h, hs) k refl (omega arith) in
    let (image, made, described) =
      image_of-Describes (pieces_of 0 (i ∷ is)) m c
        (seen ∙ seen_of_bytes (pieces_of 0 (i ∷ is)) some_bytes) some_bytes in
    (
      image,
      parse-print_file (record_of i) (records_of is) (record_of-IsRecord i h)
            (records_of-IsRecord is hs)
          ∙ ap (λ (r : Result HexError Memory). r >>= image_of) q
          ∙ made,
      described,
    )
  where
    seen_of_bytes : (ps : List Piece) → 0 < end_of ps → seen_after ps false ≡ true
    seen_of_bytes [] l = absurd (omega arith)
    seen_of_bytes (p ∷ ps) l = refl
