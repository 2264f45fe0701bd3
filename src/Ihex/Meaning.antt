-- ===== src/Ihex/Meaning.antt =====
-- What `parse` of src/ihex.rs makes of a file of data records alone.
use stcbsl.Base.{ℕ, ◌+◌, ◌<◌, ◌≡◌, refl, ap, List, [], ◌∷◌, ok, arith, All}
use stcbsl.Ihex.{Record, Image, parse}
use stcbsl.Ihex.File.{print_file}
use stcbsl.Ihex.Pieces.{Piece, IsPiece, end_of, Describes}
use stcbsl.Ihex.Items.{Item, put, IsItem, end_of_file, records_of, pieces_of, parse-records_of}

abbrev pub as_record : Piece → Record
as_record p = record { offset = p.addr; rtype = 0; payload = p.bytes }

abbrev pub file_of : List Piece → List Record
file_of [] = end_of_file ∷ []
file_of (p ∷ ps) = as_record p ∷ file_of ps

items_of : List Piece → List Item
items_of [] = []
items_of (p ∷ ps) = put p.addr p.bytes ∷ items_of ps

records_of-items_of : (ps : List Piece) → records_of (items_of ps) ≡ file_of ps
unfolding items_of
records_of-items_of [] = refl
records_of-items_of (p ∷ ps) = ap (◌∷◌ (as_record p)) (records_of-items_of ps)

pieces_of-items_of : (ps : List Piece) → pieces_of 0 (items_of ps) ≡ ps
unfolding items_of
pieces_of-items_of [] = refl
pieces_of-items_of (p ∷ ps) =
    λ i. record { addr = from_zero p.addr i; bytes = p.bytes } ∷ pieces_of-items_of ps i
  where
    from_zero : (n : ℕ) → 0 + n ≡ n
    from_zero n = omega arith

items_of-IsItem : (ps : List Piece) → All IsPiece ps → All IsItem (items_of ps)
unfolding items_of
items_of-IsItem [] h = tt
items_of-IsItem (p ∷ ps) (h, hs) = ((h.low, h.short, h.bytes_fit), items_of-IsItem ps hs)

-- A file of data records gives the image that they describe. For pieces of at most 255 bytes below
-- 64 KB, not all of them empty, each written as a data record, and the end-of-file record behind
-- them, `parse` succeeds: the image reaches to the highest end of a piece, holds at each address
-- the byte that the last piece over it puts there, and 0x00 where there is none, and reports the
-- lowest address of a piece and the number of addresses that no piece covers.
pub parse-file_of :
    (ps : List Piece)
    → All IsPiece ps
    → 0 < end_of ps
    → (image : Image) × (parse (print_file (file_of ps)) ≡ ok image) × Describes ps image
parse-file_of ps h some_bytes =
    let same = pieces_of-items_of ps in
    let (image, read, described) =
      parse-records_of (items_of ps) (items_of-IsItem ps h) (rw same h) (rw same some_bytes) in
    (image, rw (records_of-items_of ps) at read, rw same at described)
