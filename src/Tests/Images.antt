-- ===== src/Tests/Images.antt =====
-- src/ihex.rs on concrete files; the first examples are those of its own tests.
use stcbsl.Base.{List, inl, ◌≡◌, refl, [], ◌∷◌, ◌++◌, ok, err, set, arith, ◌>>=◌}
use stcbsl.Base.Text.{Text, codes}
use stcbsl.Ihex.{
  Image, HexError, bad_checksum, address_too_high, parse, read_record, image_of, blank,
}
use stcbsl.Ihex.Print.{IsRecord, hex_of, record_bytes, read_record-set}
use stcbsl.Ihex.File.{print_file, apply_all, parse-print_file}
use stcbsl.Ihex.Bounds.{IsImage, parse-IsImage}
use stcbsl.Ihex.Checked.{Fine}
use stcbsl.Ihex.Order.{Reorders, swaps, parse-Reorders}
use stcbsl.Ihex.Pieces.{Piece, IsPiece, Describes}
use stcbsl.Ihex.Items.{
  Item, put, segment, linear, start_linear, end_of_file, records_of, parse-records_of,
}
use stcbsl.Ihex.Meaning.{as_record, file_of}

-- Two lines.
abbrev two_lines : Text → Text → Text
two_lines a b = a ++ 0x0A ∷ (b ++ 0x0A ∷ [])

abbrev simple : Text
simple = two_lines (codes ":03000000010203F7") (codes ":00000001FF")

simple_image : parse simple ≡ ok (record { bytes = 1 ∷ 2 ∷ 3 ∷ []; lowest_addr = 0; gap_bytes = 0 })
unfolding parse
simple_image = refl

gaps_fill_with_zero :
    parse (two_lines (codes ":01000000AA55") (codes ":0100050055A5"))
    ≡ ok (record { bytes = 0xAA ∷ 0 ∷ 0 ∷ 0 ∷ 0 ∷ 0x55 ∷ []; lowest_addr = 0; gap_bytes = 4 })
unfolding parse
gaps_fill_with_zero = refl

rejects_a_bad_checksum :
    parse (two_lines (codes ":03000000010203F8") (codes ":00000001FF"))
    ≡ err (bad_checksum 1 0xF7 0xF8)
unfolding parse
rejects_a_bad_checksum = refl

rejects_high_addresses :
    parse (two_lines (codes ":02000004FFFFFC") (codes ":00000001FF"))
    ≡ err (address_too_high 1 0xFFFF_0000)
unfolding parse
rejects_high_addresses = refl

-- A carriage return, blanks and lower case are accepted.
loose_layout :
    parse (two_lines (codes "  :01000000aa55" ++ 0x0D ∷ []) (codes " "))
    ≡ ok (record { bytes = 0xAA ∷ []; lowest_addr = 0; gap_bytes = 0 })
unfolding parse
loose_layout = refl

-- A data record without data makes an image of the gap in front of it.
no_data_but_gap :
    parse (two_lines (codes ":00000400FC") (codes ":00000001FF"))
    ≡ ok (record { bytes = 0 ∷ 0 ∷ 0 ∷ 0 ∷ []; lowest_addr = 4; gap_bytes = 4 })
unfolding parse
no_data_but_gap = refl

parse-IsImage_example : Fine IsImage (parse simple)
parse-IsImage_example = parse-IsImage simple

-- Two pieces with a gap between them, and a third that writes over the first.
abbrev low : Piece
low = record { addr = 1; bytes = 0x10 ∷ 0x11 ∷ [] }

abbrev high : Piece
high = record { addr = 5; bytes = 0x20 ∷ [] }

abbrev over : Piece
over = record { addr = 2; bytes = 0x30 ∷ [] }

low-IsRecord : IsRecord (as_record low)
low-IsRecord = record {
  offset_fits = omega arith;
  type_fits = omega arith;
  payload_fits = omega arith;
  payload_bytes = omega arith;
}

end_of_file-IsRecord : IsRecord end_of_file
end_of_file-IsRecord = record {
  offset_fits = omega arith;
  type_fits = omega arith;
  payload_fits = omega arith;
  payload_bytes = tt;
}

low-IsPiece : IsPiece low
low-IsPiece = record {
  low = omega arith;
  short = omega arith;
  inside = omega arith;
  bytes_fit = omega arith;
}

high-IsPiece : IsPiece high
high-IsPiece = record {
  low = omega arith;
  short = omega arith;
  inside = omega arith;
  bytes_fit = omega arith;
}

over-IsPiece : IsPiece over
over-IsPiece = record {
  low = omega arith;
  short = omega arith;
  inside = omega arith;
  bytes_fit = omega arith;
}

abbrev pieces_text : Text
pieces_text = print_file (file_of (low ∷ high ∷ over ∷ []))

parse-print_file_example :
    parse (print_file (as_record low ∷ end_of_file ∷ []))
    ≡ (apply_all 1 (as_record low ∷ end_of_file ∷ []) blank >>= image_of)
parse-print_file_example =
    parse-print_file (as_record low) (end_of_file ∷ []) low-IsRecord (end_of_file-IsRecord, tt)

read_record-set_example :
    (e : HexError) × (read_record 1 b':' (hex_of (set (record_bytes (as_record low)) 4 0x90))
      ≡ err e)
unfolding record_bytes
read_record-set_example =
    read_record-set 1 (as_record low) 4 0x90 low-IsRecord (omega arith) (omega arith) (omega arith)

-- `high` goes before `low`.
is_reordered : Reorders (low ∷ high ∷ over ∷ []) (high ∷ low ∷ over ∷ [])
is_reordered = swaps low high (over ∷ []) (inl (omega arith))

parse-Reorders_example :
    (image : Image) × (parse pieces_text ≡ ok image)
    × (parse (print_file (file_of (high ∷ low ∷ over ∷ []))) ≡ ok image)
parse-Reorders_example =
    parse-Reorders (low ∷ high ∷ over ∷ []) (high ∷ low ∷ over ∷ []) is_reordered
      (low-IsPiece, (high-IsPiece, (over-IsPiece, tt))) (omega arith)

-- A datum in the segment at 16, and one behind it from 0 on, with a start address between them.
abbrev segments : List Item
segments =
    segment 1
    ∷ put 4 (0x10 ∷ 0x11 ∷ [])
    ∷ start_linear (0 ∷ 0 ∷ 0 ∷ 0 ∷ [])
    ∷ linear
    ∷ put 2 (0x20 ∷ [])
    ∷ []

parse-records_of_example :
    (image : Image) × (parse (print_file (records_of segments)) ≡ ok image)
    × Describes
        (record { addr = 20; bytes = 0x10 ∷ 0x11 ∷ [] }
          ∷ record { addr = 2; bytes = 0x20 ∷ [] }
          ∷ [])
        image
parse-records_of_example =
    parse-records_of segments (omega arith, (omega arith, (omega arith, (tt, (omega arith, tt)))))
      (
        record {
          low = omega arith;
          short = omega arith;
          inside = omega arith;
          bytes_fit = omega arith;
        },
        (
          record {
            low = omega arith;
            short = omega arith;
            inside = omega arith;
            bytes_fit = omega arith;
          },
          tt,
        ),
      )
      (omega arith)
