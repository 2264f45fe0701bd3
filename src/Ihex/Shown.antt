-- ===== src/Ihex/Shown.antt =====
-- The texts of src/ihex.rs: `Display` of `HexError`, and the reasons in a bad record.
use stcbsl.Base.{[], ◌++◌}
use stcbsl.Base.Text.{Text, codes, decimal, hex_padded}
use stcbsl.Base.Debug.{debug_text, debug_char}
use stcbsl.Ihex.{
  Why, no_start_code, truncated_record, non_hex, count_disagrees, bad_segment_length,
  bad_linear_length, unsupported_type, odd_digits, HexError, empty, no_data, bad_record,
  bad_checksum, address_too_high,
}

-- The panic has no text of its own here.
unfoldable pub why_text : Why → Text
unfolding debug_text debug_char decimal hex_padded
why_text (no_start_code s) = codes "no ':' start code: " ++ debug_text s
why_text truncated_record = codes "truncated record"
why_text (non_hex c) = codes "non-hex character " ++ debug_char c
why_text (count_disagrees count n) =
    codes "byte count " ++ (decimal count ++ (codes " disagrees with record length " ++ decimal n))
why_text bad_segment_length = codes "bad type-02 length"
why_text bad_linear_length = codes "bad type-04 length"
why_text (unsupported_type t) = codes "unsupported record type 0x" ++ hex_padded 2 t
why_text odd_digits = []

unfoldable pub hex_error_text : HexError → Text
unfolding why_text
hex_error_text empty = codes "file is empty"
hex_error_text no_data = codes "file contains no data records"
hex_error_text (bad_record line why) =
    codes "line " ++ (decimal line ++ (codes ": " ++ why_text why))
hex_error_text (bad_checksum line computed got) =
    codes "line "
    ++ (decimal line
        ++ (codes ": record checksum is 0x"
            ++ (hex_padded 2 got ++ (codes ", computed 0x" ++ hex_padded 2 computed))))
hex_error_text (address_too_high line addr) =
    codes "line "
    ++ (decimal line
        ++ (codes ": address 0x"
            ++ (hex_padded 8 addr
                ++ codes
                    " is above 64 KB — unsupported, the protocol's behaviour there is untested (spec item C-4)")))
