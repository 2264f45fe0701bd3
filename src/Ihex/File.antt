-- ===== src/Ihex/File.antt =====
-- A file of Intel HEX records, and that src/ihex.rs reads it record by record.
use mathlib.Core.Path.{fun_ext}
use stcbsl.Base.{
  ℕ, suc, ◌/◌, ◌%◌, ◌≤◌, ◌<◌, ◌≡◌, refl, ap, false, List, [], ◌∷◌, ◌++◌, Result, ok, ◌>>=◌, arith,
  All,
}
use stcbsl.Base.Bytes.{Bytes, IsByte}
use stcbsl.Base.Text.{Text, is_space}
use stcbsl.Ihex.{
  Record, HexError, Memory, is_empty, trim_start, trim_end, trim, lines, read_line, apply,
  after_line, read_lines, blank, image_of, parse,
}
use stcbsl.Ihex.Print.{
  hex_digit, hex_of, IsRecord, record_bytes, record_bytes-IsByte, print_record,
  read_record-print_record,
}

-- A visible ASCII character.
abbrev pub IsVisible : ℕ → Type 0
IsVisible c = (0x21 ≤ c) × (c ≤ 0x7E)

-- One record in each line.
unfoldable pub print_file : List Record → Text
print_file [] = []
print_file (r ∷ rs) = print_record r ++ 0x0A ∷ print_file rs

hex_digit-IsVisible : (d : ℕ) → d < 16 → IsVisible (hex_digit d)
hex_digit-IsVisible d h = ground arith

hex_of-IsVisible : (bs : Bytes) → All IsByte bs → All IsVisible (hex_of bs)
unfolding hex_of
hex_of-IsVisible [] h = tt
hex_of-IsVisible (b ∷ bs) (h, hs) = (
  hex_digit-IsVisible (b / 16) (omega arith),
  (hex_digit-IsVisible (b % 16) (omega arith), hex_of-IsVisible bs hs),
)

print_record-IsVisible : (r : Record) → IsRecord r → All IsVisible (print_record r)
print_record-IsVisible r h =
    ((omega arith, omega arith), hex_of-IsVisible (record_bytes r) (record_bytes-IsByte r h))

IsVisible-is_space : (c : ℕ) → IsVisible c → is_space c ≡ false
unfolding is_space
IsVisible-is_space c h = ground arith

trim_start_visible : (c : ℕ) (s : Text) → IsVisible c → trim_start (c ∷ s) ≡ c ∷ s
unfolding trim_start
trim_start_visible c s h = rw (IsVisible-is_space c h) refl

trim_end_visible : (s : Text) → All IsVisible s → trim_end s ≡ s
unfolding trim_end
trim_end_visible [] h = refl
trim_end_visible (c ∷ s) (h, hs) = rw (IsVisible-is_space c h) (ap (◌∷◌ c) (trim_end_visible s hs))

pub trim_visible : (c : ℕ) (s : Text) → All IsVisible (c ∷ s) → trim (c ∷ s) ≡ c ∷ s
unfolding trim
trim_visible c s h = rw (trim_start_visible c s h.0) (trim_end_visible (c ∷ s) h)

-- A text that begins with a visible character is not blank.
is_empty-trim : (c : ℕ) (s : Text) → IsVisible c → is_empty (trim (c ∷ s)) ≡ false
unfolding trim trim_end
is_empty-trim c s h = rw (trim_start_visible c s h, IsVisible-is_space c h) refl

lines_visible : (l rest : Text) → All IsVisible l → lines (l ++ 0x0A ∷ rest) ≡ l ∷ lines rest
unfolding lines
lines_visible [] rest h = refl
lines_visible (c ∷ l) rest ((h, h'), hs) = rw (lines_visible l rest hs) (ground arith)

-- The records of a file take their effects in order, up to an end-of-file record or an error.
unfoldable pub apply_all : ℕ → List Record → Memory → Result HexError Memory
apply_all line [] m = ok m
apply_all line (r ∷ rs) m = after_line (apply line r m) (apply_all (suc line) rs)

read_line-print_record :
    (line : ℕ) (r : Record) (m : Memory)
    → IsRecord r
    → read_line line (trim (print_record r)) m ≡ apply line r m
unfolding read_line
read_line-print_record line r m h =
    rw
      (
        trim_visible b':' (hex_of (record_bytes r)) (print_record-IsVisible r h),
        read_record-print_record line r h,
      )
      refl

read_lines-print_file :
    (line : ℕ) (rs : List Record) (m : Memory)
    → All IsRecord rs
    → read_lines line (lines (print_file rs)) m ≡ apply_all line rs m
unfolding read_lines print_file apply_all
read_lines-print_file line [] m h = unfold lines in refl
read_lines-print_file line (r ∷ rs) m (h, hs) =
    rw
      (
        lines_visible (print_record r) (print_file rs) (print_record-IsVisible r h),
        read_line-print_record line r m h,
      )
      (ap (after_line (apply line r m)) (fun_ext (λ m'. read_lines-print_file (suc line) rs m' hs)))

-- Reading the text of a list of records is applying the records, line by line, and taking the
-- image. The fields of the records fit their widths, and there is at least one record.
pub parse-print_file :
    (r : Record) (rs : List Record)
    → IsRecord r
    → All IsRecord rs
    → parse (print_file (r ∷ rs)) ≡ (apply_all 1 (r ∷ rs) blank >>= image_of)
unfolding parse
parse-print_file r rs h hs =
    let visible : is_empty (trim (print_file (r ∷ rs))) ≡ false =
      unfold print_file in
      is_empty-trim b':' (hex_of (record_bytes r) ++ 0x0A ∷ print_file rs)
        (omega arith, omega arith) in
    rw (visible, read_lines-print_file 1 (r ∷ rs) blank (h, hs)) refl
