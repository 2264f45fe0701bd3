-- ===== src/Ihex.antt =====
-- The Intel HEX reader of src/ihex.rs. A text is the list of its bytes; of the white space that
-- `trim` removes, the model knows the ASCII characters. The texts in `BadRecord` are kept as what
-- they are formatted from (`Why`).
pub mod Shown
pub mod Cells
pub mod Checked
pub mod Bounds
pub mod Pieces
pub mod Items
pub mod Meaning
pub mod Print
pub mod File
pub mod Order
use mathlib.Core.List.{foldl}
use stcbsl.Base.{
  ℕ, zero, suc, ◌+◌, ◌-◌, ◌*◌, ◌%◌, Bool, true, false, not, ◌&&◌, ◌||◌, Option, none, some, List,
  [], ◌∷◌, ◌++◌, map, Result, ok, err, ◌>>=◌, ◌>>◌, length, set, replicate, ltb, leb, ◌==◌, ◌!=◌,
  if◌then◌else◌,
}
use stcbsl.Base.Bytes.{Bytes, u8, wrapping_add, u16_from_be}
use stcbsl.Base.Text.{Text, is_space}
use stcbsl.Frame.{byte_at, slice}

pub record Image : Type 0 where
  pub bytes : Bytes
  pub lowest_addr : ℕ
  pub gap_bytes : ℕ

-- The last one stands for the panic of `pair[1]` on an odd number of digits.
pub data Why : Type 0 where
  no_start_code : Text → Why
  truncated_record : Why
  non_hex : ℕ → Why
  count_disagrees : ℕ → ℕ → Why
  bad_segment_length bad_linear_length : Why
  unsupported_type : ℕ → Why
  odd_digits : Why

pub data HexError : Type 0 where
  empty no_data : HexError
  bad_record : ℕ → Why → HexError
  bad_checksum : ℕ → ℕ → ℕ → HexError
  address_too_high : ℕ → ℕ → HexError

unfoldable pub trim_start : Text → Text
unfolding is_space
trim_start [] = []
trim_start (c ∷ cs) = let rest = trim_start cs in if is_space c then rest else c ∷ cs

abbrev pub is_empty : Text → Bool
is_empty [] = true
is_empty (c ∷ cs) = false

-- A character in front of a text whose end is trimmed.
abbrev pub trim_cons : ℕ → Text → Text
trim_cons c rest = if is_space c && is_empty rest then [] else c ∷ rest

unfoldable pub trim_end : Text → Text
unfolding is_space
trim_end [] = []
trim_end (c ∷ cs) = trim_cons c (trim_end cs)

-- `str::trim`.
unfoldable pub trim : Text → Text
unfolding trim_start trim_end
trim s = trim_end (trim_start s)

abbrev pub push_char : ℕ → List Text → List Text
push_char c [] = (c ∷ []) ∷ []
push_char c (l ∷ ls) = (c ∷ l) ∷ ls

-- `str::lines`, but that a carriage return at the end of a line is left to the `trim` behind it.
unfoldable pub lines : Text → List Text
lines [] = []
lines (c ∷ cs) = let rest = lines cs in if c == 0x0A then [] ∷ rest else push_char c rest

unfoldable pub nibble : ℕ → Result Why ℕ
nibble c =
    if leb b'0' c && leb c b'9'
    then ok (c - b'0')
    else if leb b'a' c && leb c b'f'
    then ok (c - b'a' + 10)
    else if leb b'A' c && leb c b'F'
    then ok (c - b'A' + 10)
    else err (non_hex c)

unfoldable pub decode_hex : Text → Result Why Bytes
unfolding nibble
decode_hex [] = ok []
decode_hex (c ∷ []) = err odd_digits
decode_hex (c ∷ d ∷ cs) = do
  hi ← nibble c
  lo ← nibble d
  rest ← decode_hex cs
  ok ((hi * 16 + lo) ∷ rest)

-- `.map_err(|why| BadRecord { line, why })`.
abbrev pub in_line : {A : Type 0} → ℕ → Result Why A → Result HexError A
in_line line (ok a) = ok a
in_line line (err why) = err (bad_record line why)

-- A record, from its checks on: the address field, the type and the data.
pub record Record : Type 0 where
  pub offset : ℕ
  pub rtype : ℕ
  pub payload : Bytes

-- `bytes` of one record to its fields.
unfoldable pub check_record : ℕ → Bytes → Result HexError Record
check_record line bytes =
    let count = byte_at bytes 0 in
    let n = length bytes in
    let sum = foldl wrapping_add 0 bytes in
    let last = byte_at bytes (n - 1) in
    if n != count + 5
    then err (bad_record line (count_disagrees count n))
    else if sum != 0
    then err (bad_checksum line (u8 (last + 0x100 - sum)) last)
    else ok (record {
      offset = u16_from_be (byte_at bytes 1) (byte_at bytes 2);
      rtype = byte_at bytes 3;
      payload = slice bytes 4 (4 + count);
    })

-- What stands behind the ':' of a line.
unfoldable pub read_body : ℕ → Text → Result HexError Record
unfolding decode_hex check_record
read_body line body =
    if ltb (length body) 10 || length body % 2 != 0
    then err (bad_record line truncated_record)
    else do bytes ← in_line line (decode_hex body); check_record line bytes

-- `strip_prefix(':')`, of a line that is not empty.
unfoldable pub read_record : ℕ → ℕ → Text → Result HexError Record
unfolding read_body
read_record line c body =
    if c == b':' then read_body line body else err (bad_record line (no_start_code (c ∷ body)))

-- The variables that the loop over the lines changes.
pub record Memory : Type 0 where
  pub mem : List (Option ℕ)
  pub base : ℕ
  pub lowest : ℕ
  pub saw_data : Bool

-- The rest of the loop, or a `break`.
pub data Flow : Type 0 where
  go_on stop : Memory → Flow

-- `if mem.len() < end { mem.resize(end, None) }`.
abbrev pub grow : ℕ → List (Option ℕ) → List (Option ℕ)
grow end mem = mem ++ replicate (end - length mem) none

-- The loop that writes the data from an address on.
unfoldable pub store : List (Option ℕ) → ℕ → Bytes → List (Option ℕ)
store mem addr [] = mem
store mem addr (b ∷ bs) = store (set mem addr (some b)) (suc addr) bs

unfoldable pub store_data : ℕ → ℕ → Bytes → Memory → Result HexError Flow
unfolding store
store_data line addr bytes m =
    let end = addr + length bytes in
    if ltb 0x1_0000 end
    then err (address_too_high line addr)
    else ok (
        go_on (record m {
          mem = store (grow end m.mem) addr bytes;
          lowest = if ltb addr m.lowest then addr else m.lowest;
          saw_data = true;
        }))

-- The match on the record type.
unfoldable pub apply : ℕ → Record → Memory → Result HexError Flow
unfolding store_data
apply line r m =
    let upper = u16_from_be (byte_at r.payload 0) (byte_at r.payload 1) in
    if r.rtype == 0
    then store_data line (m.base + r.offset) r.payload m
    else if r.rtype == 1
    then ok (stop m)
    else if r.rtype == 2
    then (if length r.payload != 2
        then err (bad_record line bad_segment_length)
        else ok (go_on (record m { base = upper * 16 })))
    else if r.rtype == 4
    then (if length r.payload != 2
        then err (bad_record line bad_linear_length)
        else if upper != 0
        then err (address_too_high line (upper * 0x1_0000))
        else ok (go_on (record m { base = 0 })))
    else if r.rtype == 3 || r.rtype == 5
    then ok (go_on m)
    else err (bad_record line (unsupported_type r.rtype))

-- A line that has been trimmed.
unfoldable pub read_line : ℕ → Text → Memory → Result HexError Flow
unfolding read_record apply
read_line line [] m = ok (go_on m)
read_line line (c ∷ body) m = do r ← read_record line c body; apply line r m

abbrev pub after_line :
    Result HexError Flow → (Memory → Result HexError Memory) → Result HexError Memory
after_line (err e) rest = err e
after_line (ok (stop m)) rest = ok m
after_line (ok (go_on m)) rest = rest m

-- The loop over the lines, the next of which has the number `line`.
unfoldable pub read_lines : ℕ → List Text → Memory → Result HexError Memory
unfolding read_line trim
read_lines line [] m = ok m
read_lines line (l ∷ ls) m = after_line (read_line line (trim l) m) (read_lines (suc line) ls)

abbrev pub blank : Memory
blank = record { mem = []; base = 0; lowest = 0xFFFF_FFFF; saw_data = false }

-- `filter(|b| b.is_none()).count()`.
unfoldable pub gaps : List (Option ℕ) → ℕ
gaps [] = 0
gaps (none ∷ cells) = suc (gaps cells)
gaps (some b ∷ cells) = gaps cells

-- `b.unwrap_or(0x00)`.
abbrev pub or_zero : Option ℕ → ℕ
or_zero none = 0
or_zero (some b) = b

abbrev pub has_none : List (Option ℕ) → Bool
has_none [] = true
has_none (c ∷ cells) = false

-- The end of `parse`.
unfoldable pub image_of : Memory → Result HexError Image
unfolding gaps
image_of m =
    if not m.saw_data || has_none m.mem
    then err no_data
    else ok (record { bytes = map or_zero m.mem; lowest_addr = m.lowest; gap_bytes = gaps m.mem })

unfoldable pub parse : Text → Result HexError Image
unfolding trim lines read_lines image_of
parse text =
    if is_empty (trim text) then err empty else do m ← read_lines 1 (lines text) blank; image_of m
