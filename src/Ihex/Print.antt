-- ===== src/Ihex/Print.antt =====
-- How an Intel HEX record is written, and that src/ihex.rs reads it back.
use mathlib.Core.List.{foldl}
use stcbsl.Base.{
  ℕ, ◌+◌, ◌-◌, ◌*◌, ◌/◌, ◌%◌, ◌≤◌, ◌<◌, ◌≡◌, ◌≢◌, refl, sym, ◌∙◌, false, ◌||◌, ltb, ◌!=◌,
  if◌then◌else◌, [], ◌∷◌, ◌++◌, Result, ok, err, length, take, set, arith, All, All-append,
  All-get_or, All-set, length-set, Result-cases, inl, inr, take-append_self, length-append,
}
use stcbsl.Base.Bytes.{Bytes, IsByte, u8, sum, sum-append, sum-set, wrapping_add}
use stcbsl.Base.Text.{Text}
use stcbsl.Frame.{checksum, byte_at}
use stcbsl.Frame.Shape.{checksum-sum}
use stcbsl.Ihex.{nibble, decode_hex, Record, HexError, check_record, read_body, read_record}

-- A digit, upper case.
abbrev pub hex_digit : ℕ → ℕ
hex_digit d = if ltb d 10 then b'0' + d else b'A' + (d - 10)

unfoldable pub hex_of : Bytes → Text
hex_of [] = []
hex_of (b ∷ bs) = hex_digit (b / 16) ∷ hex_digit (b % 16) ∷ hex_of bs

nibble-hex_digit : (d : ℕ) → d < 16 → nibble (hex_digit d) ≡ ok d
unfolding nibble
nibble-hex_digit d h = ground arith

pub decode_hex-hex_of : (bs : Bytes) → All IsByte bs → decode_hex (hex_of bs) ≡ ok bs
unfolding decode_hex hex_of
decode_hex-hex_of [] h = refl
decode_hex-hex_of (b ∷ bs) (h, hs) =
    let e : b / 16 * 16 + b % 16 ≡ b = omega arith in
    rw
      (
        nibble-hex_digit (b / 16) (omega arith),
        nibble-hex_digit (b % 16) (omega arith),
        decode_hex-hex_of bs hs,
        e,
      )
      refl

pub length-hex_of : (bs : Bytes) → length (hex_of bs) ≡ 2 * length bs
unfolding hex_of
length-hex_of [] = refl
length-hex_of (b ∷ bs) = omega (arith, length-hex_of bs)

-- The fields of a record fit their widths.
pub record IsRecord (r : Record) : Type 0 where
  pub offset_fits : r.offset < 0x1_0000
  pub type_fits : IsByte r.rtype
  pub payload_fits : length r.payload < 256
  pub payload_bytes : All IsByte r.payload

-- The bytes before the checksum, and with it.
abbrev pub record_head : Record → Bytes
record_head r = length r.payload ∷ r.offset / 0x100 ∷ r.offset % 0x100 ∷ r.rtype ∷ r.payload

abbrev pub record_check : Record → ℕ
record_check r = u8 (0x100 - u8 (sum (record_head r)))

unfoldable pub record_bytes : Record → Bytes
record_bytes r = record_head r ++ record_check r ∷ []

abbrev pub print_record : Record → Text
print_record r = b':' ∷ hex_of (record_bytes r)

pub record_bytes-IsByte : (r : Record) → IsRecord r → All IsByte (record_bytes r)
unfolding record_bytes
record_bytes-IsByte r h =
    All-append IsByte (record_head r) (record_check r ∷ [])
      (
        h.payload_fits,
        (bound r.offset h.offset_fits, (omega arith, (h.type_fits, h.payload_bytes))),
      )
      (omega arith, tt)
  where
    bound : (n : ℕ) → n < 0x1_0000 → n / 0x100 < 256
    bound n l = omega arith

pub length-record_bytes : (r : Record) → length (record_bytes r) ≡ length r.payload + 5
unfolding record_bytes
length-record_bytes r = omega (arith, length-append r.payload (record_check r ∷ []))

pub fold_sum : (bs : Bytes) → foldl wrapping_add 0 bs ≡ u8 (sum bs)
fold_sum bs = unfold checksum in checksum-sum bs

-- The bytes of a record sum up to nothing.
pub sum-record_bytes : (r : Record) → u8 (sum (record_bytes r)) ≡ 0
unfolding record_bytes
sum-record_bytes r =
    rw (sum-append (record_head r) (record_check r ∷ [])) (sums (sum (record_head r)))
  where
    sums : (s : ℕ) → u8 (s + sum (u8 (0x100 - u8 s) ∷ [])) ≡ 0
    sums s = unfold sum in omega arith

pub check_record-record_bytes :
    (line : ℕ) (r : Record) → IsRecord r → check_record line (record_bytes r) ≡ ok r
unfolding check_record
check_record-record_bytes line r h =
    let zero_sum : foldl wrapping_add 0 (record_bytes r) ≡ 0 =
      fold_sum (record_bytes r) ∙ sum-record_bytes r in
    let long : (length (record_bytes r) != byte_at (record_bytes r) 0 + 5) ≡ false =
      unfold record_bytes in ground (arith, length-append r.payload (record_check r ∷ [])) in
    rw (long, zero_sum) (unfold record_bytes in fields)
  where
    word : (n : ℕ) → n / 0x100 * 0x100 + n % 0x100 ≡ n
    word n = omega arith

    cut : take (4 + length r.payload - 4) (r.payload ++ record_check r ∷ []) ≡ r.payload
    cut =
        let e : 4 + length r.payload - 4 ≡ length r.payload = omega arith in
        rw e (take-append_self r.payload (record_check r ∷ []))

    fields :
        ◌≡◌ {A = Result HexError Record}
          (ok (record {
            offset = r.offset / 0x100 * 0x100 + r.offset % 0x100;
            rtype = r.rtype;
            payload = take (4 + length r.payload - 4) (r.payload ++ record_check r ∷ []);
          }))
          (ok r)
    fields = rw (word r.offset, cut) refl

read_record-hex_of :
    (line : ℕ) (bs : Bytes)
    → All IsByte bs
    → 5 ≤ length bs
    → read_record line b':' (hex_of bs) ≡ check_record line bs
unfolding read_record read_body
read_record-hex_of line bs h l =
    let long : (ltb (length (hex_of bs)) 10 || length (hex_of bs) % 2 != 0) ≡ false =
      ground (arith, length-hex_of bs) in
    rw (long, decode_hex-hex_of bs h) refl

pub read_record-print_record :
    (line : ℕ) (r : Record) → IsRecord r → read_record line b':' (hex_of (record_bytes r)) ≡ ok r
read_record-print_record line r h =
    read_record-hex_of line (record_bytes r) (record_bytes-IsByte r h)
      (omega (arith, length-record_bytes r))
    ∙ check_record-record_bytes line r h

-- Only bytes that sum up to nothing pass.
check_record-eq-ok :
    (line : ℕ) (bs : Bytes) (r : Record) → check_record line bs ≡ ok r → u8 (sum bs) ≡ 0
unfolding check_record
check_record-eq-ok line bs r e = sym (fold_sum bs) ∙ ground arith

-- A sum in which one byte is replaced is another sum, also modulo 256.
differs :
    (v old new_sum old_sum : ℕ)
    → v ≢ old
    → IsByte v
    → IsByte old
    → new_sum + old ≡ old_sum + v
    → u8 old_sum ≡ 0
    → u8 new_sum ≡ 0
    → ⊥
differs v old new_sum old_sum other hv ho e z z' = other (omega arith)

-- A record as it is printed, with one byte replaced by another value, wherever it stands, is
-- refused: reading the line answers an error.
pub read_record-set :
    (line : ℕ) (r : Record) (i v : ℕ)
    → IsRecord r
    → i < length (record_bytes r)
    → IsByte v
    → v ≢ byte_at (record_bytes r) i
    → (e : HexError) × (read_record line b':' (hex_of (set (record_bytes r) i v)) ≡ err e)
read_record-set line r i v h inside byte other =
    elim (Result-cases (check_record line (set (record_bytes r) i v))) [
      | inl (q, e) ↦ absurd (
          differs v (byte_at (record_bytes r) i) (sum (set (record_bytes r) i v))
            (sum (record_bytes r)) other byte (All-get_or IsByte (record_bytes r) i 0 bytes inside)
            (sum-set (record_bytes r) i v inside) (sum-record_bytes r)
            (check_record-eq-ok line (set (record_bytes r) i v) q e))
      | inr (x, e) ↦ (
        x,
        read_record-hex_of line (set (record_bytes r) i v)
              (All-set IsByte (record_bytes r) i v bytes byte)
              (omega (arith, length-record_bytes r, length-set (record_bytes r) i v))
            ∙ e,
      )
    ]
  where
    bytes : All IsByte (record_bytes r)
    bytes = record_bytes-IsByte r h
