-- ===== src/Ihex/Checked.antt =====
-- A record that `parse` of src/ihex.rs accepts, whatever the text, and no panic on the way to it.
use mathlib.Core.List.{foldl}
use stcbsl.Base.{
  ℕ, zero, suc, ◌+◌, ◌-◌, ◌*◌, ◌%◌, ◌<◌, ◌≡◌, inl, inr, ◌||◌, Bool-cases, [], ◌∷◌, Result, ok, err,
  ◌>>=◌, length, drop, ltb, ◌==◌, ◌!=◌, arith, All, All-take, All-drop, length-take,
}
use stcbsl.Base.Bytes.{Bytes, IsByte, wrapping_add}
use stcbsl.Base.Text.{Text}
use stcbsl.Frame.{byte_at, slice}
use stcbsl.Ihex.{
  Why, no_start_code, truncated_record, non_hex, count_disagrees, bad_segment_length,
  bad_linear_length, unsupported_type, odd_digits, HexError, empty, no_data, bad_record,
  bad_checksum, address_too_high, nibble, decode_hex, in_line, Record, check_record, read_body,
  read_record,
}
use stcbsl.Ihex.Print.{IsRecord}

-- Not the reason that stands for a panic.
abbrev pub IsCalm : Why → Type 0
IsCalm odd_digits = ⊥
IsCalm (no_start_code s) = Unit
IsCalm truncated_record = Unit
IsCalm (non_hex c) = Unit
IsCalm (count_disagrees n m) = Unit
IsCalm bad_segment_length = Unit
IsCalm bad_linear_length = Unit
IsCalm (unsupported_type t) = Unit

abbrev pub IsError : HexError → Type 0
IsError empty = Unit
IsError no_data = Unit
IsError (bad_record line why) = IsCalm why
IsError (bad_checksum line a b) = Unit
IsError (address_too_high line a) = Unit

-- A result with a property, or an error.
abbrev pub Fine : {A : Type 0} → (A → Type 0) → Result HexError A → Type 0
Fine P (ok a) = P a
Fine P (err e) = IsError e

pub Fine-bind :
    {A B : Type 0} (P : A → Type 0) (Q : B → Type 0) (m : Result HexError A)
    (f : A → Result HexError B)
    → Fine P m
    → ((a : A) → P a → Fine Q (f a))
    → Fine Q (m >>= f)
Fine-bind P Q (ok a) f h g = g a h
Fine-bind P Q (err e) f h g = h

abbrev Digit : Result Why ℕ → Type 0
Digit (ok d) = d < 16
Digit (err why) = IsCalm why

nibble-Digit : (c : ℕ) → Digit (nibble c)
unfolding nibble
nibble-Digit c = ground arith

-- The digits come in pairs.
abbrev Decoded : Result Why Bytes → Type 0
Decoded (ok bs) = All IsByte bs
Decoded (err why) = IsCalm why

decode_hex-Decoded : (s : Text) → length s % 2 ≡ 0 → Decoded (decode_hex s)
unfolding decode_hex
decode_hex-Decoded [] h = tt
decode_hex-Decoded (c ∷ []) h = absurd (omega arith)
decode_hex-Decoded (c ∷ d ∷ cs) h =
    pairs (nibble c) (nibble d) (decode_hex cs) (nibble-Digit c) (nibble-Digit d)
      (decode_hex-Decoded cs (omega arith))
  where
    pairs :
        (hi lo : Result Why ℕ) (rest : Result Why Bytes)
        → Digit hi
        → Digit lo
        → Decoded rest
        → Decoded (hi >>= λ x. lo >>= λ y. rest >>= λ r. ok ((x * 16 + y) ∷ r))
    pairs (err w) lo rest a b c = a
    pairs (ok x) (err w) rest a b c = b
    pairs (ok x) (ok y) (err w) a b c = c
    pairs (ok x) (ok y) (ok r) a b c = (omega arith, c)

pub byte_at-IsByte : (bs : Bytes) (i : ℕ) → All IsByte bs → IsByte (byte_at bs i)
byte_at-IsByte [] i h = omega arith
byte_at-IsByte (b ∷ bs) zero h = h.0
byte_at-IsByte (b ∷ bs) (suc i) h = byte_at-IsByte bs i h.1

-- The fields that are cut out of the bytes of a record.
fields_of : Bytes → Record
fields_of bs = record {
  offset = byte_at bs 1 * 0x100 + byte_at bs 2;
  rtype = byte_at bs 3;
  payload = slice bs 4 (4 + byte_at bs 0);
}

fields_of-IsRecord : (bs : Bytes) → All IsByte bs → IsRecord (fields_of bs)
unfolding fields_of
fields_of-IsRecord bs h =
    let hi = byte_at-IsByte bs 1 h in
    let lo = byte_at-IsByte bs 2 h in
    let count = byte_at-IsByte bs 0 h in
    record {
      offset_fits = omega arith;
      type_fits = byte_at-IsByte bs 3 h;
      payload_fits = omega (arith, length-take (4 + byte_at bs 0 - 4) (drop 4 bs));
      payload_bytes = All-take IsByte (4 + byte_at bs 0 - 4) (drop 4 bs) (All-drop IsByte 4 bs h);
    }

check_record-Fine : (line : ℕ) (bs : Bytes) → All IsByte bs → Fine IsRecord (check_record line bs)
unfolding check_record
check_record-Fine line bs h = elim (Bool-cases (length bs != byte_at bs 0 + 5)) [
  | inl e ↦ rw e tt
  | inr e ↦ elim (Bool-cases (foldl wrapping_add 0 bs != 0)) [
    | inl e' ↦ rw (e, e') tt
    | inr e' ↦ rw (e, e') (unfold fields_of in fields_of-IsRecord bs h)
  ]
]

read_body-Fine : (line : ℕ) (body : Text) → Fine IsRecord (read_body line body)
unfolding read_body
read_body-Fine line body = elim (Bool-cases (ltb (length body) 10 || length body % 2 != 0)) [
  | inl e ↦ rw e tt
  | inr e ↦ rw e (decoded (decode_hex body) (decode_hex-Decoded body (ground arith)))
]
  where
    decoded :
        (r : Result Why Bytes) → Decoded r → Fine IsRecord (in_line line r >>= check_record line)
    decoded (ok bs) h = check_record-Fine line bs h
    decoded (err why) h = h

pub read_record-Fine : (line c : ℕ) (body : Text) → Fine IsRecord (read_record line c body)
unfolding read_record
read_record-Fine line c body = elim (Bool-cases (c == b':')) [
  | inl e ↦ rw e (read_body-Fine line body)
  | inr e ↦ rw e tt
]
