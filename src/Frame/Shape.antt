-- ===== src/Frame/Shape.antt =====
-- A byte string of eight bytes or more, cut at the places where `Frame::decode` of src/frame.rs
-- reads it.
use mathlib.Core.List.{foldl}
use stcbsl.Base.{
  true, ℕ, suc, ◌+◌, ◌-◌, ◌/◌, ◌≤◌, ◌<◌, ◌≡◌, refl, ap, ◌∙◌, false, ◌||◌, [], ◌∷◌, ◌++◌, Result, ok,
  err, length, get_or, ltb, ◌!=◌, if◌then◌else◌, arith, length-append, take-append_self,
  get_or-append_self, ◌>>=◌,
}
use stcbsl.Base.Bytes.{Bytes, u8, u16, wrapping_add, u16_from_be, sum}
use stcbsl.Frame.{
  bytes_eq, Frame, FrameError, decode, checksum, slice, byte_at, dir_or_err, dir_from_byte,
  bad_magic, bad_length, bad_terminator, bad_checksum, terminator, encode, len_field, dir_byte,
}

foldl-wrapping_add :
    (acc : ℕ) (bs : Bytes) → acc < 256 → foldl wrapping_add acc bs ≡ u8 (acc + sum bs)
unfolding sum
foldl-wrapping_add acc [] h = omega arith
foldl-wrapping_add acc (b ∷ bs) h =
    omega (arith, foldl-wrapping_add (u8 (acc + b)) bs (omega arith))

-- The checksum is the sum of the bytes, modulo 256.
pub checksum-sum : (bs : Bytes) → checksum bs ≡ u8 (sum bs)
unfolding checksum
checksum-sum bs = foldl-wrapping_add 0 bs (omega arith) ∙ omega arith

-- The eight or more bytes of a whole frame, by field.
pub record Fields : Type 0 where
  pub m₀ : ℕ
  pub m₁ : ℕ
  pub dir : ℕ
  pub hi : ℕ
  pub lo : ℕ
  pub cmd : ℕ
  pub payload : Bytes
  pub cksm : ℕ
  pub last : ℕ

abbrev pub body : Fields → Bytes
body x = x.dir ∷ x.hi ∷ x.lo ∷ x.cmd ∷ x.payload

abbrev pub join : Fields → Bytes
join x = x.m₀ ∷ x.m₁ ∷ (body x ++ x.cksm ∷ x.last ∷ [])

get_or-append_last : (p : Bytes) (k t : ℕ) → get_or (p ++ k ∷ t ∷ []) (suc (length p)) 0 ≡ t
get_or-append_last [] k t = refl
get_or-append_last (b ∷ p) k t = get_or-append_last p k t

pub length-join : (x : Fields) → length (join x) ≡ length x.payload + 8
length-join x = omega (arith, length-append x.payload (x.cksm ∷ x.last ∷ []))

last-join : (x : Fields) → byte_at (join x) (length (join x) - 1) ≡ x.last
last-join x =
    let e : length (join x) - 1 ≡ suc (suc (suc (suc (suc (suc (suc (length x.payload))))))) =
      omega (arith, length-join x) in
    rw e (get_or-append_last x.payload x.cksm x.last)

cksm-join : (x : Fields) → byte_at (join x) (length (join x) - 2) ≡ x.cksm
cksm-join x =
    let e : length (join x) - 2 ≡ suc (suc (suc (suc (suc (suc (length x.payload)))))) =
      omega (arith, length-join x) in
    rw e (get_or-append_self x.payload x.cksm (x.last ∷ []) 0)

body-join : (x : Fields) → slice (join x) 2 (length (join x) - 2) ≡ body x
body-join x =
    let e : length (join x) - 2 - 2 ≡ length (body x) = omega (arith, length-join x) in
    rw e (take-append_self (body x) (x.cksm ∷ x.last ∷ []))

payload-join : (x : Fields) → slice (join x) 6 (length (join x) - 2) ≡ x.payload
payload-join x =
    let e : length (join x) - 2 - 6 ≡ length x.payload = omega (arith, length-join x) in
    rw e (take-append_self x.payload (x.cksm ∷ x.last ∷ []))

-- `decode`, on the fields of a string that is long enough.
unfoldable pub decode_fields : Fields → Result FrameError Frame
unfolding checksum dir_from_byte
decode_fields x =
    if x.m₀ != 0x46 || x.m₁ != 0xB9
    then err (bad_magic x.m₀ x.m₁)
    else if u16_from_be x.hi x.lo != u16 (length x.payload + 6)
    then err (bad_length (u16_from_be x.hi x.lo) (u16 (length x.payload + 6)))
    else if x.last != terminator
    then err (bad_terminator x.last)
    else if x.cksm != checksum (body x)
    then err (bad_checksum (checksum (body x)) x.cksm)
    else do
      dir ← dir_or_err x.dir (dir_from_byte x.dir)
      ok (record { dir = dir; cmd = x.cmd; payload = x.payload })

pub decode-join : (x : Fields) → decode (join x) ≡ decode_fields x
unfolding decode decode_fields
decode-join x =
    let long : ltb (length (join x)) 8 ≡ false = ground (arith, length-join x) in
    let e : length (join x) - 2 ≡ length x.payload + 6 = omega (arith, length-join x) in
    simp (long, last-join x, cksm-join x, body-join x, payload-join x) (rw e)

-- A string of at least two bytes ends in two bytes.
split_last :
    (a b : ℕ) (bs : Bytes) → (p : Bytes) × (k : ℕ) × (t : ℕ) × (a ∷ b ∷ bs ≡ p ++ k ∷ t ∷ [])
split_last a b [] = ([], a, b, refl)
split_last a b (c ∷ bs) = let (p, k, t, e) = split_last b c bs in (a ∷ p, k, t, ap (◌∷◌ a) e)

pub split : (bs : Bytes) → 8 ≤ length bs → (x : Fields) × (bs ≡ join x)
split [] h = absurd (omega arith)
split (_ ∷ []) h = absurd (omega arith)
split (_ ∷ _ ∷ []) h = absurd (omega arith)
split (_ ∷ _ ∷ _ ∷ []) h = absurd (omega arith)
split (_ ∷ _ ∷ _ ∷ _ ∷ []) h = absurd (omega arith)
split (_ ∷ _ ∷ _ ∷ _ ∷ _ ∷ []) h = absurd (omega arith)
split (_ ∷ _ ∷ _ ∷ _ ∷ _ ∷ _ ∷ []) h = absurd (omega arith)
split (_ ∷ _ ∷ _ ∷ _ ∷ _ ∷ _ ∷ _ ∷ []) h = absurd (omega arith)
split (a ∷ b ∷ c ∷ d ∷ e ∷ f ∷ g ∷ k ∷ bs) h =
    let (p, x, t, q) = split_last g k bs in
    (
      record { m₀ = a; m₁ = b; dir = c; hi = d; lo = e; cmd = f; payload = p; cksm = x; last = t },
      ap (λ (r : Bytes). a ∷ b ∷ c ∷ d ∷ e ∷ f ∷ r) q,
    )

-- What `encode` writes, by field.
unfoldable pub encode_fields : Frame → Fields
unfolding len_field dir_byte
encode_fields f = record {
  m₀ = 0x46;
  m₁ = 0xB9;
  dir = dir_byte f.dir;
  hi = u8 (len_field f / 0x100);
  lo = u8 (len_field f);
  cmd = f.cmd;
  payload = f.payload;
  cksm =
      checksum (dir_byte f.dir ∷ u8 (len_field f / 0x100) ∷ u8 (len_field f) ∷ f.cmd ∷ f.payload);
  last = terminator;
}

pub encode-join : (f : Frame) → encode f ≡ join (encode_fields f)
unfolding encode encode_fields
encode-join f = refl

pub bytes_eq→eq : (as' bs : Bytes) → bytes_eq as' bs ≡ true → as' ≡ bs
unfolding bytes_eq
bytes_eq→eq [] [] e = refl
bytes_eq→eq [] (b ∷ bs) e = cc
bytes_eq→eq (a ∷ as') [] e = cc
bytes_eq→eq (a ∷ as') (b ∷ bs) e = ground (arith, bytes_eq→eq as' bs)
