-- ===== src/Frame/Hex.antt =====
-- The hex text functions of src/frame.rs: `hex`, and `unhex` over the tokens of
-- `split_whitespace` and `u8::from_str_radix`.
use stcbsl.Base.{
  ℕ, ◌/◌, ◌%◌, ◌<◌, ◌≡◌, refl, ap, false, Option, none, some, List, [], ◌∷◌, ◌++◌, Result, ok, err,
  ◌>>=◌, if◌then◌else◌, arith, All,
}
use stcbsl.Base.Bytes.{Bytes, IsByte}
use stcbsl.Base.Text.{Text, digit, is_space}
use stcbsl.Base.Radix.{from_str_radix, radix_loop, to_digit-digit, digit-ne_sign}

-- `format!("{:02x}", b)`, of a byte.
abbrev pub two_digits : ℕ → Text
two_digits b = digit (b / 16) ∷ digit (b % 16) ∷ []

-- The loop of `hex`, from the second byte on.
unfoldable pub hex_rest : Bytes → Text
hex_rest [] = []
hex_rest (b ∷ bs) = b' ' ∷ (two_digits b ++ hex_rest bs)

unfoldable pub hex : Bytes → Text
unfolding hex_rest
hex [] = []
hex (b ∷ bs) = two_digits b ++ hex_rest bs

-- A character in front of the tokens of a text that begins inside a token.
abbrev pub token_cons : ℕ → List Text → List Text
token_cons c [] = (c ∷ []) ∷ []
token_cons c (t ∷ ts) = (c ∷ t) ∷ ts

-- The pieces between blanks, empty ones included: the first is what stands before the first blank.
unfoldable pub pieces : Text → List Text
pieces [] = [] ∷ []
pieces (c ∷ cs) = let rest = pieces cs in if is_space c then [] ∷ rest else token_cons c rest

unfoldable pub non_empty : List Text → List Text
non_empty [] = []
non_empty ([] ∷ ts) = non_empty ts
non_empty ((c ∷ t) ∷ ts) = (c ∷ t) ∷ non_empty ts

-- `split_whitespace`.
unfoldable pub tokens : Text → List Text
unfolding pieces non_empty
tokens s = non_empty (pieces s)

-- `u8::from_str_radix(t, 16)`.
abbrev pub byte_from_hex : Text → Option ℕ
byte_from_hex = from_str_radix 16 0xFF

-- The error keeps the token that its text shows.
abbrev pub or_bad : Text → Option ℕ → Result Text ℕ
or_bad t none = err t
or_bad t (some b) = ok b

unfoldable pub unhex_tokens : List Text → Result Text Bytes
unfolding from_str_radix
unhex_tokens [] = ok []
unhex_tokens (t ∷ ts) = do b ← or_bad t (byte_from_hex t); rest ← unhex_tokens ts; ok (b ∷ rest)

unfoldable pub unhex : Text → Result Text Bytes
unfolding tokens unhex_tokens
unhex s = unhex_tokens (tokens s)

digit-is_space : (d : ℕ) → d < 16 → is_space (digit d) ≡ false
unfolding is_space digit
digit-is_space d h = ground arith

from_str_radix-two_digits : (b : ℕ) → IsByte b → byte_from_hex (two_digits b) ≡ some b
unfolding from_str_radix radix_loop
from_str_radix-two_digits b h =
    rw
      (
        digit-ne_sign (b / 16) (omega arith),
        to_digit-digit 16 (b / 16) (omega arith) (omega arith),
        to_digit-digit 16 (b % 16) (omega arith) (omega arith),
      )
      (ground arith)

-- The text behind two digits begins a new token, or ends.
pieces-two_digits :
    (b : ℕ) (rest : Text) (ts : List Text)
    → IsByte b
    → pieces rest ≡ [] ∷ ts
    → pieces (two_digits b ++ rest) ≡ two_digits b ∷ ts
unfolding pieces
pieces-two_digits b rest ts h e =
    rw (digit-is_space (b / 16) (omega arith), digit-is_space (b % 16) (omega arith), e) refl

-- The tokens of what `hex` writes behind the first byte.
pieces-hex_rest :
    (bs : Bytes)
    → All IsByte bs
    → (ts : List Text) × (pieces (hex_rest bs) ≡ [] ∷ ts) × (unhex_tokens (non_empty ts) ≡ ok bs)
unfolding hex_rest pieces non_empty unhex_tokens is_space
pieces-hex_rest [] h = ([], refl, refl)
pieces-hex_rest (b ∷ bs) (h, hs) =
    let (ts, e, q) = pieces-hex_rest bs hs in
    (
      two_digits b ∷ ts,
      ap (◌∷◌ []) (pieces-two_digits b (hex_rest bs) ts h e),
      rw (from_str_radix-two_digits b h, q) refl,
    )

-- Reading what `hex` writes gives the bytes back.
pub unhex-hex : (bs : Bytes) → All IsByte bs → unhex (hex bs) ≡ ok bs
unfolding unhex hex
unhex-hex [] h = unfold tokens pieces non_empty unhex_tokens in refl
unhex-hex (b ∷ bs) (h, hs) =
    let (ts, e, q) = pieces-hex_rest bs hs in
    unfold tokens in
    rw (pieces-two_digits b (hex_rest bs) ts h e)
      (unfold non_empty unhex_tokens in rw (from_str_radix-two_digits b h, q) refl)
