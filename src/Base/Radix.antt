-- ===== src/Base/Radix.antt =====
-- Numbers read from text: `char::to_digit`, `from_str_radix` and `from_str` of the unsigned
-- integers, and of `i64`. A radix is at most 16.
use Prim.Native.Nat.{ℕ, zero, suc, ◌+◌, ◌-◌, ◌*◌, ◌/◌, ◌%◌, ◌≤◌, ◌<◌}
use mathlib.Core.Path.{◌≡◌, refl, sym, ap, ◌∙◌}
use mathlib.Core.Logic.{inl, inr}
use mathlib.Core.Bool.{false, ◌&&◌}
use mathlib.Core.Option.{Option, none, some}
use mathlib.Core.List.{[], ◌∷◌}
use native.Mathlib.Omega.{arith}
use stcbsl.Base.Tests.{ltb, leb, ◌==◌, if◌then◌else◌, Bool-cases}
use stcbsl.Base.Int.{ℤ, pos, negsuc}
use stcbsl.Base.Text.{Text, digit, digits_loop, decimal}

abbrev pub and_then {ℓ} : {A B : Type ℓ} → Option A → (A → Option B) → Option B
and_then none f = none
and_then (some a) f = f a

-- The value of a digit of any radix up to 16.
unfoldable pub digit_value : ℕ → Option ℕ
digit_value c =
    if leb b'0' c && leb c b'9'
    then some (c - b'0')
    else if leb b'a' c && leb c b'f'
    then some (c - b'a' + 10)
    else if leb b'A' c && leb c b'F'
    then some (c - b'A' + 10)
    else none

-- `c.to_digit(base)`.
unfoldable pub to_digit : ℕ → ℕ → Option ℕ
unfolding digit_value
to_digit base c = and_then (digit_value c) (λ d. if ltb d base then some d else none)

-- One more digit, with the check for overflow: `top` is the largest value of the type.
abbrev pub push_digit : ℕ → ℕ → ℕ → Option ℕ → Option ℕ
push_digit base top acc none = none
push_digit base top acc (some d) = if ltb top (acc * base + d) then none else some (acc * base + d)

unfoldable pub radix_loop : ℕ → ℕ → ℕ → Text → Option ℕ
unfolding to_digit
radix_loop base top acc [] = some acc
radix_loop base top acc (c ∷ cs) =
    and_then (push_digit base top acc (to_digit base c)) (λ n. radix_loop base top n cs)

-- `from_str_radix` of an unsigned type: one leading '+' is allowed, and a digit must follow.
unfoldable pub from_str_radix : ℕ → ℕ → Text → Option ℕ
unfolding radix_loop
from_str_radix base top [] = none
from_str_radix base top (c ∷ []) = radix_loop base top 0 (c ∷ [])
from_str_radix base top (c ∷ d ∷ cs) =
    if c == b'+' then radix_loop base top 0 (d ∷ cs) else radix_loop base top 0 (c ∷ d ∷ cs)

-- -n.
abbrev pub negative : ℕ → ℤ
negative zero = pos 0
negative (suc n) = negsuc n

abbrev pub as_pos : Option ℕ → Option ℤ
as_pos none = none
as_pos (some n) = some (pos n)

abbrev pub as_negative : Option ℕ → Option ℤ
as_negative none = none
as_negative (some n) = some (negative n)

-- `i64::from_str`.
unfoldable pub i64_from_str : Text → Option ℤ
unfolding from_str_radix
i64_from_str [] = none
i64_from_str (c ∷ []) = as_pos (from_str_radix 10 0x7FFF_FFFF_FFFF_FFFF (c ∷ []))
i64_from_str (c ∷ d ∷ cs) =
    if c == b'-'
    then as_negative (radix_loop 10 0x8000_0000_0000_0000 0 (d ∷ cs))
    else as_pos (from_str_radix 10 0x7FFF_FFFF_FFFF_FFFF (c ∷ d ∷ cs))

pub to_digit-digit : (base d : ℕ) → d < base → base ≤ 16 → to_digit base (digit d) ≡ some d
unfolding to_digit digit
to_digit-digit base d h l = ground arith

pub digit-ne_sign : (d : ℕ) → d < 16 → ((digit d == b'+') ≡ false)
unfolding digit
digit-ne_sign d h = ground arith

radix_step :
    (base top acc d n : ℕ)
    → acc * base + d ≡ n
    → n ≤ top
    → (f : ℕ → Option ℕ) → and_then (push_digit base top acc (some d)) f ≡ f n
radix_step base top acc d n e l f = let fits : ltb top n ≡ false = ground arith in rw (e, fits) refl

-- Reading the digits that `digits_loop` writes in front of some others.
radix_loop-digits_loop :
    (fuel n top : ℕ) (more : Text)
    → n < fuel
    → n ≤ top
    → radix_loop 10 top 0 (digits_loop fuel 10 n more) ≡ radix_loop 10 top n more
unfolding digits_loop radix_loop
radix_loop-digits_loop zero n top more h l = absurd (omega arith)
radix_loop-digits_loop (suc fuel) n top more h l = elim (Bool-cases (n / 10 == 0)) [
  | inl e ↦
      let small : n % 10 ≡ n = ground arith in
      let whole : 0 * 10 + n ≡ n = omega arith in
      rw (e, to_digit-digit 10 (n % 10) (omega arith) (omega arith), small)
        (radix_step 10 top 0 n n whole l _)
  | inr e ↦
      let less : n / 10 < fuel = ground arith in
      let whole : n / 10 * 10 + n % 10 ≡ n = omega arith in
      rw e (
        radix_loop-digits_loop fuel (n / 10) top (digit (n % 10) ∷ more) less (omega arith)
        ∙ rw (to_digit-digit 10 (n % 10) (omega arith) (omega arith))
            (radix_step 10 top (n / 10) (n % 10) n whole l _))
]

-- The first character is a digit.
digits_loop-begins :
    (fuel n : ℕ) (more : Text)
    → n < fuel
    → (d : ℕ) × (rest : Text) × (d < 10) × (digits_loop fuel 10 n more ≡ digit d ∷ rest)
unfolding digits_loop
digits_loop-begins zero n more h = absurd (omega arith)
digits_loop-begins (suc fuel) n more h = elim (Bool-cases (n / 10 == 0)) [
  | inl e ↦ (n % 10, more, omega arith, rw e refl)
  | inr e ↦
      let less : n / 10 < fuel = ground arith in
      rw e (digits_loop-begins fuel (n / 10) (digit (n % 10) ∷ more) less)
]

from_str_radix-digit :
    (base top d : ℕ) (rest : Text)
    → d < 16
    → from_str_radix base top (digit d ∷ rest) ≡ radix_loop base top 0 (digit d ∷ rest)
unfolding from_str_radix
from_str_radix-digit base top d [] h = refl
from_str_radix-digit base top d (c ∷ cs) h = rw (digit-ne_sign d h) refl

radix_loop-decimal : (n top : ℕ) → n ≤ top → radix_loop 10 top 0 (decimal n) ≡ some n
unfolding decimal
radix_loop-decimal n top l =
    radix_loop-digits_loop (suc n) n top [] (omega arith) l ∙ unfold radix_loop in refl

decimal-begins : (n : ℕ) → (d : ℕ) × (rest : Text) × (d < 10) × (decimal n ≡ digit d ∷ rest)
unfolding decimal
decimal-begins n = digits_loop-begins (suc n) n [] (omega arith)

pub from_str_radix-decimal : (n top : ℕ) → n ≤ top → from_str_radix 10 top (decimal n) ≡ some n
from_str_radix-decimal n top l =
    let (d, rest, small, e) = decimal-begins n in
    ap (from_str_radix 10 top) e
    ∙ from_str_radix-digit 10 top d rest (omega arith)
    ∙ ap (radix_loop 10 top 0) (sym e)
    ∙ radix_loop-decimal n top l

-- `format!("{}", n)` of an `i64`.
abbrev pub decimal_i64 : ℤ → Text
decimal_i64 (pos n) = decimal n
decimal_i64 (negsuc n) = b'-' ∷ decimal (suc n)

abbrev pub IsI64 : ℤ → Type 0
IsI64 (pos n) = n ≤ 0x7FFF_FFFF_FFFF_FFFF
IsI64 (negsuc n) = suc n ≤ 0x8000_0000_0000_0000

digit-ne_minus : (d : ℕ) → d < 10 → (digit d == b'-') ≡ false
unfolding digit
digit-ne_minus d h = ground arith

i64_from_str-digit :
    (d : ℕ) (rest : Text)
    → d < 10
    → i64_from_str (digit d ∷ rest)
      ≡ as_pos (from_str_radix 10 0x7FFF_FFFF_FFFF_FFFF (digit d ∷ rest))
unfolding i64_from_str
i64_from_str-digit d [] h = refl
i64_from_str-digit d (c ∷ cs) h = rw (digit-ne_minus d h) refl

i64_from_str-minus :
    (d : ℕ) (rest : Text)
    → i64_from_str (b'-' ∷ d ∷ rest)
      ≡ as_negative (radix_loop 10 0x8000_0000_0000_0000 0 (d ∷ rest))
unfolding i64_from_str
i64_from_str-minus d rest = refl

pub i64_from_str-decimal_i64 : (z : ℤ) → IsI64 z → i64_from_str (decimal_i64 z) ≡ some z
i64_from_str-decimal_i64 (pos n) h =
    let (d, rest, small, e) = decimal-begins n in
    ap i64_from_str e
    ∙ i64_from_str-digit d rest small
    ∙ ap (λ t. as_pos (from_str_radix 10 0x7FFF_FFFF_FFFF_FFFF t)) (sym e)
    ∙ ap as_pos (from_str_radix-decimal n 0x7FFF_FFFF_FFFF_FFFF h)
i64_from_str-decimal_i64 (negsuc n) h =
    let (d, rest, small, e) = decimal-begins (suc n) in
    ap (λ t. i64_from_str (b'-' ∷ t)) e
    ∙ i64_from_str-minus (digit d) rest
    ∙ ap (λ t. as_negative (radix_loop 10 0x8000_0000_0000_0000 0 t)) (sym e)
    ∙ ap as_negative (radix_loop-decimal (suc n) 0x8000_0000_0000_0000 h)
