-- ===== src/Base/Text.antt =====
-- Text as the list of its ASCII codes, and the number formats of `format!`: `{}` and `{:04x}`.
use Prim.Native.Nat.{ℕ, zero, suc, ◌+◌, ◌-◌, ◌/◌, ◌%◌}
use Prim.Native.Char.{code}
use Prim.Native.String.{String}
use mathlib.Core.Bool.{Bool, true, false, ◌&&◌, ◌||◌}
use mathlib.Core.List.{List, [], ◌∷◌, ◌++◌}
use stcbsl.Base.Tests.{ltb, leb, ◌==◌, if◌then◌else◌}
use stcbsl.Base.Lists.{length, replicate}

abbrev pub Text : Type 0
Text = List ℕ

abbrev pub codes : String → Text
codes String.[] = []
codes (String.◌∷◌ c s) = code c ∷ codes s

-- A digit as `format!` writes it, lower case.
unfoldable pub digit : ℕ → ℕ
digit d = if ltb d 10 then b'0' + d else b'a' + (d - 10)

-- The digits of `n` in front of `acc`; a number has at most as many digits as the fuel `n + 1`.
unfoldable pub digits_loop : ℕ → ℕ → ℕ → Text → Text
unfolding digit
digits_loop zero base n acc = acc
digits_loop (suc fuel) base n acc =
    let rest = digits_loop fuel base (n / base) (digit (n % base) ∷ acc) in
    if n / base == 0 then digit (n % base) ∷ acc else rest

-- `format!("{}", n)`.
unfoldable pub decimal : ℕ → Text
unfolding digits_loop
decimal n = digits_loop (suc n) 10 n []

-- `format!("{:04x}", n)` at width 4.
unfoldable pub hex_padded : ℕ → ℕ → Text
unfolding digits_loop
hex_padded width n =
    let ds = digits_loop (suc n) 16 n [] in replicate (width - length ds) b'0' ++ ds

-- `char::is_whitespace` on ASCII.
unfoldable pub is_space : ℕ → Bool
is_space c = c == b' ' || leb 9 c && leb c 13

-- `==` of two texts.
unfoldable pub same_text : Text → Text → Bool
same_text [] [] = true
same_text [] (d ∷ ds) = false
same_text (c ∷ cs) [] = false
same_text (c ∷ cs) (d ∷ ds) = c == d && same_text cs ds
