-- ===== src/Base/Debug.antt =====
-- The formats `{:?}` of `format!` for texts, characters and lists of numbers, and `{}` for signed
-- integers. Of the characters beyond ASCII a text is taken to have only such as are printed.
use Prim.Native.Nat.{ℕ, suc}
use mathlib.Core.Bool.{Bool, true, false, ◌&&◌, ◌||◌}
use mathlib.Core.List.{List, [], ◌∷◌, ◌++◌}
use stcbsl.Base.Tests.{ltb, leb, ◌==◌, if◌then◌else◌}
use stcbsl.Base.Int.{ℤ, pos, negsuc}
use stcbsl.Base.Text.{Text, codes, decimal, hex_padded}

-- `char::escape_debug`, but for the quotes.
unfoldable pub escaped : Bool → ℕ → Text
unfolding hex_padded
escaped printed c =
    if c == 0
    then codes "\\0"
    else if c == 9
    then codes "\\t"
    else if c == 0x0A
    then codes "\\n"
    else if c == 0x0D
    then codes "\\r"
    else if c == b'\\'
    then codes "\\\\"
    else if printed
    then c ∷ []
    else codes "\\u{" ++ (hex_padded 1 c ++ codes "}")

abbrev pub is_ascii_control : ℕ → Bool
is_ascii_control c = ltb c 0x20 || c == 0x7F

abbrev pub printed_in_text : ℕ → Bool
printed_in_text c = if is_ascii_control c then false else true

abbrev pub printed_latin1 : ℕ → Bool
printed_latin1 c =
    if is_ascii_control c || leb 0x80 c && leb c 0xA0 || c == 0xAD then false else true

unfoldable pub debug_chars : Text → Text
unfolding escaped
debug_chars [] = []
debug_chars (c ∷ cs) =
    (if c == b'"' then codes "\\\"" else escaped (printed_in_text c) c) ++ debug_chars cs

-- `{:?}` of a `str`.
unfoldable pub debug_text : Text → Text
unfolding debug_chars
debug_text s = b'"' ∷ (debug_chars s ++ b'"' ∷ [])

-- `{:?}` of a `char` below 256.
unfoldable pub debug_char : ℕ → Text
unfolding escaped
debug_char c =
    b'\'' ∷ ((if c == b'\'' then codes "\\'" else escaped (printed_latin1 c) c) ++ b'\'' ∷ [])

unfoldable pub debug_rest : List ℕ → Text
unfolding decimal
debug_rest [] = codes "]"
debug_rest (n ∷ ns) = codes ", " ++ (decimal n ++ debug_rest ns)

-- `{:?}` of a list of numbers.
unfoldable pub debug_list : List ℕ → Text
unfolding debug_rest
debug_list [] = codes "[]"
debug_list (n ∷ ns) = codes "[" ++ (decimal n ++ debug_rest ns)

-- `{}` of a signed integer.
unfoldable pub decimal_int : ℤ → Text
unfolding decimal
decimal_int (pos n) = decimal n
decimal_int (negsuc n) = b'-' ∷ decimal (suc n)
