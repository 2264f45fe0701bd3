-- ===== src/Ihex/Cells.antt =====
-- The memory of src/ihex.rs as a list of cells: what growing it and storing in it do to each cell.
use stcbsl.Base.{
  ℕ, zero, suc, ◌+◌, ◌-◌, ◌≤◌, ◌<◌, ◌≡◌, refl, sym, ap, ◌∙◌, ◌&&◌, Option, none, some, List, [],
  ◌∷◌, map, length, get_or, set, replicate, ltb, leb, if◌then◌else◌, arith, dec_lt, All, All-append,
  All-set, length-append, length-replicate, length-set, get_or-append_left, get_or-append_right,
}
use stcbsl.Base.Bytes.{Bytes, IsByte}
use stcbsl.Ihex.{grow, store, gaps, or_zero}

abbrev pub Cells : Type 0
Cells = List (Option ℕ)

-- The cell at an address; there is none behind the end.
abbrev pub cell : Cells → ℕ → Option ℕ
cell mem a = get_or mem a none

-- What lies at an address after bytes have been stored from `addr` on.
abbrev pub stored : ℕ → Bytes → ℕ → Option ℕ → Option ℕ
stored addr bs a old =
    if leb addr a && ltb a (addr + length bs) then some (get_or bs (a - addr) 0) else old

abbrev pub max : ℕ → ℕ → ℕ
max a b = if ltb a b then b else a

pub length-grow : (end : ℕ) (mem : Cells) → length (grow end mem) ≡ max (length mem) end
length-grow end mem = ground (
  arith,
  length-append mem (replicate (end - length mem) none),
  length-replicate {A = Option ℕ} (end - length mem) none,
)

get_or-none : (n a : ℕ) → get_or (replicate {A = Option ℕ} n none) a none ≡ none
get_or-none zero a = refl
get_or-none (suc n) zero = refl
get_or-none (suc n) (suc a) = get_or-none n a

get_or_out : (mem : Cells) (a : ℕ) → length mem ≤ a → cell mem a ≡ none
get_or_out [] a h = refl
get_or_out (c ∷ mem) zero h = absurd (omega arith)
get_or_out (c ∷ mem) (suc a) h = get_or_out mem a (omega arith)

-- The new cells are empty.
pub cell-grow : (end : ℕ) (mem : Cells) (a : ℕ) → cell (grow end mem) a ≡ cell mem a
cell-grow end mem a = elim (dec_lt a (length mem)) [
  | yes p ↦ get_or-append_left mem (replicate (end - length mem) none) a none p
  | no p ↦
      let e : a ≡ length mem + (a - length mem) = omega arith in
      rw (← e) at
        (get_or-append_right mem (replicate (end - length mem) none) (a - length mem) none)
      ∙ get_or-none (end - length mem) (a - length mem)
      ∙ sym (get_or_out mem a (omega arith))
]

pub length-store : (mem : Cells) (addr : ℕ) (bs : Bytes) → length (store mem addr bs) ≡ length mem
unfolding store
length-store mem addr [] = refl
length-store mem addr (b ∷ bs) =
    length-store (set mem addr (some b)) (suc addr) bs ∙ length-set mem addr (some b)

cell-set :
    (mem : Cells) (i a : ℕ) (v : Option ℕ)
    → i < length mem
    → cell (set mem i v) a ≡ (if leb i a && leb a i then v else cell mem a)
cell-set [] i a v h = absurd (omega arith)
cell-set (c ∷ mem) zero zero v h = ground arith
cell-set (c ∷ mem) zero (suc a) v h = ground arith
cell-set (c ∷ mem) (suc i) zero v h = ground arith
cell-set (c ∷ mem) (suc i) (suc a) v h = ground (arith, cell-set mem i a v)

pub cell-store :
    (mem : Cells) (addr a : ℕ) (bs : Bytes)
    → addr + length bs ≤ length mem
    → cell (store mem addr bs) a ≡ stored addr bs a (cell mem a)
unfolding store
cell-store mem addr a [] h = ground arith
cell-store mem addr a (b ∷ bs) h =
    cell-store (set mem addr (some b)) (suc addr) a bs (omega (arith, length-set mem addr (some b)))
    ∙ ap (stored (suc addr) bs a) (cell-set mem addr a (some b) (omega arith))
    ∙ together
  where
    together :
        stored (suc addr) bs a (if leb addr a && leb a addr then some b else cell mem a)
        ≡ stored addr (b ∷ bs) a (cell mem a)
    together = elim (dec_lt addr a) [
      | yes p ↦ let e : a - addr ≡ suc (a - suc addr) = omega arith in rw e (ground arith)
      | no p ↦ elim (dec_lt a addr) [
        | yes q ↦ ground arith
        | no q ↦ let e : a - addr ≡ 0 = omega arith in rw e (ground arith)
      ]
    ]

-- A cell that holds a byte, if it holds anything.
abbrev pub HoldsByte : Option ℕ → Type 0
HoldsByte none = Unit
HoldsByte (some b) = IsByte b

HoldsByte-replicate : (n : ℕ) → All HoldsByte (replicate n none)
HoldsByte-replicate zero = tt
HoldsByte-replicate (suc n) = (tt, HoldsByte-replicate n)

pub HoldsByte-grow : (end : ℕ) (mem : Cells) → All HoldsByte mem → All HoldsByte (grow end mem)
HoldsByte-grow end mem h =
    All-append HoldsByte mem (replicate (end - length mem) none) h
      (HoldsByte-replicate (end - length mem))

pub HoldsByte-store :
    (mem : Cells) (addr : ℕ) (bs : Bytes)
    → All HoldsByte mem
    → All IsByte bs
    → All HoldsByte (store mem addr bs)
unfolding store
HoldsByte-store mem addr [] h hs = h
HoldsByte-store mem addr (b ∷ bs) h (hb, hs) =
    HoldsByte-store (set mem addr (some b)) (suc addr) bs (All-set HoldsByte mem addr (some b) h hb)
      hs

pub length-map-or_zero : (mem : Cells) → length (map or_zero mem) ≡ length mem
length-map-or_zero [] = refl
length-map-or_zero (c ∷ mem) = ap suc (length-map-or_zero mem)

pub get_or-map-or_zero : (mem : Cells) (a : ℕ) → get_or (map or_zero mem) a 0 ≡ or_zero (cell mem a)
get_or-map-or_zero [] a = refl
get_or-map-or_zero (c ∷ mem) zero = refl
get_or-map-or_zero (c ∷ mem) (suc a) = get_or-map-or_zero mem a

pub gaps_le_length : (mem : Cells) → gaps mem ≤ length mem
unfolding gaps
gaps_le_length [] = omega arith
gaps_le_length (none ∷ mem) = omega (arith, gaps_le_length mem)
gaps_le_length (some b ∷ mem) = omega (arith, gaps_le_length mem)

pub HoldsByte-IsByte : (mem : Cells) → All HoldsByte mem → All IsByte (map or_zero mem)
HoldsByte-IsByte [] h = tt
HoldsByte-IsByte (none ∷ mem) (h, hs) = (omega arith, HoldsByte-IsByte mem hs)
HoldsByte-IsByte (some b ∷ mem) (h, hs) = (h, HoldsByte-IsByte mem hs)
