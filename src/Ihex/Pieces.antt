-- ===== src/Ihex/Pieces.antt =====
-- Bytes at addresses, and the image that they describe, for src/ihex.rs.
use mathlib.Core.Path.{fun_ext}
use stcbsl.Base.{
  ℕ, zero, suc, ◌+◌, ◌≤◌, ◌<◌, ◌≡◌, refl, ap, ◌∙◌, true, false, Option, none, some, List, [], ◌∷◌,
  map, ok, length, get_or, ltb, if◌then◌else◌, arith, All,
}
use stcbsl.Base.Bytes.{Bytes, IsByte}
use stcbsl.Ihex.{Image, Memory, grow, store, blank, gaps, or_zero, has_none, image_of}
use stcbsl.Ihex.Cells.{
  Cells, cell, stored, max, length-grow, cell-grow, length-store, cell-store, length-map-or_zero,
  get_or-map-or_zero,
}

-- A run of bytes at an address.
pub record Piece : Type 0 where
  pub addr : ℕ
  pub bytes : Bytes

-- It fits a record, and lies below 64 KB.
pub record IsPiece (p : Piece) : Type 0 where
  pub low : p.addr < 0x1_0000
  pub short : length p.bytes < 256
  pub inside : p.addr + length p.bytes ≤ 0x1_0000
  pub bytes_fit : All IsByte p.bytes

abbrev pub later : Option ℕ → Option ℕ → Option ℕ
later (some b) old = some b
later none old = old

-- The byte that the last piece over an address puts there.
abbrev pub last_write : List Piece → ℕ → Option ℕ
last_write [] a = none
last_write (p ∷ ps) a = later (last_write ps a) (stored p.addr p.bytes a none)

abbrev pub end_of : List Piece → ℕ
end_of [] = 0
end_of (p ∷ ps) = max (p.addr + length p.bytes) (end_of ps)

abbrev pub min : ℕ → ℕ → ℕ
min a b = if ltb a b then a else b

abbrev pub lowest_of : List Piece → ℕ
lowest_of [] = 0xFFFF_FFFF
lowest_of (p ∷ ps) = min p.addr (lowest_of ps)

abbrev pub one_if_none : Option ℕ → ℕ
one_if_none none = 1
one_if_none (some b) = 0

-- How many of the first `n` addresses hold nothing.
abbrev pub uncovered : (ℕ → Option ℕ) → ℕ → ℕ
uncovered f zero = 0
uncovered f (suc n) = one_if_none (f 0) + uncovered (λ a. f (suc a)) n

gaps-uncovered : (mem : Cells) → gaps mem ≡ uncovered (cell mem) (length mem)
unfolding gaps
gaps-uncovered [] = refl
gaps-uncovered (none ∷ mem) = omega (arith, gaps-uncovered mem)
gaps-uncovered (some b ∷ mem) = omega (arith, gaps-uncovered mem)

-- A memory in which the pieces lie over the cells of an older one.
pub record Covers (m : Memory) (ps : List Piece) (m' : Memory) : Type 0 where
  pub size : length m'.mem ≡ max (length m.mem) (end_of ps)
  pub cells : (a : ℕ) → cell m'.mem a ≡ later (last_write ps a) (cell m.mem a)
  pub low : m'.lowest ≡ min m.lowest (lowest_of ps)

-- The memory after one piece.
unfoldable pub after_piece : Piece → Memory → Memory
after_piece p m = record m {
  mem = store (grow (p.addr + length p.bytes) m.mem) p.addr p.bytes;
  lowest = if ltb p.addr m.lowest then p.addr else m.lowest;
  saw_data = true;
}

pub after_piece-saw_data : (p : Piece) (m : Memory) → (after_piece p m).saw_data ≡ true
unfolding after_piece
after_piece-saw_data p m = refl

pub after_piece-base : (p : Piece) (m : Memory) → (after_piece p m).base ≡ m.base
unfolding after_piece
after_piece-base p m = refl

pub after_piece-Covers : (p : Piece) (m : Memory) → IsPiece p → Covers m (p ∷ []) (after_piece p m)
unfolding after_piece
after_piece-Covers p m h = record {
  size = sized ∙ ground arith;
  cells = λ a.
      cell-store (grow (p.addr + length p.bytes) m.mem) p.addr a p.bytes
        (rw (length-grow (p.addr + length p.bytes) m.mem) (ground arith))
      ∙ ap (stored p.addr p.bytes a) (cell-grow (p.addr + length p.bytes) m.mem a)
      ∙ ground arith;
  low = let bound = h.low in ground arith;
}
  where
    sized :
        length (store (grow (p.addr + length p.bytes) m.mem) p.addr p.bytes)
        ≡ max (length m.mem) (p.addr + length p.bytes)
    sized =
        length-store (grow (p.addr + length p.bytes) m.mem) p.addr p.bytes
        ∙ length-grow (p.addr + length p.bytes) m.mem

pub after_piece-lowest :
    (p : Piece) (m : Memory) → m.lowest ≤ 0xFFFF_FFFF → (after_piece p m).lowest ≤ 0xFFFF_FFFF
unfolding after_piece
after_piece-lowest p m h = ground arith

-- Pieces over pieces.
pub Covers-cons :
    (p : Piece) (ps : List Piece) (m m' m'' : Memory)
    → IsPiece p
    → Covers m (p ∷ []) m'
    → Covers m' ps m''
    → Covers m (p ∷ ps) m''
Covers-cons p ps m m' m'' h c d = record {
  size =
      sizes (length m.mem) (p.addr + length p.bytes) (end_of ps) (length m'.mem) (length m''.mem)
        c.size d.size;
  cells = λ a.
      d.cells a
      ∙ ap (later (last_write ps a)) (c.cells a)
      ∙ over (last_write ps a) (stored p.addr p.bytes a none) (cell m.mem a);
  low = lows m.lowest p.addr (lowest_of ps) m'.lowest m''.lowest h.low c.low d.low;
}
  where
    sizes :
        (old piece rest middle new : ℕ)
        → middle ≡ max old (max piece 0)
        → new ≡ max middle rest
        → new ≡ max old (max piece rest)
    sizes old piece rest middle new e e' = ground arith

    lows :
        (old addr rest middle new : ℕ)
        → addr < 0x1_0000
        → middle ≡ min old (min addr 0xFFFF_FFFF)
        → new ≡ min middle rest
        → new ≡ min old (min addr rest)
    lows old addr rest middle new l e e' = ground arith

    over : (x y old : Option ℕ) → later x (later (later none y) old) ≡ later (later x y) old
    over (some b) y old = refl
    over none y old = refl

-- The image that is made of a memory with some cells.
image_of-cells :
    (m : Memory)
    → 0 < length m.mem
    → m.saw_data ≡ true
    → image_of m
      ≡ ok (record { bytes = map or_zero m.mem; lowest_addr = m.lowest; gap_bytes = gaps m.mem })
unfolding image_of
image_of-cells m h seen = rw (seen, some_cells m.mem h) refl
  where
    some_cells : (cells : Cells) → 0 < length cells → has_none cells ≡ false
    some_cells [] l = absurd (omega arith)
    some_cells (c ∷ cells) l = refl

later-none : (x : Option ℕ) → later x none ≡ x
later-none none = refl
later-none (some b) = refl

-- The image that the pieces describe: it reaches to the highest end of a piece, and holds at each
-- address the byte that the last piece over it puts there, and 0x00 where there is none.
abbrev pub Describes : List Piece → Image → Type 0
Describes ps image =
    (length image.bytes ≡ end_of ps)
    × ((a : ℕ) → get_or image.bytes a 0 ≡ or_zero (last_write ps a))
    × (image.lowest_addr ≡ lowest_of ps)
    × (image.gap_bytes ≡ uncovered (last_write ps) (end_of ps))

lowest_of_low : (ps : List Piece) → lowest_of ps ≤ 0xFFFF_FFFF
lowest_of_low [] = omega arith
lowest_of_low (p ∷ ps) = ground (arith, lowest_of_low ps)

-- The image made of a memory that the pieces cover.
pub image_of-Describes :
    (ps : List Piece) (m : Memory)
    → Covers blank ps m
    → m.saw_data ≡ true
    → 0 < end_of ps
    → (image : Image) × (image_of m ≡ ok image) × Describes ps image
image_of-Describes ps m d seen some_bytes =
    let size : length m.mem ≡ end_of ps = d.size ∙ ground arith in
    let cells : (a : ℕ) → cell m.mem a ≡ last_write ps a =
      λ a. d.cells a ∙ later-none (last_write ps a) in
    (
      record { bytes = map or_zero m.mem; lowest_addr = m.lowest; gap_bytes = gaps m.mem },
      image_of-cells m (rw size some_bytes) seen,
      (
        length-map-or_zero m.mem ∙ size,
        (λ a. get_or-map-or_zero m.mem a ∙ ap or_zero (cells a)),
        d.low ∙ ground (arith, lowest_of_low ps),
        gaps-uncovered m.mem ∙ rw (fun_ext cells, size) refl,
      ),
    )
