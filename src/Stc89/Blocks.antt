-- ===== src/Stc89/Blocks.antt =====
-- The block arithmetic of src/protocol/stc89.rs: `erase_blocks_for`, `chunks`, `block_ack`.
use stcbsl.Base.{
  ℕ, zero, suc, ◌+◌, ◌*◌, ◌%◌, ◌≤◌, ◌<◌, ◌≡◌, refl, ap, [], ◌∷◌, length, drop, concat,
  take-append-drop, length-take, length-drop, arith, All,
}
use stcbsl.Base.Bytes.{Bytes, u8, sum}
use stcbsl.Frame.{checksum}
use stcbsl.Frame.Shape.{checksum-sum}
use stcbsl.Stc89.{chunks_loop, chunks}
use stcbsl.Stc89.Frames.{erase_blocks_for, block_ack}

-- The erased region is the image rounded up to whole granules of 512 bytes, two blocks each.
pub erase_blocks_for_bounds :
    (n : ℕ)
    → (n ≤ erase_blocks_for n * 256)
      × (erase_blocks_for n * 256 < n + 512)
      × (erase_blocks_for n % 2 ≡ 0)
unfolding erase_blocks_for
erase_blocks_for_bounds n = ground arith

-- The acknowledgement of a block is the sum of its bytes, modulo 256.
pub block_ack-sum : (bs : Bytes) → block_ack bs ≡ u8 (sum bs)
unfolding block_ack checksum
block_ack-sum bs = unfold checksum in checksum-sum bs

concat-chunks_loop :
    (fuel n : ℕ) (bs : Bytes) → 0 < n → length bs ≤ fuel → concat (chunks_loop fuel n bs) ≡ bs
unfolding chunks_loop
concat-chunks_loop zero n [] hn h = refl
concat-chunks_loop zero n (b ∷ bs) hn h = absurd (omega arith)
concat-chunks_loop (suc fuel) n [] hn h = refl
concat-chunks_loop (suc fuel) n (b ∷ bs) hn h =
    rw (concat-chunks_loop fuel n (drop n (b ∷ bs)) hn (omega (arith, length-drop n (b ∷ bs))))
      (take-append-drop n (b ∷ bs))

-- The chunks are the bytes, cut.
pub concat-chunks : (n : ℕ) (bs : Bytes) → 0 < n → concat (chunks n bs) ≡ bs
unfolding chunks
concat-chunks n bs h = concat-chunks_loop (length bs) n bs h (omega arith)

abbrev pub HasLength : ℕ → Bytes → Type 0
HasLength n c = length c ≡ n

chunks_loop-HasLength :
    (fuel n k : ℕ) (bs : Bytes)
    → 0 < n
    → length bs ≤ fuel
    → length bs ≡ k * n
    → All (HasLength n) (chunks_loop fuel n bs) × (length (chunks_loop fuel n bs) ≡ k)
unfolding chunks_loop
chunks_loop-HasLength zero n zero [] hn h e = (tt, refl)
chunks_loop-HasLength zero n (suc k) [] hn h e = absurd (omega arith)
chunks_loop-HasLength zero n k (b ∷ bs) hn h e = absurd (omega arith)
chunks_loop-HasLength (suc fuel) n zero [] hn h e = (tt, refl)
chunks_loop-HasLength (suc fuel) n (suc k) [] hn h e = absurd (omega arith)
chunks_loop-HasLength (suc fuel) n zero (b ∷ bs) hn h e = absurd (omega arith)
chunks_loop-HasLength (suc fuel) n (suc k) (b ∷ bs) hn h e =
    let (same, count) =
      chunks_loop-HasLength fuel n k (drop n (b ∷ bs)) hn (omega (arith, length-drop n (b ∷ bs)))
        (omega (arith, length-drop n (b ∷ bs))) in
    ((omega (arith, length-take n (b ∷ bs)), same), ap suc count)

-- A whole number of chunks: all have the full length, and there are as many as that number.
pub chunks-HasLength :
    (n k : ℕ) (bs : Bytes)
    → 0 < n
    → length bs ≡ k * n
    → All (HasLength n) (chunks n bs) × (length (chunks n bs) ≡ k)
unfolding chunks
chunks-HasLength n k bs hn e = chunks_loop-HasLength (length bs) n k bs hn (omega arith) e

abbrev pub IsShort : ℕ → Bytes → Type 0
IsShort n c = length c ≤ n

chunks_loop-IsShort : (fuel n : ℕ) (bs : Bytes) → All (IsShort n) (chunks_loop fuel n bs)
unfolding chunks_loop
chunks_loop-IsShort zero n bs = tt
chunks_loop-IsShort (suc fuel) n [] = tt
chunks_loop-IsShort (suc fuel) n (b ∷ bs) =
    (omega (arith, length-take n (b ∷ bs)), chunks_loop-IsShort fuel n (drop n (b ∷ bs)))

-- No chunk is longer than the size asked for.
pub chunks-IsShort : (n : ℕ) (bs : Bytes) → All (IsShort n) (chunks n bs)
unfolding chunks
chunks-IsShort n bs = chunks_loop-IsShort (length bs) n bs
