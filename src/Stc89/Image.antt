-- ===== src/Stc89/Image.antt =====
-- What the frames planned by src/protocol/stc89.rs leave in the code flash, when each frame is
-- read as the comments on its command describe it.
use Prim.Native.Nat.{bit_and}
use stcbsl.Base.{
  concat, ℕ, suc, ◌+◌, ◌-◌, ◌*◌, ◌<◌, ◌≡◌, refl, ap, ◌∙◌, List, [], ◌∷◌, ◌++◌, length, drop, get_or,
  arith, All, ltb, leb, ◌&&◌, ◌==◌, if◌then◌else◌, length-append, get_or-append_left,
  get_or-append_right, dec_lt,
}
use stcbsl.Base.Bytes.{Bytes, u16, u32, u16_to_be, u32_to_be}
use stcbsl.Frame.{Frame, byte_at}
use stcbsl.Session.{Step}
use stcbsl.Protocol.{SessionOptions}
use stcbsl.Stc89.{write_steps}
use stcbsl.Stc89.Frames.{write_frame}
use stcbsl.Stc89.Blocks.{HasLength}

-- The code flash: a byte for each address.
abbrev pub Flash : Type 0
Flash = ℕ → ℕ

-- Bytes are programmed from `addr` on. A cell can only lose bits: it takes a value unchanged only
-- when it is erased.
abbrev pub overwrite : ℕ → Bytes → Flash → Flash
overwrite addr bs m a =
    if leb addr a && ltb a (addr + length bs) then bit_and (m a) (get_or bs (a - addr) 0) else m a

abbrev pub erased : ℕ → Flash → Flash
erased count m a = if ltb a count then 0xFF else m a

abbrev pub u32_from_be : Bytes → ℕ
u32_from_be p =
    byte_at p 0 * 0x100_0000 + byte_at p 1 * 0x1_0000 + byte_at p 2 * 0x100 + byte_at p 3

-- What a frame from the host does to the flash: `0x84` erases as many blocks of 256 bytes as its
-- first byte says, `0x00` programs the bytes behind its address and length, others do nothing.
unfoldable pub perform : Frame → Flash → Flash
perform f m =
    if f.cmd == 0x84
    then erased (byte_at f.payload 0 * 256) m
    else if f.cmd == 0x00
    then overwrite (u32_from_be f.payload) (drop 6 f.payload) m
    else m

unfoldable pub perform_all : List Step → Flash → Flash
perform_all [] m = m
perform_all (s ∷ ss) m = perform_all ss (perform s.frame m)

pub perform_all-append :
    (xs ys : List Step) (m : Flash) → perform_all (xs ++ ys) m ≡ perform_all ys (perform_all xs m)
unfolding perform_all
perform_all-append [] ys m = refl
perform_all-append (x ∷ xs) ys m = perform_all-append xs ys (perform x.frame m)

u32_from_be-u32_to_be :
    (n : ℕ) (rest : Bytes) → n < 0x1_0000_0000 → u32_from_be (u32_to_be n ++ rest) ≡ n
u32_from_be-u32_to_be n rest h = omega arith

perform-write_frame :
    (addr : ℕ) (bs : Bytes) (m : Flash)
    → addr < 0x1_0000_0000
    → perform (write_frame addr bs) m ≡ overwrite addr bs m
unfolding perform write_frame
perform-write_frame addr bs m h =
    ap (λ (n : ℕ). overwrite n bs m)
      (u32_from_be-u32_to_be addr (u16_to_be (u16 (length bs)) ++ bs) h)

-- Two adjacent writes are one write.
overwrite-append :
    (addr : ℕ) (xs ys : Bytes) (m : Flash) (a : ℕ)
    → overwrite (addr + length xs) ys (overwrite addr xs m) a ≡ overwrite addr (xs ++ ys) m a
overwrite-append addr xs ys m a = elim (dec_lt a (addr + length xs)) [
  | yes p ↦ ground (arith, length-append xs ys, get_or-append_left xs ys (a - addr) 0)
  | no p ↦
      let e : a - addr ≡ length xs + (a - (addr + length xs)) = omega arith in
      ground (
        arith,
        length-append xs ys,
        rw (← e) at (get_or-append_right xs ys (a - (addr + length xs)) 0),
      )
]

-- The write frames of a list of full chunks put the chunks in one piece from the first address on.
pub perform_all-write_steps :
    (opts : SessionOptions) (total i : ℕ) (cs : List Bytes) (m : Flash) (a : ℕ)
    → All (HasLength 128) cs
    → (i + length cs) * 128 < 0x1_0000_0000
    → perform_all (write_steps opts total i cs) m a ≡ overwrite (i * 128) (concat cs) m a
unfolding perform_all write_steps
perform_all-write_steps opts total i [] m a h l = ground arith
perform_all-write_steps opts total i (c ∷ cs) m a h l =
    let small : i * 128 < 0x1_0000_0000 = omega arith in
    let exact : u32 (i * 128) ≡ i * 128 = omega arith in
    let next : suc i * 128 ≡ i * 128 + length c = let q : length c ≡ 128 = h.0 in omega arith in
    rw (exact, perform-write_frame (i * 128) c m small)
      (perform_all-write_steps opts total (suc i) cs (overwrite (i * 128) c m) a h.1 (omega arith)
        ∙ rw next (overwrite-append (i * 128) c (concat cs) m a))
