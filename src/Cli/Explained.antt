-- ===== src/Cli/Explained.antt =====
-- `cmd_explain` of src/bin/stcbsl.rs against `Stc89::plan`: what is shown offline is what a session
-- writes.
use stcbsl.Frame.{bytes_eq}
use stcbsl.Base.{
  replicate, ◌&&◌, ◌==◌, ℕ, zero, suc, ◌+◌, ◌*◌, ◌/◌, ◌≤◌, ◌≡◌, refl, ap, ◌∙◌, Bool, true, false,
  List, [], ◌∷◌, ◌++◌, append_assoc, append-nil, sym, ok, length, drop, arith, if◌then◌else◌,
}
use stcbsl.Base.Bytes.{Bytes, u16, u32, u16_to_be, u32_to_be}
use stcbsl.Frame.{byte_at}
use stcbsl.Protocol.{flash, SessionOptions, TargetInfo}
use stcbsl.Session.{Step, Expect}
use stcbsl.Stc89.{
  probe_step, commit_step, link_test_step, link_test_steps, erase_step, write_step, write_steps,
  options_step, flash_steps, run_step, plan, padded_image, chunks,
}
use stcbsl.Stc89.Frames.{link_test_repeats, write_block, write_frame, block_ack}
use stcbsl.Stc89.Blocks.{erase_blocks_for_bounds, chunks-HasLength}
use stcbsl.Stc89.Plan.{plan_work-IsPlan, job_blocks_flash}
use stcbsl.Stc89.Plan.Effect.{length-padded_image}
use stcbsl.Cli.Explain.{Row, all_ff, rows_from, explain_rows}

-- Nothing but 0xFF.
abbrev pub is_blank : Bytes → Bool
is_blank bs = bytes_eq bs (replicate (length bs) 0xFF)

all_ff-is_blank : (bs : Bytes) → all_ff bs ≡ is_blank bs
unfolding all_ff bytes_eq
all_ff-is_blank [] = refl
all_ff-is_blank (b ∷ bs) = ap (λ (x : Bool). b == 0xFF && x) (all_ff-is_blank bs)

-- The address in the frame of a write, its first four bytes, the highest first.
abbrev pub frame_addr : Bytes → ℕ
frame_addr p = byte_at p 0 * 0x100_0000 + byte_at p 1 * 0x1_0000 + byte_at p 2 * 0x100 + byte_at p 3

-- A step that writes a block, as a row: the address in its frame, the byte that it accepts as its
-- acknowledgement, and whether the bytes in its frame, behind the address and the length, are all
-- 0xFF.
abbrev pub row_of : Bytes → Expect → List Row → List Row
row_of payload (Expect.block_ack v) rest =
    record { addr = frame_addr payload; ack = v; padding = is_blank (drop 6 payload) } ∷ rest
row_of payload _ rest = rest

unfoldable pub rows_of : List Step → List Row
rows_of [] = []
rows_of (step ∷ steps) = row_of step.frame.payload step.expect (rows_of steps)

row_of-append :
    (p : Bytes) (e : Expect) (xs ys : List Row) → row_of p e (xs ++ ys) ≡ row_of p e xs ++ ys
row_of-append p Expect.nothing xs ys = refl
row_of-append p Expect.echo xs ys = refl
row_of-append p (Expect.ack c b) xs ys = refl
row_of-append p (Expect.ack_len c n) xs ys = refl
row_of-append p (Expect.block_ack v) xs ys = refl

rows_of-append : (xs ys : List Step) → rows_of (xs ++ ys) ≡ rows_of xs ++ rows_of ys
unfolding rows_of
rows_of-append [] ys = refl
rows_of-append (x ∷ xs) ys =
    ap (row_of x.frame.payload x.expect) (rows_of-append xs ys)
    ∙ row_of-append x.frame.payload x.expect (rows_of xs) (rows_of ys)

frame_addr-u32_to_be : (a : ℕ) (rest : Bytes) → frame_addr (u32_to_be (u32 a) ++ rest) ≡ u32 a
frame_addr-u32_to_be a rest = omega arith

rows_of-write_steps :
    (opts : SessionOptions) (total i : ℕ) (cs : List Bytes)
    → (i + length cs) * 128 ≤ 0x1_0000_0000
    → rows_of (write_steps opts total i cs) ≡ rows_from i cs
unfolding rows_of write_steps write_step rows_from write_frame
rows_of-write_steps opts total i [] h = refl
rows_of-write_steps opts total i (c ∷ cs) h =
    let e : u32 (i * 128) ≡ i * 128 = omega arith in
    let at = frame_addr-u32_to_be (i * 128) (u16_to_be (u16 (length c)) ++ c) in
    let all = rows_of-write_steps opts total (suc i) cs (omega arith) in
    λ k.
      record { addr = (at ∙ e) k; ack = block_ack c; padding = sym (all_ff-is_blank c) k } ∷ all k

module _ (info : TargetInfo) (opts : SessionOptions) where
  rows_of-link_test_steps :
      (n i : ℕ) (rest : List Step) → rows_of (link_test_steps info opts n i ++ rest) ≡ rows_of rest
  unfolding rows_of link_test_steps link_test_step
  rows_of-link_test_steps zero i rest = refl
  rows_of-link_test_steps (suc n) i rest = rows_of-link_test_steps n (suc i) rest

  rows_of-last :
      (b : Bool)
      → rows_of ((if b then options_step info opts ∷ [] else []) ++ run_step opts ∷ []) ≡ []
  unfolding rows_of options_step run_step
  rows_of-last true = refl
  rows_of-last false = refl

  rows_of-flash_steps :
      (image : Bytes) (b : Bool) (blocks : ℕ)
      → blocks ≤ 255
      → length image ≤ blocks * 256
      → rows_of (flash_steps info (flash image b) opts blocks ++ run_step opts ∷ [])
        ≡ rows_from 0 (chunks write_block (padded_image image blocks))
  unfolding flash_steps
  rows_of-flash_steps image b blocks small fits =
      let tail = if b then options_step info opts ∷ [] else [] in
      let cs = chunks write_block (padded_image image blocks) in
      let whole : length (padded_image image blocks) ≡ blocks * 2 * 128 =
        omega (arith, length-padded_image image blocks fits) in
      let (same, count) =
        chunks-HasLength 128 (blocks * 2) (padded_image image blocks) (omega arith) whole in
      let writes = write_steps opts (blocks * 256 / 128) 0 cs in
      ap rows_of (append_assoc writes tail (run_step opts ∷ []))
      ∙ rows_of-append writes (tail ++ run_step opts ∷ [])
      ∙ rw
          (
            rows_of-last b,
            rows_of-write_steps opts (blocks * 256 / 128) 0 cs (omega (arith, count)),
          )
          (append-nil (rows_from 0 cs))

-- What `explain` shows of an image is what a session will do with it. In every planned session that
-- flashes the image, whatever the chip and the options, the steps that write blocks are, in order,
-- the rows shown: the same addresses, read off the frames that are sent, the same acknowledging
-- bytes, and padding just where the bytes in the frame are all 0xFF.
pub explain_rows-plan :
    (info : TargetInfo) (image : Bytes) (write_options : Bool) (opts : SessionOptions)
    {steps : List Step}
    → plan info (flash image write_options) opts ≡ ok steps
    → explain_rows image ≡ rows_of steps
unfolding plan explain_rows
explain_rows-plan info image write_options opts e =
    let p = plan_work-IsPlan info (flash image write_options) opts e in
    let (some_bytes, cap, count) =
      (job_blocks_flash info image write_options p.blocks).0 p.counted in
    let fits : length image ≤ p.blocks * 256 =
      omega (arith, count, erase_blocks_for_bounds (length image)) in
    sym (
      ap rows_of p.is
      ∙ rows_of-negotiation p.reload p.blocks _
      ∙ rows_of-flash_steps info opts image write_options p.blocks p.one_byte fits
      ∙ ap (λ (n : ℕ). rows_from 0 (chunks write_block (padded_image image n))) count)
  where
    rows_of-negotiation :
        (reload blocks : ℕ) (rest : List Step)
        → rows_of (
            probe_step reload opts
            ∷ commit_step reload opts
            ∷ (link_test_steps info opts link_test_repeats 0 ++ erase_step blocks opts ∷ rest))
          ≡ rows_of rest
    rows_of-negotiation reload blocks rest =
        unfold rows_of probe_step commit_step in
        rows_of-link_test_steps info opts link_test_repeats 0 (erase_step blocks opts ∷ rest)
        ∙ unfold rows_of erase_step in refl
