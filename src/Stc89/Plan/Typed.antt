-- ===== src/Stc89/Plan/Typed.antt =====
-- The numbers in the frames that `Stc89::plan` (src/protocol/stc89.rs) makes fit the types that the
-- source gives them.
use stcbsl.Base.{
  ◌-◌, ◌/◌, ℕ, zero, suc, ◌*◌, ◌+◌, ◌≤◌, ◌≡◌, refl, List, [], ◌∷◌, ok, All, All-append, All-take,
  All-drop, length, length-append, length-take, take, drop, replicate, arith,
}
use stcbsl.Base.Bytes.{Bytes, IsByte, u8}
use stcbsl.Frame.{Frame, host_to_mcu, dir_byte, len_field, encode}
use stcbsl.Frame.Shape.{encode_fields, encode-join, checksum-sum}
use stcbsl.Ihex.Checked.{byte_at-IsByte}
use stcbsl.Session.{Step}
use stcbsl.Protocol.{Job, identify, erase, flash, SessionOptions, TargetInfo}
use stcbsl.Stc89.{
  probe_step, commit_step, link_test_step, erase_step, write_step, options_step, run_step, plan,
  chunks, chunks_loop, padded_image,
}
use stcbsl.Stc89.Frames.{write_block, link_test_prefix, options_tail}
use stcbsl.Stc89.Blocks.{IsShort, chunks-IsShort}
use stcbsl.Stc89.Status.{parse_status, target_info}
use stcbsl.Stc89.Status.Laws.{parse_status-eq-ok_iff, reported}
use stcbsl.Stc89.Plan.Order.{Steps, ChunksAre, All-plan}

-- A frame from the host, its command and payload bytes, and no longer than the receiver takes.
abbrev pub IsTyped : Frame → Type 0
IsTyped f = (f.dir ≡ host_to_mcu) × IsByte f.cmd × All IsByte f.payload × (length f.payload ≤ 1018)

abbrev pub StepIsTyped : Step → Type 0
StepIsTyped step =
    IsTyped step.frame
    × (len_field step.frame ≡ length step.frame.payload + 6)
    × All IsByte (encode step.frame)

-- The length field and the encoding of such a frame.
typed :
    (f : Frame)
    → IsTyped f
    → IsTyped f × (len_field f ≡ length f.payload + 6) × All IsByte (encode f)
unfolding encode_fields
typed f (dir, cmd, payload, short) = (
  (dir, cmd, payload, short),
  unfold len_field in omega arith,
  rw (encode-join f) (
    omega arith,
    (
      omega arith,
      (
        rw dir (unfold dir_byte in omega arith),
        (
          omega arith,
          (
            omega arith,
            (
              cmd,
              All-append IsByte f.payload ((encode_fields f).cksm ∷ 0x16 ∷ []) payload (
                omega (
                  arith,
                  checksum-sum (
                      dir_byte f.dir
                      ∷ u8 (len_field f / 0x100)
                      ∷ u8 (len_field f)
                      ∷ f.cmd
                      ∷ f.payload),
                ),
                (omega arith, tt),
              ),
            ),
          ),
        ),
      ),
    ),
  ),
)

-- The bytes of an image.
abbrev pub BytesOf : Job → Type 0
BytesOf identify = Unit
BytesOf (erase b) = Unit
BytesOf (flash image b) = All IsByte image

abbrev IsChunk : Bytes → Type 0
IsChunk c = All IsByte c × IsShort write_block c

chunks_loop-All :
    (fuel n : ℕ) (bs : Bytes) → All IsByte bs → All (All IsByte) (chunks_loop fuel n bs)
unfolding chunks_loop
chunks_loop-All zero n bs h = tt
chunks_loop-All (suc fuel) n [] h = tt
chunks_loop-All (suc fuel) n (b ∷ bs) h = (
  All-take IsByte n (b ∷ bs) h,
  chunks_loop-All fuel n (drop n (b ∷ bs)) (All-drop IsByte n (b ∷ bs) h),
)

All-replicate : (n b : ℕ) → IsByte b → All IsByte (replicate n b)
All-replicate zero b h = tt
All-replicate (suc n) b h = (h, All-replicate n b h)

All-both : (cs : List Bytes) → All (All IsByte) cs → All (IsShort write_block) cs → All IsChunk cs
All-both [] h k = tt
All-both (c ∷ cs) (h, hs) (k, ks) = ((h, k), All-both cs hs ks)

ChunksAre-IsChunk : (job : Job) → BytesOf job → ChunksAre IsChunk job
unfolding chunks
ChunksAre-IsChunk identify h = tt
ChunksAre-IsChunk (erase b) h = tt
ChunksAre-IsChunk (flash image b) h = λ blocks.
    let padded = padded_image image blocks in
    All-both (chunks write_block padded)
      (chunks_loop-All (length padded) write_block padded (
        All-append IsByte (take (blocks * 256) image) (replicate (blocks * 256 - length image) 0xFF)
          (All-take IsByte (blocks * 256) image h)
          (All-replicate (blocks * 256 - length image) 0xFF (omega arith))))
      (chunks-IsShort write_block padded)

-- The frames of a plan are made of bytes. For a status frame with a payload of bytes that
-- `parse_status` accepts, and an image of bytes if the job has one, every frame of every planned
-- session is one from the host, its command is a byte, and its payload consists of at most 1018
-- bytes; its length field is the length of its payload and six more, without wrapping around; and
-- its encoding consists of bytes.
pub plan-IsTyped :
    (frame : Frame) (baud : ℕ) (info : TargetInfo) (job : Job) (opts : SessionOptions)
    {steps : List Step}
    → All IsByte frame.payload
    → BytesOf job
    → parse_status frame baud ≡ ok info
    → plan info job opts ≡ ok steps
    → All StepIsTyped steps
unfolding probe_step commit_step link_test_step erase_step write_step options_step run_step
    target_info
plan-IsTyped frame baud info job opts bytes image parsed planned =
    All-plan StepIsTyped IsChunk info opts each job (ChunksAre-IsChunk job image) planned
  where
    read : info ≡ reported frame baud
    read = ((parse_status-eq-ok_iff frame baud info).0 parsed).1

    chip : All IsByte info.chip_id × (length info.chip_id ≤ 2)
    chip = rw read (
      All-take IsByte 2 (drop 19 frame.payload) (All-drop IsByte 19 frame.payload bytes),
      omega (arith, length-take 2 (drop 19 frame.payload)),
    )

    option : All IsByte info.option_bytes × (length info.option_bytes ≡ 1)
    option = rw read ((byte_at-IsByte frame.payload 18 bytes, tt), refl)

    each : Steps StepIsTyped IsChunk info opts
    each = record {
      probe = λ reload. typed _ (refl, omega arith, omega arith, omega arith);
      commit = λ reload. typed _ (refl, omega arith, omega arith, omega arith);
      link_test = λ i. typed _ (
        refl,
        omega arith,
        All-append IsByte link_test_prefix info.chip_id (omega arith) chip.0,
        omega (arith, chip.1, length-append link_test_prefix info.chip_id),
      );
      erases = λ blocks. typed _ (refl, omega arith, omega arith, omega arith);
      writes = λ total i chunk h. typed _ (
        refl,
        omega arith,
        (
          omega arith,
          (omega arith, (omega arith, (omega arith, (omega arith, (omega arith, h.0))))),
        ),
        let short = h.1 in omega arith,
      );
      options = typed _ (
        refl,
        omega arith,
        All-append IsByte info.option_bytes options_tail option.0 (omega arith),
        omega (arith, option.1, length-append info.option_bytes options_tail),
      );
      runs = typed _ (refl, omega arith, tt, omega arith);
    }
