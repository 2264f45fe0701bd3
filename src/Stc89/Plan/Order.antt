-- ===== src/Stc89/Plan/Order.antt =====
-- What holds of every step that `Stc89::plan` (src/protocol/stc89.rs) can make, and the order of
-- the steps.
use mathlib.Core.Path.{subst}
use mathlib.Core.List.{map-append}
use stcbsl.Stc89.Plan.Effect.{length-padded_image}
use stcbsl.Base.{
  ℕ, zero, suc, ◌*◌, ◌/◌, ◌≤◌, ◌≡◌, refl, ap, ◌∙◌, Bool, true, false, List, [], ◌∷◌, ◌++◌, map,
  length, replicate, arith, if◌then◌else◌, Result, ok, err, All, All-append,
}
use stcbsl.Base.Bytes.{Bytes}
use stcbsl.Frame.{Frame, byte_at}
use stcbsl.Session.{Step, Phase}
use stcbsl.Protocol.{Job, identify, erase, flash, SessionOptions, TargetInfo, ProtocolError}
use stcbsl.Stc89.{
  probe_step, commit_step, link_test_step, link_test_steps, erase_step, write_step, write_steps,
  options_step, flash_steps, run_step, plan, padded_image, chunks,
}
use stcbsl.Stc89.Frames.{erase_blocks_for, link_test_repeats, write_block}
use stcbsl.Stc89.Blocks.{erase_blocks_for_bounds, chunks-HasLength, IsShort, chunks-IsShort}
use stcbsl.Stc89.Status.{parse_status, target_info}
use stcbsl.Stc89.Status.Laws.{parse_status-eq-ok_iff}
use stcbsl.Stc89.Plan.{work_steps, plan_work-IsPlan, job_blocks_flash}

abbrev AllOk : (Step → Type 0) → Result ProtocolError (List Step) → Type 0
AllOk P (ok steps) = All P steps
AllOk P (err e) = Unit

-- A property of all steps is proved for each kind of step, with what is known of the chunks.
pub record Steps (P : Step → Type 0) (Q : Bytes → Type 0) (info : TargetInfo)
    (opts : SessionOptions) : Type 0 where
  pub probe : (reload : ℕ) → P (probe_step reload opts)
  pub commit : (reload : ℕ) → P (commit_step reload opts)
  pub link_test : (i : ℕ) → P (link_test_step info opts i)
  pub erases : (blocks : ℕ) → P (erase_step blocks opts)
  pub writes : (total i : ℕ) (chunk : Bytes) → Q chunk → P (write_step opts total i chunk)
  pub options : P (options_step info opts)
  pub runs : P (run_step opts)

-- What is known of the chunks that the image of a job is cut into.
abbrev pub ChunksAre : (Bytes → Type 0) → Job → Type 0
ChunksAre Q identify = Unit
ChunksAre Q (erase b) = Unit
ChunksAre Q (flash image b) = (blocks : ℕ) → All Q (chunks write_block (padded_image image blocks))

pub ChunksAre-IsShort : (job : Job) → ChunksAre (IsShort write_block) job
ChunksAre-IsShort identify = tt
ChunksAre-IsShort (erase b) = tt
ChunksAre-IsShort (flash image b) = λ blocks. chunks-IsShort write_block (padded_image image blocks)

module _ (P : Step → Type 0) (Q : Bytes → Type 0) (info : TargetInfo) (opts : SessionOptions)
    (each : Steps P Q info opts) where
  All-link_test_steps : (n i : ℕ) → All P (link_test_steps info opts n i)
  unfolding link_test_steps
  All-link_test_steps zero i = tt
  All-link_test_steps (suc n) i = (each.link_test i, All-link_test_steps n (suc i))

  All-write_steps : (total i : ℕ) (cs : List Bytes) → All Q cs → All P (write_steps opts total i cs)
  unfolding write_steps
  All-write_steps total i [] h = tt
  All-write_steps total i (c ∷ cs) (h, hs) =
      (each.writes total i c h, All-write_steps total (suc i) cs hs)

  All-options : (b : Bool) → All P (if b then options_step info opts ∷ [] else [])
  All-options true = (each.options, tt)
  All-options false = tt

  All-flash_steps :
      (job : Job) (blocks : ℕ) → ChunksAre Q job → All P (flash_steps info job opts blocks)
  unfolding flash_steps
  All-flash_steps identify blocks h = tt
  All-flash_steps (erase b) blocks h = tt
  All-flash_steps (flash image b) blocks h =
      All-append P
        (write_steps opts (blocks * 256 / 128) 0 (chunks write_block (padded_image image blocks)))
        (if b then options_step info opts ∷ [] else [])
        (All-write_steps (blocks * 256 / 128) 0 _ (h blocks)) (All-options b)

  All-work_steps :
      (job : Job) (reload blocks : ℕ)
      → ChunksAre Q job
      → All P (work_steps info job opts reload blocks)
  All-work_steps job reload blocks h = (
    each.probe reload,
    (
      each.commit reload,
      All-append P (link_test_steps info opts link_test_repeats 0)
          (erase_step blocks opts ∷ (flash_steps info job opts blocks ++ run_step opts ∷ []))
          (All-link_test_steps link_test_repeats 0)
          (
            each.erases blocks,
            All-append P (flash_steps info job opts blocks) (run_step opts ∷ [])
                (All-flash_steps job blocks h) (each.runs, tt),
          ),
    ),
  )

  pub All-plan :
      (job : Job) {steps : List Step}
      → ChunksAre Q job
      → plan info job opts ≡ ok steps
      → All P steps
  unfolding plan
  All-plan identify h e =
      subst (λ (r : Result ProtocolError (List Step)). AllOk P r) e (each.runs, tt)
  All-plan (erase b) h e =
      let p = plan_work-IsPlan info (erase b) opts e in
      rw p.is (All-work_steps (erase b) p.reload p.blocks h)
  All-plan (flash image b) h e =
      let p = plan_work-IsPlan info (flash image b) opts e in
      rw p.is (All-work_steps (flash image b) p.reload p.blocks h)

-- A step that writes the option byte writes back the given one.
abbrev pub OptionIs : ℕ → Step → Type 0
OptionIs b step = step.frame.cmd ≡ 0x8D → step.frame.payload ≡ b ∷ 0xFF ∷ 0xFF ∷ 0xFF ∷ []

-- The host never makes up an option byte. In a session planned from a status packet, whatever the
-- job, a frame with the options command carries the byte at offset 18 of that packet's payload,
-- followed by three bytes 0xFF.
pub plan-option_byte :
    (frame : Frame) (baud : ℕ) (info : TargetInfo) (job : Job) (opts : SessionOptions)
    {steps : List Step}
    → parse_status frame baud ≡ ok info
    → plan info job opts ≡ ok steps
    → All (OptionIs (byte_at frame.payload 18)) steps
unfolding probe_step commit_step link_test_step erase_step write_step options_step run_step
    target_info
plan-option_byte frame baud info job opts parsed planned =
    All-plan (OptionIs (byte_at frame.payload 18)) (IsShort write_block) info opts each job
      (ChunksAre-IsShort job) planned
  where
    read : info.option_bytes ≡ byte_at frame.payload 18 ∷ []
    read = rw ((parse_status-eq-ok_iff frame baud info).0 parsed).1 refl

    each : Steps (OptionIs (byte_at frame.payload 18)) (IsShort write_block) info opts
    each = record {
      probe = λ reload e. absurd (omega arith);
      commit = λ reload e. absurd (omega arith);
      link_test = λ i e. absurd (omega arith);
      erases = λ blocks e. absurd (omega arith);
      writes = λ total i chunk h e. absurd (omega arith);
      options = λ e. ap (λ (b : Bytes). b ++ 0xFF ∷ 0xFF ∷ 0xFF ∷ []) read;
      runs = λ e. absurd (omega arith);
    }

abbrev pub phases : List Step → List Phase
phases = map (λ (s : Step). s.phase)

phases-write_steps :
    (opts : SessionOptions) (total i : ℕ) (cs : List Bytes)
    → phases (write_steps opts total i cs) ≡ replicate (length cs) Phase.write
unfolding write_steps write_step
phases-write_steps opts total i [] = refl
phases-write_steps opts total i (c ∷ cs) =
    ap (◌∷◌ Phase.write) (phases-write_steps opts total (suc i) cs)

-- The phases of a flash session of `blocks` erase blocks: probe and commit of the baud rate, four
-- link tests, one erase, two writes for each erase block, the options if they are wanted, and the
-- release of the chip last.
abbrev pub flash_phases : ℕ → Bool → List Phase
flash_phases blocks write_options =
    Phase.baud_probe
    ∷ Phase.baud_commit
    ∷ Phase.link_test
    ∷ Phase.link_test
    ∷ Phase.link_test
    ∷ Phase.link_test
    ∷ Phase.erase
    ∷ ((replicate (blocks * 2) Phase.write ++ (if write_options then Phase.options ∷ [] else []))
        ++ Phase.run ∷ [])

phases-options :
    (info : TargetInfo) (opts : SessionOptions) (b : Bool)
    → phases (if b then options_step info opts ∷ [] else [])
      ≡ (if b then Phase.options ∷ [] else [])
unfolding options_step
phases-options info opts true = refl
phases-options info opts false = refl

phases-work_steps :
    (info : TargetInfo) (image : Bytes) (b : Bool) (opts : SessionOptions) (reload blocks : ℕ)
    → length image ≤ blocks * 256
    → phases (work_steps info (flash image b) opts reload blocks) ≡ flash_phases blocks b
unfolding probe_step commit_step link_test_steps link_test_step erase_step flash_steps run_step
phases-work_steps info image b opts reload blocks fits =
    let whole : length (padded_image image blocks) ≡ blocks * 2 * 128 =
      omega (arith, length-padded_image image blocks fits) in
    let count =
      (chunks-HasLength 128 (blocks * 2) (padded_image image blocks) (omega arith) whole).1 in
    simp (map-append, phases-write_steps, phases-options, count)

-- The steps of a planned flash session come in this order and number; in particular the erase
-- stands before every write, and nothing follows the release of the chip.
pub plan-flash-phases :
    (info : TargetInfo) (image : Bytes) (write_options : Bool) (opts : SessionOptions)
    {steps : List Step}
    → plan info (flash image write_options) opts ≡ ok steps
    → phases steps ≡ flash_phases (erase_blocks_for (length image)) write_options
unfolding plan
plan-flash-phases info image write_options opts e =
    let p = plan_work-IsPlan info (flash image write_options) opts e in
    let count = ((job_blocks_flash info image write_options p.blocks).0 p.counted).2 in
    let fits : length image ≤ p.blocks * 256 =
      omega (arith, count, erase_blocks_for_bounds (length image)) in
    ap phases p.is
    ∙ phases-work_steps info image write_options opts p.reload p.blocks fits
    ∙ ap (λ (n : ℕ). flash_phases n write_options) count
