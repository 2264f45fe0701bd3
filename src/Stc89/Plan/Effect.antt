-- ===== src/Stc89/Plan/Effect.antt =====
-- What a planned flash session (src/protocol/stc89.rs) leaves in the code flash.
use Prim.Native.Nat.{bit_and}
use stcbsl.Base.{
  ℕ, zero, suc, ◌+◌, ◌-◌, ◌*◌, ◌/◌, ◌≤◌, ◌<◌, ◌≡◌, refl, ap, ◌∙◌, Bool, true, false, List, [], ◌∷◌,
  ◌++◌, length, replicate, arith, ltb, ◌&&◌, ◌==◌, if◌then◌else◌, ok, get_or, All, All-get_or,
  take_all, length-append, length-replicate, get_or-append_left, get_or-append_right,
  get_or-replicate, dec_lt,
}
use stcbsl.Base.Bytes.{Bytes, u8, IsByte}
use stcbsl.Session.{Step}
use stcbsl.Protocol.{flash, SessionOptions, TargetInfo}
use stcbsl.Stc89.{
  probe_step, commit_step, link_test_step, link_test_steps, erase_step, write_steps, options_step,
  flash_steps, run_step, plan, padded_image, chunks,
}
use stcbsl.Stc89.Frames.{erase_blocks_for, link_test_repeats, write_block}
use stcbsl.Stc89.Blocks.{erase_blocks_for_bounds, concat-chunks, chunks-HasLength}
use stcbsl.Stc89.Image.{
  Flash, erased, overwrite, perform, perform_all, perform_all-append, perform_all-write_steps,
}
use stcbsl.Stc89.Plan.{plan_work-IsPlan, job_blocks_flash}

module _ (info : TargetInfo) (opts : SessionOptions) where
  perform_all-link_test_steps :
      (n i : ℕ) (m : Flash) → perform_all (link_test_steps info opts n i) m ≡ m
  unfolding perform_all link_test_steps perform link_test_step
  perform_all-link_test_steps zero i m = refl
  perform_all-link_test_steps (suc n) i m = perform_all-link_test_steps n (suc i) m

  perform_all-options :
      (b : Bool) (m : Flash) → perform_all (if b then options_step info opts ∷ [] else []) m ≡ m
  unfolding perform_all perform options_step
  perform_all-options true m = refl
  perform_all-options false m = refl

  perform-erase_step :
      (blocks : ℕ) (m : Flash)
      → blocks ≤ 255
      → perform (erase_step blocks opts).frame m ≡ erased (blocks * 256) m
  unfolding perform erase_step
  perform-erase_step blocks m h =
      let e : u8 blocks ≡ blocks = omega arith in ap (λ (n : ℕ). erased (n * 256) m) e

  perform_all-negotiation :
      (reload : ℕ) (rest : List Step) (m : Flash)
      → perform_all
          (probe_step reload opts
            ∷ commit_step reload opts
            ∷ (link_test_steps info opts link_test_repeats 0 ++ rest))
          m
        ≡ perform_all rest m
  unfolding perform_all perform probe_step commit_step
  perform_all-negotiation reload rest m =
      perform_all-append (link_test_steps info opts link_test_repeats 0) rest m
      ∙ ap (perform_all rest) (perform_all-link_test_steps link_test_repeats 0 m)

-- The image, and 0xFF behind it.
padded_at : Bytes → ℕ → ℕ
padded_at image a = if ltb a (length image) then get_or image a 0 else 0xFF

get_or-padded_image :
    (image : Bytes) (blocks a : ℕ)
    → length image ≤ blocks * 256
    → a < blocks * 256
    → get_or (padded_image image blocks) a 0 ≡ padded_at image a
unfolding padded_at
get_or-padded_image image blocks a fits h = elim (dec_lt a (length image)) [
  | yes p ↦
      rw (take_all (blocks * 256) image fits) (
        ground (arith, get_or-append_left image (replicate (blocks * 256 - length image) 0xFF) a 0))
  | no p ↦
      let e : a ≡ length image + (a - length image) = omega arith in
      rw (take_all (blocks * 256) image fits) (
        ground (
          arith,
          rw (← e) at (
              get_or-append_right image (replicate (blocks * 256 - length image) 0xFF)
                (a - length image) 0),
          get_or-replicate {A = ℕ} (blocks * 256 - length image) (a - length image) 0xFF 0,
        ))
]

pub length-padded_image :
    (image : Bytes) (blocks : ℕ)
    → length image ≤ blocks * 256
    → length (padded_image image blocks) ≡ blocks * 256
length-padded_image image blocks h = rw (take_all (blocks * 256) image h) (
    omega (
      arith,
      length-append image (replicate (blocks * 256 - length image) 0xFF),
      length-replicate {A = ℕ} (blocks * 256 - length image) 0xFF,
    ))

-- An erased cell takes any byte.
takes_byte : ℕ → Bool
takes_byte zero = true
takes_byte (suc b) = (bit_and 0xFF b == b) && takes_byte b

takes_byte_all : (n b : ℕ) → takes_byte n ≡ true → b < n → bit_and 0xFF b ≡ b
unfolding takes_byte
takes_byte_all zero b e h = absurd (omega arith)
takes_byte_all (suc n) b e h = ground (arith, takes_byte_all n b)

erased_takes : (b : ℕ) → IsByte b → bit_and 0xFF b ≡ b
unfolding takes_byte
erased_takes b h = takes_byte_all 256 b refl h

padded_at-IsByte : (image : Bytes) (a : ℕ) → All IsByte image → IsByte (padded_at image a)
unfolding padded_at
padded_at-IsByte image a h = elim (dec_lt a (length image)) [
  | yes p ↦ ground (arith, All-get_or IsByte image a 0 h p)
  | no p ↦ ground arith
]

-- The flash after the write frames, on erased blocks.
written :
    (image : Bytes) (blocks : ℕ) (m : Flash) (a : ℕ)
    → All IsByte image
    → length image ≤ blocks * 256
    → overwrite 0 (padded_image image blocks) (erased (blocks * 256) m) a
      ≡ (if ltb a (blocks * 256) then padded_at image a else m a)
written image blocks m a hb fits = elim (dec_lt a (blocks * 256)) [
  | yes p ↦ ground (
    arith,
    length-padded_image image blocks fits,
    get_or-padded_image image blocks a fits p,
    erased_takes (padded_at image a) (padded_at-IsByte image a hb),
  )
  | no p ↦ ground (arith, length-padded_image image blocks fits)
]

module _ (info : TargetInfo) (opts : SessionOptions) (image : Bytes) (b : Bool) where
  writes : ℕ → List Step
  writes blocks =
      write_steps opts (blocks * 256 / 128) 0 (chunks write_block (padded_image image blocks))

  -- Only the write frames matter to the flash.
  perform_all-writes :
      (blocks : ℕ) (m : Flash)
      → perform_all (flash_steps info (flash image b) opts blocks ++ run_step opts ∷ []) m
        ≡ perform_all (writes blocks) m
  unfolding flash_steps writes
  perform_all-writes blocks m =
      let tail = if b then options_step info opts ∷ [] else [] in
      perform_all-append (writes blocks ++ tail) (run_step opts ∷ []) m
      ∙ perform_all-run (perform_all (writes blocks ++ tail) m)
      ∙ perform_all-append (writes blocks) tail m
      ∙ perform_all-options info opts b (perform_all (writes blocks) m)
    where
      perform_all-run : (x : Flash) → perform_all (run_step opts ∷ []) x ≡ x
      perform_all-run x = unfold perform_all perform run_step in refl

  perform_all-flash_steps :
      (blocks : ℕ) (m : Flash) (a : ℕ)
      → blocks ≤ 255
      → length image ≤ blocks * 256
      → perform_all (flash_steps info (flash image b) opts blocks ++ run_step opts ∷ []) m a
        ≡ overwrite 0 (padded_image image blocks) m a
  unfolding writes
  perform_all-flash_steps blocks m a small fits =
      let whole : length (padded_image image blocks) ≡ blocks * 2 * 128 =
        omega (arith, length-padded_image image blocks fits) in
      let (same, count) =
        chunks-HasLength 128 (blocks * 2) (padded_image image blocks) (omega arith) whole in
      ap (λ (x : Flash). x a) (perform_all-writes blocks m)
      ∙ perform_all-write_steps opts (blocks * 256 / 128) 0 (chunks 128 (padded_image image blocks))
          m a same (omega (arith, count))
      ∙ rw (concat-chunks 128 (padded_image image blocks) (omega arith)) refl

  after_erase :
      (blocks : ℕ) (m : Flash) (a : ℕ)
      → blocks ≤ 255
      → length image ≤ blocks * 256
      → perform_all
          (erase_step blocks opts
            ∷ (flash_steps info (flash image b) opts blocks ++ run_step opts ∷ []))
          m
          a
        ≡ overwrite 0 (padded_image image blocks) (erased (blocks * 256) m) a
  unfolding perform_all
  after_erase blocks m a small fits =
      ap
        (λ (x : Flash).
          perform_all (flash_steps info (flash image b) opts blocks ++ run_step opts ∷ []) x a)
        (perform-erase_step info opts blocks m small)
      ∙ (perform_all-flash_steps blocks (erased (blocks * 256) m) a small fits)

regions :
    (image : Bytes) (blocks : ℕ) (m : Flash) (a : ℕ)
    → length image ≤ blocks * 256
    → (if ltb a (blocks * 256) then padded_at image a else m a) ≡ (
        if ltb a (length image)
        then get_or image a 0
        else if ltb a (blocks * 256)
        then 0xFF
        else m a)
unfolding padded_at
regions image blocks m a fits = ground arith

-- After the frames of a planned flash session the code flash holds the image from address 0, 0xFF
-- from its end to the end of the erased blocks, and beyond them what it held before. The image is
-- made of bytes, and each frame does to the flash what `perform` says.
pub plan-flash-effect :
    (info : TargetInfo) (image : Bytes) (write_options : Bool) (opts : SessionOptions)
    {steps : List Step} (m : Flash) (a : ℕ)
    → All IsByte image
    → plan info (flash image write_options) opts ≡ ok steps
    → perform_all steps m a ≡ (
        if ltb a (length image)
        then get_or image a 0
        else if ltb a (erase_blocks_for (length image) * 256)
        then 0xFF
        else m a)
unfolding plan
plan-flash-effect info image write_options opts {steps} m a hb e =
    let p = plan_work-IsPlan info (flash image write_options) opts e in
    let (some_bytes, cap, count) =
      (job_blocks_flash info image write_options p.blocks).0 p.counted in
    let fits : length image ≤ p.blocks * 256 =
      omega (arith, count, erase_blocks_for_bounds (length image)) in
    let small = p.one_byte in
    ap (λ (ss : List Step). perform_all ss m a) p.is
    ∙ ap (λ (x : Flash). x a)
        (perform_all-negotiation info opts p.reload
          (erase_step p.blocks opts
            ∷ (flash_steps info (flash image write_options) opts p.blocks ++ run_step opts ∷ []))
          m)
    ∙ after_erase info opts image write_options p.blocks m a p.one_byte fits
    ∙ written image p.blocks m a hb fits
    ∙ rw (← count) (regions image p.blocks m a fits)
