-- ===== src/Stc89/Plan.antt =====
-- `Stc89::plan` of src/protocol/stc89.rs: when it succeeds, and what the planned session does.
pub mod Effect
pub mod Order
pub mod Typed
use stcbsl.Base.{
  ℕ, zero, suc, ◌≤◌, ◌<◌, ◌≡◌, ◌↔◌, refl, sym, ap, Bool, false, Option, none, some, List, [], ◌∷◌,
  ◌++◌, length, arith, ltb, ◌||◌, ◌==◌, if◌then◌else◌, ok, err, bind-eq-ok, ◌>>=◌, ◌>>◌,
}
use stcbsl.Base.Bytes.{Bytes}
use stcbsl.Session.{Step}
use stcbsl.Protocol.{Job, flash, SessionOptions, TargetInfo, erase_too_large}
use stcbsl.Stc89.{
  job_blocks, fits_flash, probe_step, commit_step, link_test_steps, erase_step, flash_steps,
  run_step, plan_work, plan,
}
use stcbsl.Stc89.Frames.{timer_reload, erase_blocks_for, link_test_repeats}
use stcbsl.Stc89.Blocks.{erase_blocks_for_bounds}

-- The steps of a session that does some work, as a list.
abbrev pub work_steps : TargetInfo → Job → SessionOptions → ℕ → ℕ → List Step
work_steps info job opts reload blocks =
    probe_step reload opts
    ∷ commit_step reload opts
    ∷ (link_test_steps info opts link_test_repeats 0
        ++ erase_step blocks opts ∷ (flash_steps info job opts blocks ++ run_step opts ∷ []))

-- What a successful plan has found out on the way.
pub record IsPlan (info : TargetInfo) (job : Job) (opts : SessionOptions) (steps : List Step)
    : Type 0 where
  pub reload : ℕ
  pub blocks : ℕ
  pub reached : timer_reload info.measured_hz opts.transfer_baud ≡ ok reload
  pub counted : job_blocks info job ≡ ok blocks
  pub some_blocks : 0 < blocks
  pub one_byte : blocks ≤ 255
  pub is : steps ≡ work_steps info job opts reload blocks

checked_blocks :
    (blocks : ℕ) (planned : List Step) {steps : List Step}
    → (if blocks == 0 || ltb 0xFF blocks then err (erase_too_large blocks) else ok planned)
      ≡ ok steps
    → (0 < blocks) × (blocks ≤ 255) × (steps ≡ planned)
checked_blocks blocks planned e = ground arith

module _ (info : TargetInfo) (job : Job) (opts : SessionOptions) where
  pub plan_work-IsPlan :
      {steps : List Step} → plan_work info job opts ≡ ok steps → IsPlan info job opts steps
  unfolding plan_work
  plan_work-IsPlan e =
      let (reload, r, e') = bind-eq-ok (timer_reload info.measured_hz opts.transfer_baud) _ e in
      let (blocks, b, e'') = bind-eq-ok (job_blocks info job) _ e' in
      let (lo, hi, same) = checked_blocks blocks (work_steps info job opts reload blocks) e'' in
      record {
        reload = reload;
        blocks = blocks;
        reached = r;
        counted = b;
        some_blocks = lo;
        one_byte = hi;
        is = same;
      }

  IsPlan-plan_work :
      {steps : List Step} → IsPlan info job opts steps → plan_work info job opts ≡ ok steps
  unfolding plan_work
  IsPlan-plan_work p =
      let fits : (p.blocks == 0 || ltb 0xFF p.blocks) ≡ false =
        let lo = p.some_blocks in let hi = p.one_byte in ground arith in
      rw (p.reached, p.counted, fits) (ap ok (sym p.is))

abbrev pub Fits : ℕ → Option ℕ → Type 0
Fits len none = Unit
Fits len (some cap) = len ≤ cap

fits_flash_iff : (len : ℕ) (cap : Option ℕ) → (fits_flash len cap ≡ ok tt) ↔ Fits len cap
fits_flash_iff len none = ((λ e. tt), (λ h. refl))
fits_flash_iff len (some cap) = ((λ e. ground arith), (λ h. ground arith))

module _ (info : TargetInfo) (image : Bytes) (write_options : Bool) where
  pub job_blocks_flash :
      (blocks : ℕ)
      → (job_blocks info (flash image write_options) ≡ ok blocks) ↔ (
          (0 < length image)
          × Fits (length image) info.code_flash
          × (blocks ≡ erase_blocks_for (length image)))
  unfolding job_blocks
  job_blocks_flash blocks = (
    (λ e. ground (arith, fits_flash_iff (length image) info.code_flash)),
    (λ h. ground (arith, fits_flash_iff (length image) info.code_flash)),
  )

  -- A flash job is planned exactly when the baud rate can be reached, the image is not empty, fits
  -- the code flash where its size is known, and has at most 65,024 bytes: more would need more
  -- erase blocks than one byte counts.
  pub plan-flash-ok_iff :
      (opts : SessionOptions)
      → ((steps : List Step) × (plan info (flash image write_options) opts ≡ ok steps)) ↔ (
          ((reload : ℕ) × (timer_reload info.measured_hz opts.transfer_baud ≡ ok reload))
          × (0 < length image)
          × Fits (length image) info.code_flash
          × (length image ≤ 65024))
  unfolding plan
  plan-flash-ok_iff opts = (forth, back)
    where
      forth :
          ((steps : List Step) × (plan info (flash image write_options) opts ≡ ok steps))
          → (((reload : ℕ) × (timer_reload info.measured_hz opts.transfer_baud ≡ ok reload))
              × (0 < length image)
              × Fits (length image) info.code_flash
              × (length image ≤ 65024))
      forth (steps, e) =
          let p = plan_work-IsPlan info (flash image write_options) opts e in
          let (some_bytes, fits, count) = (job_blocks_flash p.blocks).0 p.counted in
          let top = p.one_byte in
          (
            (p.reload, p.reached),
            some_bytes,
            fits,
            omega (arith, erase_blocks_for_bounds (length image)),
          )

      back :
          (((reload : ℕ) × (timer_reload info.measured_hz opts.transfer_baud ≡ ok reload))
            × (0 < length image)
            × Fits (length image) info.code_flash
            × (length image ≤ 65024))
          → ((steps : List Step) × (plan info (flash image write_options) opts ≡ ok steps))
      back ((reload, r), some_bytes, fits, small) = (
        work_steps info (flash image write_options) opts reload (erase_blocks_for (length image)),
        IsPlan-plan_work info (flash image write_options) opts (record {
          reload = reload;
          blocks = erase_blocks_for (length image);
          reached = r;
          counted = (job_blocks_flash (erase_blocks_for (length image))).1 (some_bytes, fits, refl);
          some_blocks = omega (arith, erase_blocks_for_bounds (length image));
          one_byte = omega (arith, erase_blocks_for_bounds (length image));
          is = refl;
        }),
      )
