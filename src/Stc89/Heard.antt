-- ===== src/Stc89/Heard.antt =====
-- What the byte strings that src/driver.rs writes in a session planned by src/protocol/stc89.rs
-- leave in the code flash of a chip that reads frames as `Frame::decode` does.
use stcbsl.Base.{
  ℕ, zero, suc, ◌≡◌, refl, ap, ◌∙◌, List, [], ◌∷◌, ◌++◌, map, Result, ok, err, All, replicate,
  length, get_or, ltb, ◌*◌, if◌then◌else◌, Bool,
}
use stcbsl.Base.Bytes.{Bytes, IsByte}
use stcbsl.Frame.{Dir, host_to_mcu, mcu_to_host, Frame, FrameError, encode, decode}
use stcbsl.Frame.RoundTrip.{decode-encode}
use stcbsl.Session.{Step}
use stcbsl.Protocol.{Job, flash, SessionOptions, TargetInfo}
use stcbsl.Stc89.{
  probe_step, commit_step, link_test_step, erase_step, write_step, options_step, run_step, plan,
}
use stcbsl.Stc89.Frames.{erase_blocks_for, write_block}
use stcbsl.Stc89.Blocks.{IsShort}
use stcbsl.Stc89.Image.{Flash, perform, perform_all}
use stcbsl.Stc89.Plan.Effect.{plan-flash-effect}
use stcbsl.Stc89.Plan.Order.{Steps, ChunksAre-IsShort, All-plan}

abbrev pub obey : Dir → Frame → Flash → Flash
obey host_to_mcu f m = perform f m
obey mcu_to_host f m = m

-- A string that does not decode, or that decodes to a frame from a chip, does nothing.
abbrev pub hear_frame : Result FrameError Frame → Flash → Flash
hear_frame (ok f) m = obey f.dir f m
hear_frame (err e) m = m

unfoldable pub hear : Bytes → Flash → Flash
unfolding perform decode
hear bs m = hear_frame (decode bs) m

unfoldable pub hear_all : List Bytes → Flash → Flash
unfolding hear
hear_all [] m = m
hear_all (bs ∷ rest) m = hear_all rest (hear bs m)

abbrev FromHost : Step → Type 0
FromHost step = step.frame.dir ≡ host_to_mcu

-- Every frame of a plan is one from the host.
plan-FromHost :
    (info : TargetInfo) (job : Job) (opts : SessionOptions) {steps : List Step}
    → plan info job opts ≡ ok steps
    → All FromHost steps
unfolding probe_step commit_step link_test_step erase_step write_step options_step run_step
plan-FromHost info job opts planned =
    All-plan FromHost (IsShort write_block) info opts each job (ChunksAre-IsShort job) planned
  where
    each : Steps FromHost (IsShort write_block) info opts
    each = record {
      probe = λ reload. refl;
      commit = λ reload. refl;
      link_test = λ i. refl;
      erases = λ blocks. refl;
      writes = λ total i chunk h. refl;
      options = refl;
      runs = refl;
    }

hear-encode : (f : Frame) (m : Flash) → f.dir ≡ host_to_mcu → hear (encode f) m ≡ perform f m
unfolding hear
hear-encode f m e = rw (decode-encode f, e) refl

pub hear_all-pulses :
    (n : ℕ) (rest : List Bytes) (m : Flash)
    → hear_all (replicate n (0x7F ∷ []) ++ rest) m ≡ hear_all rest m
unfolding hear_all hear decode
hear_all-pulses zero rest m = refl
hear_all-pulses (suc n) rest m = hear_all-pulses n rest m

hear_all-encode :
    (steps : List Step) (m : Flash)
    → All FromHost steps
    → hear_all (map (λ (step : Step). encode step.frame) steps) m ≡ perform_all steps m
unfolding hear_all perform_all
hear_all-encode [] m h = refl
hear_all-encode (s ∷ ss) m (h, hs) =
    ap (hear_all (map (λ (step : Step). encode step.frame) ss)) (hear-encode s.frame m h)
    ∙ hear_all-encode ss (perform s.frame m) hs

-- What is heard of a planned flash session, in the flash.
pub hear_all-flash :
    (info : TargetInfo) (image : Bytes) (write_options : Bool) (opts : SessionOptions)
    {steps : List Step} (m : Flash) (a : ℕ)
    → All IsByte image
    → plan info (flash image write_options) opts ≡ ok steps
    → hear_all (map (λ (step : Step). encode step.frame) steps) m a ≡ (
        if ltb a (length image)
        then get_or image a 0
        else if ltb a (erase_blocks_for (length image) * 256)
        then 0xFF
        else m a)
hear_all-flash info image write_options opts {steps} m a h planned =
    ap (λ (x : Flash). x a)
      (hear_all-encode steps m (plan-FromHost info (flash image write_options) opts planned))
    ∙ plan-flash-effect info image write_options opts m a h planned
