-- ===== src/Stc89.antt =====
-- src/protocol/stc89.rs: the steps of an STC89 session and `Stc89::plan`. `u64` and `u8` arithmetic
-- is written with its wrap-around.
pub mod Frames
pub mod Status
pub mod Timing
pub mod Blocks
pub mod Image
pub mod Plan
pub mod Heard
pub mod ReadBack
use stcbsl.Base.{
  ℕ, zero, suc, ◌+◌, ◌*◌, ◌/◌, ◌||◌, Option, none, some, List, [], ◌∷◌, ◌++◌, Result, ok, err,
  ◌>>=◌, ◌>>◌, length, take, drop, resize, ltb, ◌==◌, if◌then◌else◌,
}
use stcbsl.Base.Bytes.{Bytes, u8, u32}
use stcbsl.Base.Text.{codes, decimal, hex_padded}
use stcbsl.Frame.{Frame}
use stcbsl.Protocol.{
  Job, identify, erase, flash, SessionOptions, TargetInfo, ProtocolError, image_too_large,
  empty_image, unknown_chip_size, erase_too_large,
}
use stcbsl.Session.{Step, Phase, Expect, reply_ack}
use stcbsl.Stc89.Frames.{
  baud_commit_frame, baud_probe_frame, block_ack, erase_block, erase_blocks_for, erase_frame,
  erase_reply_len, link_test_frame, link_test_repeats, options_frame, run_frame, timer_reload,
  write_block, write_frame,
}

-- The fields of most steps: no change of the baud rate, no address, the reply timeout.
abbrev pub plain_step : Phase → Frame → Expect → SessionOptions → Step
plain_step phase frame expect opts = record {
  phase = phase;
  label = [];
  frame = frame;
  expect = expect;
  timeout_ms = opts.reply_timeout_ms;
  retune_before_send = none;
  retune_after_send = none;
  write_addr = none;
}

unfoldable pub run_step : SessionOptions → Step
unfolding run_frame
run_step opts = record (plain_step Phase.run run_frame Expect.nothing opts) {
  label = codes "run application";
}

unfoldable pub probe_step : ℕ → SessionOptions → Step
unfolding baud_probe_frame
probe_step reload opts =
    record (plain_step Phase.baud_probe (baud_probe_frame reload) Expect.echo opts) {
      label = codes "baud probe -> " ++ (decimal opts.transfer_baud ++ codes " baud");
      retune_after_send = some opts.transfer_baud;
    }

unfoldable pub commit_step : ℕ → SessionOptions → Step
unfolding baud_commit_frame
commit_step reload opts =
    record (plain_step Phase.baud_commit (baud_commit_frame reload) Expect.echo opts) {
      label = codes "baud commit -> " ++ (decimal opts.transfer_baud ++ codes " baud");
      retune_before_send = some opts.handshake_baud;
      retune_after_send = some opts.transfer_baud;
    }

unfoldable pub link_test_step : TargetInfo → SessionOptions → ℕ → Step
unfolding link_test_frame
link_test_step info opts i =
    record (plain_step Phase.link_test (link_test_frame info.chip_id) (Expect.ack reply_ack [])
      opts) {
        label = codes "link test " ++ (decimal (i + 1) ++ (codes "/" ++ decimal link_test_repeats));
      }

-- The loop of `plan` over the link tests: `rounds` of them are left, from `i` on.
unfoldable pub link_test_steps : TargetInfo → SessionOptions → ℕ → ℕ → List Step
unfolding link_test_step
link_test_steps info opts zero i = []
link_test_steps info opts (suc rounds) i =
    link_test_step info opts i ∷ link_test_steps info opts rounds (suc i)

unfoldable pub erase_step : ℕ → SessionOptions → Step
unfolding erase_frame
erase_step blocks opts =
    record (plain_step Phase.erase (erase_frame (u8 blocks))
      (Expect.ack_len reply_ack erase_reply_len) opts) {
        label =
            codes "erase "
            ++ (decimal blocks
                ++ (codes " blocks (" ++ (decimal (blocks * erase_block) ++ codes " bytes)")));
        timeout_ms = opts.erase_timeout_ms;
      }

unfoldable pub write_step : SessionOptions → ℕ → ℕ → Bytes → Step
unfolding write_frame block_ack
write_step opts total_blocks i chunk =
    let addr = u32 (i * write_block) in
    record (plain_step Phase.write (write_frame addr chunk) (Expect.block_ack (block_ack chunk))
      opts) {
        label =
            codes "write block "
            ++ (decimal (i + 1)
                ++ (codes "/" ++ (decimal total_blocks ++ (codes " at 0x" ++ hex_padded 4 addr))));
        write_addr = some addr;
      }

-- `slice::chunks`: `fuel` bounds the number of chunks, which the number of bytes does.
unfoldable pub chunks_loop : ℕ → ℕ → Bytes → List Bytes
chunks_loop zero n bs = []
chunks_loop (suc fuel) n [] = []
chunks_loop (suc fuel) n (b ∷ bs) = take n (b ∷ bs) ∷ chunks_loop fuel n (drop n (b ∷ bs))

unfoldable pub chunks : ℕ → Bytes → List Bytes
unfolding chunks_loop
chunks n bs = chunks_loop (length bs) n bs

-- The loop of `plan` over the chunks, from index `i` on.
unfoldable pub write_steps : SessionOptions → ℕ → ℕ → List Bytes → List Step
unfolding write_step
write_steps opts total_blocks i [] = []
write_steps opts total_blocks i (chunk ∷ rest) =
    write_step opts total_blocks i chunk ∷ write_steps opts total_blocks (suc i) rest

unfoldable pub options_step : TargetInfo → SessionOptions → Step
unfolding options_frame
options_step info opts = record (plain_step Phase.options (options_frame info) Expect.echo opts) {
  label = codes "options (echoing the byte we read)";
}

-- The number of erase blocks, before the check that it fits a byte.
abbrev pub whole_chip : Option ℕ → Bytes → Result ProtocolError ℕ
whole_chip none chip_id = err (unknown_chip_size chip_id)
whole_chip (some cap) chip_id = ok (cap / erase_block)

abbrev pub fits_flash : ℕ → Option ℕ → Result ProtocolError (Unit {0})
fits_flash len none = ok tt
fits_flash len (some cap) = if ltb cap len then err (image_too_large len cap) else ok tt

unfoldable pub job_blocks : TargetInfo → Job → Result ProtocolError ℕ
unfolding erase_blocks_for
job_blocks info identify = ok 0
job_blocks info (erase (some n)) = ok n
job_blocks info (erase none) = whole_chip info.code_flash info.chip_id
job_blocks info (flash image write_options) =
    if length image == 0
    then err empty_image
    else do fits_flash (length image) info.code_flash; ok (erase_blocks_for (length image))

-- The image filled up with 0xFF to the end of the erased region.
abbrev pub padded_image : Bytes → ℕ → Bytes
padded_image image blocks = resize (blocks * erase_block) 0xFF image

unfoldable pub flash_steps : TargetInfo → Job → SessionOptions → ℕ → List Step
unfolding chunks write_steps options_step
flash_steps info identify opts blocks = []
flash_steps info (erase b) opts blocks = []
flash_steps info (flash image write_options) opts blocks =
    write_steps opts (blocks * erase_block / write_block) 0
      (chunks write_block (padded_image image blocks))
    ++ (if write_options then options_step info opts ∷ [] else [])

-- `Stc89::plan` for a job that is not `Identify`.
unfoldable pub plan_work : TargetInfo → Job → SessionOptions → Result ProtocolError (List Step)
plan_work info job opts = do
  reload ← timer_reload info.measured_hz opts.transfer_baud
  blocks ← job_blocks info job
  if blocks == 0 || ltb 0xFF blocks
      then err (erase_too_large blocks)
      else ok (
          probe_step reload opts
          ∷ commit_step reload opts
          ∷ (link_test_steps info opts link_test_repeats 0
              ++ erase_step blocks opts ∷ (flash_steps info job opts blocks ++ run_step opts ∷ [])))

unfoldable pub plan : TargetInfo → Job → SessionOptions → Result ProtocolError (List Step)
unfolding plan_work
plan info identify opts = ok (run_step opts ∷ [])
plan info (erase b) opts = plan_work info (erase b) opts
plan info (flash image write_options) opts = plan_work info (flash image write_options) opts
