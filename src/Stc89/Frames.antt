-- ===== src/Stc89/Frames.antt =====
-- src/protocol/stc89.rs: the constants, the arithmetic of baud rates and blocks, and the frames of
-- the STC89 family.
use mathlib.Core.List.{foldl}
use stcbsl.Base.{
  ℕ, ◌+◌, ◌-◌, ◌*◌, ◌/◌, ◌%◌, Bool, false, ◌&&◌, [], ◌∷◌, ◌++◌, Result, ok, err, length, replicate,
  leb, ◌==◌, if◌then◌else◌,
}
use stcbsl.Base.Bytes.{Bytes, u8, u16, u64, u16_to_be, u32_to_be, wrapping_add}
use stcbsl.Base.Int.{ℤ, pos, negsuc, sub_ℕ}
use stcbsl.Frame.{Frame, host}
use stcbsl.Protocol.{TargetInfo, ProtocolError, unreachable_baud}

abbrev pub cmd_status : ℕ
cmd_status = 0x00

abbrev pub cmd_write : ℕ
cmd_write = 0x00

abbrev pub cmd_baud_probe : ℕ
cmd_baud_probe = 0x8F

abbrev pub cmd_baud_commit : ℕ
cmd_baud_commit = 0x8E

abbrev pub cmd_link_test : ℕ
cmd_link_test = 0x80

abbrev pub cmd_erase : ℕ
cmd_erase = 0x84

abbrev pub cmd_options : ℕ
cmd_options = 0x8D

abbrev pub cmd_run : ℕ
cmd_run = 0x82

abbrev pub baud_consts : Bytes
baud_consts = 0x00 ∷ 0x06 ∷ 0xA0 ∷ []

abbrev pub baud_probe_tail : ℕ
baud_probe_tail = 0x81

abbrev pub link_test_prefix : Bytes
link_test_prefix = 0x00 ∷ 0x00 ∷ 0x36 ∷ 0x01 ∷ []

abbrev pub link_test_repeats : ℕ
link_test_repeats = 4

abbrev pub erase_fill : Bytes
erase_fill = replicate 6 0x33

abbrev pub erase_reply_len : ℕ
erase_reply_len = 7

abbrev pub erase_block : ℕ
erase_block = 256

abbrev pub erase_granule : ℕ
erase_granule = 512

abbrev pub write_block : ℕ
write_block = 128

abbrev pub options_tail : Bytes
options_tail = replicate 3 0xFF

unfoldable pub frequency_hz : ℕ → ℕ → ℕ
frequency_hz word handshake_baud = u64 (u64 (word * handshake_baud) * 12) / 7

-- `(1..=255).contains(&reload)`.
abbrev pub in_reload_range : ℤ → Bool
in_reload_range (pos n) = leb 1 n && leb n 255
in_reload_range (negsuc n) = false

-- `reload as u8`, of a reload that is not negative.
abbrev pub reload_byte : ℤ → ℕ
reload_byte (pos n) = u8 n
reload_byte (negsuc n) = 0

unfoldable pub timer_reload : ℕ → ℕ → Result ProtocolError ℕ
timer_reload f_osc transfer_baud =
    let denom = transfer_baud * 32 in
    let ticks = u64 (f_osc + denom / 2) / denom in
    let reload = sub_ℕ 256 ticks in
    if denom == 0
    then err (unreachable_baud transfer_baud (pos 0))
    else if in_reload_range reload
    then ok (reload_byte reload)
    else err (unreachable_baud transfer_baud reload)

-- `reload` is a byte, so that neither difference is negative.
unfoldable pub reload_field : ℕ → Bytes
reload_field reload = u16_to_be (u16 (0x1_0000 - (256 - reload)))

-- `usize::div_ceil`.
abbrev pub div_ceil : ℕ → ℕ → ℕ
div_ceil n d = if n % d == 0 then n / d else n / d + 1

unfoldable pub erase_blocks_for : ℕ → ℕ
erase_blocks_for image_len = 2 * div_ceil image_len erase_granule

unfoldable pub baud_probe_frame : ℕ → Frame
unfolding reload_field
baud_probe_frame reload =
    host cmd_baud_probe (reload_field reload ++ baud_consts ++ baud_probe_tail ∷ [])

unfoldable pub baud_commit_frame : ℕ → Frame
unfolding reload_field
baud_commit_frame reload = host cmd_baud_commit (reload_field reload ++ baud_consts)

unfoldable pub link_test_frame : Bytes → Frame
link_test_frame chip_id = host cmd_link_test (link_test_prefix ++ chip_id)

unfoldable pub erase_frame : ℕ → Frame
erase_frame blocks = host cmd_erase (blocks ∷ erase_fill)

unfoldable pub write_frame : ℕ → Bytes → Frame
write_frame addr bytes =
    host cmd_write (u32_to_be addr ++ (u16_to_be (u16 (length bytes)) ++ bytes))

unfoldable pub block_ack : Bytes → ℕ
block_ack bytes = foldl wrapping_add 0 bytes

unfoldable pub options_frame : TargetInfo → Frame
options_frame info = host cmd_options (info.option_bytes ++ options_tail)

unfoldable pub run_frame : Frame
run_frame = host cmd_run []
