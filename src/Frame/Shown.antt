-- ===== src/Frame/Shown.antt =====
-- The texts of src/frame.rs: `Debug` of `Frame` and `Dir`, and `Display` of `FrameError`.
use stcbsl.Base.{◌++◌}
use stcbsl.Base.Text.{Text, codes, decimal, hex_padded}
use stcbsl.Frame.{
  Dir, host_to_mcu, mcu_to_host, Frame, FrameError, too_short, bad_magic, bad_length,
  bad_terminator, bad_checksum, bad_dir, implausible_length,
}
use stcbsl.Frame.Hex.{hex}

abbrev pub arrow : Dir → Text
arrow host_to_mcu = codes "host->mcu"
arrow mcu_to_host = codes "mcu->host"

unfoldable pub debug_frame : Frame → Text
unfolding hex hex_padded
debug_frame f =
    codes "Frame { "
    ++ (arrow f.dir
        ++ (codes " cmd=0x"
            ++ (hex_padded 2 f.cmd ++ (codes " payload=" ++ (hex f.payload ++ codes " }")))))

-- The derived `Debug` of `Dir`.
abbrev pub debug_dir : Dir → Text
debug_dir host_to_mcu = codes "HostToMcu"
debug_dir mcu_to_host = codes "McuToHost"

unfoldable pub frame_error_text : FrameError → Text
unfolding hex_padded decimal
frame_error_text (too_short n) = codes "frame too short (" ++ (decimal n ++ codes " bytes)")
frame_error_text (bad_magic a b) =
    codes "bad magic " ++ (hex_padded 2 a ++ (codes " " ++ hex_padded 2 b))
frame_error_text (bad_length declared actual) =
    codes "bad length: declared " ++ (decimal declared ++ (codes ", actual " ++ decimal actual))
frame_error_text (bad_terminator b) =
    codes "bad terminator 0x" ++ (hex_padded 2 b ++ codes " (want 0x16)")
frame_error_text (bad_checksum computed got) =
    codes "bad checksum: computed 0x"
    ++ (hex_padded 2 computed ++ (codes ", got 0x" ++ hex_padded 2 got))
frame_error_text (bad_dir b) = codes "unknown direction byte 0x" ++ hex_padded 2 b
frame_error_text (implausible_length l) = codes "implausible LEN " ++ decimal l
