-- ===== src/Protocol/Shown.antt =====
-- The texts of src/protocol/mod.rs: `Display` of `ProtocolError`.
use stcbsl.Base.{◌++◌}
use stcbsl.Base.Text.{Text, codes, decimal, hex_padded}
use stcbsl.Base.Debug.{debug_list, decimal_int}
use stcbsl.Frame.Hex.{hex}
use stcbsl.Protocol.{
  ProtocolError, not_a_status_frame, short_status, inconsistent_frequency, implausible_frequency,
  unreachable_baud, image_too_large, empty_image, unknown_chip_size, erase_too_large,
}

unfoldable pub protocol_error_text : ProtocolError → Text
unfolding hex hex_padded decimal debug_list decimal_int
protocol_error_text (not_a_status_frame cmd) =
    codes "expected the status packet, got command 0x" ++ hex_padded 2 cmd
protocol_error_text (short_status got want) =
    codes "status payload is " ++ (decimal got ++ (codes " bytes, expected " ++ decimal want))
protocol_error_text (inconsistent_frequency words) =
    codes "the eight frequency words disagree ("
    ++ (debug_list words ++ codes ") — the handshake measurement is unreliable")
protocol_error_text (implausible_frequency hz) =
    codes "measured frequency " ++ (decimal hz ++ codes " Hz is out of range for this part")
protocol_error_text (unreachable_baud baud reload) =
    codes "transfer baud "
    ++ (decimal baud
        ++ (codes " needs timer reload "
            ++ (decimal_int reload ++ codes ", which is not an 8-bit value")))
protocol_error_text (image_too_large image capacity) =
    codes "image is "
    ++ (decimal image
        ++ (codes " bytes; this part has " ++ (decimal capacity ++ codes " bytes of code flash")))
protocol_error_text empty_image = codes "image contains no data"
protocol_error_text (unknown_chip_size chip_id) =
    codes "chip id "
    ++ (hex chip_id
        ++ codes
            " is not in our (single-capture) table, so the flash size is unknown — pass an explicit block count")
protocol_error_text (erase_too_large blocks) =
    codes "erase block count " ++ (decimal blocks ++ codes " does not fit in one byte")
