-- ===== src/Session/Shown.antt =====
-- The texts of src/session.rs: `Phase::as_str`, and `Display` of `SessionError`.
use stcbsl.Base.{◌++◌}
use stcbsl.Base.Text.{Text, codes, decimal, hex_padded}
use stcbsl.Frame.Hex.{hex}
use stcbsl.Frame.Shown.{debug_dir, debug_frame}
use stcbsl.Session.{
  Phase, sync, status, baud_probe, baud_commit, link_test, erase, write, options, run, SessionError,
  not_awaiting, wrong_command, wrong_direction, not_an_echo, wrong_payload, wrong_payload_len,
  block_ack_mismatch,
}

unfoldable pub phase_text : Phase → Text
phase_text sync = codes "sync"
phase_text status = codes "status"
phase_text baud_probe = codes "baud_probe"
phase_text baud_commit = codes "baud_commit"
phase_text link_test = codes "link_test"
phase_text erase = codes "erase"
phase_text write = codes "write"
phase_text options = codes "options"
phase_text run = codes "run"

unfoldable pub session_error_text : SessionError → Text
unfolding hex hex_padded decimal debug_frame
session_error_text not_awaiting = codes "a reply arrived when none was expected"
session_error_text (wrong_command step want got) =
    step
    ++ (codes ": expected reply command 0x"
        ++ (hex_padded 2 want ++ (codes ", got 0x" ++ hex_padded 2 got)))
session_error_text (wrong_direction step got) =
    step ++ (codes ": reply carries direction " ++ debug_dir got)
session_error_text (not_an_echo step got) =
    step ++ (codes ": reply is not an echo of the request (" ++ (debug_frame got ++ codes ")"))
session_error_text (wrong_payload step want got) =
    step
    ++ (codes ": expected payload [" ++ (hex want ++ (codes "], got [" ++ (hex got ++ codes "]"))))
session_error_text (wrong_payload_len step want got) =
    step ++ (codes ": expected " ++ (decimal want ++ (codes " payload bytes, got " ++ decimal got)))
session_error_text (block_ack_mismatch addr want got) =
    codes "block at 0x"
    ++ (hex_padded 4 addr
        ++ (codes ": MCU checksummed 0x"
            ++ (hex_padded 2 got
                ++ (codes ", we sent 0x"
                    ++ (hex_padded 2 want
                        ++ codes
                            " — flash is now in an INDETERMINATE state; power-cycle and reflash")))))
