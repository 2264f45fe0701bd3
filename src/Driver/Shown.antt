-- ===== src/Driver/Shown.antt =====
-- The texts of src/driver.rs: `Display` of `Error`, over that of the errors of input and output.
use stcbsl.Base.{◌∷◌, ◌++◌}
use stcbsl.Base.Text.{Text, codes, decimal}
use stcbsl.Frame.Shown.{frame_error_text}
use stcbsl.Session.Shown.{session_error_text}
use stcbsl.Protocol.Shown.{protocol_error_text}
use stcbsl.Driver.{Error, io, protocol, session, frame, timeout, no_bootloader, indeterminate_flash}

-- What the text of an `IndeterminateFlash` adds to that of its cause.
abbrev pub warning : Text
warning =
    0x0A
    ∷ codes
        "  flash is in an INDETERMINATE state — part of the image was programmed. There is no read-back on this part, so the only safe move is to power-cycle and flash again."

module _ {E : Type 0} (io_text : E → Text) where
  unfoldable pub error_text : Error E → Text
  unfolding protocol_error_text session_error_text frame_error_text decimal
  error_text (io e) = codes "I/O: " ++ io_text e
  error_text (protocol e) = protocol_error_text e
  error_text (session e) = session_error_text e
  error_text (frame e) = frame_error_text e
  error_text (timeout label ms) =
      label ++ (codes ": no reply within " ++ (decimal ms ++ codes " ms"))
  error_text (no_bootloader waited_ms noise_bytes) =
      codes "no bootloader after "
      ++ (decimal waited_ms
          ++ (codes " ms ("
              ++ (decimal noise_bytes
                  ++ codes
                      " bytes of non-protocol noise seen). The BSL only runs after a COLD power-on and only listens for a few hundred milliseconds: switch the board off, start this command, then switch it on. A reset button will not do it.")))
  error_text (indeterminate_flash inner) = error_text inner ++ warning
