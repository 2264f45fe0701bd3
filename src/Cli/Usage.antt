-- ===== src/Cli/Usage.antt =====
-- The help text of src/bin/stcbsl.rs, `USAGE`.
use stcbsl.Base.{[], ◌∷◌, List, ◌++◌}
use stcbsl.Base.Text.{Text, codes}

abbrev pub unlines : List Text → Text
unlines [] = []
unlines (l ∷ ls) = l ++ 0x0A ∷ unlines ls

-- Its lines.
abbrev pub usage_lines : List Text
usage_lines =
    codes "stcbsl — clean-room STC serial bootloader flasher (STC89 family)"
    ∷ []
    ∷ codes "USAGE:"
    ∷ codes "  stcbsl [OPTIONS] <COMMAND>"
    ∷ []
    ∷ codes "COMMANDS:"
    ∷ codes "  identify                  handshake, report what the chip says, let it run"
    ∷ codes "  erase [--blocks N]        erase code flash (whole chip unless --blocks)"
    ∷ codes "  write <FILE.hex>          erase what the image needs, program it, let it run"
    ∷ codes "  flash <FILE.hex>          alias for `write`"
    ∷ codes "  explain <FILE.hex>        offline: show the block plan for an image; no port"
    ∷ codes "  ports                     list serial ports on this machine"
    ∷ []
    ∷ codes "OPTIONS:"
    ∷ codes "  -p, --port <DEV>          serial device, e.g. /dev/cu.usbserial-1110"
    ∷ codes "      --baud <N>            transfer baud                 [default 115200]"
    ∷ codes "      --handshake-baud <N>  handshake baud                [default 2400]"
    ∷ codes "      --parity <none|even>  wire parity                   [default none]"
    ∷ codes "      --wait <SECONDS>      how long to pulse for the BSL [default 30]"
    ∷ codes "      --drain-mode <M>      at each 8F/8E baud switch: tcdrain (tcdrain(2)"
    ∷ codes "                            the wire) | wire (flush only)  [default tcdrain]"
    ∷ codes "      --drain-margin <MS>   settle ms after the drain, before switching baud"
    ∷ codes "                            (matches stcgal's sleep(0.1)) [default 100]"
    ∷ codes "      --blocks <N>          erase block count (256 B each), `erase` only"
    ∷ codes "      --keep-options        write the option byte back (default for `write`)"
    ∷ codes "      --skip-options        do not send the option frame at all"
    ∷ codes "  -q, --quiet               only print the outcome"
    ∷ codes "  -h, --help                this text"
    ∷ []
    ∷ codes "THE ONE THING TO KNOW:"
    ∷ codes "  The bootloader runs only after a COLD power-on and listens for a few"
    ∷ codes "  hundred milliseconds. So: switch the board OFF, start this command, then"
    ∷ codes "  switch it ON. A reset button does not work; DTR autoreset does not work on"
    ∷ codes "  these boards, and this tool deliberately does not pretend otherwise."
    ∷ []
    ∷ codes "  Every retry is a power cycle."
    ∷ []

unfoldable pub help_text : Text
help_text = unlines usage_lines
