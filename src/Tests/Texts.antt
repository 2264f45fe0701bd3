-- ===== src/Tests/Texts.antt =====
-- The texts that the errors show.
use stcbsl.Base.{
  List, Bool, true, false, ◌&&◌, ◌||◌, leb, ◌==◌, if◌then◌else◌, ℕ, ◌≡◌, refl, [], ◌∷◌, ◌++◌,
}
use stcbsl.Base.Text.{is_space, Text, codes, decimal}
use stcbsl.Base.Int.{negsuc}
use stcbsl.Frame.{bad_checksum, mcu}
use stcbsl.Frame.Hex.{tokens}
use stcbsl.Cli.{Flag, unknown, begins_with_dash, flag_of}
use stcbsl.Cli.Usage.{help_text}
use stcbsl.Frame.Shown.{frame_error_text}
use stcbsl.Session.{not_an_echo, Phase}
use stcbsl.Session.Shown.{phase_text, session_error_text}
use stcbsl.Protocol.{unreachable_baud, inconsistent_frequency}
use stcbsl.Protocol.Shown.{protocol_error_text}
use stcbsl.Ihex.{bad_record, non_hex, no_start_code}
use stcbsl.Ihex.Shown.{hex_error_text}
use stcbsl.Driver.{Error, timeout, indeterminate_flash, default_drain}
use stcbsl.Driver.Shown.{error_text, warning}
use stcbsl.Driver.Warns.{run-warns}
use stcbsl.Tests.Drivers.{bench, written, bench-Traced, silent, after_silence, times_out}
use stcbsl.Tests.Sessions.{two_steps, block_sent}

checksum_text :
    frame_error_text (bad_checksum 10 255) ≡ codes "bad checksum: computed 0x0a, got 0xff"
unfolding frame_error_text
checksum_text = refl

echo_text :
    session_error_text (not_an_echo (codes "options") (mcu 0x8D (0xFC ∷ 0x01 ∷ [])))
    ≡ codes
        "options: reply is not an echo of the request (Frame { mcu->host cmd=0x8d payload=fc 01 })"
unfolding session_error_text
echo_text = refl

phase_shown : phase_text Phase.baud_probe ≡ codes "baud_probe"
unfolding phase_text
phase_shown = refl

reload_text :
    protocol_error_text (unreachable_baud 300 (negsuc 889))
    ≡ codes "transfer baud 300 needs timer reload -890, which is not an 8-bit value"
unfolding protocol_error_text
reload_text = refl

words_text :
    protocol_error_text (inconsistent_frequency (2667 ∷ 2668 ∷ []))
    ≡ codes
        "the eight frequency words disagree ([2667, 2668]) — the handshake measurement is unreliable"
unfolding protocol_error_text
words_text = refl

digit_text : hex_error_text (bad_record 3 (non_hex b'\'')) ≡ codes "line 3: non-hex character '\\''"
unfolding hex_error_text
digit_text = refl

start_text :
    hex_error_text (bad_record 1 (no_start_code (codes "a\"b\\")))
    ≡ codes "line 1: no ':' start code: \"a\\\"b\\\\\""
unfolding hex_error_text
start_text = refl

-- The error of the run in which no reply comes.
abbrev no_reply : Error ℕ
no_reply = indeterminate_flash (timeout [] 100)

run-warns_example :
    (cause : Error ℕ) × (error_text decimal no_reply ≡ error_text decimal cause ++ warning)
run-warns_example =
    run-warns bench written bench-Traced decimal two_steps 4 3 default_drain silent after_silence
      no_reply block_sent times_out refl refl

-- The letters and dashes at the beginning of a word.
abbrev flag_part : Text → Text
flag_part [] = []
flag_part (c ∷ cs) =
    let rest = flag_part cs in if c == b'-' || leb b'a' c && leb c b'z' then c ∷ rest else []

abbrev is_known : Flag → Bool
is_known unknown = false
is_known _ = true

abbrev all_known : List Text → Bool
all_known [] = true
all_known (t ∷ ts) =
    let rest = all_known ts in
    (if begins_with_dash t then is_known (flag_of (flag_part t)) else true) && rest

-- Every option that the help text names is one that is read.
help_is_true : all_known (tokens help_text) ≡ true
unfolding help_text tokens flag_of is_space
help_is_true = refl
