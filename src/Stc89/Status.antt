-- ===== src/Stc89/Status.antt =====
-- The status packet in src/protocol/stc89.rs: `is_status_frame`, `parse_status`, the table of
-- known chips, and the family as a value of the trait.
pub mod Laws
use stcbsl.Base.{
  ℕ, zero, suc, ◌+◌, ◌*◌, ◌/◌, ◌%◌, Bool, false, not, ◌&&◌, ◌||◌, Option, none, some, List, [], ◌∷◌,
  ◌++◌, Result, ok, err, length, ltb, leb, ◌==◌, ◌!=◌, if◌then◌else◌, get_or,
}
use stcbsl.Base.Bytes.{Bytes, u16_from_be}
use stcbsl.Base.Text.{Text, codes, decimal}
use stcbsl.Frame.{Frame, mcu_to_host, dir_eq, bytes_eq, byte_at, slice}
use stcbsl.Protocol.{
  TargetInfo, ProtocolError, not_a_status_frame, short_status, inconsistent_frequency,
  implausible_frequency, ProtocolFamily,
}
use stcbsl.Stc89.{plan}
use stcbsl.Stc89.Frames.{cmd_status, frequency_hz}

abbrev pub status_payload_len : ℕ
status_payload_len = 52

abbrev pub off_freq : ℕ
off_freq = 0

abbrev pub freq_word_count : ℕ
freq_word_count = 8

abbrev pub off_version : ℕ
off_version = 16

abbrev pub off_option : ℕ
off_option = 18

abbrev pub off_chip_id : ℕ
off_chip_id = 19

abbrev pub chip_id_len : ℕ
chip_id_len = 2

abbrev pub freq_min_hz : ℕ
freq_min_hz = 1_000_000

abbrev pub freq_max_hz : ℕ
freq_max_hz = 48_000_000

-- A row of `KNOWN_CHIPS`.
pub record Chip : Type 0 where
  pub id : Bytes
  pub name : Text
  pub code : ℕ
  pub eeprom : ℕ

abbrev pub known_chips : List Chip
known_chips =
    record {
      id = 0xF0 ∷ 0x02 ∷ [];
      name = codes "STC89C52RC/LE52RC";
      code = 8 * 1024;
      eeprom = 6 * 1024;
    }
    ∷ []

-- `KNOWN_CHIPS.iter().find(..)`.
unfoldable pub find_chip : Bytes → List Chip → Option Chip
unfolding bytes_eq
find_chip chip_id [] = none
find_chip chip_id (c ∷ cs) = if bytes_eq c.id chip_id then some c else find_chip chip_id cs

abbrev pub map_chip : {A : Type 0} → (Chip → A) → Option Chip → Option A
map_chip f none = none
map_chip f (some c) = some (f c)

-- The loop over the frequency words: `count` of them are left, from word `i` on.
unfoldable pub read_words : Bytes → ℕ → ℕ → List ℕ
read_words p zero i = []
read_words p (suc count) i =
    u16_from_be (byte_at p (off_freq + i * 2)) (byte_at p (off_freq + i * 2 + 1))
    ∷ read_words p count (suc i)

-- `words.iter().any(|w| *w != words[0])`.
unfoldable pub any_differs : ℕ → List ℕ → Bool
any_differs first [] = false
any_differs first (w ∷ ws) = w != first || any_differs first ws

-- `format!("{vmaj}.{vmin}{vletter}")`.
unfoldable pub version_text : ℕ → ℕ → Text
version_text version letter =
    decimal (version / 16) ++ (codes "." ++ (decimal (version % 16) ++ letter ∷ []))

unfoldable pub is_status_frame : Frame → Bool
unfolding dir_eq
is_status_frame frame =
    dir_eq frame.dir mcu_to_host
    && frame.cmd == cmd_status
    && leb (off_chip_id + chip_id_len) (length frame.payload)

-- The record that `parse_status` returns.
unfoldable pub target_info : Bytes → List ℕ → ℕ → TargetInfo
unfolding find_chip version_text
target_info p words hz =
    let chip_id = slice p off_chip_id (off_chip_id + chip_id_len) in
    let known = find_chip chip_id known_chips in
    record {
      family = codes "stc89";
      chip_id = chip_id;
      model = map_chip (λ c. c.name) known;
      code_flash = map_chip (λ c. c.code) known;
      eeprom_flash = map_chip (λ c. c.eeprom) known;
      bsl_version = version_text (byte_at p off_version) (byte_at p (off_version + 1));
      measured_hz = hz;
      freq_words = words;
      option_bytes = byte_at p off_option ∷ [];
      raw_status = p;
    }

unfoldable pub parse_status : Frame → ℕ → Result ProtocolError TargetInfo
unfolding dir_eq
parse_status frame handshake_baud =
    let p = frame.payload in
    let words = read_words p freq_word_count 0 in
    let hz = frequency_hz (get_or words 0 0) handshake_baud in
    if frame.cmd != cmd_status || not (dir_eq frame.dir mcu_to_host)
    then err (not_a_status_frame frame.cmd)
    else if ltb (length p) status_payload_len
    then err (short_status (length p) status_payload_len)
    else if any_differs (get_or words 0 0) words
    then err (inconsistent_frequency words)
    else if not (leb freq_min_hz hz && leb hz freq_max_hz)
    then err (implausible_frequency hz)
    else ok (target_info p words hz)

-- `impl ProtocolFamily for Stc89`.
abbrev pub stc89 : ProtocolFamily
stc89 = record {
  name = codes "stc89";
  default_handshake_baud = 2400;
  default_transfer_baud = 115200;
  is_status_frame = is_status_frame;
  parse_status = parse_status;
  plan = plan;
}
