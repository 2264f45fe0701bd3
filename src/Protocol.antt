-- ===== src/Protocol.antt =====
-- src/protocol/mod.rs: the types that a protocol family shares with its callers, and the trait
-- `ProtocolFamily` as a record of its methods.
pub mod Shown
use stcbsl.Base.{ℕ, Bool, Option, List, Result}
use stcbsl.Base.Bytes.{Bytes}
use stcbsl.Base.Int.{ℤ}
use stcbsl.Base.Text.{Text}
use stcbsl.Frame.{Frame}
use stcbsl.Session.{Step}

pub data Job : Type 0 where
  identify : Job
  erase : Option ℕ → Job
  flash : Bytes → Bool → Job

pub record SessionOptions : Type 0 where
  pub handshake_baud : ℕ
  pub transfer_baud : ℕ
  pub reply_timeout_ms : ℕ
  pub erase_timeout_ms : ℕ

abbrev pub default_options : SessionOptions
default_options = record {
  handshake_baud = 2400;
  transfer_baud = 115200;
  reply_timeout_ms = 2000;
  erase_timeout_ms = 20_000;
}

pub record TargetInfo : Type 0 where
  pub family : Text
  pub chip_id : Bytes
  pub model : Option Text
  pub code_flash : Option ℕ
  pub eeprom_flash : Option ℕ
  pub bsl_version : Text
  pub measured_hz : ℕ
  pub freq_words : List ℕ
  pub option_bytes : Bytes
  pub raw_status : Bytes

pub data ProtocolError : Type 0 where
  not_a_status_frame : ℕ → ProtocolError
  short_status : ℕ → ℕ → ProtocolError
  inconsistent_frequency : List ℕ → ProtocolError
  implausible_frequency : ℕ → ProtocolError
  unreachable_baud : ℕ → ℤ → ProtocolError
  image_too_large : ℕ → ℕ → ProtocolError
  empty_image : ProtocolError
  unknown_chip_size : Bytes → ProtocolError
  erase_too_large : ℕ → ProtocolError

pub record ProtocolFamily : Type 0 where
  pub name : Text
  pub default_handshake_baud : ℕ
  pub default_transfer_baud : ℕ
  pub is_status_frame : Frame → Bool
  pub parse_status : Frame → ℕ → Result ProtocolError TargetInfo
  pub plan : TargetInfo → Job → SessionOptions → Result ProtocolError (List Step)
