-- ===== src/Frame.antt =====
-- The frame codec of src/frame.rs: `Dir`, `Frame`, `Frame::encode`, `Frame::decode`, `is_echo_of`
-- and `checksum`. A byte is a number.
pub mod Shape
pub mod RoundTrip
pub mod Corruption
pub mod Hex
pub mod Shown
use mathlib.Core.List.{foldl}
use stcbsl.Base.{
  ℕ, ◌+◌, ◌-◌, ◌/◌, Bool, true, false, ◌&&◌, ◌||◌, Option, none, some, [], ◌∷◌, ◌++◌, Result, ok,
  err, ◌>>=◌, ◌>>◌, length, get_or, take, drop, ltb, ◌==◌, ◌!=◌, if◌then◌else◌,
}
use stcbsl.Base.Bytes.{Bytes, u8, u16, wrapping_add, u16_from_be}

abbrev pub magic : Bytes
magic = 0x46 ∷ 0xB9 ∷ []

abbrev pub dir_host_to_mcu : ℕ
dir_host_to_mcu = 0x6A

abbrev pub dir_mcu_to_host : ℕ
dir_mcu_to_host = 0x68

abbrev pub terminator : ℕ
terminator = 0x16

abbrev pub frame_overhead : ℕ
frame_overhead = 8

abbrev pub min_len_field : ℕ
min_len_field = 6

abbrev pub max_len_field : ℕ
max_len_field = 1024

pub data Dir : Type 0 where
  host_to_mcu mcu_to_host : Dir

-- `Dir::byte`.
unfoldable pub dir_byte : Dir → ℕ
dir_byte host_to_mcu = dir_host_to_mcu
dir_byte mcu_to_host = dir_mcu_to_host

-- `Dir::from_byte`.
unfoldable pub dir_from_byte : ℕ → Option Dir
dir_from_byte b =
    if b == dir_host_to_mcu
    then some host_to_mcu
    else if b == dir_mcu_to_host
    then some mcu_to_host
    else none

-- The derived `PartialEq` of `Dir`.
unfoldable pub dir_eq : Dir → Dir → Bool
dir_eq host_to_mcu host_to_mcu = true
dir_eq mcu_to_host mcu_to_host = true
dir_eq _ _ = false

-- The derived `PartialEq` of `Vec<u8>`.
unfoldable pub bytes_eq : Bytes → Bytes → Bool
bytes_eq [] [] = true
bytes_eq (a ∷ as') (b ∷ bs) = a == b && bytes_eq as' bs
bytes_eq _ _ = false

pub record Frame : Type 0 where
  pub dir : Dir
  pub cmd : ℕ
  pub payload : Bytes

pub data FrameError : Type 0 where
  too_short : ℕ → FrameError
  bad_magic : ℕ → ℕ → FrameError
  bad_length : ℕ → ℕ → FrameError
  bad_terminator : ℕ → FrameError
  bad_checksum : ℕ → ℕ → FrameError
  bad_dir : ℕ → FrameError
  implausible_length : ℕ → FrameError

-- `Frame::host` and `Frame::mcu`.
abbrev pub host : ℕ → Bytes → Frame
host cmd payload = record { dir = host_to_mcu; cmd = cmd; payload = payload }

abbrev pub mcu : ℕ → Bytes → Frame
mcu cmd payload = record { dir = mcu_to_host; cmd = cmd; payload = payload }

unfoldable pub checksum : Bytes → ℕ
checksum body = foldl wrapping_add 0 body

unfoldable pub wire_len : Frame → ℕ
wire_len f = length f.payload + frame_overhead

unfoldable pub len_field : Frame → ℕ
unfolding wire_len
len_field f = u16 (wire_len f - 2)

-- The bytes up to the last of the payload, over which the checksum is then taken.
unfoldable pub encode_head : Frame → Bytes
unfolding len_field dir_byte
encode_head f =
    let len = len_field f in magic ++ dir_byte f.dir ∷ u8 (len / 0x100) ∷ u8 len ∷ f.cmd ∷ f.payload

unfoldable pub encode : Frame → Bytes
unfolding encode_head checksum
encode f = let out = encode_head f in out ++ checksum (drop 2 out) ∷ terminator ∷ []

-- `bytes[i]`; `decode` reads only below `bytes.len()`, where the default is not looked at.
abbrev pub byte_at : Bytes → ℕ → ℕ
byte_at bytes i = get_or bytes i 0

-- `bytes[from .. to]`.
abbrev pub slice : Bytes → ℕ → ℕ → Bytes
slice bytes from to = take (to - from) (drop from bytes)

-- `ok_or(FrameError::BadDir(b))`.
abbrev pub dir_or_err : ℕ → Option Dir → Result FrameError Dir
dir_or_err b none = err (bad_dir b)
dir_or_err b (some d) = ok d

unfoldable pub decode : Bytes → Result FrameError Frame
unfolding checksum dir_from_byte
decode bytes =
    let n = length bytes in
    let declared = u16_from_be (byte_at bytes 3) (byte_at bytes 4) in
    let actual = u16 (n - 2) in
    let last = byte_at bytes (n - 1) in
    let got = byte_at bytes (n - 2) in
    let computed = checksum (slice bytes 2 (n - 2)) in
    if ltb n frame_overhead
    then err (too_short n)
    else if byte_at bytes 0 != 0x46 || byte_at bytes 1 != 0xB9
    then err (bad_magic (byte_at bytes 0) (byte_at bytes 1))
    else if declared != actual
    then err (bad_length declared actual)
    else if last != terminator
    then err (bad_terminator last)
    else if got != computed
    then err (bad_checksum computed got)
    else do
      dir ← dir_or_err (byte_at bytes 2) (dir_from_byte (byte_at bytes 2))
      ok (record { dir = dir; cmd = byte_at bytes 5; payload = slice bytes 6 (n - 2) })

unfoldable pub is_echo_of : Frame → Frame → Bool
unfolding dir_eq bytes_eq
is_echo_of f req =
    dir_eq f.dir mcu_to_host
    && dir_eq req.dir host_to_mcu
    && f.cmd == req.cmd
    && bytes_eq f.payload req.payload
