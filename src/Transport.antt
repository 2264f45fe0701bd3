-- ===== src/Transport.antt =====
-- src/transport.rs, built for a Unix that is not macOS: `SerialWire`, and its `Wire`. The crate
-- `serialport`, `libc` and the operating system are the parameter `Serial`.
use stcbsl.Base.{ℕ, Bool, List, [], Result, ok, err, ◌!=◌, if◌then◌else◌}
use stcbsl.Base.Bytes.{Bytes}
use stcbsl.Base.Text.{Text}

pub data Parity : Type 0 where
  no_parity even : Parity

-- `WIRE_PARITY`.
abbrev pub wire_parity : Parity
wire_parity = no_parity

-- What `serialport::new` is given, and what is set on its builder; the rest is constant: eight data
-- bits, one stop bit, no flow control.
pub record PortSettings : Type 0 where
  pub path : Text
  pub baud_rate : ℕ
  pub parity : Parity
  pub timeout_ms : ℕ

abbrev pub read_poll_ms : ℕ
read_poll_ms = 20

-- The operations of the crate `serialport` on the port (`P` its errors), those of `std::io` and
-- `libc` on the same port (`E` their errors), and the clock, over the state `M` outside. `other`
-- is `std::io::Error::other` of the error's text.
pub record Serial (P E M : Type 0) : Type 0 where
  pub open_native : PortSettings → M → Result P (Unit {0}) × M
  pub available_ports : M → Result P (List Text) × M
  pub set_baud_rate : ℕ → M → Result P (Unit {0}) × M
  pub write_all : Bytes → M → Result E (Unit {0}) × M
  pub read : ℕ → M → Result E Bytes × M
  pub flush : M → Result E (Unit {0}) × M
  pub tcdrain : M → ℕ × M
  pub last_os_error : M → E
  pub timed_out : E → Bool
  pub other : P → E
  pub now : M → ℕ
  pub sleep : ℕ → M → M

-- `SerialWire`: the port is a part of the state outside.
pub record SerialWire (M : Type 0) : Type 0 where
  pub port : M
  pub baud : ℕ

-- What `SerialWire::open` returns: a wire, or an error.
pub data Opened (P M : Type 0) : Type 0 where
  opened : SerialWire M → Opened P M
  not_opened : P → M → Opened P M

-- A result beside a new state of the port.
abbrev pub on_port : {M A : Type 0} → SerialWire M → A × M → A × SerialWire M
on_port wire (a, m) = (a, record wire { port = m })

-- `SerialWire::read`, on what the port says: a poll that saw nothing is no error.
abbrev pub polled : {E : Type 0} → (E → Bool) → Result E Bytes → Result E Bytes
polled timed_out (ok bytes) = ok bytes
polled timed_out (err e) = if timed_out e then ok [] else err e

module _ {P E M : Type 0} (serial : Serial P E M) where
  abbrev pub as_opened : ℕ → Result P (Unit {0}) × M → Opened P M
  as_opened baud (ok u, m) = opened (record { port = m; baud = baud })
  as_opened baud (err e, m) = not_opened e m

  -- `SerialWire::open`.
  unfoldable pub open_port : Text → ℕ → Parity → M → Opened P M
  open_port path baud parity m = as_opened baud (
      serial.open_native
        (record { path = path; baud_rate = baud; parity = parity; timeout_ms = read_poll_ms }) m)

  abbrev pub names_or_none : Result P (List Text) → List Text
  names_or_none (ok names) = names
  names_or_none (err e) = []

  -- `SerialWire::list`.
  abbrev pub list : M → List Text × M
  list m = let (r, m') = serial.available_ports m in (names_or_none r, m')

  abbrev pub write_all : Bytes → SerialWire M → Result E (Unit {0}) × SerialWire M
  write_all bytes wire = on_port wire (serial.write_all bytes wire.port)

  -- `n` is the size of the buffer.
  abbrev pub read : ℕ → SerialWire M → Result E Bytes × SerialWire M
  read n wire =
      let (r, m) = serial.read n wire.port in (polled serial.timed_out r, record wire { port = m })

  abbrev pub tuned : ℕ → SerialWire M → Result P (Unit {0}) × M → Result E (Unit {0}) × SerialWire M
  tuned baud wire (ok u, m) = (ok tt, record { port = m; baud = baud })
  tuned baud wire (err e, m) = (err (serial.other e), record wire { port = m })

  -- `set_baud`.
  abbrev pub tune : ℕ → SerialWire M → Result E (Unit {0}) × SerialWire M
  tune baud wire = tuned baud wire (serial.set_baud_rate baud wire.port)

  abbrev pub flush : SerialWire M → Result E (Unit {0}) × SerialWire M
  flush wire = on_port wire (serial.flush wire.port)

  abbrev pub drained : SerialWire M → ℕ × M → Result E (Unit {0}) × SerialWire M
  drained wire (rc, m) =
      if rc != 0
      then (err (serial.last_os_error m), record wire { port = m })
      else (ok tt, record wire { port = m })

  abbrev pub drain_port :
      SerialWire M → Result E (Unit {0}) × M → Result E (Unit {0}) × SerialWire M
  drain_port wire (ok u, m) = drained wire (serial.tcdrain m)
  drain_port wire (err e, m) = (err e, record wire { port = m })

  -- `drain`.
  abbrev pub drain : SerialWire M → Result E (Unit {0}) × SerialWire M
  drain wire = drain_port wire (serial.flush wire.port)
