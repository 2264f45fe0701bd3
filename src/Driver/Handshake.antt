-- ===== src/Driver/Handshake.antt =====
-- `handshake` of src/driver.rs: pulses until a status frame comes. `fuel` bounds the rounds of the
-- loops; the loop over the frames of one read makes no more rounds than the buffer has bytes, and
-- one. `pulse_due` is the source's `last_pulse` and `PULSE_EVERY` together, since `last_pulse`
-- starts as `started - PULSE_EVERY`: the first pulse is due at once. An `Instant` of the Unix
-- modelled is a signed number of seconds, so that this subtraction does not panic.
pub mod Rule
pub mod Sound
pub mod Heard
pub mod Ends
pub mod Pulses
pub mod Pacing
pub mod Served
use stcbsl.Base.{
  ℕ, zero, suc, ◌+◌, ◌-◌, ◌/◌, not, ◌&&◌, none, some, [], ◌∷◌, Result, ok, err, length, ltb, leb,
  if◌then◌else◌,
}
use stcbsl.Base.Bytes.{Bytes, u64}
use stcbsl.Frame.{Frame, FrameError}
use stcbsl.Receiver.{Receiver, new, Polled, next_frame, feed, pending}
use stcbsl.Protocol.{ProtocolFamily, ProtocolError, TargetInfo, SessionOptions}
use stcbsl.Driver.{World, ignoring, malformed, Error, io, protocol, no_bootloader, report_discarded}

abbrev pub sync_byte : ℕ
sync_byte = 0x7F

abbrev pub pulse_every : ℕ
pulse_every = 30_000_000

abbrev pub partial_stall : ℕ
partial_stall = 400_000_000

-- How a handshake ends.
pub data Met (E W : Type 0) : Type 0 where
  met : Result (Error E) TargetInfo → W → Met E W
  unended : Met E W

-- The variables that the outer loop changes.
pub record Sync : Type 0 where
  pub rx : Receiver
  pub noise : ℕ
  pub pulse_due : ℕ
  pub last_byte : ℕ

-- `Ok(family.parse_status(..)?)`.
abbrev pub as_met : {E : Type 0} → Result ProtocolError TargetInfo → Result (Error E) TargetInfo
as_met (ok info) = ok info
as_met (err e) = err (protocol e)

-- `?` on an io::Result, before the rest of the function.
unfoldable pub or_io : {E W A : Type 0} → Result E A × W → (A → W → Met E W) → Met E W
or_io (ok a, w) rest = rest a w
or_io (err e, w) rest = met (err (io e)) w

module _ {E W : Type 0} (world : World E W) (family : ProtocolFamily) (baud : ℕ) where
  -- A frame, or a bad one, in the loop over the frames.
  unfoldable pub on_frame :
      Result FrameError Frame → Receiver → ℕ → W → (Receiver → ℕ → W → Met E W) → Met E W
  on_frame (ok f) rx noise w again =
      if family.is_status_frame f
      then met (as_met (family.parse_status f baud)) (world.log_reply f w)
      else again rx noise (world.log_note (ignoring f.cmd) w)
  on_frame (err e) rx noise w again = again rx noise (world.log_note (malformed e) w)

  -- `take_discarded`, counted as noise, and its report.
  abbrev pub count_noise : {A : Type 0} → Receiver → ℕ → W → (Receiver → ℕ → W → A) → A
  count_noise rx noise w rest =
      let (rx', w') = report_discarded world rx w in rest rx' (noise + length rx.discarded) w'

  unfoldable pub frame_round : Polled → ℕ → W → (again rest : Receiver → ℕ → W → Met E W) → Met E W
  unfolding on_frame
  frame_round (none, rx) noise w again rest = rest rx noise w
  frame_round (some r, rx) noise w again rest =
      count_noise rx noise w (λ rx' noise' w'. on_frame r rx' noise' w' again)

  -- `while let Some(result) = rx.next_frame()`.
  unfoldable pub frames_loop : ℕ → (Receiver → ℕ → W → Met E W) → Receiver → ℕ → W → Met E W
  unfolding frame_round
  frames_loop zero rest rx noise w = unended
  frames_loop (suc fuel) rest rx noise w =
      frame_round (next_frame rx) noise w (frames_loop fuel rest) rest

  -- From the read on.
  unfoldable pub read_round : Result E Bytes × W → Sync → (Sync → W → Met E W) → Met E W
  unfolding or_io frames_loop
  read_round r s again = or_io r (λ bytes w.
      let arrived = ltb 0 (length bytes) in
      let last = if arrived then world.now w else s.last_byte in
      let rx = feed s.rx bytes in
      frames_loop (suc (length rx.buf))
        (λ rx1 noise1 w1.
          count_noise rx1 noise1 w1
            (λ rx2 noise2 w2. again (record s { rx = rx2; noise = noise2; last_byte = last }) w2))
        rx s.noise w)

  -- The pulse, unless a frame is on its way or the last pulse is too recent.
  unfoldable pub pulse : Sync → W → (Sync → W → Met E W) → Met E W
  unfolding or_io
  pulse s w rest =
      let mid_frame = ltb 0 (pending s.rx) && ltb (world.now w - s.last_byte) partial_stall in
      if not mid_frame && leb s.pulse_due (world.now w)
      then or_io (world.write_all (sync_byte ∷ []) w) (λ u w1.
        or_io (world.flush w1)
          (λ v w2. rest (record s { pulse_due = world.now w2 + pulse_every }) w2))
      else rest s w

  unfoldable pub sync_loop : ℕ → ℕ → ℕ → Sync → W → Met E W
  unfolding pulse read_round
  sync_loop zero started wait s w = unended
  sync_loop (suc fuel) started wait s w =
      if ltb (world.now w - started) wait
      then pulse s w (λ s1 w1. read_round (world.read 256 w1) s1 (sync_loop fuel started wait))
      else met (err (no_bootloader (u64 (wait / 1_000_000)) s.noise)) w

-- `driver::handshake`; `wait` is in nanoseconds.
unfoldable pub handshake :
    {E W : Type 0} → ℕ → World E W → ProtocolFamily → SessionOptions → ℕ → W → Met E W
unfolding or_io sync_loop
handshake fuel world family opts wait w = or_io (world.tune opts.handshake_baud w) (λ u w1.
    let s : Sync = record {
      rx = new;
      noise = 0;
      pulse_due = world.now w1;
      last_byte = world.now w1;
    } in
    sync_loop world family opts.handshake_baud fuel (world.now w1) wait s w1)
