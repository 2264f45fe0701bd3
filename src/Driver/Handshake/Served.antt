-- ===== src/Driver/Handshake/Served.antt =====
-- `handshake` of src/driver.rs against a chip that answers the first pulse.
use stcbsl.Base.{
  ℕ, suc, ◌-◌, ◌≤◌, ◌<◌, ◌≡◌, refl, ap, ◌∙◌, true, [], ◌∷◌, Result, ok, err, length, ltb, leb,
  arith,
}
use stcbsl.Base.Bytes.{Bytes}
use stcbsl.Frame.{Frame, encode, wire_len}
use stcbsl.Frame.RoundTrip.{length-encode}
use stcbsl.Receiver.{Receiver, new}
use stcbsl.Protocol.{ProtocolFamily, TargetInfo, SessionOptions}
use stcbsl.Driver.{World}
use stcbsl.Driver.Serves.{IsOk, Serves, polled_frame}
use stcbsl.Driver.Handshake.{
  Met, met, unended, Sync, sync_byte, or_io, on_frame, frame_round, frames_loop, read_round, pulse,
  sync_loop, handshake,
}

module _ {E W : Type 0} (world : World E W) (ready : W → Bytes) (answer : Bytes → Bytes)
    (serves : Serves world ready answer) (family : ProtocolFamily) (baud : ℕ) (frame : Frame)
    (info : TargetInfo) where
  -- The handshake has met the chip, and nothing is left to read.
  abbrev pub Meets : Met E W → Type 0
  Meets (met (ok i) w) = (i ≡ info) × (ready w ≡ [])
  Meets (met (err e) w) = ⊥
  Meets unended = ⊥

  or_io-Meets :
      {A : Type 0} (res : Result E A × W) (rest : A → W → Met E W) (r : Bytes)
      → IsOk res.0 × (ready res.1 ≡ r)
      → ((a : A) (w : W) → ready w ≡ r → Meets (rest a w))
      → Meets (or_io res rest)
  unfolding or_io
  or_io-Meets (ok a, w) rest r (o, e) h = h a w e
  or_io-Meets (err x, w) rest r (o, e) h = absurd o

  module _ (is_status : family.is_status_frame frame ≡ true)
      (parsed : family.parse_status frame baud ≡ ok info) (short : length frame.payload ≤ 248) where
    frames_loop-Meets :
        (fuel noise : ℕ) (rest : Receiver → ℕ → W → Met E W) (w : W)
        → ready w ≡ []
        → Meets (
            frames_loop world family baud
              (suc fuel)
              rest
              (record { buf = encode frame; discarded = [] })
              noise
              w)
    unfolding frames_loop frame_round on_frame
    frames_loop-Meets fuel noise rest w quiet =
        rw (polled_frame frame (omega arith), is_status, parsed)
          (refl, serves.logs_reply frame w ∙ quiet)

    read_round-Meets :
        (r : Result E Bytes × W) (s : Sync) (again : Sync → W → Met E W)
        → s.rx ≡ new
        → r.0 ≡ ok (encode frame)
        → ready r.1 ≡ []
        → Meets (read_round world family baud r s again)
    unfolding read_round or_io
    read_round-Meets (ok bs, w) s again fresh e quiet =
        let same : bs ≡ encode frame = cc in
        rw (same, fresh) (frames_loop-Meets _ s.noise _ w quiet)
    read_round-Meets (err x, w) s again fresh e quiet = cc

    fits_read : length (encode frame) ≤ 256
    fits_read = unfold wire_len in omega (arith, length-encode frame)

    -- The first round: a pulse, and the answer to it.
    sync_loop-Meets :
        (fuel wait : ℕ) (w : W)
        → 0 < wait
        → ready w ≡ []
        → answer (sync_byte ∷ []) ≡ encode frame
        → Meets (
            sync_loop world family baud
              (suc fuel)
              (world.now w)
              wait
              (record { rx = new; noise = 0; pulse_due = world.now w; last_byte = world.now w })
              w)
    unfolding sync_loop pulse
    sync_loop-Meets fuel wait w pos quiet answers =
        let early : ltb (world.now w - world.now w) wait ≡ true = ground arith in
        let due : leb (world.now w) (world.now w) ≡ true = ground arith in
        let (written, heard) = serves.writes (sync_byte ∷ []) w quiet in
        rw (early, due)
          (or_io-Meets (world.write_all (sync_byte ∷ []) w) _ (encode frame)
            (written, heard ∙ answers)
            (λ u w1 e1.
              let (fine, same) = serves.flushes w1 in
              or_io-Meets (world.flush w1) _ (encode frame) (fine, same ∙ e1)
                (λ v w2 e2.
                  let (all, none_left) = serves.reads 256 w2 (rw e2 fits_read) in
                  read_round-Meets (world.read 256 w2) _
                    (sync_loop world family baud fuel (world.now w) wait) refl (all ∙ ap ok e2)
                    none_left)))

-- A chip that answers the first pulse is met. On a wire on which nothing fails, idle at first, whose
-- chip answers the byte 0x7F with a status frame of at most 248 bytes of payload, handed over in
-- one read, `handshake` returns what the family reads off that frame, in its first round, and
-- leaves nothing unread. The time it may wait is not 0.
pub handshake-Meets :
    {E W : Type 0} (world : World E W) (ready : W → Bytes) (answer : Bytes → Bytes)
    (serves : Serves world ready answer) (family : ProtocolFamily) (opts : SessionOptions)
    (frame : Frame) (info : TargetInfo) (fuel wait : ℕ) (w : W)
    → family.is_status_frame frame ≡ true
    → family.parse_status frame opts.handshake_baud ≡ ok info
    → length frame.payload ≤ 248
    → answer (sync_byte ∷ []) ≡ encode frame
    → 0 < wait
    → ready w ≡ []
    → Meets world ready answer serves family opts.handshake_baud frame info
        (handshake (suc fuel) world family opts wait w)
unfolding handshake
handshake-Meets world ready answer serves family opts frame info fuel wait w is_status parsed short
      answers pos quiet =
    let (fine, same) = serves.tunes opts.handshake_baud w in
    or_io-Meets world ready answer serves family opts.handshake_baud frame info
      (world.tune opts.handshake_baud w) _ [] (fine, same ∙ quiet)
      (λ u w1 e1.
        sync_loop-Meets world ready answer serves family opts.handshake_baud frame info is_status
          parsed short fuel wait w1 pos e1 answers)
