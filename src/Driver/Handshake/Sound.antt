-- ===== src/Driver/Handshake/Sound.antt =====
-- What a successful `handshake` of src/driver.rs has seen.
use stcbsl.Base.{ℕ, ◌≡◌, true, List, ok, All}
use stcbsl.Frame.{Frame, byte_at}
use stcbsl.Protocol.{ProtocolFamily, TargetInfo, SessionOptions, Job}
use stcbsl.Session.{Step}
use stcbsl.Stc89.{plan}
use stcbsl.Stc89.Status.{stc89}
use stcbsl.Stc89.Status.Laws.{IsStatus, parse_status-eq-ok_iff}
use stcbsl.Stc89.Plan.Order.{OptionIs, plan-option_byte}
use stcbsl.Driver.{World}
use stcbsl.Driver.Handshake.{met, handshake}
use stcbsl.Driver.Handshake.Rule.{Rule, handshake_rule}

-- The answer was read off a status frame.
abbrev pub Seen : ProtocolFamily → ℕ → TargetInfo → Type 0
Seen family baud info =
    (frame : Frame) × (family.is_status_frame frame ≡ true)
    × (family.parse_status frame baud ≡ ok info)

-- A handshake that succeeds answers with what the family reads off a frame that it takes for a
-- status frame, at the handshake's baud rate.
pub handshake-Sound :
    {E W : Type 0} (world : World E W) (family : ProtocolFamily) (fuel : ℕ) (opts : SessionOptions)
    (wait : ℕ) (w w' : W) (info : TargetInfo)
    → handshake fuel world family opts wait w ≡ met (ok info) w'
    → Seen family opts.handshake_baud info
handshake-Sound world family fuel opts wait w w' info =
    handshake_rule world family opts wait w (λ started due rx w. Unit)
      (λ info w. Seen family opts.handshake_baud info) rule fuel w' info
  where
    rule :
        Rule world family opts.handshake_baud wait w
          (λ started due rx w. Unit)
          (λ info w. Seen family opts.handshake_baud info)
    rule = record {
      starts = λ u w1 q. tt;
      pulses = λ started due rx w0 w1 w2 u v h early late q1 q2. tt;
      reads = λ started due rx bs w0 w1 h q. tt;
      waits = λ started due rx rx' w0 h q. tt;
      reports = λ started due rx w0 h. tt;
      skips = λ started due rx rx' r note w0 h q. tt;
      answers = λ started due rx rx' f info w0 h q e p. (f, e, p);
    }

-- From the handshake to the plan. When a handshake with a chip succeeds, its answer belongs to a
-- status frame that passes the checks of `parse_status`, and in every session planned from the
-- answer, whatever the job and the options, a frame with the options command carries the option
-- byte of that frame's payload, followed by three bytes 0xFF.
pub handshake-option_byte :
    {E W : Type 0} (world : World E W) (fuel : ℕ) (opts : SessionOptions) (wait : ℕ) (w w' : W)
    (info : TargetInfo)
    → handshake fuel world stc89 opts wait w ≡ met (ok info) w'
    → (frame : Frame) × IsStatus frame opts.handshake_baud
      × ((job : Job) (later : SessionOptions) (steps : List Step)
          → plan info job later ≡ ok steps
          → All (OptionIs (byte_at frame.payload 18)) steps)
handshake-option_byte world fuel opts wait w w' info e =
    let (frame, is_status, parsed) = handshake-Sound world stc89 fuel opts wait w w' info e in
    (
      frame,
      ((parse_status-eq-ok_iff frame opts.handshake_baud info).0 parsed).0,
      λ job later steps planned.
          plan-option_byte frame opts.handshake_baud info job later parsed planned,
    )
