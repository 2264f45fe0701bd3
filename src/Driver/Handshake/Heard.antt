-- ===== src/Driver/Handshake/Heard.antt =====
-- Where the status frame that a successful `handshake` of src/driver.rs answers with comes from:
-- the bytes that were read.
use stcbsl.Base.{
  ℕ, ◌≡◌, refl, sym, ap, ◌∙◌, true, none, some, List, [], ◌∷◌, ◌++◌, append_assoc, append-nil,
  List-cases, inl, inr, Result, ok, All, All-append,
}
use stcbsl.Base.Bytes.{Bytes, IsByte}
use stcbsl.Frame.{Frame, FrameError, byte_at, encode}
use stcbsl.Receiver.{Receiver, next_frame, feed}
use stcbsl.Receiver.Hunting.{stream}
use stcbsl.Receiver.Stream.{handed, next_frame-stream}
use stcbsl.Protocol.{ProtocolFamily, TargetInfo, SessionOptions, Job}
use stcbsl.Session.{Step}
use stcbsl.Stc89.{plan}
use stcbsl.Stc89.Status.{stc89}
use stcbsl.Stc89.Status.Laws.{IsStatus, reported, parse_status-eq-ok_iff}
use stcbsl.Stc89.Plan.Order.{OptionIs, plan-option_byte}
use stcbsl.Driver.{World, Note, report_discarded}
use stcbsl.Driver.Handshake.{met, handshake}
use stcbsl.Driver.Handshake.Rule.{Rule, handshake_rule}

-- `received` is all that came in: a read that succeeds adds its bytes, and nothing else changes it.
pub record Hears {E W : Type 0} (world : World E W) (received : W → Bytes) : Type 0 where
  pub reads :
      (n : ℕ) (w w' : W) (bs : Bytes)
      → world.read n w ≡ (ok bs, w')
      → (received w' ≡ received w ++ bs) × All IsByte bs
  pub writes : (bs : Bytes) (w : W) → received (world.write_all bs w).1 ≡ received w
  pub tunes : (b : ℕ) (w : W) → received (world.tune b w).1 ≡ received w
  pub flushes : (w : W) → received (world.flush w).1 ≡ received w
  pub logs_reply : (f : Frame) (w : W) → received (world.log_reply f w) ≡ received w
  pub logs_note : (n : Note) (w : W) → received (world.log_note n w) ≡ received w
  pub logs_discarded : (bs : Bytes) (w : W) → received (world.log_discarded bs w) ≡ received w

module _ {E W : Type 0} (world : World E W) (received : W → Bytes) (hears : Hears world received)
    (before : Bytes) where
  -- What came in since the start is what the receiver has let go, and then what it holds.
  abbrev Held : Receiver → W → Type 0
  Held rx w = (past : Bytes) × (received w ≡ before ++ (past ++ stream rx)) × All IsByte rx.buf

  report_discarded-received :
      (rx : Receiver) (w : W) → received (report_discarded world rx w).1 ≡ received w
  report_discarded-received rx w = elim (List-cases rx.discarded) [
    | inl e ↦ rw e refl
    | inr (b, bs, e) ↦ rw e (hears.logs_discarded (b ∷ bs) w)
  ]

  feed-Held :
      (rx : Receiver) (bs : Bytes) (w w' : W)
      → Held rx w
      → world.read 256 w ≡ (ok bs, w')
      → Held (feed rx bs) w'
  feed-Held rx bs w w' (past, e, b) q =
      let (more, b') = hears.reads 256 w w' bs q in
      (
        past,
        more
            ∙ ap (λ (l : Bytes). l ++ bs) e
            ∙ append_assoc before (past ++ stream rx) bs
            ∙ ap (◌++◌ before) (
                append_assoc past (stream rx) bs
                ∙ ap (◌++◌ past) (append_assoc rx.discarded rx.buf bs)),
        All-append IsByte rx.buf bs b b',
      )

  waits-Held : (rx rx' : Receiver) (w : W) → Held rx w → next_frame rx ≡ (none, rx') → Held rx' w
  waits-Held rx rx' w (past, e, b) q =
      let (kept, b') = rw q at (next_frame-stream rx b) in
      (past, e ∙ ap (λ (l : Bytes). before ++ (past ++ l)) (sym kept), b')

  -- A poll that answers: the discarded bytes are let go, and those of the frame.
  polled-Held :
      (rx rx' : Receiver) (r : Result FrameError Frame) (w : W)
      → Held rx w
      → next_frame rx ≡ (some r, rx')
      → (past : Bytes) × (received w
          ≡ before ++ ((past ++ rx'.discarded) ++ (handed (some r) ++ rx'.buf)))
        × All IsByte rx'.buf
  polled-Held rx rx' r w (past, e, b) q =
      let (kept, b') = rw q at (next_frame-stream rx b) in
      (
        past,
        e
            ∙ ap (◌++◌ before) (
                ap (◌++◌ past) (sym kept)
                ∙ sym (append_assoc past rx'.discarded (handed (some r) ++ rx'.buf))),
        b',
      )

  cleared-Held :
      (rx : Receiver) (w w' : W)
      → received w' ≡ received w
      → Held rx w
      → Held (record rx { discarded = [] }) w'
  cleared-Held rx w w' same (past, e, b) = (
    past ++ rx.discarded,
    same ∙ e ∙ ap (◌++◌ before) (sym (append_assoc past rx.discarded rx.buf)),
    b,
  )

-- The answer was read off a status frame, and the bytes of that frame stand, in one piece, in what
-- came in.
abbrev pub HeardFrom : ProtocolFamily → ℕ → Bytes → TargetInfo → Bytes → Type 0
HeardFrom family baud before info after =
    (frame : Frame) × (front : Bytes) × (back : Bytes) × (family.is_status_frame frame ≡ true)
    × (family.parse_status frame baud ≡ ok info)
    × (after ≡ before ++ (front ++ (encode frame ++ back)))

pub handshake-HeardFrom :
    {E W : Type 0} (world : World E W) (received : W → Bytes) (hears : Hears world received)
    (family : ProtocolFamily) (fuel : ℕ) (opts : SessionOptions) (wait : ℕ) (w w' : W)
    (info : TargetInfo)
    → handshake fuel world family opts wait w ≡ met (ok info) w'
    → HeardFrom family opts.handshake_baud (received w) info (received w')
handshake-HeardFrom {E} {W} world received hears family fuel opts wait w w' info =
    handshake_rule world family opts wait w (λ started due. Held world received hears before)
      (λ info w. HeardFrom family baud before info (received w)) rule fuel w' info
  where
    before : Bytes
    before = received w

    baud : ℕ
    baud = opts.handshake_baud

    same :
        {A : Type 0} (r : A × W) (a : A) (w0 w1 : W)
        → r ≡ (a, w1)
        → received r.1 ≡ received w0
        → received w1 ≡ received w0
    same r a w0 w1 q e = sym (ap (λ x. received x.1) q) ∙ e

    rule :
        Rule world family baud wait w
          (λ started due. Held world received hears before)
          (λ info w. HeardFrom family baud before info (received w))
    rule = record {
      starts = λ u w1 q. (
        [],
        same (world.tune baud w) (ok u) w w1 q (hears.tunes baud w) ∙ sym (append-nil before),
        tt,
      );
      pulses = λ started due rx w0 w1 w2 u v h early late q1 q2.
          let (past, e, b) = h in
          (
            past,
            same (world.flush w1) (ok v) w1 w2 q2 (hears.flushes w1)
                ∙ same (world.write_all _ w0) (ok u) w0 w1 q1 (hears.writes _ w0)
                ∙ e,
            b,
          );
      reads = λ started due rx bs w0 w1 h q. feed-Held world received hears before rx bs w0 w1 h q;
      waits = λ started due rx rx' w0 h q. waits-Held world received hears before rx rx' w0 h q;
      reports = λ started due rx w0 h.
          cleared-Held world received hears before rx w0 _
            (report_discarded-received world received hears before rx w0) h;
      skips = λ started due rx rx' r note w0 h q.
          let (past, e, b) = polled-Held world received hears before rx rx' r w0 h q in
          (
            (past ++ rx'.discarded) ++ handed (some r),
            hears.logs_note note _
                ∙ report_discarded-received world received hears before rx' w0
                ∙ e
                ∙ ap (◌++◌ before)
                    (sym (append_assoc (past ++ rx'.discarded) (handed (some r)) rx'.buf)),
            b,
          );
      answers = λ started due rx rx' f info w0 h q e p.
          let (past, seen, b) = polled-Held world received hears before rx rx' (ok f) w0 h q in
          (
            f,
            past ++ rx'.discarded,
            rx'.buf,
            e,
            p,
            hears.logs_reply f _
                ∙ report_discarded-received world received hears before rx' w0
                ∙ seen,
          );
    }

-- The handshake answers from what was on the wire. When a handshake with a chip succeeds, the bytes
-- read in its course contain, in one piece, the encoding of a frame that passes the checks of
-- `parse_status`; the answer is what `parse_status` reads off it; and in every session planned from
-- the answer, whatever the job and the options, a frame with the options command carries the option
-- byte of that frame's payload, followed by three bytes 0xFF. What is read is bytes; a read that
-- succeeds adds them to a list that no other operation of the world changes.
pub handshake_from_wire :
    {E W : Type 0} (world : World E W) (received : W → Bytes) (hears : Hears world received)
    (fuel : ℕ) (opts : SessionOptions) (wait : ℕ) (w w' : W) (info : TargetInfo)
    → handshake fuel world stc89 opts wait w ≡ met (ok info) w'
    → (frame : Frame) × (front : Bytes) × (back : Bytes) × (received w'
        ≡ received w ++ (front ++ (encode frame ++ back)))
      × IsStatus frame opts.handshake_baud
      × (info ≡ reported frame opts.handshake_baud)
      × ((job : Job) (later : SessionOptions) (steps : List Step)
          → plan info job later ≡ ok steps
          → All (OptionIs (byte_at frame.payload 18)) steps)
handshake_from_wire world received hears fuel opts wait w w' info e =
    let (frame, front, back, is_status, parsed, bytes) =
      handshake-HeardFrom world received hears stc89 fuel opts wait w w' info e in
    let (checked, read) = (parse_status-eq-ok_iff frame opts.handshake_baud info).0 parsed in
    (
      frame,
      front,
      back,
      bytes,
      checked,
      read,
      λ job later steps planned.
          plan-option_byte frame opts.handshake_baud info job later parsed planned,
    )
