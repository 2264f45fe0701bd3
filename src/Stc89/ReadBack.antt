-- ===== src/Stc89/ReadBack.antt =====
-- The frames of a session planned by src/protocol/stc89.rs, read by the receiver of src/frame.rs.
use stcbsl.Base.{
  none, concat, ℕ, zero, suc, ◌≤◌, ◌≡◌, refl, sym, ap, ◌∙◌, List, [], ◌∷◌, ◌++◌, append_assoc,
  append-nil, map, replicate, Result, ok, All, length, length-append, length-take, drop, arith,
}
use stcbsl.Base.Bytes.{Bytes}
use stcbsl.Frame.{Frame, FrameError, encode}
use stcbsl.Receiver.{Receiver, new, next_frame, feed}
use stcbsl.Receiver.Chunks.{Drains, idle, got}
use stcbsl.Receiver.Pieces.{Listens, Listens-total, Listens-Drains, Drains-det}
use stcbsl.Receiver.Resync.{next_frame-noise, IsNoise, next_frame-encode}
use stcbsl.Session.{Step}
use stcbsl.Protocol.{Job, SessionOptions, TargetInfo}
use stcbsl.Stc89.{
  probe_step, commit_step, link_test_step, erase_step, write_step, options_step, run_step, plan,
}
use stcbsl.Stc89.Frames.{write_block, link_test_prefix, options_tail}
use stcbsl.Stc89.Blocks.{IsShort}
use stcbsl.Stc89.Status.{parse_status, target_info}
use stcbsl.Stc89.Status.Laws.{parse_status-eq-ok_iff, reported}
use stcbsl.Stc89.Plan.Order.{Steps, ChunksAre-IsShort, All-plan}

-- The payload of the step's frame is one that the receiver takes.
abbrev IsReceivable : Step → Type 0
IsReceivable step = length step.frame.payload ≤ 1018

plan-IsReceivable :
    (frame : Frame) (baud : ℕ) (info : TargetInfo) (job : Job) (opts : SessionOptions)
    {steps : List Step}
    → parse_status frame baud ≡ ok info
    → plan info job opts ≡ ok steps
    → All IsReceivable steps
unfolding probe_step commit_step link_test_step erase_step write_step options_step run_step
    target_info
plan-IsReceivable frame baud info job opts parsed planned =
    All-plan IsReceivable (IsShort write_block) info opts each job (ChunksAre-IsShort job) planned
  where
    read : info ≡ reported frame baud
    read = ((parse_status-eq-ok_iff frame baud info).0 parsed).1

    chip : length info.chip_id ≤ 2
    chip = rw read (omega (arith, length-take 2 (drop 19 frame.payload)))

    option : length info.option_bytes ≡ 1
    option = rw read refl

    each : Steps IsReceivable (IsShort write_block) info opts
    each = record {
      probe = λ reload. omega arith;
      commit = λ reload. omega arith;
      link_test = λ i. omega (arith, chip, length-append link_test_prefix info.chip_id);
      erases = λ blocks. omega arith;
      writes = λ total i chunk h. omega arith;
      options = omega (arith, option, length-append info.option_bytes options_tail);
      runs = omega arith;
    }

module _ {ℓ} {A : Type ℓ} where
  concat-append : (ks ls : List (List A)) → concat (ks ++ ls) ≡ concat ks ++ concat ls
  concat-append [] ls = refl
  concat-append (k ∷ ks) ls =
      ap (◌++◌ k) (concat-append ks ls) ∙ sym (append_assoc k (concat ks) (concat ls))

  concat-replicate : (n : ℕ) (a : A) → concat (replicate n (a ∷ [])) ≡ replicate n a
  concat-replicate zero a = refl
  concat-replicate (suc n) a = ap (◌∷◌ a) (concat-replicate n a)

All-pulses : (n : ℕ) → All IsNoise (replicate n 0x7F)
All-pulses zero = tt
All-pulses (suc n) = (omega arith, All-pulses n)

-- What is written in a session: `n` pulses, and the encoded frames of the steps.
abbrev pub wire : ℕ → List Step → List Bytes
wire n steps = replicate n (0x7F ∷ []) ++ map (λ (step : Step). encode step.frame) steps

-- The answers of a receiver that reads the steps back.
abbrev pub frames_of : List Step → List (Result FrameError Frame)
frames_of = map (λ (step : Step). ok step.frame)

-- Frames one behind the other, with noise before them.
Drains-frames :
    (noise d : Bytes) (steps : List Step)
    → All IsNoise noise
    → All IsReceivable steps
    → Drains
        (record { buf = noise ++ concat (wire 0 steps); discarded = d })
        (frames_of steps)
        (record { buf = []; discarded = d ++ noise })
Drains-frames noise d [] q h = rw append-nil (idle (next_frame-noise noise d q))
Drains-frames noise d (s ∷ ss) q (h, hs) =
    got (next_frame-encode noise s.frame (concat (wire 0 ss)) d q h)
      (rw append-nil at (Drains-frames [] (d ++ noise) ss tt hs))

concat-wire :
    (n : ℕ) (steps : List Step) → concat (wire n steps) ≡ replicate n 0x7F ++ concat (wire 0 steps)
concat-wire n steps =
    concat-append (replicate n (0x7F ∷ [])) (wire 0 steps)
    ∙ ap (λ (l : Bytes). l ++ concat (wire 0 steps)) (concat-replicate n 0x7F)

-- A receiver that starts empty and is drained after each piece comes to an end, and whenever it
-- does, it has answered the frames of the steps, in order and each without an error, holds nothing,
-- and has discarded the pulses and nothing else.
abbrev pub ReadAs : ℕ → List Step → List Bytes → Type 0
ReadAs n steps pieces =
    (rs : List (Result FrameError Frame)) × (rx : Receiver) × Listens new pieces rs rx
    × ((rs : List (Result FrameError Frame)) (rx : Receiver)
        → Listens new pieces rs rx
        → (rs ≡ frames_of steps) × (rx.buf ≡ []) × (rx.discarded ≡ replicate n 0x7F))

-- A planned session is readable. The frames that `plan` makes for a job, from what `parse_status`
-- read off a status frame, are encoded behind any number of synchronisation pulses, and the bytes
-- are cut into pieces at will. A receiver that starts empty and is drained after each piece then
-- answers exactly the frames of the plan, in their order, each without an error; it has nothing
-- left in its buffer and has discarded the pulses and nothing else. There is such a run, and every
-- run is one.
pub plan-read_back :
    (frame : Frame) (baud : ℕ) (info : TargetInfo) (job : Job) (opts : SessionOptions)
    (steps : List Step) (n : ℕ) (pieces : List Bytes)
    → parse_status frame baud ≡ ok info
    → plan info job opts ≡ ok steps
    → concat pieces ≡ concat (wire n steps)
    → ReadAs n steps pieces
plan-read_back frame baud info job opts steps n pieces parsed planned same =
    let (rs, rx, run) = Listens-total pieces new in
    (
      rs,
      rx,
      run,
      λ rs rx run.
          let (answers, last) = Drains-det (Listens-Drains waits run) expected in
          (answers, ap (λ (x : Receiver). x.buf) last, ap (λ (x : Receiver). x.discarded) last),
    )
  where
    waits : next_frame new ≡ (none, new)
    waits = next_frame-noise [] [] tt

    expected :
        Drains
          (feed new (concat pieces))
          (frames_of steps)
          (record { buf = []; discarded = replicate n 0x7F })
    expected =
        rw (same, concat-wire n steps)
          (Drains-frames (replicate n 0x7F) [] steps (All-pulses n)
            (plan-IsReceivable frame baud info job opts parsed planned))
