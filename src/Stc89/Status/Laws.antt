-- ===== src/Stc89/Status/Laws.antt =====
-- When `parse_status` of src/protocol/stc89.rs succeeds, and what the plan does with what it read.
use native.Mathlib.Nat.{add-zero, zero-add}
use stcbsl.Base.{
  ℕ, zero, suc, ◌+◌, ◌*◌, ◌≤◌, ◌<◌, ◌≡◌, ◌↔◌, refl, sym, ap, ◌∙◌, Bool, false, not, ◌&&◌, ◌||◌,
  List, Result, ok, err, length, ltb, leb, ◌!=◌, if◌then◌else◌, get_or, arith,
}
use stcbsl.Base.Bytes.{Bytes, u16_from_be}
use stcbsl.Frame.{Frame, mcu_to_host, dir_eq, byte_at}
use stcbsl.Protocol.{
  not_a_status_frame, short_status, inconsistent_frequency, implausible_frequency, TargetInfo,
  ProtocolError,
}
use stcbsl.Stc89.Frames.{frequency_hz}
use stcbsl.Stc89.Status.{off_freq, parse_status, target_info, read_words, any_differs}

-- The `i`-th frequency word.
abbrev pub word_at : Bytes → ℕ → ℕ
word_at p i = u16_from_be (byte_at p (off_freq + i * 2)) (byte_at p (off_freq + i * 2 + 1))

agreeing :
    (p : Bytes) (count i first : ℕ)
    → any_differs first (read_words p count i) ≡ false
    → (j : ℕ) → j < count
    → word_at p (i + j) ≡ first
unfolding any_differs read_words
agreeing p zero i first e j h = absurd (omega arith)
agreeing p (suc count) i first e zero h = rw add-zero (ground arith)
agreeing p (suc count) i first e (suc j) h =
    let shift : i + suc j ≡ suc i + j = omega arith in
    rw shift (agreeing p count (suc i) first (ground arith) j (omega arith))

none_differs :
    (p : Bytes) (count i first : ℕ)
    → ((j : ℕ) → j < count → word_at p (i + j) ≡ first)
    → any_differs first (read_words p count i) ≡ false
unfolding any_differs read_words
none_differs p zero i first h = refl
none_differs p (suc count) i first h =
    let here : word_at p i ≡ first = rw add-zero at (h 0 (omega arith)) in
    let rest : any_differs first (read_words p count (suc i)) ≡ false =
      none_differs p count (suc i) first (λ j l.
        let shift : suc i + j ≡ i + suc j = omega arith in rw shift (h (suc j) (omega arith))) in
    ground arith

-- A frame that `parse_status` accepts.
pub record IsStatus (frame : Frame) (handshake_baud : ℕ) : Type 0 where
  pub command : frame.cmd ≡ 0
  pub direction : frame.dir ≡ mcu_to_host
  pub complete : 52 ≤ length frame.payload
  pub agreed : (j : ℕ) → j < 8 → word_at frame.payload j ≡ word_at frame.payload 0
  pub not_slow : 1_000_000 ≤ frequency_hz (word_at frame.payload 0) handshake_baud
  pub not_fast : frequency_hz (word_at frame.payload 0) handshake_baud ≤ 48_000_000

first_word : (p : Bytes) → get_or (read_words p 8 0) 0 0 ≡ word_at p 0
unfolding read_words
first_word p = refl

-- The tests of `parse_status`, over what they test.
abbrev tested : Frame → List ℕ → Bool → ℕ → TargetInfo → Result ProtocolError TargetInfo
tested frame words differ hz info =
    if frame.cmd != 0 || not (dir_eq frame.dir mcu_to_host)
    then err (not_a_status_frame frame.cmd)
    else if ltb (length frame.payload) 52
    then err (short_status (length frame.payload) 52)
    else if differ
    then err (inconsistent_frequency words)
    else if not (leb 1_000_000 hz && leb hz 48_000_000)
    then err (implausible_frequency hz)
    else ok info

abbrev Passes : Frame → Bool → ℕ → Type 0
Passes frame differ hz =
    (frame.cmd ≡ 0)
    × (frame.dir ≡ mcu_to_host)
    × (52 ≤ length frame.payload)
    × (differ ≡ false)
    × (1_000_000 ≤ hz)
    × (hz ≤ 48_000_000)

module _ (frame : Frame) (words : List ℕ) (differ : Bool) (hz : ℕ) (found info : TargetInfo) where
  tested_forth :
      tested frame words differ hz found ≡ ok info → Passes frame differ hz × (info ≡ found)
  unfolding dir_eq
  tested_forth e = ground arith

  tested_back : Passes frame differ hz → info ≡ found → tested frame words differ hz found ≡ ok info
  unfolding dir_eq
  tested_back h e = ground arith

-- What `parse_status` reports of an accepted frame.
abbrev pub reported : Frame → ℕ → TargetInfo
reported frame baud =
    target_info frame.payload (read_words frame.payload 8 0)
      (frequency_hz (word_at frame.payload 0) baud)

parse_status-tested :
    (frame : Frame) (baud : ℕ)
    → parse_status frame baud
      ≡ tested frame
          (read_words frame.payload 8 0)
          (any_differs (word_at frame.payload 0) (read_words frame.payload 8 0))
          (frequency_hz (word_at frame.payload 0) baud)
          (reported frame baud)
unfolding parse_status
parse_status-tested frame baud = rw (first_word frame.payload)

-- `parse_status` succeeds exactly on a status frame from the chip that is long enough, whose eight
-- frequency words agree, and whose frequency is between 1 and 48 MHz; its answer is read off the
-- payload. In every other case it is an error.
pub parse_status-eq-ok_iff :
    (frame : Frame) (baud : ℕ) (info : TargetInfo)
    → (parse_status frame baud ≡ ok info) ↔ (IsStatus frame baud × (info ≡ reported frame baud))
parse_status-eq-ok_iff frame baud info = (forth, back)
  where
    first : ℕ
    first = word_at frame.payload 0

    at_zero : (j : ℕ) → word_at frame.payload (0 + j) ≡ word_at frame.payload j
    at_zero j = ap (word_at frame.payload) (zero-add j)

    words : List ℕ
    words = read_words frame.payload 8 0

    forth : parse_status frame baud ≡ ok info → IsStatus frame baud × (info ≡ reported frame baud)
    forth e =
        let (passes, same) =
          tested_forth frame words (any_differs first words) (frequency_hz first baud)
            (reported frame baud) info (sym (parse_status-tested frame baud) ∙ e) in
        (
          record {
            command = passes.0;
            direction = passes.1;
            complete = passes.2;
            agreed = λ j l. sym (at_zero j) ∙ agreeing frame.payload 8 0 first passes.3 j l;
            not_slow = passes.4;
            not_fast = passes.5;
          },
          same,
        )

    back : IsStatus frame baud × (info ≡ reported frame baud) → parse_status frame baud ≡ ok info
    back (h, same) =
        parse_status-tested frame baud
        ∙ tested_back frame words (any_differs first words) (frequency_hz first baud)
            (reported frame baud) info
            (
              h.command,
              h.direction,
              h.complete,
              none_differs frame.payload 8 0 first (λ j l. at_zero j ∙ h.agreed j l),
              h.not_slow,
              h.not_fast,
            )
            same
