-- ===== src/Rxprobe.antt =====
-- src/bin/rxprobe.rs: how many bytes come in at each baud rate, and whether they can be read. The
-- loop of `count` is on fuel.
pub mod Sample
pub mod Count
use stcbsl.Base.{
  ℕ, zero, suc, ◌+◌, ◌*◌, Bool, false, ◌||◌, Option, none, some, [], ◌∷◌, ◌++◌, Result, ok, err,
  length, take, ltb, if◌then◌else◌,
}
use stcbsl.Base.Bytes.{Bytes}
use stcbsl.Base.Text.{Text, codes}
use stcbsl.Frame.{bytes_eq}
use stcbsl.Transport.{
  Serial, SerialWire, Opened, opened, not_opened, wire_parity, open_port, read, write_all, drain,
  tune,
}

-- The lines on the standard output.
pub data Report (E : Type 0) : Type 0 where
  is_open : Report E
  read_error : Text → E → Report E
  counted : Text → ℕ → ℕ → Bool → Report E

pub record Probe (P E M : Type 0) : Type 0 where
  pub serial : Serial P E M
  pub print : Report E → M → M

-- What the loop of `count` ends with: the variables `n` and `sample`, or an error of a read.
pub data Tally (E M : Type 0) : Type 0 where
  tally : ℕ → Bytes → SerialWire M → Tally E M
  failed : E → SerialWire M → Tally E M
  unended : Tally E M

-- How the program ends; a panic has the message of the `expect`.
pub data Ended (M : Type 0) : Type 0 where
  over : M → Ended M
  panics : Text → M → Ended M
  unended : Ended M

-- `sample` after the bytes of one read.
abbrev pub grown : Bytes → Bytes → Bytes
grown sample bytes = if ltb (length sample) 40 then sample ++ take 40 bytes else sample

abbrev pub hello : Bytes
hello = codes "hello"

-- `sample.windows(5).any(|w| w == b"hello")`.
unfoldable pub legible : Bytes → Bool
unfolding bytes_eq
legible [] = false
legible (b ∷ bs) = bytes_eq (take 5 (b ∷ bs)) hello || legible bs

module _ {P E M : Type 0} (probe : Probe P E M) where
  abbrev pub after_read :
      ℕ → Bytes → Result E Bytes × SerialWire M → (ℕ → Bytes → SerialWire M → Tally E M) → Tally E M
  after_read n sample (ok bytes, w) again = again (n + length bytes) (grown sample bytes) w
  after_read n sample (err e, w) again = failed e w

  -- The loop of `count`, until the time `end`.
  unfoldable pub count_loop : ℕ → ℕ → ℕ → Bytes → SerialWire M → Tally E M
  count_loop zero end n sample w = unended
  count_loop (suc fuel) end n sample w =
      let round = after_read n sample (read probe.serial 256 w) (count_loop fuel end) in
      if ltb (probe.serial.now w.port) end then round else tally n sample w

  abbrev pub tell : Report E → SerialWire M → SerialWire M
  tell line w = record w { port = probe.print line w.port }

  -- The end of `count`, and the rest of `main`.
  unfoldable pub report : ℕ → Text → Tally E M → (SerialWire M → Ended M) → Ended M
  unfolding legible
  report secs label (tally n sample w) rest = rest (tell (counted label n secs (legible sample)) w)
  report secs label (failed e w) rest = rest (tell (read_error label e) w)
  report secs label Tally.unended rest = Ended.unended

  abbrev pub count : ℕ → ℕ → Text → SerialWire M → (SerialWire M → Ended M) → Ended M
  count fuel secs label w rest =
      report secs label (count_loop fuel (probe.serial.now w.port + secs * 1_000_000_000) 0 [] w)
        rest

  -- `expect` on a result of the wire.
  abbrev pub expect : Text → Result E (Unit {0}) × SerialWire M → (SerialWire M → Ended M) → Ended M
  expect msg (ok u, w) rest = rest w
  expect msg (err e, w) rest = panics msg w.port

  abbrev pub probe_frame : Bytes
  probe_frame =
      0x46 ∷ 0xB9 ∷ 0x6A ∷ 0x00 ∷ 0x0C ∷ 0x8F ∷ 0xFF ∷ 0xFD ∷ 0x00 ∷ 0x06 ∷ 0xA0 ∷ 0x81 ∷ 0x28
      ∷ 0x16 ∷ []

  -- The phases, on the opened wire.
  unfoldable pub phases : ℕ → SerialWire M → Ended M
  unfolding report count_loop
  phases fuel w0 =
      count fuel 3 (codes "phase 1 @2400 (mismatch: expect garbage bytes)") (tell is_open w0) (λ w1.
        expect (codes "set 9600") (tune probe.serial 9600 w1) (λ w2.
          count fuel 4 (codes "phase 2 @9600 (match: expect legible)") w2 (λ w3.
            expect (codes "write") (write_all probe.serial probe_frame w3) (λ w4.
              expect (codes "drain") (drain probe.serial w4) (λ w5.
                expect (codes "re-set 9600") (tune probe.serial 9600 w5) (λ w6.
                  count fuel 4 (codes "phase 2b write+drain+switch @9600 (expect legible)") w6
                    (λ w7. expect (codes "set 115200") (tune probe.serial 115200 w7) (λ w8.
                      count fuel 4 (codes "phase 3 @115200 (mismatch: expect garbage bytes)") w8
                        (λ w9. expect (codes "set 9600 again") (tune probe.serial 9600 w9) (λ w10.
                          count fuel 4 (codes "phase 4 @9600 again (match: expect legible)") w10
                            (λ w11. over w11.port)))))))))))

  abbrev pub on_open : ℕ → Opened P M → Ended M
  on_open fuel (opened w) = phases fuel w
  on_open fuel (not_opened e m) = panics (codes "open") m

  -- `main`, on the argument at place 1.
  unfoldable pub main : ℕ → Option Text → M → Ended M
  unfolding phases open_port
  main fuel none m = panics (codes "usage: rxprobe <device>") m
  main fuel (some dev) m = on_open fuel (open_port probe.serial dev 2400 wire_parity m)
