-- ===== src/Cli/Timed.antt =====
-- A serial port whose reads take time, under src/bin/stcbsl.rs.
use stcbsl.Base.{
  ℕ, ◌≤◌, ◌<◌, ◌≡◌, ap, inl, inr, Bool, true, false, List, [], ◌∷◌, Result, ok, err, Bool-cases,
  length, arith,
}
use stcbsl.Base.Bytes.{Bytes}
use stcbsl.Stc89.Status.{read_words}
use stcbsl.Driver.Wait.{IsTimely}
use stcbsl.Transport.{polled}
use stcbsl.Cli.Console.{Line, System, CliWire, say, unless_quiet, cli_world}

-- A read takes time, and fills no more than its buffer; the clock does not go back while bytes are
-- written or lines are printed.
pub record Timed {P E F M : Type 0} (system : System P E F M) : Type 0 where
  pub reads : (n : ℕ) (m : M) → system.serial.now m < system.serial.now (system.serial.read n m).1
  pub fills : (n : ℕ) (m : M) (bs : Bytes) → (system.serial.read n m).0 ≡ ok bs → length bs ≤ n
  pub writes :
      (bs : Bytes) (m : M)
      → system.serial.now m ≤ system.serial.now (system.serial.write_all bs m).1
  pub flushes : (m : M) → system.serial.now m ≤ system.serial.now (system.serial.flush m).1
  pub prints : (line : Line) (m : M) → system.serial.now m ≤ system.serial.now (system.print line m)

-- A status packet that is accepted has frequency words.
pub some_words :
    (p : Bytes) (words : List ℕ)
    → words ≡ read_words p 8 0
    → (x : ℕ) × (xs : List ℕ) × (words ≡ x ∷ xs)
unfolding read_words
some_words p words e = (_, _, e)

module _ {P E F M : Type 0} (system : System P E F M) (timed : Timed system) where
  polled-fills :
      (n : ℕ) (r : Result E Bytes) (bs : Bytes)
      → ((bs : Bytes) → r ≡ ok bs → length bs ≤ n)
      → polled system.serial.timed_out r ≡ ok bs
      → length bs ≤ n
  polled-fills n (ok x) bs h e = h bs e
  polled-fills n (err x) bs h e = elim (Bool-cases (system.serial.timed_out x)) [
    | inl t ↦
        let q : ◌≡◌ {A = Result E Bytes} (ok []) (ok bs) = rw t at e in
        let none_read : [] ≡ bs = cc in rw (← none_read) (omega arith)
    | inr t ↦ let q : ◌≡◌ {A = Result E Bytes} (err x) (ok bs) = rw t at e in cc
  ]

  say-later :
      (quiet : Bool) (line : Line) (w : CliWire M)
      → system.serial.now w.wire.port
        ≤ system.serial.now (unless_quiet quiet (say system line) w).wire.port
  say-later true line w = omega arith
  say-later false line w = timed.prints line w.wire.port

  pub timely : (quiet : Bool) → IsTimely (cli_world system quiet)
  unfolding cli_world
  timely quiet = record {
    reads = λ n w. timed.reads n w.wire.port;
    fills = λ n w w' bs e.
        polled-fills n _ bs (timed.fills n w.wire.port)
          (ap (λ (p : Result E Bytes × CliWire M). p.0) e);
    writes = λ bs w. timed.writes bs w.wire.port;
    flushes = λ w. timed.flushes w.wire.port;
    logs_note = λ n w. say-later quiet _ w;
    logs_discarded = λ bs w. say-later quiet _ (record w { noise = _ });
  }
