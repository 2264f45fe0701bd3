-- ===== src/Cli/Recorded.antt =====
-- What the commands of src/bin/stcbsl.rs put on the wire of the serial port.
use stcbsl.Base.{
  ℕ, ◌≡◌, refl, sym, ap, ◌∙◌, Bool, true, false, Result, ok, err, List, [], ◌∷◌, ◌++◌, ◌!=◌, inl,
  inr, Bool-cases,
}
use stcbsl.Base.Bytes.{Bytes}
use stcbsl.Base.Text.{Text}
use stcbsl.Transport.{PortSettings, SerialWire, tuned, drained, drain_port}
use stcbsl.Driver.Traced.{Traced}
use stcbsl.Cli.Console.{Line, System, CliWire, unless_quiet, say, cli_world, on_wire}

-- `sent` is the list of the byte strings that went out: writing adds one when it succeeds, and
-- nothing else changes it.
pub record Recorded {P E F M : Type 0} (system : System P E F M) (sent : M → List Bytes)
    : Type 0 where
  pub writes :
      (bs : Bytes) (m m' : M) (u : Unit {0})
      → system.serial.write_all bs m ≡ (ok u, m')
      → sent m' ≡ sent m ++ bs ∷ []
  pub opens : (s : PortSettings) (m : M) → sent (system.serial.open_native s m).1 ≡ sent m
  pub reads : (n : ℕ) (m : M) → sent (system.serial.read n m).1 ≡ sent m
  pub tunes : (b : ℕ) (m : M) → sent (system.serial.set_baud_rate b m).1 ≡ sent m
  pub flushes : (m : M) → sent (system.serial.flush m).1 ≡ sent m
  pub drains : (m : M) → sent (system.serial.tcdrain m).1 ≡ sent m
  pub sleeps : (ms : ℕ) (m : M) → sent (system.serial.sleep ms m) ≡ sent m
  pub reads_file : (path : Text) (m : M) → sent (system.read_to_string path m).1 ≡ sent m
  pub prints : (line : Line) (m : M) → sent (system.print line m) ≡ sent m

abbrev pub sent_by : {M : Type 0} → (M → List Bytes) → CliWire M → List Bytes
sent_by sent w = sent w.wire.port

module _ {P E F M : Type 0} (system : System P E F M) (sent : M → List Bytes)
    (recorded : Recorded system sent) where
  written_ok :
      (w w' : CliWire M) (bs : Bytes) (r : Result E (Unit {0}) × M) (u : Unit {0})
      → system.serial.write_all bs w.wire.port ≡ r
      → on_wire w (r.0, record w.wire { port = r.1 }) ≡ (ok u, w')
      → sent_by sent w' ≡ sent_by sent w ++ bs ∷ []
  written_ok w w' bs r u e q =
      sym (ap (λ (p : Result E (Unit {0}) × CliWire M). sent_by sent p.1) q)
      ∙ recorded.writes bs w.wire.port r.1 u
          (e ∙ ap (λ x. (x, r.1)) (ap (λ (p : Result E (Unit {0}) × CliWire M). p.0) q))

  tuned-sent :
      (b : ℕ) (wire : SerialWire M) (r : Result P (Unit {0}) × M)
      → sent (tuned system.serial b wire r).1.port ≡ sent r.1
  tuned-sent b wire (ok u, m) = refl
  tuned-sent b wire (err e, m) = refl

  drained-sent :
      (wire : SerialWire M) (r : ℕ × M) → sent (drained system.serial wire r).1.port ≡ sent r.1
  drained-sent wire (rc, m) = elim (Bool-cases (rc != 0)) [ inl e ↦ rw e refl | inr e ↦ rw e refl ]

  drain_port-sent :
      (wire : SerialWire M) (r : Result E (Unit {0}) × M)
      → sent (drain_port system.serial wire r).1.port ≡ sent r.1
  drain_port-sent wire (ok u, m) = drained-sent wire (system.serial.tcdrain m) ∙ recorded.drains m
  drain_port-sent wire (err e, m) = refl

  pub say-sent :
      (quiet : Bool) (line : Line) (w : CliWire M)
      → sent_by sent (unless_quiet quiet (say system line) w) ≡ sent_by sent w
  say-sent true line w = refl
  say-sent false line w = recorded.prints line w.wire.port

  pub cli_world-Traced : (quiet : Bool) → Traced (cli_world system quiet) (sent_by sent)
  unfolding cli_world
  cli_world-Traced quiet = record {
    writes = λ bs w w' u e. written_ok w w' bs (system.serial.write_all bs w.wire.port) u refl e;
    reads = λ n w. recorded.reads n w.wire.port;
    tunes = λ b w.
        tuned-sent b w.wire (system.serial.set_baud_rate b w.wire.port)
        ∙ recorded.tunes b w.wire.port;
    flushes = λ w. recorded.flushes w.wire.port;
    drains = λ w.
        drain_port-sent w.wire (system.serial.flush w.wire.port) ∙ recorded.flushes w.wire.port;
    sleeps = λ ms w. recorded.sleeps ms w.wire.port;
    logs_step = λ l bs w. say-sent quiet _ w;
    logs_reply = λ f w. say-sent quiet _ w;
    logs_note = λ n w. say-sent quiet _ w;
    logs_discarded = λ bs w. say-sent quiet _ _;
  }
