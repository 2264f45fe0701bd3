-- ===== src/Driver.antt =====
-- src/driver.rs: `run`, which walks a session over a wire, with `wrap` and the types it needs. The
-- wire, the clock and the log are parameters. The loops are on fuel: `polls` bounds the rounds of
-- one wait for a reply, `rounds` those of the outer loop.
pub mod Shown
pub mod Warns
pub mod Actions
pub mod Traced
pub mod Honest
pub mod Run
pub mod Wait
pub mod Fuel
pub mod Serves
pub mod Served
pub mod Handshake
use stcbsl.Base.{
  ℕ, zero, suc, ◌+◌, ◌*◌, not, Option, none, some, [], ◌∷◌, Result, ok, err, ltb, leb,
  if◌then◌else◌,
}
use stcbsl.Base.Bytes.{Bytes}
use stcbsl.Base.Int.{ℤ, pos, negsuc}
use stcbsl.Base.Text.{Text}
use stcbsl.Frame.{Frame, FrameError}
use stcbsl.Receiver.{Receiver, new, Polled, next_frame, feed}
use stcbsl.Protocol.{ProtocolError}
use stcbsl.Session.{
  Session, SessionError, Send, Action, send, set_baud, awaiting_reply, finished, next_action,
  on_reply, flash_is_indeterminate,
}

-- What the texts given to `Log::note` are formatted from.
pub data Note : Type 0 where
  rehunting : FrameError → Note
  switched : ℕ → ℕ → Note
  ignoring : ℕ → Note
  malformed : FrameError → Note

-- The traits `Wire` and `Log` and the clock, over the state of the world outside. `now` counts
-- nanoseconds; `read` is given the size of the buffer, and returns the bytes that it filled.
pub record World (E W : Type 0) : Type 0 where
  pub write_all : Bytes → W → Result E (Unit {0}) × W
  pub read : ℕ → W → Result E Bytes × W
  pub tune : ℕ → W → Result E (Unit {0}) × W
  pub flush : W → Result E (Unit {0}) × W
  pub drain : W → Result E (Unit {0}) × W
  pub now : W → ℕ
  pub sleep : ℕ → W → W
  pub log_step : Text → Bytes → W → W
  pub log_reply : Frame → W → W
  pub log_note : Note → W → W
  pub log_discarded : Bytes → W → W

pub data DrainMode : Type 0 where
  tc_drain compute_wire_time : DrainMode

pub record DrainConfig : Type 0 where
  pub mode : DrainMode
  pub margin_ms : ℤ

abbrev pub default_drain : DrainConfig
default_drain = record { mode = tc_drain; margin_ms = pos 100 }

pub data Error (E : Type 0) : Type 0 where
  io : E → Error E
  protocol : ProtocolError → Error E
  session : SessionError → Error E
  frame : FrameError → Error E
  timeout : Text → ℕ → Error E
  no_bootloader : ℕ → ℕ → Error E
  indeterminate_flash : Error E → Error E

-- How a run ends: with a result, on a panic, or, in the model, out of fuel.
pub data Outcome (E W : Type 0) : Type 0 where
  done : Result (Error E) (Unit {0}) → Session → W → Outcome E W
  panicked : Outcome E W
  out_of_fuel : Outcome E W

-- How a wait for a reply ends.
pub data Awaited (E W : Type 0) : Type 0 where
  got : Frame → Receiver → W → Awaited E W
  failed : Error E → W → Awaited E W
  waits_on : Awaited E W

unfoldable pub wrap : {E : Type 0} → Session → Error E → Error E
unfolding flash_is_indeterminate
wrap s e = if flash_is_indeterminate s then indeterminate_flash e else e

-- `drain.margin_ms.max(0) as u64`.
abbrev pub settle_ms : ℤ → ℕ
settle_ms (pos n) = n
settle_ms (negsuc n) = 0

-- `.map_err(|e| wrap(session, Error::Io(e)))?`, before the rest of the function.
unfoldable pub io_or :
    {E W A : Type 0} → Session → Result E A × W → (A → W → Outcome E W) → Outcome E W
unfolding wrap
io_or s (ok a, w) rest = rest a w
io_or s (err e, w) rest = done (err (wrap s (io e))) s w

module _ {E W : Type 0} (world : World E W) where
  -- `take_discarded`, and its report if it is not empty.
  abbrev pub report_discarded : Receiver → W → Receiver × W
  report_discarded rx w = elim rx.discarded [
    | [] ↦ (record rx { discarded = [] }, w)
    | b ∷ bs ↦ (record rx { discarded = [] }, world.log_discarded (b ∷ bs) w)
  ]

  -- The end of a round of the wait, on what `read` returned.
  abbrev pub after_read : Result E Bytes × W → Receiver → (Receiver → W → Awaited E W) → Awaited E W
  after_read (ok bytes, w) rx again = again (feed rx bytes) w
  after_read (err e, w) rx again = failed (io e) w

  -- One round of the wait, on what `next_frame` returned.
  unfoldable pub wait_round : Text → ℕ → ℕ → Polled → W → (Receiver → W → Awaited E W) → Awaited E W
  wait_round label timeout_ms deadline (some (ok f), rx) w again =
      let (rx', w') = report_discarded rx w in got f rx' w'
  wait_round label timeout_ms deadline (some (err e), rx) w again =
      let (rx', w') = report_discarded rx w in again rx' (world.log_note (rehunting e) w')
  wait_round label timeout_ms deadline (none, rx) w again =
      if leb deadline (world.now w)
      then failed (timeout label timeout_ms) w
      else after_read (world.read 512 w) rx again

  -- The loop that waits for a reply.
  unfoldable pub await : ℕ → Text → ℕ → ℕ → Receiver → W → Awaited E W
  unfolding wait_round
  await zero label timeout_ms deadline rx w = waits_on
  await (suc polls) label timeout_ms deadline rx w =
      wait_round label timeout_ms deadline (next_frame rx) w (await polls label timeout_ms deadline)

  -- The baud rate before a frame is sent.
  abbrev pub retune_before :
      Option ℕ → Receiver → Session → W → (Receiver → W → Outcome E W) → Outcome E W
  retune_before none rx s w rest = rest rx w
  retune_before (some b) rx s w rest = io_or s (world.tune b w) (λ u w'. rest new w')

  abbrev pub drain_wire : DrainMode → W → Result E (Unit {0}) × W
  drain_wire tc_drain w = world.drain w
  drain_wire compute_wire_time w = (ok tt, w)

  abbrev pub settle_wire : ℕ → W → W
  settle_wire ms w = if ltb 0 ms then world.sleep ms w else w

  -- The switch of the baud rate behind a frame.
  abbrev pub retune_after :
      DrainConfig → Option ℕ → Receiver → Session → W → (Receiver → W → Outcome E W) → Outcome E W
  retune_after config none rx s w rest = rest rx w
  retune_after config (some b) rx s w rest = io_or s (drain_wire config.mode w) (λ u w1.
      io_or s (world.tune b (settle_wire (settle_ms config.margin_ms) w1))
        (λ v w2. rest new (world.log_note (switched (settle_ms config.margin_ms) b) w2)))

  -- The end of `on_reply`.
  unfoldable pub after_reply :
      Option (Result SessionError (Unit {0}) × Session)
      → Receiver
      → W
      → (Receiver → Session → W → Outcome E W)
      → Outcome E W
  unfolding wrap
  after_reply none rx w again = panicked
  after_reply (some (ok u, s)) rx w again = again rx s w
  after_reply (some (err e, s)) rx w again = done (err (wrap s (Error.session e))) s w

  -- What follows the wait.
  unfoldable pub after_await :
      Session → Awaited E W → (Receiver → Session → W → Outcome E W) → Outcome E W
  unfolding after_reply wrap
  after_await s (got f rx w) again =
      let (rx', w') = report_discarded rx w in
      after_reply (on_reply f s) rx' (world.log_reply f w') again
  after_await s (failed e w) again = done (err (wrap s e)) s w
  after_await s waits_on again = out_of_fuel

  -- The arm of `Action::Send`.
  unfoldable pub exchange :
      ℕ
      → DrainConfig
      → Send
      → Receiver
      → Session
      → W
      → (Receiver → Session → W → Outcome E W)
      → Outcome E W
  unfolding io_or await after_await
  exchange polls config x rx s w again = retune_before x.retune_before_send rx s w (λ rx1 w1.
      io_or s (world.write_all x.bytes (world.log_step x.label x.bytes w1)) (λ u w2.
        io_or s (world.flush w2) (λ v w3.
          retune_after config x.retune_after_send rx1 s w3 (λ rx4 w4.
            if not x.expect_reply
            then again rx4 s w4
            else after_await s
                (await polls x.label x.timeout_ms (world.now w4 + x.timeout_ms * 1_000_000) rx4 w4)
                again))))

  -- The match on the action.
  unfoldable pub act :
      ℕ
      → DrainConfig
      → Option (Action × Session)
      → Receiver
      → W
      → (Receiver → Session → W → Outcome E W)
      → Outcome E W
  unfolding exchange
  act polls config none rx w again = panicked
  act polls config (some (finished, s)) rx w again = done (ok tt) s w
  act polls config (some (awaiting_reply, s)) rx w again = panicked
  act polls config (some (set_baud b, s)) rx w again =
      io_or s (world.tune b w) (λ u w'. again new s w')
  act polls config (some (send x, s)) rx w again = exchange polls config x rx s w again

  unfoldable pub run_loop : ℕ → ℕ → DrainConfig → Receiver → Session → W → Outcome E W
  unfolding act
  run_loop polls zero config rx s w = out_of_fuel
  run_loop polls (suc rounds) config rx s w =
      act polls config (next_action s) rx w (run_loop polls rounds config)

  -- `driver::run`.
  unfoldable pub run : ℕ → ℕ → DrainConfig → Session → W → Outcome E W
  unfolding run_loop
  run polls rounds config s w = run_loop polls rounds config new s w
