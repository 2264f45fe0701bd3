-- ===== src/Driver/Fuel.antt =====
-- `run` of src/driver.rs ends, on a wire whose reads take time.
use stcbsl.Base.{
  ℕ, zero, suc, ◌+◌, ◌*◌, ◌≤◌, ◌<◌, ◌≡◌, refl, sym, ◌∙◌, inl, inr, true, false, Bool-cases, Option,
  none, some, List, [], ◌∷◌, ◌++◌, length, length-append, take, length-take, arith, Result, ok, err,
}
use mathlib.Core.Path.{subst}
use stcbsl.Base.Text.{Text}
use stcbsl.Receiver.{Receiver}
use stcbsl.Session.{Step, Session, SessionError, Send, new, on_reply}
use stcbsl.Session.Inv.{sent}
use stcbsl.Session.Progress.{
  Reaches, start, acts, hears, sends_from, Reaches-sends, Reaches-IsConsistent,
}
use stcbsl.Driver.{
  World, DrainConfig, Outcome, done, panicked, out_of_fuel, Awaited, got, failed, waits_on, io_or,
  report_discarded, await, retune_before, drain_wire, settle_wire, retune_after, after_reply,
  after_await, exchange, act, run_loop, run, settle_ms, switched,
}
use stcbsl.Driver.Actions.{next_action-cases, Heard, on_reply-Heard}
use stcbsl.Driver.Wait.{IsTimely, wait_bound, Ended, await-Same}

length-sends_from : (i : ℕ) (steps : List Step) → length (sends_from i steps) ≡ length steps
length-sends_from i [] = refl
length-sends_from i (step ∷ steps) = omega (arith, length-sends_from (suc i) steps)

-- The driver is never told to send more frames than the plan has.
Reaches-bound :
    {steps : List Step} {log : List Send} {s : Session}
    → Reaches steps log s
    → length log ≤ length steps
Reaches-bound {steps} {log} {s} r =
    rw (Reaches-sends r)
      (omega (arith, length-sends_from 0 (take (sent s) steps), length-take (sent s) steps))

module _ {E W : Type 0} (world : World E W) (timely : IsTimely world) (steps : List Step) where
  abbrev pub Returns : Outcome E W → Type 0
  Returns (done r s w) = Unit
  Returns panicked = ⊥
  Returns out_of_fuel = ⊥

  -- What returns from some number of polls on.
  abbrev Ends : (ℕ → Outcome E W) → Type 0
  Ends f = (enough : ℕ) × ((polls : ℕ) → enough ≤ polls → Returns (f polls))

  at_once : (f : ℕ → Outcome E W) → ((polls : ℕ) → Returns (f polls)) → Ends f
  at_once f h = (0, λ polls l. h polls)

  -- `log` is what has been sent; the rounds left are enough for the rest.
  abbrev Again : ℕ → (ℕ → Receiver → Session → W → Outcome E W) → Type 0
  Again rounds again =
      (log : List Send) (rx : Receiver) (s : Session) (w : W)
      → Reaches steps log s
      → s.awaiting ≡ false
      → length steps < length log + rounds
      → Ends (λ polls. again polls rx s w)

  io_or-Ends :
      {A : Type 0} (s : Session) (res : Result E A × W) (rest : ℕ → A → W → Outcome E W)
      → ((a : A) (w : W) → Ends (λ polls. rest polls a w))
      → Ends (λ polls. io_or s res (rest polls))
  unfolding io_or
  io_or-Ends s (ok a, w) rest h = h a w
  io_or-Ends s (err e, w) rest h = (0, λ polls l. tt)

  retune_before-Ends :
      (o : Option ℕ) (rx : Receiver) (s : Session) (w : W) (rest : ℕ → Receiver → W → Outcome E W)
      → ((rx : Receiver) (w : W) → Ends (λ polls. rest polls rx w))
      → Ends (λ polls. retune_before world o rx s w (rest polls))
  retune_before-Ends none rx s w rest h = h rx w
  retune_before-Ends (some b) rx s w rest h =
      io_or-Ends s (world.tune b w)
        (λ polls u w'. rest polls (record { buf = []; discarded = [] }) w')
        (λ u w'. h (record { buf = []; discarded = [] }) w')

  retune_after-Ends :
      (config : DrainConfig) (o : Option ℕ) (rx : Receiver) (s : Session) (w : W)
      (rest : ℕ → Receiver → W → Outcome E W)
      → ((rx : Receiver) (w : W) → Ends (λ polls. rest polls rx w))
      → Ends (λ polls. retune_after world config o rx s w (rest polls))
  retune_after-Ends config none rx s w rest h = h rx w
  retune_after-Ends config (some b) rx s w rest h =
      let ms = settle_ms config.margin_ms in
      let clear : Receiver = record { buf = []; discarded = [] } in
      io_or-Ends s (drain_wire world config.mode w) _ (λ u w1.
        io_or-Ends s (world.tune b (settle_wire world ms w1))
          (λ polls v w2. rest polls clear (world.log_note (switched ms b) w2))
          (λ v w2. h clear (world.log_note (switched ms b) w2)))

  module _ (rounds : ℕ) (log : List Send) (again : ℕ → Receiver → Session → W → Outcome E W)
      (go : Again rounds again) (left : length steps < length log + rounds) where
    after_reply-Ends :
        (s s' : Session) (o : Option (Result SessionError (Unit {0}) × Session)) (rx : Receiver)
        (w : W)
        → ((u : Unit {0}) (s' : Session) → o ≡ some (ok u, s') → Reaches steps log s')
        → Heard o
        → Ends (λ polls. after_reply world o rx w (again polls))
    unfolding after_reply
    after_reply-Ends s s' none rx w r h = absurd h
    after_reply-Ends s s' (some (ok u, x)) rx w r h = go log rx x w (r u x refl) h left
    after_reply-Ends s s' (some (err e, x)) rx w r h = (0, λ polls l. tt)

    after_await-Ends :
        (s : Session) (o : Awaited E W)
        → Reaches steps log s
        → s.awaiting ≡ true
        → Ended world timely o
        → Ends (λ polls. after_await world s o (again polls))
    unfolding after_await
    after_await-Ends s (got f rx w) r busy e =
        let (rx', w') = report_discarded world rx w in
        after_reply-Ends s s (on_reply f s) rx' (world.log_reply f w') (λ u s' q. hears f r q)
          (on_reply-Heard f s (Reaches-IsConsistent r) busy)
    after_await-Ends s (failed x w) r busy e = (0, λ polls l. tt)
    after_await-Ends s waits_on r busy e = absurd e

    -- Enough polls for this wait and for what follows.
    await-Ends :
        (s : Session) (label : Text) (timeout_ms deadline : ℕ) (rx : Receiver) (w : W)
        → Reaches steps log s
        → s.awaiting ≡ true
        → Ends (λ polls.
          after_await world s (await world polls label timeout_ms deadline rx w) (again polls))
    await-Ends s label t d rx w r busy =
        let bound = wait_bound world timely d rx w in
        let (same0, ended) =
          await-Same world timely (suc bound) (suc bound) label t d rx w (omega arith)
            (omega arith) in
        let (enough, h) =
          after_await-Ends s (await world (suc bound) label t d rx w) r busy ended in
        (
          enough + suc bound,
          λ polls l.
              let (same, e) =
                await-Same world timely (suc bound) polls label t d rx w (omega arith)
                  (omega arith) in
              subst (λ (o : Awaited E W). Returns (after_await world s o (again polls))) same
                (h polls (omega arith)),
        )

  exchange-Ends :
      (rounds : ℕ) (config : DrainConfig) (log : List Send) (x : Send) (rx : Receiver) (s : Session)
      (w : W) (again : ℕ → Receiver → Session → W → Outcome E W)
      → Reaches steps (log ++ x ∷ []) s
      → x.expect_reply ≡ s.awaiting
      → Again rounds again
      → length steps < length (log ++ x ∷ []) + rounds
      → Ends (λ polls. exchange world polls config x rx s w (again polls))
  unfolding exchange
  exchange-Ends rounds config log x rx s w again r same go left =
      retune_before-Ends x.retune_before_send rx s w _ (λ rx1 w1.
        io_or-Ends s (world.write_all x.bytes (world.log_step x.label x.bytes w1)) _ (λ u w2.
          io_or-Ends s (world.flush w2) _ (λ v w3.
            retune_after-Ends config x.retune_after_send rx1 s w3 _ (λ rx4 w4.
              elim (Bool-cases x.expect_reply) [
                | inr e ↦ rw e (go (log ++ x ∷ []) rx4 s w4 r (sym same ∙ e) left)
                | inl e ↦ rw e (
                    await-Ends rounds (log ++ x ∷ []) again go left s x.label x.timeout_ms
                      (world.now w4 + x.timeout_ms * 1_000_000) rx4 w4 r (sym same ∙ e))
              ]))))

  run_loop-Ends :
      (rounds : ℕ) (config : DrainConfig)
      → Again rounds (λ polls. run_loop world polls rounds config)
  unfolding run_loop act
  run_loop-Ends zero config log rx s w r idle left = absurd (omega (arith, Reaches-bound r))
  run_loop-Ends (suc rounds) config log rx s w r idle left = elim (next_action-cases s idle) [
    | inl (e, fin) ↦ rw e (0, λ polls l. tt)
    | inr (x, s', e, expects) ↦ rw e (
        exchange-Ends rounds config log x rx s' w (λ polls. run_loop world polls rounds config)
          (acts r e) expects (run_loop-Ends rounds config)
          (omega (arith, length-append log (x ∷ []))))
  ]

-- On a wire whose reads take time and fill no more than their buffer, under a clock that does not
-- go back, `run` returns, and does not panic: with one round more than the plan has steps,
-- and from some number of polls on, the bounds of the model are not felt. So the source's loops
-- end, whatever the chip answers or leaves unanswered.
pub run-Returns :
    {E W : Type 0} (world : World E W) (timely : IsTimely world) (steps : List Step)
    (config : DrainConfig) (w : W)
    → (enough : ℕ) × ((polls : ℕ)
        → enough ≤ polls
        → Returns world timely steps (run world polls (suc (length steps)) config (new steps) w))
unfolding run
run-Returns world timely steps config w =
    run_loop-Ends world timely steps (suc (length steps)) config []
      (record { buf = []; discarded = [] }) (new steps) w start refl (omega arith)
