-- ===== src/Driver/Served.antt =====
-- `run` of src/driver.rs against a chip that answers: it returns Ok.
use mathlib.Core.Path.{subst}
use stcbsl.Base.{
  ℕ, zero, suc, ◌+◌, ◌*◌, ◌≤◌, ◌<◌, ◌≡◌, refl, sym, ap, ◌∙◌, inl, inr, true, false, Bool-cases,
  Option, none, some, List, [], length, get_elem?, ltb, leb, arith, Result, ok, err, All,
}
use stcbsl.Base.Bytes.{Bytes}
use stcbsl.Base.Text.{Text}
use stcbsl.Frame.{Frame, encode}
use stcbsl.Receiver.{Receiver, new, next_frame, feed}
use stcbsl.Session.{new as new_session, Step, Session, expects_reply, advance_past, on_reply}
use stcbsl.Session.Flags.{get_elem?-cases}
use stcbsl.Session.Inv.{next_action_finished, next_action_sends}
use stcbsl.Session.Progress.{send_of}
use stcbsl.Session.Complete.{All-get_elem?}
use stcbsl.Driver.{
  World, DrainConfig, DrainMode, tc_drain, compute_wire_time, Outcome, Awaited, got, io_or,
  settle_ms, wait_round, after_read, await, retune_before, drain_wire, settle_wire, retune_after,
  after_reply, after_await, exchange, act, run_loop, run,
}
use stcbsl.Driver.Serves.{
  IsAnswered, IsOk, Serves, Succeeds, at_moves, at_stays, on_reply-Meets, one_read, polled_frame,
  send_step-Send, sent_session,
}

module _ {E W : Type 0} (world : World E W) (ready : W → Bytes) (answer : Bytes → Bytes)
    (serves : Serves world ready answer) where
  io_or-Succeeds :
      {A : Type 0} (s : Session) (res : Result E A × W) (rest : A → W → Outcome E W) (r : Bytes)
      → IsOk res.0 × (ready res.1 ≡ r)
      → ((a : A) (w : W) → ready w ≡ r → Succeeds (rest a w))
      → Succeeds (io_or s res rest)
  unfolding io_or
  io_or-Succeeds s (ok a, w) rest r (o, e) h = h a w e
  io_or-Succeeds s (err x, w) rest r (o, e) h = absurd o

  -- The receiver is empty at the start of a round and after a change of the baud rate.
  abbrev Goes : Bytes → (Receiver → W → Outcome E W) → Type 0
  Goes r rest = (w : W) → ready w ≡ r → Succeeds (rest new w)

  retune_before-Succeeds :
      (o : Option ℕ) (s : Session) (w : W) (rest : Receiver → W → Outcome E W)
      → Goes (ready w) rest
      → Succeeds (retune_before world o new s w rest)
  retune_before-Succeeds none s w rest h = h w refl
  retune_before-Succeeds (some b) s w rest h =
      io_or-Succeeds s (world.tune b w) _ (ready w) (serves.tunes b w) (λ u w' e. h w' e)

  drain_wire-ready :
      (m : DrainMode) (w : W)
      → IsOk (drain_wire world m w).0 × (ready (drain_wire world m w).1 ≡ ready w)
  drain_wire-ready tc_drain w = serves.drains w
  drain_wire-ready compute_wire_time w = (tt, refl)

  settle_wire-ready : (ms : ℕ) (w : W) → ready (settle_wire world ms w) ≡ ready w
  settle_wire-ready ms w = elim (Bool-cases (ltb 0 ms)) [
    | inl e ↦ rw e (serves.sleeps ms w)
    | inr e ↦ rw e refl
  ]

  retune_after-Succeeds :
      (config : DrainConfig) (o : Option ℕ) (s : Session) (w : W)
      (rest : Receiver → W → Outcome E W)
      → Goes (ready w) rest
      → Succeeds (retune_after world config o new s w rest)
  retune_after-Succeeds config none s w rest h = h w refl
  retune_after-Succeeds config (some b) s w rest h =
      io_or-Succeeds s (drain_wire world config.mode w) _ (ready w) (drain_wire-ready config.mode w)
        (λ u w1 e1.
          let settled = settle_wire world (settle_ms config.margin_ms) w1 in
          let (fine, same) = serves.tunes b settled in
          io_or-Succeeds s (world.tune b settled) _ (ready w)
            (fine, same ∙ settle_wire-ready (settle_ms config.margin_ms) w1 ∙ e1)
            (λ v w2 e2. h _ (serves.logs_note _ w2 ∙ e2)))

  after_read-ok :
      (r : Result E Bytes × W) (bs : Bytes) (again : Receiver → W → Awaited E W)
      → r.0 ≡ ok bs
      → after_read world r new again ≡ again (feed new bs) r.1
  after_read-ok (ok x, w) bs again e =
      let same : x ≡ bs = cc in ap (λ (b : Bytes). again (feed new b) w) same
  after_read-ok (err x, w) bs again e = cc

  -- The second round of a wait finds the frame.
  await-frame :
      (polls : ℕ) (label : Text) (timeout_ms deadline : ℕ) (f : Frame) (w : W)
      → length f.payload ≤ 504
      → await world
          (suc polls)
          label
          timeout_ms
          deadline
          (record { buf = encode f; discarded = [] })
          w
        ≡ got f new w
  unfolding await wait_round
  await-frame polls label timeout_ms deadline f w h = rw (polled_frame f (omega arith)) refl

  await-answer :
      (polls : ℕ) (label : Text) (timeout_ms : ℕ) (f : Frame) (w : W)
      → 0 < timeout_ms
      → length f.payload ≤ 504
      → ready w ≡ encode f
      → (await world (suc (suc polls)) label timeout_ms (world.now w + timeout_ms * 1_000_000) new w
          ≡ got f new (world.read 512 w).1)
        × (ready (world.read 512 w).1 ≡ [])
  unfolding await wait_round next_frame
  await-answer polls label timeout_ms f w pos h e =
      let deadline = world.now w + timeout_ms * 1_000_000 in
      let early : leb deadline (world.now w) ≡ false = ground arith in
      let (all, none_left) = serves.reads 512 w (rw e (one_read f h)) in
      (
        rw early (
            after_read-ok (world.read 512 w) (encode f) _ (all ∙ ap ok e)
            ∙ await-frame polls label timeout_ms deadline f (world.read 512 w).1 h),
        none_left,
      )

  after_await-Succeeds :
      (step : Step) (f : Frame) (s : Session) (w : W) (again : Receiver → Session → W → Outcome E W)
      → on_reply f s ≡ some (ok tt, advance_past step s)
      → ((w' : W) → ready w' ≡ ready w → Succeeds (again new (advance_past step s) w'))
      → Succeeds (after_await world s (got f new w) again)
  unfolding after_await after_reply
  after_await-Succeeds step f s w again e h = rw e (h _ (serves.logs_reply f w))

  exchange-Succeeds :
      (polls i : ℕ) (config : DrainConfig) (step : Step) (s : Session) (w : W)
      (again : Receiver → Session → W → Outcome E W)
      → IsAnswered answer step
      → ready w ≡ []
      → (expects_reply step.expect ≡ true
          → (s.awaiting ≡ true)
            × (get_elem? s.steps s.at ≡ some step)
            × ((w' : W) → ready w' ≡ [] → Succeeds (again new (advance_past step s) w')))
      → (expects_reply step.expect ≡ false → (w' : W) → ready w' ≡ [] → Succeeds (again new s w'))
      → Succeeds (exchange world (suc (suc polls)) config (send_of i step) new s w again)
  unfolding exchange
  exchange-Succeeds polls i config step s w again answered quiet heard unheard =
      let bytes = encode step.frame in
      retune_before-Succeeds step.retune_before_send s w _ (λ w1 e1.
        io_or-Succeeds s (world.write_all bytes (world.log_step step.label bytes w1)) _
          (answer bytes) (serves.writes bytes _ (serves.logs_step step.label bytes w1 ∙ e1 ∙ quiet))
          (λ u w2 e2.
            let (fine, same) = serves.flushes w2 in
            io_or-Succeeds s (world.flush w2) _ (answer bytes) (fine, same ∙ e2)
              (λ v w3 e3. retune_after-Succeeds config step.retune_after_send s w3 _ (λ w4 e4.
                elim (Bool-cases (expects_reply step.expect)) [
                  | inr e ↦ rw e (unheard e w4 (e4 ∙ e3 ∙ answered.silent e))
                  | inl e ↦
                      let (f, a, small, meets, pos) = answered.answers e in
                      let (busy, here, go) = heard e in
                      let (same, empty) =
                        await-answer polls step.label step.timeout_ms f w4 pos small
                          (e4 ∙ e3 ∙ a) in
                      rw e (
                        subst (λ (o : Awaited E W). Succeeds (after_await world s o again))
                          (sym same)
                          (after_await-Succeeds step f s _ again
                            (on_reply-Meets step f s busy here meets) (λ w' q. go w' (q ∙ empty))))
                ]))))

  module _ (steps : List Step) (answered : All (IsAnswered answer) steps) where
    run_loop-Succeeds :
        (polls rounds : ℕ) (config : DrainConfig) (s : Session) (w : W)
        → s.steps ≡ steps
        → s.awaiting ≡ false
        → ready w ≡ []
        → s.at ≤ length steps
        → length steps < s.at + rounds
        → Succeeds (run_loop world (suc (suc polls)) rounds config new s w)
    unfolding run_loop act advance_past
    run_loop-Succeeds polls zero config s w same idle quiet low left = absurd (omega arith)
    run_loop-Succeeds polls (suc rounds) config s w same idle quiet low left =
        elim (get_elem?-cases s.steps s.at) [
          | inl (out, e) ↦ rw (next_action_finished s idle out) tt
          | inr (step, inside, e) ↦
              let (sends, kept, waits, at') = send_step-Send step s idle in
              let room : s.at < length steps = rw same at inside in
              rw (next_action_sends s step idle e, sends)
                (exchange-Succeeds polls s.at config step (sent_session step s) w
                  (run_loop world (suc (suc polls)) rounds config)
                  (All-get_elem? (IsAnswered answer) steps s.at step answered (rw same at e)) quiet
                  (λ x.
                    let here = at_stays step s x at' in
                    (
                      waits ∙ x,
                      rw (kept, here) e,
                      λ w' q.
                          run_loop-Succeeds polls rounds config
                            (advance_past step (sent_session step s)) w' (kept ∙ same) refl q
                            (rw here room) (rw here (omega arith)),
                    ))
                  (λ x w' q.
                    let there = at_moves step s x at' in
                    run_loop-Succeeds polls rounds config (sent_session step s) w' (kept ∙ same)
                      (waits ∙ x) q (rw there room) (rw there (omega arith))))
        ]

-- A session against a chip that answers as it should comes to its end. On a wire on which nothing
-- fails, whose chip answers each step of the plan that expects a reply with a frame that the step
-- accepts, of at most 504 bytes of payload, handed over in one read, and is silent on the others,
-- `run` returns Ok, from an idle wire on: with two polls for each wait, and one round more than
-- the plan has steps. Each step that expects a reply has a timeout that is not 0.
pub run-Succeeds :
    {E W : Type 0} (world : World E W) (ready : W → Bytes) (answer : Bytes → Bytes)
    (serves : Serves world ready answer) (steps : List Step) (polls : ℕ) (config : DrainConfig)
    (w : W)
    → All (IsAnswered answer) steps
    → ready w ≡ []
    → Succeeds (run world (suc (suc polls)) (suc (length steps)) config (new_session steps) w)
unfolding run
run-Succeeds world ready answer serves steps polls config w answered quiet =
    run_loop-Succeeds world ready answer serves steps answered polls (suc (length steps)) config
      (new_session steps) w refl refl quiet (omega arith) (omega arith)
