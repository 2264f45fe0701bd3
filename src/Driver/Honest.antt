-- ===== src/Driver/Honest.antt =====
-- What `run` of src/driver.rs may say at its end, whatever the wire does.
use stcbsl.Base.{
  ℕ, ltb, ◌≡◌, ◌+◌, ◌*◌, refl, sym, ap, ◌∙◌, inl, inr, true, false, Bool-cases, Option, none, some,
  List, [], ◌∷◌, ◌++◌, map, Result, ok, err, append_assoc,
}
use mathlib.Core.List.{map-append}
use stcbsl.Base.Bytes.{Bytes}
use stcbsl.Frame.{Frame, encode}
use stcbsl.Receiver.{Receiver, new}
use stcbsl.Session.{
  Step, Session, SessionError, Send, on_reply, flash_is_indeterminate, is_finished,
}
use stcbsl.Session.Progress.{Reaches, hears, Reaches-IsConsistent}
use stcbsl.Driver.{
  World, switched, DrainConfig, DrainMode, tc_drain, compute_wire_time, Error, io, Outcome, done,
  panicked, out_of_fuel, Awaited, got, failed, waits_on, wrap, io_or, settle_ms, report_discarded,
  retune_before, drain_wire, settle_wire, retune_after, after_reply, after_await, exchange,
}
use stcbsl.Driver.Actions.{is_wrapped, wrap-is_wrapped, Heard, on_reply-Heard}
use stcbsl.Driver.Traced.{Traced, Quiet, report_discarded-written, await-Quiet}

module _ {E W : Type 0} (world : World E W) (written : W → List Bytes)
    (traced : Traced world written) (steps : List Step) (before : List Bytes) where
  -- A run that ends well has finished the session and has written the plan's frames, in order,
  -- each once. One that ends with an error says that the flash is indeterminate just when the
  -- session does. None panics.
  abbrev pub Honest : Outcome E W → Type 0
  Honest (done (ok u) s w) =
      (is_finished s ≡ true)
      × (flash_is_indeterminate s ≡ false)
      × (written w ≡ before ++ map (λ (step : Step). encode step.frame) steps)
  Honest (done (err e) s w) =
      (log : List Send) × Reaches steps log s × (is_wrapped e ≡ flash_is_indeterminate s)
  Honest panicked = ⊥
  Honest out_of_fuel = Unit

  -- What has been written is what the session told the driver to send.
  abbrev pub Wrote : List Send → W → Type 0
  Wrote log w = written w ≡ before ++ map (λ (x : Send). x.bytes) log

  abbrev pub Again : (Receiver → Session → W → Outcome E W) → Type 0
  Again again =
      (log : List Send) (rx : Receiver) (s : Session) (w : W)
      → Reaches steps log s
      → s.awaiting ≡ false
      → Wrote log w
      → Honest (again rx s w)

  failed-Honest :
      (log : List Send) (s : Session) (w : W) (e : Error E)
      → Reaches steps log s
      → is_wrapped e ≡ false
      → Honest (done (err (wrap s e)) s w)
  failed-Honest log s w e r plain = (log, r, wrap-is_wrapped s e plain)

  module _ (log : List Send) (s : Session) (r : Reaches steps log s) where
    io_or-Honest :
        {A : Type 0} (res : Result E A × W) (rest : A → W → Outcome E W)
        → ((a : A) (w : W) → res ≡ (ok a, w) → Honest (rest a w))
        → Honest (io_or s res rest)
    unfolding io_or
    io_or-Honest (ok a, w) rest h = h a w refl
    io_or-Honest (err e, w) rest h = failed-Honest log s w (io e) r refl

    -- An operation that writes nothing.
    silent-Honest :
        {A : Type 0} (w : W) (res : Result E A × W) (rest : A → W → Outcome E W)
        → written res.1 ≡ written w
        → ((a : A) (w' : W) → written w' ≡ written w → Honest (rest a w'))
        → Honest (io_or s res rest)
    silent-Honest w res rest same h =
        io_or-Honest res rest (λ a w' e. h a w' (sym (ap (λ p. written p.1) e) ∙ same))

    retune_before-Honest :
        (o : Option ℕ) (rx : Receiver) (w : W) (rest : Receiver → W → Outcome E W)
        → ((rx : Receiver) (w' : W) → written w' ≡ written w → Honest (rest rx w'))
        → Honest (retune_before world o rx s w rest)
    retune_before-Honest none rx w rest h = h rx w refl
    retune_before-Honest (some b) rx w rest h =
        silent-Honest w (world.tune b w) (λ u w'. rest new w') (traced.tunes b w)
          (λ u w' e. h new w' e)

    drain_wire-written : (m : DrainMode) (w : W) → written (drain_wire world m w).1 ≡ written w
    drain_wire-written tc_drain w = traced.drains w
    drain_wire-written compute_wire_time w = refl

    settle_wire-written : (ms : ℕ) (w : W) → written (settle_wire world ms w) ≡ written w
    settle_wire-written ms w = elim (Bool-cases (ltb 0 ms)) [
      | inl e ↦ rw e (traced.sleeps ms w)
      | inr e ↦ rw e refl
    ]

    retune_after-Honest :
        (config : DrainConfig) (o : Option ℕ) (rx : Receiver) (w : W)
        (rest : Receiver → W → Outcome E W)
        → ((rx : Receiver) (w' : W) → written w' ≡ written w → Honest (rest rx w'))
        → Honest (retune_after world config o rx s w rest)
    retune_after-Honest config none rx w rest h = h rx w refl
    retune_after-Honest config (some b) rx w rest h =
        silent-Honest w (drain_wire world config.mode w) _ (drain_wire-written config.mode w)
          (λ u w1 e1.
            let ms = settle_ms config.margin_ms in
            silent-Honest w1 (world.tune b (settle_wire world ms w1)) _
              (traced.tunes b (settle_wire world ms w1) ∙ settle_wire-written ms w1)
              (λ v w2 e2.
                h new (world.log_note (switched ms b) w2)
                  (traced.logs_note (switched ms b) w2 ∙ e2 ∙ e1)))

    after_reply-Honest :
        (f : Frame) (o : Option (Result SessionError (Unit {0}) × Session)) (rx : Receiver) (w : W)
        (again : Receiver → Session → W → Outcome E W)
        → on_reply f s ≡ o
        → Heard o
        → Wrote log w
        → Again again
        → Honest (after_reply world o rx w again)
    unfolding after_reply
    after_reply-Honest f none rx w again e h wrote go = h
    after_reply-Honest f (some (ok u, s')) rx w again e h wrote go =
        go log rx s' w (hears f r e) h wrote
    after_reply-Honest f (some (err x, s')) rx w again e h wrote go =
        failed-Honest log s' w (Error.session x) (hears f r e) refl

    after_await-Honest :
        (w : W) (o : Awaited E W) (again : Receiver → Session → W → Outcome E W)
        → s.awaiting ≡ true
        → Quiet world written traced w o
        → Wrote log w
        → Again again
        → Honest (after_await world s o again)
    unfolding after_await
    after_await-Honest w (got f rx w') again busy q wrote go =
        let (rx', x) = report_discarded world rx w' in
        after_reply-Honest f (on_reply f s) rx' (world.log_reply f x) again refl
          (on_reply-Heard f s (Reaches-IsConsistent r) busy)
          (traced.logs_reply f x ∙ report_discarded-written world written traced rx w' ∙ q ∙ wrote)
          go
    after_await-Honest w (failed e w') again busy q wrote go = failed-Honest log s w' e r q
    after_await-Honest w waits_on again busy q wrote go = tt

  map-bytes_snoc :
      (log : List Send) (x : Send) (w w' : W)
      → Wrote log w
      → written w' ≡ written w ++ x.bytes ∷ []
      → Wrote (log ++ x ∷ []) w'
  map-bytes_snoc log x w w' e e' =
      e' ∙ ap (λ (l : List Bytes). l ++ x.bytes ∷ []) e ∙ rw (map-append, append_assoc) refl

  pub exchange-Honest :
      (polls : ℕ) (config : DrainConfig) (log : List Send) (x : Send) (rx : Receiver) (s : Session)
      (w : W) (again : Receiver → Session → W → Outcome E W)
      → Reaches steps (log ++ x ∷ []) s
      → x.expect_reply ≡ s.awaiting
      → Wrote log w
      → Again again
      → Honest (exchange world polls config x rx s w again)
  unfolding exchange
  exchange-Honest polls config log x rx s w again r same wrote go =
      let log' = log ++ x ∷ [] in
      retune_before-Honest log' s r x.retune_before_send rx w _ (λ rx1 w1 e1.
        io_or-Honest log' s r (world.write_all x.bytes (world.log_step x.label x.bytes w1)) _
          (λ u w2 e2. silent-Honest log' s r w2 (world.flush w2) _ (traced.flushes w2) (λ v w3 e3.
            retune_after-Honest log' s r config x.retune_after_send rx1 w3 _ (λ rx4 w4 e4.
              let wrote' : Wrote log' w4 = map-bytes_snoc log x w w4 wrote (
                e4
                ∙ e3
                ∙ traced.writes x.bytes (world.log_step x.label x.bytes w1) w2 u e2
                ∙ ap (λ (l : List Bytes). l ++ x.bytes ∷ [])
                    (traced.logs_step x.label x.bytes w1 ∙ e1)) in
              elim (Bool-cases x.expect_reply) [
                | inr e ↦ rw e (go log' rx4 s w4 r (sym same ∙ e) wrote')
                | inl e ↦ rw e (
                    after_await-Honest log' s r w4 _ again (sym same ∙ e)
                      (await-Quiet world written traced polls x.label x.timeout_ms
                        (world.now w4 + x.timeout_ms * 1_000_000) rx4 w4)
                      wrote' go)
              ]))))
