-- ===== src/Driver/Traced.antt =====
-- What src/driver.rs puts on the wire, as a list of what was written; the wait for a reply adds
-- nothing to it.
use stcbsl.Base.{
  List-cases, ℕ, zero, suc, leb, ◌≡◌, refl, ◌∙◌, inl, inr, false, Bool-cases, none, some, List, [],
  ◌∷◌, ◌++◌, Result, ok, err,
}
use stcbsl.Base.Bytes.{Bytes}
use stcbsl.Base.Text.{Text}
use stcbsl.Frame.{Frame}
use stcbsl.Receiver.{Receiver, feed, Polled, next_frame}
use stcbsl.Driver.{
  World, Note, rehunting, Awaited, got, failed, waits_on, report_discarded, after_read, wait_round,
  await,
}
use stcbsl.Driver.Actions.{is_wrapped}

-- `written` is the list of the byte strings that went out: `write_all` adds one when it succeeds,
-- and nothing else changes it.
pub record Traced {E W : Type 0} (world : World E W) (written : W → List Bytes) : Type 0 where
  pub writes :
      (bs : Bytes) (w w' : W) (u : Unit {0})
      → world.write_all bs w ≡ (ok u, w')
      → written w' ≡ written w ++ bs ∷ []
  pub reads : (n : ℕ) (w : W) → written (world.read n w).1 ≡ written w
  pub tunes : (b : ℕ) (w : W) → written (world.tune b w).1 ≡ written w
  pub flushes : (w : W) → written (world.flush w).1 ≡ written w
  pub drains : (w : W) → written (world.drain w).1 ≡ written w
  pub sleeps : (ms : ℕ) (w : W) → written (world.sleep ms w) ≡ written w
  pub logs_step : (l : Text) (bs : Bytes) (w : W) → written (world.log_step l bs w) ≡ written w
  pub logs_reply : (f : Frame) (w : W) → written (world.log_reply f w) ≡ written w
  pub logs_note : (n : Note) (w : W) → written (world.log_note n w) ≡ written w
  pub logs_discarded : (bs : Bytes) (w : W) → written (world.log_discarded bs w) ≡ written w

module _ {E W : Type 0} (world : World E W) (written : W → List Bytes)
    (traced : Traced world written) where
  -- A wait writes nothing, and the errors it makes itself are not wrapped.
  abbrev pub Quiet : W → Awaited E W → Type 0
  Quiet w (got f rx w') = written w' ≡ written w
  Quiet w (failed e w') = is_wrapped e ≡ false
  Quiet w waits_on = Unit

  pub report_discarded-written :
      (rx : Receiver) (w : W) → written (report_discarded world rx w).1 ≡ written w
  report_discarded-written rx w = elim (List-cases rx.discarded) [
    | inl e ↦ rw e refl
    | inr (b, bs, e) ↦ rw e (traced.logs_discarded (b ∷ bs) w)
  ]

  Quiet-carry : (w w' : W) (o : Awaited E W) → written w' ≡ written w → Quiet w' o → Quiet w o
  Quiet-carry w w' (got f rx x) e q = q ∙ e
  Quiet-carry w w' (failed x y) e q = q
  Quiet-carry w w' waits_on e q = q

  after_read-Quiet :
      (w : W) (r : Result E Bytes × W) (rx : Receiver) (again : Receiver → W → Awaited E W)
      → written r.1 ≡ written w
      → ((rx : Receiver) (w : W) → Quiet w (again rx w))
      → Quiet w (after_read world r rx again)
  after_read-Quiet w (ok bytes, w') rx again e h =
      Quiet-carry w w' (again (feed rx bytes) w') e (h (feed rx bytes) w')
  after_read-Quiet w (err x, w') rx again e h = refl

  wait_round-Quiet :
      (label : Text) (timeout_ms deadline : ℕ) (p : Polled) (w : W)
      (again : Receiver → W → Awaited E W)
      → ((rx : Receiver) (w : W) → Quiet w (again rx w))
      → Quiet w (wait_round world label timeout_ms deadline p w again)
  unfolding wait_round
  wait_round-Quiet label t d (some (ok f), rx) w again h = report_discarded-written rx w
  wait_round-Quiet label t d (some (err e), rx) w again h =
      let (rx', w') = report_discarded world rx w in
      Quiet-carry w (world.log_note (rehunting e) w') (again rx' (world.log_note (rehunting e) w'))
        (traced.logs_note (rehunting e) w' ∙ report_discarded-written rx w)
        (h rx' (world.log_note (rehunting e) w'))
  wait_round-Quiet label t d (none, rx) w again h = elim (Bool-cases (leb d (world.now w))) [
    | inl e ↦ rw e refl
    | inr e ↦ rw e (after_read-Quiet w (world.read 512 w) rx again (traced.reads 512 w) h)
  ]

  pub await-Quiet :
      (polls : ℕ) (label : Text) (timeout_ms deadline : ℕ) (rx : Receiver) (w : W)
      → Quiet w (await world polls label timeout_ms deadline rx w)
  unfolding await
  await-Quiet zero label t d rx w = tt
  await-Quiet (suc polls) label t d rx w =
      wait_round-Quiet label t d (next_frame rx) w (await world polls label t d)
        (await-Quiet polls label t d)
