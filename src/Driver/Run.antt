-- ===== src/Driver/Run.antt =====
-- `run` of src/driver.rs as a whole: what it says at its end.
use stcbsl.Base.{
  ℕ, zero, suc, ◌≡◌, refl, sym, ap, ◌∙◌, inl, inr, List, [], ◌∷◌, ◌++◌, map, append-nil,
}
use stcbsl.Base.Bytes.{Bytes}
use stcbsl.Frame.{encode}
use stcbsl.Session.{Step, Send, new}
use stcbsl.Session.Progress.{start, acts, sends_from, is_finished_sends}
use stcbsl.Driver.{World, DrainConfig, act, run_loop, run}
use stcbsl.Driver.Actions.{next_action-cases}
use stcbsl.Driver.Traced.{Traced}
use stcbsl.Driver.Honest.{Honest, Again, exchange-Honest}

bytes-sends_from :
    (i : ℕ) (steps : List Step)
    → map (λ (x : Send). x.bytes) (sends_from i steps)
      ≡ map (λ (step : Step). encode step.frame) steps
bytes-sends_from i [] = refl
bytes-sends_from i (step ∷ steps) = ap (◌∷◌ (encode step.frame)) (bytes-sends_from (suc i) steps)

module _ {E W : Type 0} (world : World E W) (written : W → List Bytes)
    (traced : Traced world written) (steps : List Step) (before : List Bytes) where
  run_loop-Honest :
      (polls rounds : ℕ) (config : DrainConfig)
      → Again world written traced steps before (run_loop world polls rounds config)
  unfolding run_loop act
  run_loop-Honest polls zero config log rx s w r idle wrote = tt
  run_loop-Honest polls (suc rounds) config log rx s w r idle wrote =
      elim (next_action-cases s idle) [
        | inl (e, fin) ↦
            let (same, intact) = is_finished_sends r fin in
            rw e (
              fin,
              intact,
              wrote
                  ∙ ap (λ (l : List Bytes). before ++ l)
                      (ap (map (λ (x : Send). x.bytes)) same ∙ bytes-sends_from 0 steps),
            )
        | inr (x, s', e, expects) ↦ rw e (
            exchange-Honest world written traced steps before polls config log x rx s' w
              (run_loop world polls rounds config) (acts r e) expects wrote
              (run_loop-Honest polls rounds config))
      ]

-- Whatever the wire does, `run` of a planned session ends in one of these ways, or is still
-- running when the bounds of the model are used up: it never panics. If it returns Ok, then the
-- session is finished, its flash is not indeterminate, and the frames of the plan have been
-- written, in order, each once and nothing else. If it returns an error, then that is wrapped as
-- an indeterminate flash exactly when the session, in the state it was left in, reports one, and
-- that state is one that the plan's session can come to. What has been written is a list that
-- `write_all` adds to when it succeeds, and that no other operation of the world changes.
pub run-Honest :
    {E W : Type 0} (world : World E W) (written : W → List Bytes) (traced : Traced world written)
    (steps : List Step) (polls rounds : ℕ) (config : DrainConfig) (w : W)
    → Honest world written traced steps (written w) (run world polls rounds config (new steps) w)
unfolding run
run-Honest world written traced steps polls rounds config w =
    run_loop-Honest world written traced steps (written w) polls rounds config []
      (record { buf = []; discarded = [] }) (new steps) w start refl (sym (append-nil (written w)))
