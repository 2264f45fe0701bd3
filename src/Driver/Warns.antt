-- ===== src/Driver/Warns.antt =====
-- What the errors of `run` of src/driver.rs tell the user of the flash.
use mathlib.Core.Path.{subst}
use stcbsl.Base.{ℕ, ◌≡◌, refl, ap, ◌∙◌, true, List, ◌++◌, take, drop, err, ◌&&◌}
use stcbsl.Base.Bytes.{Bytes}
use stcbsl.Base.Text.{Text}
use stcbsl.Session.{Step, Session, new}
use stcbsl.Session.Flags.{any_write}
use stcbsl.Session.Inv.{sent}
use stcbsl.Session.Progress.{flash_is_indeterminate_iff}
use stcbsl.Driver.{
  World, Error, io, protocol, session, frame, timeout, no_bootloader, indeterminate_flash,
  DrainConfig, done, run,
}
use stcbsl.Driver.Actions.{is_wrapped}
use stcbsl.Driver.Traced.{Traced}
use stcbsl.Driver.Honest.{Honest}
use stcbsl.Driver.Run.{run-Honest}
use stcbsl.Driver.Shown.{error_text, warning}

wrapped_cause :
    {E : Type 0} (e : Error E)
    → is_wrapped e ≡ true
    → (cause : Error E) × (e ≡ indeterminate_flash cause)
wrapped_cause (io e) h = cc
wrapped_cause (protocol e) h = cc
wrapped_cause (session e) h = cc
wrapped_cause (frame e) h = cc
wrapped_cause (timeout l ms) h = cc
wrapped_cause (no_bootloader ms n) h = cc
wrapped_cause (indeterminate_flash e) h = (e, refl)

-- Nobody is left in the dark about a flash that is half written. When a run of the driver ends with
-- an error, after a write step has been sent and while a write step is still to be acknowledged,
-- the text of the error is that of its cause with the warning of an indeterminate flash behind it.
-- What has been written is a list that `write_all` adds to when it succeeds, and that no other
-- operation of the world changes.
pub run-warns :
    {E W : Type 0} (world : World E W) (written : W → List Bytes) (traced : Traced world written)
    (io_text : E → Text) (steps : List Step) (polls rounds : ℕ) (config : DrainConfig) (w w' : W)
    (e : Error E) (s : Session)
    → run world polls rounds config (new steps) w ≡ done (err e) s w'
    → any_write (take (sent s) s.steps) ≡ true
    → any_write (drop s.at s.steps) ≡ true
    → (cause : Error E) × (error_text io_text e ≡ error_text io_text cause ++ warning)
unfolding error_text
run-warns world written traced io_text steps polls rounds config w w' e s ended begun left =
    let (log, reached, told) =
      subst (Honest world written traced steps (written w)) ended
        (run-Honest world written traced steps polls rounds config w) in
    let both : (any_write (take (sent s) s.steps) && any_write (drop s.at s.steps)) ≡ true =
      rw (begun, left) refl in
    let (cause, is) = wrapped_cause e (told ∙ flash_is_indeterminate_iff reached ∙ both) in
    (cause, ap (error_text io_text) is)
