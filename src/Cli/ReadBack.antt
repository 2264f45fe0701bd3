-- ===== src/Cli/ReadBack.antt =====
-- What a successful session of src/bin/stcbsl.rs has sent, read by the receiver of src/frame.rs.
use mathlib.Core.Path.{subst}
use stcbsl.Base.{ℕ, ◌≡◌, List, ◌++◌, concat, ok}
use stcbsl.Base.Bytes.{Bytes}
use stcbsl.Frame.{Frame}
use stcbsl.Protocol.{Job, TargetInfo}
use stcbsl.Session.{Step}
use stcbsl.Stc89.{plan}
use stcbsl.Stc89.Status.{parse_status}
use stcbsl.Stc89.ReadBack.{wire, ReadAs, plan-read_back}
use stcbsl.Cli.{Args}
use stcbsl.Cli.Console.{System}
use stcbsl.Cli.Explain.{over}
use stcbsl.Cli.Recorded.{Recorded}
use stcbsl.Cli.Run.{Fuel, options_of, cmd_session}
use stcbsl.Cli.Sends.{Sends, SessionSent, cmd_session-Sends}

-- The whole conversation of the host is readable. When a session of a job ends well, on a port whose
-- writes are recorded, what it has sent is this: for some status frame that `parse_status` accepts
-- and the steps that `plan` makes of it for the job, a number of pulses and the steps' frames. And
-- however the bytes sent are cut into pieces, a receiver that starts empty and is drained after
-- each piece comes to an end, and has then answered exactly the frames of the plan, in order and
-- each without an error, holds nothing more, and has discarded the pulses and nothing else.
pub cmd_session-ReadAs :
    {P E F M : Type 0} (system : System P E F M) (sent : M → List Bytes)
    (recorded : Recorded system sent) (args : Args) (fuel : Fuel) (job : Job) (m m' : M)
    → cmd_session system fuel args job m ≡ over (ok tt) m'
    → (frame : Frame) × (info : TargetInfo) × (steps : List Step) × (n : ℕ) × (parse_status frame
          args.handshake_baud
        ≡ ok info)
      × (plan info job (options_of args) ≡ ok steps)
      × (sent m' ≡ sent m ++ wire n steps)
      × ((pieces : List Bytes) → concat pieces ≡ concat (wire n steps) → ReadAs n steps pieces)
cmd_session-ReadAs system sent recorded args fuel job m m' ended =
    let (info, frame, steps, n, parsed, planned, after) =
      subst (Sends sent (SessionSent system sent recorded args job (sent m))) ended
        (cmd_session-Sends system sent recorded args fuel job m) in
    (
      frame,
      info,
      steps,
      n,
      parsed,
      planned,
      after,
      λ pieces same.
          plan-read_back frame args.handshake_baud info job (options_of args) steps n pieces parsed
            planned same,
    )
