-- ===== src/Tests/Wires.antt =====
-- The types of the frames of a session of src/protocol/stc89.rs.
use stcbsl.Base.{All, true, arith}
use stcbsl.Base.Bytes.{IsByte}
use stcbsl.Protocol.{flash, default_options}
use stcbsl.Tests.Plans.{status_frame, info, parsed, image, planned, is_planned}
use stcbsl.Stc89.Plan.Typed.{StepIsTyped, plan-IsTyped}

bytes_of_status : All IsByte status_frame.payload
bytes_of_status = omega arith

plan-IsTyped_example : All StepIsTyped planned
plan-IsTyped_example =
    plan-IsTyped status_frame 2400 info (flash image true) default_options bytes_of_status
      (omega arith) parsed is_planned
