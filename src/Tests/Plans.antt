-- ===== src/Tests/Plans.antt =====
-- src/protocol/stc89.rs on a concrete status packet; the numbers are those of its own tests.
use stcbsl.Base.{
  ℕ, ◌≤◌, ◌<◌, ◌≡◌, refl, true, some, List, [], ◌∷◌, ok, length, replicate, arith, All,
}
use stcbsl.Base.Bytes.{Bytes}
use stcbsl.Base.Text.{codes, decimal}
use stcbsl.Frame.{Frame, mcu}
use stcbsl.Session.{Step}
use stcbsl.Protocol.{flash, TargetInfo, default_options}
use stcbsl.Stc89.{plan, plan_work, job_blocks}
use stcbsl.Stc89.Frames.{frequency_hz, timer_reload, erase_blocks_for}
use stcbsl.Stc89.Timing.{IsReload, timer_reload-eq-ok_iff}
use stcbsl.Stc89.Image.{Flash, perform_all}
use stcbsl.Stc89.Status.{parse_status, target_info, find_chip, read_words, any_differs}
use stcbsl.Stc89.Status.Laws.{IsStatus, reported, parse_status-eq-ok_iff}
use stcbsl.Stc89.Plan.{work_steps, Fits, plan-flash-ok_iff}
use stcbsl.Stc89.Plan.Effect.{plan-flash-effect}
use stcbsl.Stc89.Plan.Order.{OptionIs, plan-option_byte, phases, flash_phases, plan-flash-phases}

-- A status packet of an STC89C52RC at 11 MHz, with the option byte 0xFC.
abbrev status_payload : Bytes
status_payload =
    0x0A
    ∷ 0x6B
    ∷ 0x0A
    ∷ 0x6B
    ∷ 0x0A
    ∷ 0x6B
    ∷ 0x0A
    ∷ 0x6B
    ∷ 0x0A
    ∷ 0x6B
    ∷ 0x0A
    ∷ 0x6B
    ∷ 0x0A
    ∷ 0x6B
    ∷ 0x0A
    ∷ 0x6B
    ∷ 0x66
    ∷ 0x43
    ∷ 0xFC
    ∷ 0xF0
    ∷ 0x02
    ∷ replicate 31 0x00

abbrev pub status_frame : Frame
status_frame = mcu 0x00 status_payload

abbrev hz : ℕ
hz = 10_972_800

status_hz : frequency_hz 0x0A6B 2400 ≡ hz
unfolding frequency_hz
status_hz = refl

erase_blocks_for_513 : erase_blocks_for 513 ≡ 4
unfolding erase_blocks_for
erase_blocks_for_513 = refl

reload_found : timer_reload hz 115200 ≡ ok 0xFD
unfolding timer_reload
reload_found = refl

timer_reload-eq-ok_iff_example : IsReload hz 115200 0xFD
timer_reload-eq-ok_iff_example =
    (timer_reload-eq-ok_iff hz 115200 0xFD (omega arith) (omega arith)).0 reload_found

abbrev pub info : TargetInfo
info = reported status_frame 2400

pub parsed : parse_status status_frame 2400 ≡ ok info
unfolding parse_status any_differs read_words frequency_hz
parsed = refl

parse_status-eq-ok_iff_example : IsStatus status_frame 2400 × (info ≡ info)
parse_status-eq-ok_iff_example = (parse_status-eq-ok_iff status_frame 2400 info).0 parsed

info_chip : info.code_flash ≡ some 8192
unfolding target_info find_chip
info_chip = refl

info_version : info.bsl_version ≡ codes "6.6C"
unfolding target_info decimal
info_version = refl

abbrev pub image : Bytes
image = 0x01 ∷ 0x02 ∷ 0x03 ∷ []

abbrev pub planned : List Step
planned = work_steps info (flash image true) default_options 0xFD 2

pub is_planned : plan info (flash image true) default_options ≡ ok planned
unfolding plan plan_work timer_reload job_blocks frequency_hz target_info
is_planned = refl

-- A flash that an older program has left behind.
abbrev used : Flash
used a = 0x55

plan-flash-effect_example : perform_all planned used 2 ≡ 0x03
plan-flash-effect_example =
    plan-flash-effect info image true default_options used 2 (omega arith) is_planned

plan-option_byte_example : All (OptionIs 0xFC) planned
plan-option_byte_example =
    plan-option_byte status_frame 2400 info (flash image true) default_options parsed is_planned

plan-flash-phases_example : phases planned ≡ flash_phases (erase_blocks_for (length image)) true
plan-flash-phases_example = plan-flash-phases info image true default_options is_planned

plan-flash-ok_iff_example :
    ((reload : ℕ) × (timer_reload info.measured_hz default_options.transfer_baud ≡ ok reload))
    × (0 < length image)
    × Fits (length image) info.code_flash
    × (length image ≤ 65024)
plan-flash-ok_iff_example =
    (plan-flash-ok_iff info image true default_options).0 (planned, is_planned)
