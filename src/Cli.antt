-- ===== src/Cli.antt =====
-- The command line of src/bin/stcbsl.rs: `Args` and `parse_args`. The texts of the errors are
-- kept as what they are formatted from.
pub mod Usage
pub mod Settings
pub mod Console
pub mod Explain
pub mod Run
pub mod Explained
pub mod Recorded
pub mod Sends
pub mod ReadBack
pub mod Flashed
pub mod Timed
pub mod Exits
pub mod Served
use stcbsl.Base.{
  ℕ, zero, suc, Bool, true, false, ◌||◌, Option, none, some, List, [], ◌∷◌, ◌++◌, Result, ok, err,
  ◌==◌, if◌then◌else◌,
}
use stcbsl.Base.Int.{ℤ}
use stcbsl.Base.Text.{Text, codes, same_text}
use stcbsl.Base.Radix.{from_str_radix, i64_from_str}
use stcbsl.Driver.{DrainMode, tc_drain, compute_wire_time, default_drain}

pub record Args : Type 0 where
  pub port : Option Text
  pub transfer_baud : ℕ
  pub handshake_baud : ℕ
  pub parity_even : Bool
  pub wait_s : ℕ
  pub blocks : Option ℕ
  pub write_options : Bool
  pub quiet : Bool
  pub drain_mode : DrainMode
  pub drain_margin_ms : ℤ
  pub command : Option Text
  pub positional : List Text

abbrev pub default_args : Args
default_args = record {
  port = none;
  transfer_baud = 115200;
  handshake_baud = 2400;
  parity_even = false;
  wait_s = 30;
  blocks = none;
  write_options = true;
  quiet = false;
  drain_mode = default_drain.mode;
  drain_margin_ms = default_drain.margin_ms;
  command = none;
  positional = [];
}

-- The arms of the match on an argument.
pub data Flag : Type 0 where
  help quiet port baud handshake_baud drain_mode drain_margin parity wait blocks keep_options
        skip_options :
      Flag
  unknown operand : Flag

pub data ArgError : Type 0 where
  needs_value : Flag → ArgError
  not_a_number : Flag → ArgError
  not_a_drain_mode not_a_parity unknown_option : Text → ArgError

-- What one argument, with the one behind it, does: it ends the program with the help text or an
-- error, or it is read, alone or with its value.
pub data Taken : Type 0 where
  helps : Taken
  fails : ArgError → Taken
  one two : Args → Taken

-- How `parse_args` ends, if it does not return: the program prints its usage and exits.
pub data Halt : Type 0 where
  usage : Halt
  bad_args : ArgError → Halt

abbrev pub is_text : Text → Text → Bool
is_text word arg = same_text arg word

abbrev pub begins_with_dash : Text → Bool
begins_with_dash [] = false
begins_with_dash (c ∷ cs) = c == b'-'

unfoldable pub flag_of : Text → Flag
unfolding same_text
flag_of arg =
    if is_text (codes "-h") arg || is_text (codes "--help") arg
    then help
    else if is_text (codes "-q") arg || is_text (codes "--quiet") arg
    then quiet
    else if is_text (codes "-p") arg || is_text (codes "--port") arg
    then port
    else if is_text (codes "--baud") arg
    then baud
    else if is_text (codes "--handshake-baud") arg
    then handshake_baud
    else if is_text (codes "--drain-mode") arg
    then drain_mode
    else if is_text (codes "--drain-margin") arg
    then drain_margin
    else if is_text (codes "--parity") arg
    then parity
    else if is_text (codes "--wait") arg
    then wait
    else if is_text (codes "--blocks") arg
    then blocks
    else if is_text (codes "--keep-options") arg
    then keep_options
    else if is_text (codes "--skip-options") arg
    then skip_options
    else if begins_with_dash arg
    then unknown
    else operand

-- An option's value, or the error that there is none.
abbrev pub with_value : Flag → Option Text → (Text → Taken) → Taken
with_value flag none f = fails (needs_value flag)
with_value flag (some v) f = f v

-- `.parse().map_err(..)?`, and what is done with the number.
abbrev pub with_number : {A : Type 0} → Flag → Option A → (A → Args) → Taken
with_number flag none f = fails (not_a_number flag)
with_number flag (some n) f = two (f n)

unfoldable pub drain_mode_of : Text → Args → Taken
unfolding same_text
drain_mode_of v a =
    if is_text (codes "tcdrain") v
    then two (record a { drain_mode = tc_drain })
    else if is_text (codes "wire") v
    then two (record a { drain_mode = compute_wire_time })
    else fails (not_a_drain_mode v)

unfoldable pub parity_of : Text → Args → Taken
unfolding same_text
parity_of v a =
    if is_text (codes "none") v
    then two (record a { parity_even = false })
    else if is_text (codes "even") v
    then two (record a { parity_even = true })
    else fails (not_a_parity v)

-- The first operand is the command, the others are positional.
abbrev pub operand_of : Text → Args → Option Text → Args
operand_of arg a none = record a { command = some arg }
operand_of arg a (some c) = record a { positional = a.positional ++ arg ∷ [] }

-- The match of `parse_args`, on an argument, its text and the one behind it.
unfoldable pub take_arg : Flag → Text → Option Text → Args → Taken
unfolding drain_mode_of parity_of from_str_radix i64_from_str
take_arg help arg next a = helps
take_arg quiet arg next a = one (record a { quiet = true })
take_arg port arg next a = with_value port next (λ v. two (record a { port = some v }))
take_arg baud arg next a =
    with_value baud next (λ v.
      with_number baud (from_str_radix 10 0xFFFF_FFFF v) (λ n. record a { transfer_baud = n }))
take_arg handshake_baud arg next a = with_value handshake_baud next (λ v.
    with_number handshake_baud (from_str_radix 10 0xFFFF_FFFF v)
      (λ n. record a { handshake_baud = n }))
take_arg drain_mode arg next a = with_value drain_mode next (λ v. drain_mode_of v a)
take_arg drain_margin arg next a =
    with_value drain_margin next
      (λ v. with_number drain_margin (i64_from_str v) (λ n. record a { drain_margin_ms = n }))
take_arg parity arg next a = with_value parity next (λ v. parity_of v a)
take_arg wait arg next a = with_value wait next (λ v.
    with_number wait (from_str_radix 10 0xFFFF_FFFF_FFFF_FFFF v) (λ n. record a { wait_s = n }))
take_arg blocks arg next a =
    with_value blocks next
      (λ v. with_number blocks (from_str_radix 10 0xFF v) (λ n. record a { blocks = some n }))
take_arg keep_options arg next a = one (record a { write_options = true })
take_arg skip_options arg next a = one (record a { write_options = false })
take_arg unknown arg next a = fails (unknown_option arg)
take_arg operand arg next a = one (operand_of arg a a.command)

-- The end of a round of the loop: `after_one` and `after_two` go on behind one argument and two.
abbrev pub go_on : Taken → (after_one after_two : Args → Result Halt Args) → Result Halt Args
go_on helps after_one after_two = err usage
go_on (fails e) after_one after_two = err (bad_args e)
go_on (one a) after_one after_two = after_one a
go_on (two a) after_one after_two = after_two a

unfoldable pub parse_loop : List Text → Args → Result Halt Args
unfolding take_arg flag_of
parse_loop [] a = ok a
parse_loop (arg ∷ []) a = go_on (take_arg (flag_of arg) arg none a) ok ok
parse_loop (arg ∷ v ∷ rest) a =
    go_on (take_arg (flag_of arg) arg (some v) a) (parse_loop (v ∷ rest)) (parse_loop rest)

-- `parse_args`.
unfoldable pub parse_args : List Text → Result Halt Args
unfolding parse_loop
parse_args argv = parse_loop argv default_args
