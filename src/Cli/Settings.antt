-- ===== src/Cli/Settings.antt =====
-- Command lines of src/bin/stcbsl.rs, written out from the settings they make.
use stcbsl.Base.{
  ℕ, ◌≤◌, ◌≡◌, refl, ap, ◌∙◌, Bool, true, false, Option, none, some, List, [], ◌∷◌, ◌++◌, ok, All,
  if◌then◌else◌,
}
use stcbsl.Base.Int.{ℤ}
use stcbsl.Base.Text.{Text, codes, decimal, same_text}
use stcbsl.Base.Radix.{from_str_radix-decimal, decimal_i64, i64_from_str-decimal_i64, IsI64}
use stcbsl.Driver.{DrainMode, tc_drain, compute_wire_time}
use stcbsl.Cli.{
  Args, default_args, Flag, one, two, begins_with_dash, flag_of, operand_of, take_arg, parse_loop,
  parse_args, drain_mode_of, parity_of,
}

-- One option with its value, or one operand.
pub data Setting : Type 0 where
  quiet keep_options skip_options : Setting
  port operand : Text → Setting
  baud handshake_baud wait blocks : ℕ → Setting
  drain_mode : DrainMode → Setting
  drain_margin : ℤ → Setting
  parity_even : Bool → Setting

abbrev pub drain_word : DrainMode → Text
drain_word tc_drain = codes "tcdrain"
drain_word compute_wire_time = codes "wire"

-- The arguments that make a setting, by its long option.
abbrev pub words : Setting → List Text
words quiet = codes "--quiet" ∷ []
words keep_options = codes "--keep-options" ∷ []
words skip_options = codes "--skip-options" ∷ []
words (port dev) = codes "--port" ∷ dev ∷ []
words (operand arg) = arg ∷ []
words (baud n) = codes "--baud" ∷ decimal n ∷ []
words (handshake_baud n) = codes "--handshake-baud" ∷ decimal n ∷ []
words (wait n) = codes "--wait" ∷ decimal n ∷ []
words (blocks n) = codes "--blocks" ∷ decimal n ∷ []
words (drain_mode m) = codes "--drain-mode" ∷ drain_word m ∷ []
words (drain_margin z) = codes "--drain-margin" ∷ decimal_i64 z ∷ []
words (parity_even b) = codes "--parity" ∷ (if b then codes "even" else codes "none") ∷ []

abbrev pub command_line : List Setting → List Text
command_line [] = []
command_line (s ∷ ss) = words s ++ command_line ss

-- The first operand, or a later one.
abbrev pub make_operand : Text → Args → Option Text → Args
make_operand arg a none = record a { command = some arg }
make_operand arg a (some c) = record a { positional = a.positional ++ arg ∷ [] }

-- What a setting changes: an option the field it is about, the first operand the command, every
-- later one the list of the positional arguments, at its end.
abbrev pub make : Setting → Args → Args
make quiet a = record a { quiet = true }
make keep_options a = record a { write_options = true }
make skip_options a = record a { write_options = false }
make (port dev) a = record a { port = some dev }
make (operand arg) a = make_operand arg a a.command
make (baud n) a = record a { transfer_baud = n }
make (handshake_baud n) a = record a { handshake_baud = n }
make (wait n) a = record a { wait_s = n }
make (blocks n) a = record a { blocks = some n }
make (drain_mode m) a = record a { drain_mode = m }
make (drain_margin z) a = record a { drain_margin_ms = z }
make (parity_even b) a = record a { parity_even = b }

abbrev pub make_all : List Setting → Args → Args
make_all [] a = a
make_all (s ∷ ss) a = make_all ss (make s a)

-- The numbers fit their types, and an operand does not look like an option.
abbrev pub IsSetting : Setting → Type 0
IsSetting (operand arg) = begins_with_dash arg ≡ false
IsSetting (baud n) = n ≤ 0xFFFF_FFFF
IsSetting (handshake_baud n) = n ≤ 0xFFFF_FFFF
IsSetting (wait n) = n ≤ 0xFFFF_FFFF_FFFF_FFFF
IsSetting (blocks n) = n ≤ 0xFF
IsSetting (drain_margin z) = IsI64 z
IsSetting _ = Unit

parse_loop-one :
    (arg : Text) (rest : List Text) (a a' : Args)
    → ((next : Option Text) → take_arg (flag_of arg) arg next a ≡ one a')
    → parse_loop (arg ∷ rest) a ≡ parse_loop rest a'
unfolding parse_loop
parse_loop-one arg [] a a' h = rw (h none) refl
parse_loop-one arg (v ∷ rest) a a' h = rw (h (some v)) refl

parse_loop-two :
    (arg v : Text) (rest : List Text) (a a' : Args)
    → take_arg (flag_of arg) arg (some v) a ≡ two a'
    → parse_loop (arg ∷ v ∷ rest) a ≡ parse_loop rest a'
unfolding parse_loop
parse_loop-two arg v rest a a' h = rw h refl

flag_of-operand : (arg : Text) → begins_with_dash arg ≡ false → flag_of arg ≡ Flag.operand
unfolding flag_of same_text
flag_of-operand [] h = refl
flag_of-operand (c ∷ cs) h = rw h refl

operand_of-make_operand :
    (arg : Text) (a : Args) (o : Option Text) → operand_of arg a o ≡ make_operand arg a o
operand_of-make_operand arg a none = refl
operand_of-make_operand arg a (some c) = refl

parse_loop-words :
    (s : Setting) (rest : List Text) (a : Args)
    → IsSetting s
    → parse_loop (words s ++ rest) a ≡ parse_loop rest (make s a)
unfolding flag_of same_text take_arg drain_mode_of parity_of
parse_loop-words quiet rest a h = parse_loop-one _ rest a _ (λ next. refl)
parse_loop-words keep_options rest a h = parse_loop-one _ rest a _ (λ next. refl)
parse_loop-words skip_options rest a h = parse_loop-one _ rest a _ (λ next. refl)
parse_loop-words (port dev) rest a h = parse_loop-two _ _ rest a _ refl
parse_loop-words (operand arg) rest a h =
    parse_loop-one _ rest a _
      (λ next. rw (flag_of-operand arg h) (ap one (operand_of-make_operand arg a a.command)))
parse_loop-words (baud n) rest a h =
    parse_loop-two _ _ rest a _ (rw (from_str_radix-decimal n 0xFFFF_FFFF h) refl)
parse_loop-words (handshake_baud n) rest a h =
    parse_loop-two _ _ rest a _ (rw (from_str_radix-decimal n 0xFFFF_FFFF h) refl)
parse_loop-words (wait n) rest a h =
    parse_loop-two _ _ rest a _ (rw (from_str_radix-decimal n 0xFFFF_FFFF_FFFF_FFFF h) refl)
parse_loop-words (blocks n) rest a h =
    parse_loop-two _ _ rest a _ (rw (from_str_radix-decimal n 0xFF h) refl)
parse_loop-words (drain_mode tc_drain) rest a h = parse_loop-two _ _ rest a _ refl
parse_loop-words (drain_mode compute_wire_time) rest a h = parse_loop-two _ _ rest a _ refl
parse_loop-words (drain_margin z) rest a h =
    parse_loop-two _ _ rest a _ (rw (i64_from_str-decimal_i64 z h) refl)
parse_loop-words (parity_even true) rest a h = parse_loop-two _ _ rest a _ refl
parse_loop-words (parity_even false) rest a h = parse_loop-two _ _ rest a _ refl

parse_loop-command_line :
    (ss : List Setting) (a : Args)
    → All IsSetting ss
    → parse_loop (command_line ss) a ≡ ok (make_all ss a)
parse_loop-command_line [] a h = unfold parse_loop in refl
parse_loop-command_line (s ∷ ss) a (h, hs) =
    parse_loop-words s (command_line ss) a h ∙ parse_loop-command_line ss (make s a) hs

-- A command line written out from settings, by their long options and with decimal numbers, is
-- read as those settings, made in order on the defaults: of several that change the same field the
-- last one stands. The numbers are in the ranges of their types, and no operand begins with '-'.
pub parse_args-command_line :
    (ss : List Setting)
    → All IsSetting ss
    → parse_args (command_line ss) ≡ ok (make_all ss default_args)
unfolding parse_args
parse_args-command_line ss h = parse_loop-command_line ss default_args h
