-- ===== src/Cli/Explain.antt =====
-- `load_image` and `cmd_explain` of src/bin/stcbsl.rs.
use stcbsl.Base.{
  ℕ, suc, ◌*◌, ◌/◌, Bool, true, ◌&&◌, List, [], ◌∷◌, Result, ok, err, length, ltb, ◌==◌, ◌!=◌,
  if◌then◌else◌,
}
use stcbsl.Base.Bytes.{Bytes}
use stcbsl.Base.Text.{Text, codes}
use stcbsl.Ihex.{Image, HexError, parse}
use stcbsl.Stc89.{chunks, padded_image}
use stcbsl.Stc89.Frames.{erase_blocks_for, erase_block, write_block, block_ack}
use stcbsl.Cli.{Args}
use stcbsl.Cli.Console.{
  Line, image_size, lowest_note, gap_note, erase_rule, write_count, block_row, explain_end,
  CliError, unreadable, bad_hex, needs_file, System,
}

-- How a command ends: it returns, it ends the program with an exit code, it panics, or, in the
-- model, it runs out of fuel.
pub data Ended (P E F M : Type 0) : Type 0 where
  over : Result (CliError P E F) (Unit {0}) → M → Ended P E F M
  exits : ℕ → M → Ended P E F M
  panics unended : Ended P E F M

-- What `explain` shows of a block: its address, the byte that acknowledges it, and whether it is
-- only padding.
pub record Row : Type 0 where
  pub addr : ℕ
  pub ack : ℕ
  pub padding : Bool

unfoldable pub all_ff : Bytes → Bool
all_ff [] = true
all_ff (b ∷ bs) = b == 0xFF && all_ff bs

-- The loop over the chunks, from index `i` on.
unfoldable pub rows_from : ℕ → List Bytes → List Row
unfolding all_ff block_ack
rows_from i [] = []
rows_from i (chunk ∷ rest) =
    record { addr = i * write_block; ack = block_ack chunk; padding = all_ff chunk }
    ∷ rows_from (suc i) rest

-- The rows for an image.
unfoldable pub explain_rows : Bytes → List Row
unfolding rows_from chunks erase_blocks_for
explain_rows image =
    rows_from 0 (chunks write_block (padded_image image (erase_blocks_for (length image))))

module _ {P E F M : Type 0} (system : System P E F M) where
  abbrev pub say_if : Bool → Line → M → M
  say_if b line m = if b then system.print line m else m

  abbrev pub describe_image : Bool → Text → Image → M → M
  describe_image quiet path image m =
      if quiet
      then m
      else say_if (ltb 0 image.gap_bytes) (gap_note image.gap_bytes) (
          say_if (image.lowest_addr != 0) (lowest_note image.lowest_addr)
            (system.print (image_size path (length image.bytes)) m))

  abbrev pub on_parsed : Bool → Text → Result HexError Image → M → Result (CliError P E F) Bytes × M
  on_parsed quiet path (ok image) m = (ok image.bytes, describe_image quiet path image m)
  on_parsed quiet path (err e) m = (err (bad_hex path e), m)

  abbrev pub on_text : Bool → Text → Result F Text × M → Result (CliError P E F) Bytes × M
  on_text quiet path (ok text, m) = on_parsed quiet path (parse text) m
  on_text quiet path (err e, m) = (err (unreadable path e), m)

  unfoldable pub load_image : Text → Bool → M → Result (CliError P E F) Bytes × M
  load_image path quiet m = on_text quiet path (system.read_to_string path m)

  -- `?` on what `load_image` returned, before the rest of the command.
  abbrev pub or_stop :
      {A : Type 0} → Result (CliError P E F) A × M → (A → M → Ended P E F M) → Ended P E F M
  or_stop (ok a, m) rest = rest a m
  or_stop (err e, m) rest = over (err e) m

  unfoldable pub print_rows : List Row → M → M
  print_rows [] m = m
  print_rows (r ∷ rs) m = print_rows rs (system.print (block_row r.addr r.ack r.padding) m)

  unfoldable pub explain_image : Bytes → M → M
  unfolding explain_rows print_rows erase_blocks_for
  explain_image image m =
      let blocks = erase_blocks_for (length image) in
      system.print explain_end (
        print_rows (explain_rows image) (
          system.print (write_count (blocks * erase_block / write_block))
            (system.print (erase_rule blocks) m)))

  -- From the first positional argument on.
  abbrev pub explain_file : Bool → List Text → M → Ended P E F M
  explain_file quiet [] m = over (err (needs_file (codes "explain"))) m
  explain_file quiet (path ∷ paths) m =
      or_stop (load_image path quiet m) (λ image m'. over (ok tt) (explain_image image m'))

  unfoldable pub cmd_explain : Args → M → Ended P E F M
  unfolding load_image explain_image
  cmd_explain args m = explain_file args.quiet args.positional m
