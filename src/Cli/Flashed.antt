-- ===== src/Cli/Flashed.antt =====
-- The command `write` (or `flash`) of src/bin/stcbsl.rs from end to end: from the text of the file to
-- the flash of the chip.
use stcbsl.Base.{
  ℕ, ◌*◌, ◌≡◌, refl, sym, ap, ◌∙◌, ◌⊎◌, inl, inr, Bool, true, false, Option, none, some, List, [],
  ◌∷◌, ◌++◌, map, replicate, Result, ok, err, length, get_or, ltb, ◌!=◌, if◌then◌else◌, All,
}
use mathlib.Core.Path.{subst}
use stcbsl.Base.Bytes.{Bytes, IsByte}
use stcbsl.Base.Text.{Text, codes, same_text}
use stcbsl.Frame.{encode}
use stcbsl.Ihex.{Image, HexError, parse}
use stcbsl.Ihex.Bounds.{IsImage, parse-IsImage}
use stcbsl.Ihex.Checked.{Fine}
use stcbsl.Protocol.{flash}
use stcbsl.Session.{Step}
use stcbsl.Stc89.Frames.{erase_blocks_for}
use stcbsl.Stc89.Heard.{hear_all, hear_all-pulses, hear_all-flash}
use stcbsl.Stc89.Image.{Flash}
use stcbsl.Cli.{Args, default_args, parse_args, parse_loop}
use stcbsl.Cli.Console.{Line, gap_note, lowest_note, System}
use stcbsl.Cli.Explain.{over, say_if, describe_image, load_image, on_text, on_parsed, or_stop}
use stcbsl.Cli.Recorded.{Recorded}
use stcbsl.Cli.Run.{Fuel, options_of, cmd_session, flash_file, dispatch, with_command, run}
use stcbsl.Cli.Sends.{SessionSent, Sends, Sends-map, cmd_session-Sends}

-- A chip that hears these byte strings has the image from address 0 on, 0xFF behind it up to the end
-- of the erased blocks, and beyond what it had.
abbrev pub Programs : Bytes → List Bytes → Type 0
Programs image out =
    (m : Flash) (a : ℕ)
    → hear_all out m a ≡ (
        if ltb a (length image)
        then get_or image a 0
        else if ltb a (erase_blocks_for (length image) * 256)
        then 0xFF
        else m a)

module _ {P E F M : Type 0} (system : System P E F M) (sent : M → List Bytes)
    (recorded : Recorded system sent) (args : Args) where
  -- The file is read, is Intel HEX, and its image is programmed by the bytes that were sent.
  abbrev pub Flashes : Text → M → List Bytes → Type 0
  Flashes path m after =
      (text : Text) × (image : Image) × (out : List Bytes) × ((system.read_to_string path m).0
        ≡ ok text)
      × (parse text ≡ ok image)
      × (after ≡ sent m ++ out)
      × Programs image.bytes out

  say_if-sent : (b : Bool) (line : Line) (m : M) → sent (say_if system b line m) ≡ sent m
  say_if-sent true line m = recorded.prints line m
  say_if-sent false line m = refl

  describe_image-sent :
      (quiet : Bool) (path : Text) (image : Image) (m : M)
      → sent (describe_image system quiet path image m) ≡ sent m
  describe_image-sent true path image m = refl
  describe_image-sent false path image m =
      say_if-sent (ltb 0 image.gap_bytes) (gap_note image.gap_bytes) _
      ∙ say_if-sent (image.lowest_addr != 0) (lowest_note image.lowest_addr) _
      ∙ recorded.prints _ m

  session-Programs :
      (image : Bytes) (before after : List Bytes)
      → All IsByte image
      → SessionSent system sent recorded args (flash image args.write_options) before after
      → (out : List Bytes) × (after ≡ before ++ out) × Programs image out
  session-Programs image before after bytes (info, frame, steps, n, seen, planned, e) = (
    replicate n (0x7F ∷ []) ++ map (λ (step : Step). encode step.frame) steps,
    e,
    λ m a.
        ap (λ (x : Flash). x a)
          (hear_all-pulses n (map (λ (step : Step). encode step.frame) steps) m)
        ∙ hear_all-flash info image args.write_options (options_of args) m a bytes planned,
  )

  parsed-Sends :
      (fuel : Fuel) (path text : Text) (m m1 : M) (r : Result HexError Image)
      → (system.read_to_string path m).0 ≡ ok text
      → parse text ≡ r
      → sent m1 ≡ sent m
      → Sends sent (Flashes path m) (
          or_stop system
            (on_parsed system args.quiet path r m1)
            (λ image m'. cmd_session system fuel args (flash image args.write_options) m'))
  parsed-Sends fuel path text m m1 (err x) read e same = tt
  parsed-Sends fuel path text m m1 (ok image) read e same =
      let bytes : All IsByte image.bytes =
        (subst (λ (r : Result HexError Image). Fine IsImage r) e (parse-IsImage text)).bytes in
      let start = describe_image system args.quiet path image m1 in
      Sends-map sent
        (SessionSent system sent recorded args (flash image.bytes args.write_options) (sent start))
        (Flashes path m) _
        (λ l s.
          let (out, q, programs) = session-Programs image.bytes (sent start) l bytes s in
          (
            text,
            image,
            out,
            read,
            e,
            q
                ∙ ap (λ (x : List Bytes). x ++ out)
                    (describe_image-sent args.quiet path image m1 ∙ same),
            programs,
          ))
        (cmd_session-Sends system sent recorded args fuel (flash image.bytes args.write_options)
          start)

  text-Sends :
      (fuel : Fuel) (path : Text) (m : M) (r : Result F Text × M)
      → system.read_to_string path m ≡ r
      → Sends sent (Flashes path m) (
          or_stop system
            (on_text system args.quiet path r)
            (λ image m'. cmd_session system fuel args (flash image args.write_options) m'))
  text-Sends fuel path m (err x, m1) e = tt
  text-Sends fuel path m (ok text, m1) e =
      parsed-Sends fuel path text m m1 (parse text) (ap (λ (p : Result F Text × M). p.0) e) refl
        (sym (ap (λ (p : Result F Text × M). sent p.1) e) ∙ recorded.reads_file path m)

  abbrev pub FlashesFirst : M → List Bytes → Type 0
  FlashesFirst m after =
      (path : Text) × (rest : List Text) × (args.positional ≡ path ∷ rest) × Flashes path m after

  flash_file-Sends :
      (fuel : Fuel) (m : M) (paths : List Text)
      → args.positional ≡ paths
      → Sends sent (FlashesFirst m) (flash_file system fuel args paths m)
  unfolding flash_file load_image
  flash_file-Sends fuel m [] e = tt
  flash_file-Sends fuel m (path ∷ rest) e =
      Sends-map sent (Flashes path m) (FlashesFirst m) _ (λ l h. (path, rest, e, h))
        (text-Sends fuel path m _ refl)

  dispatch-Sends :
      (fuel : Fuel) (cmd : Text) (m : M)
      → (cmd ≡ codes "write") ⊎ (cmd ≡ codes "flash")
      → Sends sent (FlashesFirst m) (dispatch system fuel args cmd m)
  unfolding dispatch same_text
  dispatch-Sends fuel cmd m (inl e) = rw e (flash_file-Sends fuel m args.positional refl)
  dispatch-Sends fuel cmd m (inr e) = rw e (flash_file-Sends fuel m args.positional refl)

  with_command-Sends :
      (fuel : Fuel) (cmd : Text) (m : M) (o : Option Text)
      → (cmd ≡ codes "write") ⊎ (cmd ≡ codes "flash")
      → o ≡ some cmd
      → Sends sent (FlashesFirst m) (with_command system fuel args o m)
  with_command-Sends fuel cmd m none which c = cc
  with_command-Sends fuel cmd m (some x) which c =
      let same : x ≡ cmd = cc in rw same (dispatch-Sends fuel cmd m which)

  args-Sends :
      (fuel : Fuel) (cmd : Text) (m : M) (argv : List Text)
      → (cmd ≡ codes "write") ⊎ (cmd ≡ codes "flash")
      → args.command ≡ some cmd
      → parse_args argv ≡ ok args
      → Sends sent (FlashesFirst m) (run system fuel argv m)
  unfolding run parse_args parse_loop
  args-Sends fuel cmd m [] which c e =
      let given : default_args ≡ args = cc in
      let none_given : ◌≡◌ {A = Option Text} none (some cmd) =
        ap (λ (a : Args). a.command) given ∙ c in
      cc
  args-Sends fuel cmd m (arg ∷ argv) which c e =
      rw e (with_command-Sends fuel cmd m args.command which c)

-- From the file to the flash. If `stcbsl write FILE` (or `flash FILE`) returns Ok, then the file of
-- the first positional argument was read and is Intel HEX, and the bytes that were sent program its
-- image: a chip that reads frames as `Frame::decode` does, and does to its flash what each frame
-- from the host says, holds the image from address 0, 0xFF behind it up to the end of the erased
-- blocks, and beyond them what it held before. What was sent is a list that the writes of the
-- serial port add to when they succeed, and that no other operation outside changes.
pub run-flash :
    {P E F M : Type 0} (system : System P E F M) (sent : M → List Bytes)
    (recorded : Recorded system sent) (fuel : Fuel) (argv : List Text) (args : Args) (cmd : Text)
    (m m' : M)
    → (cmd ≡ codes "write") ⊎ (cmd ≡ codes "flash")
    → parse_args argv ≡ ok args
    → args.command ≡ some cmd
    → run system fuel argv m ≡ over (ok tt) m'
    → FlashesFirst system sent recorded args m (sent m')
run-flash system sent recorded fuel argv args cmd m m' which parsed named e =
    subst (Sends sent (FlashesFirst system sent recorded args m)) e
      (args-Sends system sent recorded args fuel cmd m argv which named parsed)
