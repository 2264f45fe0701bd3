-- ===== src/Lib.antt =====
-- stcbsl talks to the serial bootloader of STC89 microcontrollers: it waits for the chip's status
-- packet, plans a session (change of baud rate, link test, erase, writes, options, release) and
-- walks it, one request and one reply at a time. This library models it from the command line to
-- the wire; the serial port, the files and the outputs are parameters.
--
-- The parts, from the wire up:
--   * Frame: the codec of src/frame.rs. `encode`, `decode`, `checksum`, `is_echo_of` and the types
--     have the source's names; a byte is a number, and theorems say where they need it below 256.
--     Frame/Hex is `hex` and `unhex`, over the tokens of `split_whitespace`; Frame/Shown, as every
--     other module Shown, has the texts of `Display` and `Debug`.
--     Frame/Shape cuts a byte string at the fields; Frame/RoundTrip and Frame/Corruption hold the
--     laws.
--   * Receiver: `Receiver` and `Hunt` of src/frame.rs, the state being the two buffers. `hunt` is
--     `hunt_loop`, recursive on the buffer, since each `continue` removes its first byte;
--     `next_frame` is `next_loop` on as many rounds as the buffer has bytes, and one more: each
--     `Advanced` removes a byte. Receiver/Loop shows that the bound is never felt.
--     Receiver/Chunks and Receiver/Pieces follow a receiver that is drained after each read.
--   * Session: src/session.rs. A method takes and returns the `Session`; an index out of range, on
--     which the source panics, is `none`. `advance` and `on_reply` are cut at the places where the
--     source reads the current step (`advance_past`, `reply_at`, `check_reply`, `settle`).
--     Session/Inv holds the invariant, Session/Progress the runs, Session/Reply the replies,
--     Session/Complete the session whose replies are all as expected.
--   * Protocol: the types of src/protocol/mod.rs, and the trait `ProtocolFamily` as a record.
--   * Stc89: src/protocol/stc89.rs. Stc89/Frames has the constants, the arithmetic and the frames.
--     One definition for each `Step` that `plan` pushes
--     (`probe_step` to `run_step`); `chunks` is `slice::chunks`, recursive on as many rounds as
--     there are bytes. Stc89/Status is the status packet and the family as a value of the trait;
--     Stc89/Timing, Stc89/Blocks and Stc89/Plan hold the laws. Stc89/Image says what the planned
--     frames do to a flash, each read as the comment on its command describes it: erased cells are
--     0xFF, and programming only clears bits. Stc89/ReadBack reads the bytes of a session with the
--     receiver.
--   * Driver: `run` and `wrap` of src/driver.rs. The traits `Wire` and `Log` and the clock are a
--     record of operations on the state of the world (`World`). The outer loop and the wait for a
--     reply are on fuel, `rounds` and `polls`; the rest of the function after a call that may fail
--     is passed to `io_or`. Driver/Wait and Driver/Fuel show that one round more than the plan has
--     steps, and enough polls, are given; Driver/Traced, Driver/Honest and Driver/Run hold what a
--     run may say at its end. The texts given to `Log::note` are kept as what they are formatted
--     from (`Note`). Driver/Handshake is `handshake`, with the time in nanoseconds; one round more
--     than the nanoseconds it waits is enough, since a read takes at least one.
--     Driver/Handshake/Rule proves what holds after a handshake that succeeds from an invariant of
--     its rounds; Sound, Heard, Pulses, Pacing and Ends beside it hold what it has seen, where
--     that came from, what it has written and how often, and that it ends. Driver/Warns is about
--     the texts of the errors of a run. Driver/Served and Driver/Handshake/Served run both against
--     a chip that answers (Driver/Serves).
--   * Ihex: src/ihex.rs. A text is the list of its bytes, of which `trim` takes off the ASCII white
--     space; a carriage return is left to it by `lines`. A line is cut into `read_record` (up to its
--     fields) and `apply` (the match on the type); the texts in `BadRecord` are kept as what they
--     are formatted from (`Why`), and the panic of `pair[1]` is one of them, shown not to happen.
--     Ihex/Print writes records out, Ihex/File files; Ihex/Cells follows the memory, Ihex/Pieces
--     is the image that bytes at addresses describe, Ihex/Items and Ihex/Meaning are the files that
--     describe it, Ihex/Order says which of their records may change places, and Ihex/Checked and
--     Ihex/Bounds hold the bounds.
--   * Transport: `SerialWire` of src/transport.rs, over the crate serialport, libc and the clock
--     (`Serial`), as built for a Unix that is not macOS.
--   * Cli: src/bin/stcbsl.rs. `parse_args` reads an argument with the one behind it (`take_arg`);
--     Cli/Console has the printed lines, as what they are formatted from, and the world of the
--     driver that `SerialWire` and `CliLog` make; Cli/Explain is `load_image` and `cmd_explain`,
--     Cli/Run the other commands and `main`, with the bounds of the driver's loops as a parameter.
--     `main` panics on an argument that is not Unicode, and when the outputs have refused a line,
--     which it asks at its end: what is said of a command is said of outputs that take every line.
--     Cli/Usage is the help text; Cli/Settings writes command lines out; Cli/Explained compares
--     `explain` with the plan; Cli/Recorded, Cli/Sends and Cli/Flashed follow what is sent, from
--     the file to the flash (with Stc89/Heard, a chip that decodes what it hears); Cli/ReadBack
--     reads it with the receiver; Cli/Exits shows, on a port of Cli/Timed, that bounds are enough,
--     and Cli/Served that a command works when the chip does.
--   * Rxprobe: src/bin/rxprobe.rs, over the same operations of the port. The loop of `count` is on
--     fuel, of which one more than the nanoseconds to count for is enough; Rxprobe/Sample and
--     Rxprobe/Count hold what it reports.
--   * Tests: examples, and each theorem of the list below at concrete values.
--   * Base: the vocabulary: tests on numbers, lists, results, bytes and words, text as the list of
--     its codes, numbers read from text, and the library's names, passed on.
--
-- How they interact: the Cli reads the image with Ihex, opens the Transport, and hands it to the
-- Driver's handshake, for whose answer it asks Stc89 for a plan. A plan is a list of Steps, from
-- which a Session is made; the session encodes each step's frame; the Driver writes it, feeds what
-- it reads to a Receiver, and hands the session the decoded frames as replies.
--
-- Words are numbers with their wrap-around written out (`u8`, `u16`, `u32`, `u64`). `usize` is not
-- bounded; signed results of a subtraction are in ℤ.
--
-- Not modelled: the ioctl of macOS in src/transport.rs; the builds without the feature `serial`;
-- the log `Quiet`, which does nothing, and the conversions of errors; the layout of the lines
-- that src/bin/stcbsl.rs prints, which are kept as what they are formatted from; the panics of
-- src/bin/rxprobe.rs on arguments that are not Unicode and lines that cannot be printed, and the
-- one of `started - PULSE_EVERY` in src/driver.rs, which the signed seconds of a Unix rule out;
-- the fixtures and replay tests; src/lib.rs, which declares the modules.
pub mod Base
pub mod Cli
pub mod Driver
pub mod Frame
pub mod Ihex
pub mod Protocol
pub mod Receiver
pub mod Rxprobe
pub mod Session
pub mod Stc89
pub mod Tests
pub mod Transport
