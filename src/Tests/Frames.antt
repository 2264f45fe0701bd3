-- ===== src/Tests/Frames.antt =====
-- src/frame.rs on concrete bytes; the first examples are those of its own tests.
use stcbsl.Base.{◌≡◌, refl, none, some, [], ◌∷◌, ◌++◌, ok, err, set, arith, All}
use stcbsl.Base.Bytes.{Bytes, IsByte}
use stcbsl.Frame.{FrameError, bad_checksum, host, mcu, encode, decode}
use stcbsl.Base.Text.{codes, digit, is_space}
use stcbsl.Frame.Hex.{hex, unhex, unhex-hex}
use stcbsl.Frame.RoundTrip.{decode-eq-ok_iff}
use stcbsl.Frame.Corruption.{decode-set-encode}
use stcbsl.Receiver.{Receiver, Polled, next_frame, feed}
use stcbsl.Receiver.Hunting.{stream}
use stcbsl.Receiver.Loop.{Runs, next_frame-Runs}
use stcbsl.Receiver.Stream.{next_frame-stream, handed}
use stcbsl.Receiver.Chunks.{Drains, idle, got, Drains-feed}
use stcbsl.Receiver.Resync.{IsCandidate, next_frame-encode, next_frame-rehunts}

-- `worked_example_from_spec`.
abbrev run_bytes : Bytes
run_bytes = 0x46 ∷ 0xB9 ∷ 0x6A ∷ 0x00 ∷ 0x06 ∷ 0x82 ∷ 0xF2 ∷ 0x16 ∷ []

worked_example : encode (host 0x82 []) ≡ run_bytes
unfolding encode
worked_example = refl

-- The frame `mcu 0x80 (0xEE ∷ [])`, and it with a wrong checksum.
abbrev ack_bytes : Bytes
ack_bytes = 0x46 ∷ 0xB9 ∷ 0x68 ∷ 0x00 ∷ 0x07 ∷ 0x80 ∷ 0xEE ∷ 0xDD ∷ 0x16 ∷ []

abbrev bad_bytes : Bytes
bad_bytes = 0x46 ∷ 0xB9 ∷ 0x68 ∷ 0x00 ∷ 0x07 ∷ 0x80 ∷ 0xEE ∷ 0x22 ∷ 0x16 ∷ []

ack_decodes : decode ack_bytes ≡ ok (mcu 0x80 (0xEE ∷ []))
unfolding decode
ack_decodes = refl

bad_fails : decode bad_bytes ≡ err (bad_checksum 0xDD 0x22)
unfolding decode
bad_fails = refl

decode-eq-ok_iff_example : encode (mcu 0x80 (0xEE ∷ [])) ≡ ack_bytes
decode-eq-ok_iff_example =
    (decode-eq-ok_iff ack_bytes (mcu 0x80 (0xEE ∷ [])) (omega arith)).0 ack_decodes

decode-set-encode_example :
    (e : FrameError) × (decode (set (encode (mcu 0x80 (0xEE ∷ []))) 7 0x22) ≡ err e)
unfolding encode
decode-set-encode_example =
    decode-set-encode (mcu 0x80 (0xEE ∷ [])) 7 0x22 (omega arith) (omega arith) (omega arith)
      (omega arith) (omega arith)

abbrev half : Receiver
half = record { buf = 0x00 ∷ 0x46 ∷ 0xB9 ∷ 0x68 ∷ []; discarded = [] }

abbrev half_left : Receiver
half_left = record { buf = 0x46 ∷ 0xB9 ∷ 0x68 ∷ []; discarded = 0x00 ∷ [] }

half_waits : next_frame half ≡ (none, half_left)
unfolding next_frame
half_waits = refl

abbrev noisy : Receiver
noisy = record { buf = 0x00 ∷ ack_bytes; discarded = [] }

next_frame-stream_example :
    ((next_frame noisy).1.discarded ++ (handed (next_frame noisy).0 ++ (next_frame noisy).1.buf)
      ≡ stream noisy)
    × All IsByte (next_frame noisy).1.buf
next_frame-stream_example = next_frame-stream noisy (omega arith)

abbrev rest_bytes : Bytes
rest_bytes = 0x00 ∷ 0x07 ∷ 0x80 ∷ 0xEE ∷ 0xDD ∷ 0x16 ∷ []

abbrev empty_after : Receiver
empty_after = record { buf = []; discarded = 0x00 ∷ [] }

rest_arrives :
    next_frame (feed half_left rest_bytes) ≡ (some (ok (mcu 0x80 (0xEE ∷ []))), empty_after)
unfolding next_frame decode
rest_arrives = refl

then_waits : next_frame empty_after ≡ (none, empty_after)
unfolding next_frame
then_waits = refl

Drains-feed_example :
    Drains (feed half rest_bytes) ([] ++ ok (mcu 0x80 (0xEE ∷ [])) ∷ []) empty_after
Drains-feed_example = Drains-feed rest_bytes (idle half_waits) (got rest_arrives (idle then_waits))

next_frame-encode_example :
    next_frame (record {
      buf = (0x00 ∷ 0xB9 ∷ []) ++ (encode (mcu 0x80 (0xEE ∷ [])) ++ 0x55 ∷ []);
      discarded = 0x11 ∷ [];
    })
    ≡ (
      some (ok (mcu 0x80 (0xEE ∷ []))),
      record { buf = 0x55 ∷ []; discarded = (0x11 ∷ []) ++ 0x00 ∷ 0xB9 ∷ [] },
    )
next_frame-encode_example =
    next_frame-encode (0x00 ∷ 0xB9 ∷ []) (mcu 0x80 (0xEE ∷ [])) (0x55 ∷ []) (0x11 ∷ [])
      (omega arith) (omega arith)

bad-IsCandidate : IsCandidate bad_bytes
bad-IsCandidate = record {
  dir = 0x68;
  hi = 0x00;
  lo = 0x07;
  tail = 0x80 ∷ 0xEE ∷ 0x22 ∷ 0x16 ∷ [];
  is = refl;
  fits = refl;
  counted = refl;
}

abbrev bad_tail : Bytes
bad_tail = 0xB9 ∷ 0x68 ∷ 0x00 ∷ 0x07 ∷ 0x80 ∷ 0xEE ∷ 0x22 ∷ 0x16 ∷ []

next_frame-rehunts_example :
    (rx : Receiver) × (next_frame
        (record { buf = 0x46 ∷ bad_tail ++ (encode (mcu 0x80 (0x3C ∷ [])) ++ []); discarded = [] })
      ≡ (some (err (bad_checksum 0xDD 0x22)), rx))
    × (next_frame rx
        ≡ (some (ok (mcu 0x80 (0x3C ∷ []))), record { buf = []; discarded = [] ++ bad_bytes }))
next_frame-rehunts_example =
    next_frame-rehunts 0x46 bad_tail (bad_checksum 0xDD 0x22) (mcu 0x80 (0x3C ∷ [])) [] []
      bad-IsCandidate bad_fails (omega arith) (omega arith)

next_frame-Runs_example :
    Runs noisy (next_frame noisy) × ((o : Polled) → Runs noisy o → o ≡ next_frame noisy)
next_frame-Runs_example = next_frame-Runs noisy

hex_text : hex run_bytes ≡ codes "46 b9 6a 00 06 82 f2 16"
unfolding hex digit
hex_text = refl

bad_hex_byte : unhex (codes "46 1ff") ≡ err (codes "1ff")
unfolding unhex is_space
bad_hex_byte = refl

unhex-hex_example : unhex (hex run_bytes) ≡ ok run_bytes
unhex-hex_example = unhex-hex run_bytes (omega arith)
