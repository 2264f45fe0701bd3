-- ===== src/Receiver/Resync.antt =====
-- The receiver of src/frame.rs finds a frame behind noise, and behind a damaged frame.
use stcbsl.Base.{
  ℕ, ◌+◌, ◌≤◌, ◌≡◌, ◌≢◌, refl, ap, ◌∙◌, true, none, some, [], ◌∷◌, ◌++◌, ok, err, length, arith,
  append_assoc, append-nil, length-append, take-append_self, drop-append_self, All,
}
use stcbsl.Base.Bytes.{Bytes, u16_from_be}
use stcbsl.Frame.{Frame, FrameError, encode, decode, len_field}
use stcbsl.Frame.RoundTrip.{decode-encode}
use stcbsl.Frame.Shape.{encode_fields, encode-join}
use stcbsl.Receiver.{
  Receiver, frame, hunt, hunt_loop, accept, take_frame, after_hunt, next_frame, plausible,
}
use stcbsl.Receiver.Hunting.{hunt_noise, hunt_header}
use stcbsl.Receiver.Loop.{next_frame_loop}

-- A byte that cannot open a frame.
abbrev pub IsNoise : ℕ → Type 0
IsNoise b = b ≢ 0x46

hunt_loop-append_noise :
    (noise l d : Bytes) → All IsNoise noise → hunt_loop (noise ++ l) d ≡ hunt_loop l (d ++ noise)
hunt_loop-append_noise [] l d h = rw append-nil
hunt_loop-append_noise (b ∷ noise) l d h =
    hunt_noise b d (noise ++ l) (let q : b ≢ 0x46 = h.0 in ground arith)
    ∙ hunt_loop-append_noise noise l (d ++ b ∷ []) h.1
    ∙ ap (hunt_loop l) (append_assoc d (b ∷ []) noise)

-- A byte string that the hunt takes for one whole frame: both markers, and a plausible length
-- field that counts its bytes. Its checksum, direction and terminator may be wrong.
pub record IsCandidate (bytes : Bytes) : Type 0 where
  pub dir : ℕ
  pub hi : ℕ
  pub lo : ℕ
  pub tail : Bytes
  pub is : bytes ≡ 0x46 ∷ 0xB9 ∷ dir ∷ hi ∷ lo ∷ tail
  pub fits : plausible (u16_from_be hi lo) ≡ true
  pub counted : length tail + 3 ≡ u16_from_be hi lo

hunt_loop-candidate :
    (bytes rest d : Bytes)
    → IsCandidate bytes
    → hunt_loop (bytes ++ rest) d
      ≡ (frame (length bytes), record { buf = bytes ++ rest; discarded = d })
hunt_loop-candidate bytes rest d c = rw c.is (
    ground (
      arith,
      c.fits,
      c.counted,
      hunt_header 0x46 0xB9 c.dir c.hi c.lo (c.tail ++ rest) d refl refl,
      length-append c.tail rest,
    ))

len_field_small : (f : Frame) → length f.payload ≤ 1018 → len_field f ≡ length f.payload + 6
unfolding len_field
len_field_small f h = omega arith

pub encode-IsCandidate : (f : Frame) → length f.payload ≤ 1018 → IsCandidate (encode f)
unfolding encode_fields
encode-IsCandidate f h = record {
  dir = (encode_fields f).dir;
  hi = (encode_fields f).hi;
  lo = (encode_fields f).lo;
  tail = f.cmd ∷ f.payload ++ (encode_fields f).cksm ∷ 0x16 ∷ [];
  is = encode-join f;
  fits = ground (arith, len_field_small f h);
  counted =
      omega
        (arith, len_field_small f h, length-append f.payload ((encode_fields f).cksm ∷ 0x16 ∷ []));
}

-- One poll over noise, a candidate and anything behind them.
next_frame-candidate :
    (noise bytes rest d : Bytes)
    → All IsNoise noise
    → IsCandidate bytes
    → next_frame (record { buf = noise ++ (bytes ++ rest); discarded = d })
      ≡ accept (decode bytes) bytes (record { buf = rest; discarded = d ++ noise })
unfolding hunt after_hunt take_frame
next_frame-candidate noise bytes rest d q c =
    next_frame_loop (record { buf = noise ++ (bytes ++ rest); discarded = d })
    ∙ rw
        (
          hunt_loop-append_noise noise (bytes ++ rest) d q,
          hunt_loop-candidate bytes rest (d ++ noise) c,
        )
        (rw (take-append_self bytes rest, drop-append_self bytes rest))

-- A poll over noise alone.
pub next_frame-noise :
    (noise d : Bytes)
    → All IsNoise noise
    → next_frame (record { buf = noise; discarded = d })
      ≡ (none, record { buf = []; discarded = d ++ noise })
unfolding hunt hunt_loop after_hunt
next_frame-noise noise d q =
    next_frame_loop (record { buf = noise; discarded = d })
    ∙ rw (rw append-nil at (hunt_loop-append_noise noise [] d q)) refl

-- Noise with no first marker in it is discarded, in order, and the frame behind it is the answer;
-- what follows the frame stays in the buffer, whatever it is. The payload has at most 1018 bytes,
-- the most that the length bound of the receiver admits, and may itself hold markers.
pub next_frame-encode :
    (noise : Bytes) (f : Frame) (rest d : Bytes)
    → All IsNoise noise
    → length f.payload ≤ 1018
    → next_frame (record { buf = noise ++ (encode f ++ rest); discarded = d })
      ≡ (some (ok f), record { buf = rest; discarded = d ++ noise })
unfolding accept
next_frame-encode noise f rest d q h =
    next_frame-candidate noise (encode f) rest d q (encode-IsCandidate f h) ∙ rw (decode-encode f)

-- A damaged frame does not hide the next one. If `bad` has the shape of a frame, does not decode,
-- and holds no further first marker, then the first poll reports its error, and the second poll
-- answers the frame `f` that follows; in the end exactly `bad` has been discarded.
pub next_frame-rehunts :
    (b : ℕ) (bad : Bytes) (e : FrameError) (f : Frame) (rest d : Bytes)
    → IsCandidate (b ∷ bad)
    → decode (b ∷ bad) ≡ err e
    → All IsNoise bad
    → length f.payload ≤ 1018
    → (rx : Receiver) × (next_frame (record { buf = b ∷ bad ++ (encode f ++ rest); discarded = d })
        ≡ (some (err e), rx))
      × (next_frame rx ≡ (some (ok f), record { buf = rest; discarded = d ++ b ∷ bad }))
unfolding accept
next_frame-rehunts b bad e f rest d c q n h = (
  record { buf = bad ++ (encode f ++ rest); discarded = d ++ b ∷ [] },
  next_frame-candidate [] (b ∷ bad) (encode f ++ rest) d tt c ∙ rw (q, append-nil),
  next_frame-encode bad f rest (d ++ b ∷ []) n h ∙ rw (append_assoc d (b ∷ []) bad),
)
