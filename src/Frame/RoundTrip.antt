-- ===== src/Frame/RoundTrip.antt =====
-- `Frame::encode` and `Frame::decode` of src/frame.rs undo one another.
use stcbsl.Base.{
  ◌≤◌, ◌≡◌, refl, sym, ap, ◌∙◌, ◌↔◌, inl, inr, Result, ok, err, some, length, arith, Bool-cases,
  All, ltb,
}
use stcbsl.Base.Bytes.{Bytes, IsByte}
use stcbsl.Frame.{
  Dir, host_to_mcu, mcu_to_host, Frame, FrameError, encode, decode, too_short, dir_byte,
  dir_from_byte, wire_len,
}
use stcbsl.Frame.Shape.{
  Fields, join, length-join, decode_fields, decode-join, split, encode_fields, encode-join,
}

dir_from_byte-dir_byte : (d : Dir) → dir_from_byte (dir_byte d) ≡ some d
unfolding dir_byte dir_from_byte
dir_from_byte-dir_byte host_to_mcu = refl
dir_from_byte-dir_byte mcu_to_host = refl

decode_fields-encode_fields : (f : Frame) → decode_fields (encode_fields f) ≡ ok f
unfolding decode_fields encode_fields
decode_fields-encode_fields f = ground (arith, dir_from_byte-dir_byte f.dir)

-- Decoding what `encode` wrote gives the frame back, whatever its payload.
pub decode-encode : (f : Frame) → decode (encode f) ≡ ok f
decode-encode f = rw (encode-join f, decode-join (encode_fields f)) (decode_fields-encode_fields f)

pub length-encode : (f : Frame) → length (encode f) ≡ wire_len f
unfolding wire_len encode_fields
length-encode f = rw (encode-join f) (length-join (encode_fields f))

encode_fields-decode_fields :
    (x : Fields) (f : Frame)
    → IsByte x.hi
    → IsByte x.lo
    → decode_fields x ≡ ok f
    → encode_fields f ≡ x
unfolding decode_fields encode_fields
encode_fields-decode_fields x f hh hl e = ground arith

pub decode_long : (bs : Bytes) {f : Frame} → decode bs ≡ ok f → 8 ≤ length bs
unfolding decode
decode_long bs {f} e = elim (Bool-cases (ltb (length bs) 8)) [
  | inl short ↦
      let q : ◌≡◌ {A = Result FrameError Frame} (err (too_short (length bs))) (ok f) =
        rw short at e in
      cc
  | inr long ↦ ground arith
]

-- A byte string that decodes is, byte for byte, the encoding of the frame it decodes to.
pub encode-decode : (bs : Bytes) {f : Frame} → All IsByte bs → decode bs ≡ ok f → encode f ≡ bs
encode-decode bs {f} h e =
    let (x, s) = split bs (decode_long bs e) in
    let b : All IsByte (join x) = rw s at h in
    encode-join f
    ∙ ap join
        (encode_fields-decode_fields x f b.1.1.1.0 b.1.1.1.1.0 (sym (decode-join x) ∙ rw s at e))
    ∙ sym s

-- `decode` accepts exactly the encodings: on bytes, it answers a frame if and only if the string is
-- what `encode` writes for that frame.
pub decode-eq-ok_iff :
    (bs : Bytes) (f : Frame) → All IsByte bs → (decode bs ≡ ok f) ↔ (encode f ≡ bs)
decode-eq-ok_iff bs f h = (encode-decode bs h, λ e. rw (← e) (decode-encode f))
