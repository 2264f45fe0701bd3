-- ===== src/Frame/Corruption.antt =====
-- What the length field, the checksum and the markers of src/frame.rs catch: one wrong byte,
-- wherever it stands in a frame.
use stcbsl.Base.{
  ◌∙◌, ℕ, zero, suc, ◌+◌, ◌-◌, ◌<◌, ◌≡◌, sym, ◌≢◌, inl, inr, [], ◌∷◌, ◌++◌, ok, err, length, arith,
  All, set, All-get_or, get_or-append_left, set-append_left, get_or-append_right, set-append_right,
  dec_lt, Result-cases, err,
}
use stcbsl.Base.Bytes.{IsByte, u8, sum, sum-set}
use stcbsl.Frame.{
  FrameError, Dir, host_to_mcu, mcu_to_host, Frame, encode, decode, checksum, dir_byte, byte_at,
  terminator,
}
use stcbsl.Frame.Shape.{
  length-join, Fields, join, body, decode_fields, decode-join, checksum-sum, encode_fields,
  encode-join,
}

-- A string that decodes carries the right checksum.
checksum_right : (x : Fields) {g : Frame} → decode_fields x ≡ ok g → x.cksm ≡ u8 (sum (body x))
unfolding decode_fields
checksum_right x e = let q : x.cksm ≡ checksum (body x) = ground arith in q ∙ checksum-sum (body x)

encode_fields_cksm : (f : Frame) → (encode_fields f).cksm ≡ u8 (sum (body (encode_fields f)))
unfolding encode_fields
encode_fields_cksm f = checksum-sum (body (encode_fields f))

dir_byte-lt : (d : Dir) → dir_byte d < 256
unfolding dir_byte
dir_byte-lt host_to_mcu = omega arith
dir_byte-lt mcu_to_host = omega arith

module _ (f : Frame) (b : ℕ) (hb : IsByte b) (g : Frame) where
  wrong_m₀ : b ≢ 0x46 → decode_fields (record (encode_fields f) { m₀ = b }) ≢ ok g
  unfolding decode_fields encode_fields
  wrong_m₀ h e = ground arith

  wrong_m₁ : b ≢ 0xB9 → decode_fields (record (encode_fields f) { m₁ = b }) ≢ ok g
  unfolding decode_fields encode_fields
  wrong_m₁ h e = ground arith

  wrong_hi : b ≢ (encode_fields f).hi → decode_fields (record (encode_fields f) { hi = b }) ≢ ok g
  unfolding decode_fields encode_fields
  wrong_hi h e = ground arith

  wrong_lo : b ≢ (encode_fields f).lo → decode_fields (record (encode_fields f) { lo = b }) ≢ ok g
  unfolding decode_fields encode_fields
  wrong_lo h e = ground arith

  wrong_cksm :
      b ≢ (encode_fields f).cksm → decode_fields (record (encode_fields f) { cksm = b }) ≢ ok g
  unfolding decode_fields encode_fields
  wrong_cksm h e = ground arith

  wrong_last : b ≢ terminator → decode_fields (record (encode_fields f) { last = b }) ≢ ok g
  unfolding decode_fields encode_fields
  wrong_last h e = ground arith

  wrong_dir :
      b ≢ (encode_fields f).dir → decode_fields (record (encode_fields f) { dir = b }) ≢ ok g
  unfolding sum encode_fields
  wrong_dir h e = absurd (
      omega (
        arith,
        checksum_right (record (encode_fields f) { dir = b }) e,
        encode_fields_cksm f,
        dir_byte-lt f.dir,
      ))

  wrong_cmd : IsByte f.cmd → b ≢ f.cmd → decode_fields (record (encode_fields f) { cmd = b }) ≢ ok g
  unfolding sum encode_fields
  wrong_cmd hc h e =
      absurd (
        omega
          (arith, checksum_right (record (encode_fields f) { cmd = b }) e, encode_fields_cksm f))

  wrong_payload :
      (j : ℕ)
      → j < length f.payload
      → IsByte (byte_at f.payload j)
      → b ≢ byte_at f.payload j
      → decode_fields (record (encode_fields f) { payload = set f.payload j b }) ≢ ok g
  unfolding sum encode_fields
  wrong_payload j hj hp h e = absurd (
      omega (
        arith,
        checksum_right (record (encode_fields f) { payload = set f.payload j b }) e,
        encode_fields_cksm f,
        sum-set f.payload j b hj,
      ))

  -- A wrong byte behind the command: in the payload, the checksum or the terminator.
  wrong_tail :
      (j : ℕ)
      → All IsByte f.payload
      → j < length f.payload + 2
      → b ≢ byte_at (f.payload ++ (encode_fields f).cksm ∷ terminator ∷ []) j
      → ¬ (
          decode (
            0x46
            ∷ 0xB9
            ∷ (encode_fields f).dir
            ∷ (encode_fields f).hi
            ∷ (encode_fields f).lo
            ∷ f.cmd
            ∷ set (f.payload ++ (encode_fields f).cksm ∷ terminator ∷ []) j b)
          ≡ ok g)
  unfolding encode_fields
  wrong_tail j hp hj h e = elim (dec_lt j (length f.payload)) [
    | yes inside ↦
        wrong_payload j inside (All-get_or IsByte f.payload j 0 hp inside)
          (λ q. h (q ∙ sym (get_or-append_left f.payload _ j 0 inside)))
          (sym (decode-join (record (encode_fields f) { payload = set f.payload j b }))
            ∙ rw (set-append_left f.payload _ j b inside) at e)
    | no outside ↦ behind (j - length f.payload) (omega arith)
  ]
    where
      behind : (k : ℕ) → j ≡ length f.payload + k → ⊥
      behind zero q =
          wrong_cksm (λ r. h (rw q (r ∙ sym (get_or-append_right f.payload _ 0 0))))
            (sym (decode-join (record (encode_fields f) { cksm = b }))
              ∙ rw (q, set-append_right f.payload _ 0 b) at e)
      behind (suc zero) q =
          wrong_last (λ r. h (rw q (r ∙ sym (get_or-append_right f.payload _ 1 0))))
            (sym (decode-join (record (encode_fields f) { last = b }))
              ∙ rw (q, set-append_right f.payload _ 1 b) at e)
      behind (suc (suc k)) q = absurd (omega arith)

  decode-set_encode-ne-ok :
      (i : ℕ)
      → IsByte f.cmd
      → All IsByte f.payload
      → i < length (join (encode_fields f))
      → b ≢ byte_at (join (encode_fields f)) i
      → decode (set (join (encode_fields f)) i b) ≢ ok g
  unfolding encode_fields
  decode-set_encode-ne-ok zero hc hp hi h e =
      wrong_m₀ h (sym (decode-join (record (encode_fields f) { m₀ = b })) ∙ e)
  decode-set_encode-ne-ok (suc zero) hc hp hi h e =
      wrong_m₁ h (sym (decode-join (record (encode_fields f) { m₁ = b })) ∙ e)
  decode-set_encode-ne-ok (suc (suc zero)) hc hp hi h e =
      wrong_dir h (sym (decode-join (record (encode_fields f) { dir = b })) ∙ e)
  decode-set_encode-ne-ok (suc (suc (suc zero))) hc hp hi h e =
      wrong_hi h (sym (decode-join (record (encode_fields f) { hi = b })) ∙ e)
  decode-set_encode-ne-ok (suc (suc (suc (suc zero)))) hc hp hi h e =
      wrong_lo h (sym (decode-join (record (encode_fields f) { lo = b })) ∙ e)
  decode-set_encode-ne-ok (suc (suc (suc (suc (suc zero))))) hc hp hi h e =
      wrong_cmd hc h (sym (decode-join (record (encode_fields f) { cmd = b })) ∙ e)
  decode-set_encode-ne-ok (suc (suc (suc (suc (suc (suc j)))))) hc hp hi h e =
      wrong_tail j hp (omega (arith, length-join (encode_fields f))) h e

-- A frame with one byte replaced by another value, at any position from the first marker to the
-- terminator, is refused: `decode` answers an error. The command and the payload are bytes.
pub decode-set-encode :
    (f : Frame) (i b : ℕ)
    → IsByte f.cmd
    → All IsByte f.payload
    → i < length (encode f)
    → IsByte b
    → b ≢ byte_at (encode f) i
    → (e : FrameError) × (decode (set (encode f) i b) ≡ err e)
decode-set-encode f i b hc hp hi hb h = elim (Result-cases (decode (set (encode f) i b))) [
  | inl (g, e) ↦ absurd (
      decode-set_encode-ne-ok f b hb g i hc hp (rw (encode-join f) at hi) (rw (encode-join f) at h)
        (rw (encode-join f) at e))
  | inr r ↦ r
]
