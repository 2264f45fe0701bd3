-- ===== src/Ihex/Bounds.antt =====
-- What holds of every image that `parse` of src/ihex.rs returns, whatever the text, and that it
-- does not panic.
use stcbsl.Base.{
  dec_lt, Option, ◌-◌, length-append, length-replicate, zero, some, none, ◌⊎◌, ◌++◌, replicate,
  refl, if◌then◌else◌, ℕ, suc, ◌+◌, ◌*◌, ◌≤◌, ◌<◌, ◌≡◌, ◌∙◌, inl, inr, true, false, ◌||◌, not,
  Bool-cases, List, [], ◌∷◌, Result, ok, err, length, ltb, ◌==◌, ◌!=◌, arith, All,
}
use stcbsl.Base.Bytes.{Bytes, IsByte}
use stcbsl.Base.Text.{Text}
use stcbsl.Frame.{byte_at}
use stcbsl.Ihex.{
  gaps, Image, HexError, is_empty, trim, lines, Record, read_record, Memory, Flow, go_on, stop,
  grow, store, store_data, apply, read_line, after_line, read_lines, blank, has_none, image_of,
  parse,
}
use stcbsl.Ihex.Print.{IsRecord}
use stcbsl.Ihex.Cells.{
  Cells, max, length-grow, length-store, HoldsByte, HoldsByte-grow, HoldsByte-store,
  HoldsByte-IsByte, length-map-or_zero, gaps_le_length,
}
use stcbsl.Ihex.Checked.{Fine, Fine-bind, byte_at-IsByte, read_record-Fine}

-- The invariant of the loop over the lines. With it, no address overflows 32 bits.
pub record IsMemory (m : Memory) : Type 0 where
  pub sized : length m.mem ≤ 0x1_0000
  pub bytes : All HoldsByte m.mem
  pub based : m.base ≤ 0xF_FFF0
  pub lowest_inside : m.saw_data ≡ true → m.lowest ≤ length m.mem
  pub lowest_below : (m.lowest < length m.mem) ⊎ (gaps m.mem ≡ length m.mem)

abbrev FlowIs : (Memory → Type 0) → Flow → Type 0
FlowIs P (go_on m) = P m
FlowIs P (stop m) = P m

gaps-append : (mem : Cells) (n : ℕ) → gaps (mem ++ replicate n none) ≡ gaps mem + n
unfolding gaps
gaps-append [] zero = refl
gaps-append [] (suc n) = omega (arith, gaps-append [] n)
gaps-append (none ∷ mem) n = omega (arith, gaps-append mem n)
gaps-append (some b ∷ mem) n = gaps-append mem n

-- Where the lowest address is at the end of the memory, no byte has been stored.
store_data-lowest :
    (addr : ℕ) (bs : Bytes) (m : Memory)
    → (m.lowest < length m.mem) ⊎ (gaps m.mem ≡ length m.mem)
    → let mem = store (grow (addr + length bs) m.mem) addr bs in
      ((if ltb addr m.lowest then addr else m.lowest) < length mem) ⊎ (gaps mem ≡ length mem)
unfolding store
store_data-lowest addr [] m (inl h) = let size = length-grow (addr + 0) m.mem in inl (ground arith)
store_data-lowest addr [] m (inr h) = inr (
    omega (
      arith,
      gaps-append m.mem (addr + 0 - length m.mem),
      length-append m.mem (replicate (addr + 0 - length m.mem) none),
      length-replicate {A = Option ℕ} (addr + 0 - length m.mem) none,
    ))
store_data-lowest addr (b ∷ bs) m h =
    let size : length (store (grow (addr + length (b ∷ bs)) m.mem) addr (b ∷ bs))
        ≡ max (length m.mem) (addr + length (b ∷ bs)) =
      length-store (grow (addr + length (b ∷ bs)) m.mem) addr (b ∷ bs)
      ∙ length-grow (addr + length (b ∷ bs)) m.mem in
    inl (ground arith)

store_data-IsMemory :
    (line addr : ℕ) (bs : Bytes) (m : Memory)
    → All IsByte bs
    → IsMemory m
    → Fine (FlowIs IsMemory) (store_data line addr bs m)
unfolding store_data
store_data-IsMemory line addr bs m h inv = elim (Bool-cases (ltb 0x1_0000 (addr + length bs))) [
  | inl e ↦ rw e tt
  | inr e ↦
      let size : length (store (grow (addr + length bs) m.mem) addr bs)
          ≡ max (length m.mem) (addr + length bs) =
        length-store (grow (addr + length bs) m.mem) addr bs
        ∙ length-grow (addr + length bs) m.mem in
      rw e (record {
        sized = let old = inv.sized in ground arith;
        bytes =
            HoldsByte-store (grow (addr + length bs) m.mem) addr bs
              (HoldsByte-grow (addr + length bs) m.mem inv.bytes) h;
        based = inv.based;
        lowest_inside = λ _. ground arith;
        lowest_below = store_data-lowest addr bs m inv.lowest_below;
      })
]

rebased-IsMemory :
    (m : Memory) (b : ℕ) → b ≤ 0xF_FFF0 → IsMemory m → IsMemory (record m { base = b })
rebased-IsMemory m b l inv = record {
  sized = inv.sized;
  bytes = inv.bytes;
  based = l;
  lowest_inside = inv.lowest_inside;
  lowest_below = inv.lowest_below;
}

apply-IsMemory :
    (line : ℕ) (r : Record) (m : Memory)
    → IsRecord r
    → IsMemory m
    → Fine (FlowIs IsMemory) (apply line r m)
unfolding apply
apply-IsMemory line r m h inv =
    let hi = byte_at-IsByte r.payload 0 h.payload_bytes in
    let lo = byte_at-IsByte r.payload 1 h.payload_bytes in
    elim (Bool-cases (r.rtype == 0)) [
      | inl e ↦ rw e (store_data-IsMemory line (m.base + r.offset) r.payload m h.payload_bytes inv)
      | inr e0 ↦ elim (Bool-cases (r.rtype == 1)) [
        | inl e ↦ rw (e0, e) inv
        | inr e1 ↦ elim (Bool-cases (r.rtype == 2)) [
          | inl e ↦ elim (Bool-cases (length r.payload != 2)) [
            | inl e' ↦ rw (e0, e1, e, e') tt
            | inr e' ↦ rw (e0, e1, e, e') (rebased-IsMemory m _ (omega arith) inv)
          ]
          | inr e2 ↦ elim (Bool-cases (r.rtype == 4)) [
            | inl e ↦ elim (Bool-cases (length r.payload != 2)) [
              | inl e' ↦ rw (e0, e1, e2, e, e') tt
              | inr e' ↦
                  elim (Bool-cases (byte_at r.payload 0 * 0x100 + byte_at r.payload 1 != 0)) [
                    | inl e'' ↦ rw (e0, e1, e2, e, e', e'') tt
                    | inr e'' ↦ rw (e0, e1, e2, e, e', e'') (rebased-IsMemory m 0 (omega arith) inv)
                  ]
            ]
            | inr e4 ↦ elim (Bool-cases (r.rtype == 3 || r.rtype == 5)) [
              | inl e ↦ rw (e0, e1, e2, e4, e) inv
              | inr e ↦ rw (e0, e1, e2, e4, e) tt
            ]
          ]
        ]
      ]
    ]

read_line-IsMemory :
    (line : ℕ) (s : Text) (m : Memory) → IsMemory m → Fine (FlowIs IsMemory) (read_line line s m)
unfolding read_line
read_line-IsMemory line [] m inv = inv
read_line-IsMemory line (c ∷ body) m inv =
    Fine-bind IsRecord (FlowIs IsMemory) (read_record line c body) (λ r. apply line r m)
      (read_record-Fine line c body) (λ r h. apply-IsMemory line r m h inv)

after_line-IsMemory :
    (f : Result HexError Flow) (rest : Memory → Result HexError Memory)
    → Fine (FlowIs IsMemory) f
    → ((m : Memory) → IsMemory m → Fine IsMemory (rest m))
    → Fine IsMemory (after_line f rest)
after_line-IsMemory (err e) rest h g = h
after_line-IsMemory (ok (stop m)) rest h g = h
after_line-IsMemory (ok (go_on m)) rest h g = g m h

read_lines-IsMemory :
    (line : ℕ) (ls : List Text) (m : Memory) → IsMemory m → Fine IsMemory (read_lines line ls m)
unfolding read_lines
read_lines-IsMemory line [] m inv = inv
read_lines-IsMemory line (l ∷ ls) m inv =
    after_line-IsMemory (read_line line (trim l) m) (read_lines (suc line) ls)
      (read_line-IsMemory line (trim l) m inv) (read_lines-IsMemory (suc line) ls)

-- An image that the rest of the program can work with.
pub record IsImage (image : Image) : Type 0 where
  pub some_bytes : 0 < length image.bytes
  pub in_16_bits : length image.bytes ≤ 0x1_0000
  pub bytes : All IsByte image.bytes
  pub gaps_inside : image.gap_bytes ≤ length image.bytes
  pub lowest_inside :
      (image.lowest_addr < length image.bytes)
      ⊎ ((image.lowest_addr ≡ length image.bytes) × (image.gap_bytes ≡ length image.bytes))

image_of-IsImage : (m : Memory) → IsMemory m → Fine IsImage (image_of m)
unfolding image_of
image_of-IsImage m inv = elim (Bool-cases (not m.saw_data || has_none m.mem)) [
  | inl e ↦ rw e tt
  | inr e ↦
      let size = length-map-or_zero m.mem in
      let top = inv.sized in
      let lowest = inv.lowest_inside in
      rw e (record {
        some_bytes = omega (arith, some_cells m.mem (ground arith));
        in_16_bits = omega arith;
        bytes = HoldsByte-IsByte m.mem inv.bytes;
        gaps_inside = omega (arith, gaps_le_length m.mem);
        lowest_inside =
            lowest_or_gaps m.lowest (gaps m.mem) (length m.mem) _ size (ground arith)
              inv.lowest_below;
      })
]
  where
    some_cells : (cells : Cells) → has_none cells ≡ false → 0 < length cells
    some_cells [] e = cc
    some_cells (c ∷ cells) e = omega arith

    lowest_or_gaps :
        (low gap old new : ℕ)
        → new ≡ old
        → low ≤ old
        → (low < old) ⊎ (gap ≡ old)
        → (low < new) ⊎ ((low ≡ new) × (gap ≡ new))
    lowest_or_gaps low gap old new e l (inl h) = inl (omega arith)
    lowest_or_gaps low gap old new e l (inr h) = elim (dec_lt low new) [
      | yes p ↦ inl p
      | no p ↦ inr (omega arith, omega arith)
    ]

blank-IsMemory : IsMemory blank
blank-IsMemory = record {
  sized = omega arith;
  bytes = tt;
  based = omega arith;
  lowest_inside = λ e. cc;
  lowest_below = inr (unfold gaps in refl);
}

-- Whatever the text, `parse` answers with an error or with an image that has at least one byte
-- and at most 65,536, all of them below 256, and no more gaps than bytes. Its lowest address is that
-- of one of its bytes, or else is its length, and then all of its bytes are gaps. `parse` never
-- panics on a half pair of digits.
pub parse-IsImage : (text : Text) → Fine IsImage (parse text)
unfolding parse
parse-IsImage text = elim (Bool-cases (is_empty (trim text))) [
  | inl e ↦ rw e tt
  | inr e ↦ rw e (
      Fine-bind IsMemory IsImage (read_lines 1 (lines text) blank) image_of
        (read_lines-IsMemory 1 (lines text) blank blank-IsMemory) image_of-IsImage)
]
