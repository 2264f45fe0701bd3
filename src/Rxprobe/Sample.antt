-- ===== src/Rxprobe/Sample.antt =====
-- The sample that `count` of src/bin/rxprobe.rs takes of the bytes that came in.
use stcbsl.Base.{
  take-append_self, ℕ, zero, suc, ◌+◌, ◌-◌, ◌≤◌, ◌≡◌, ◌⊎◌, inl, inr, refl, sym, ap, ◌∙◌, true,
  Bool-cases, [], ◌∷◌, ◌++◌, append_assoc, append-nil, length, length-append, length-take, take,
  drop, take-append-drop, drop_all, dec_lt, ltb, arith,
}
use stcbsl.Base.Bytes.{Bytes}
use stcbsl.Frame.{bytes_eq}
use stcbsl.Frame.Shape.{bytes_eq→eq}
use stcbsl.Rxprobe.{grown, hello, legible}

pub says_hello :
    (s : Bytes)
    → legible s ≡ true
    → (front : Bytes) × (back : Bytes) × (s ≡ front ++ (hello ++ back))
unfolding legible
says_hello [] e = cc
says_hello (b ∷ bs) e = elim (Bool-cases (bytes_eq (take 5 (b ∷ bs)) hello)) [
  | inl q ↦ (
    [],
    drop 5 (b ∷ bs),
    sym (take-append-drop 5 (b ∷ bs))
        ∙ ap (λ (l : Bytes). l ++ drop 5 (b ∷ bs)) (bytes_eq→eq (take 5 (b ∷ bs)) hello q),
  )
  | inr q ↦
      let (front, back, same) = says_hello bs (rw q at e) in (b ∷ front, back, ap (◌∷◌ b) same)
]

legible-hello : (front back : Bytes) → legible (front ++ (hello ++ back)) ≡ true
unfolding legible bytes_eq
legible-hello [] back = refl
legible-hello (b ∷ front) back =
    elim (Bool-cases (bytes_eq (take 5 (b ∷ front ++ (hello ++ back))) hello)) [
      | inl q ↦ rw q refl
      | inr q ↦ rw q (legible-hello front back)
    ]

take-append_ge :
    (n : ℕ) (xs ys : Bytes) → length xs ≤ n → take n (xs ++ ys) ≡ xs ++ take (n - length xs) ys
take-append_ge n [] ys h = let e : n - 0 ≡ n = omega arith in rw e refl
take-append_ge zero (x ∷ xs) ys h = absurd (omega arith)
take-append_ge (suc n) (x ∷ xs) ys h =
    let e : suc n - length (x ∷ xs) ≡ n - length xs = omega arith in
    rw e (ap (◌∷◌ x) (take-append_ge n xs ys (omega arith)))

-- The beginning of what came in: all of it, or at least 40 bytes.
abbrev pub IsSample : Bytes → Bytes → Type 0
IsSample sample all = (rest : Bytes) × (all ≡ sample ++ rest) × ((rest ≡ []) ⊎ (40 ≤ length sample))

pub grown-IsSample :
    (sample all bytes : Bytes) → IsSample sample all → IsSample (grown sample bytes) (all ++ bytes)
grown-IsSample sample all bytes (rest, e, short) = elim (Bool-cases (ltb (length sample) 40)) [
  | inl l ↦
      rw l (more (elim short [ inl none_left ↦ none_left | inr long ↦ absurd (ground arith) ]))
  | inr l ↦ rw l (
    rest ++ bytes,
    ap (λ (x : Bytes). x ++ bytes) e ∙ append_assoc sample rest bytes,
    inr (ground arith),
  )
]
  where
    more : rest ≡ [] → IsSample (sample ++ take 40 bytes) (all ++ bytes)
    more none_left = (
      drop 40 bytes,
      ap (λ (x : Bytes). x ++ bytes) (e ∙ ap (◌++◌ sample) none_left ∙ append-nil sample)
          ∙ ap (◌++◌ sample) (sym (take-append-drop 40 bytes))
          ∙ sym (append_assoc sample (take 40 bytes) (drop 40 bytes)),
      elim (dec_lt 40 (length bytes)) [
        | yes l ↦ inr (omega (arith, length-append sample (take 40 bytes), length-take 40 bytes))
        | no l ↦ inl (drop_all 40 bytes (omega arith))
      ],
    )

-- What stands early enough in the bytes stands in their sample.
pub sample-hello :
    (sample all front back : Bytes)
    → IsSample sample all
    → all ≡ front ++ (hello ++ back)
    → length front + 5 ≤ 40
    → legible sample ≡ true
sample-hello sample all front back (rest, e, short) here early = elim short [
  | inl none_left ↦
      let same : sample ≡ front ++ (hello ++ back) =
        sym (append-nil sample) ∙ ap (◌++◌ sample) (sym none_left) ∙ sym e ∙ here in
      rw same (legible-hello front back)
  | inr long ↦
      let k = length sample in
      let cut : sample ≡ (front ++ hello) ++ take (k - length (front ++ hello)) back =
        sym (take-append_self sample rest)
        ∙ ap (take k) (sym e ∙ here ∙ sym (append_assoc front hello back))
        ∙ take-append_ge k (front ++ hello) back (omega (arith, length-append front hello)) in
      rw (cut ∙ append_assoc front hello _) (legible-hello front _)
]
