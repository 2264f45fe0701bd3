-- ===== src/Rxprobe/Count.antt =====
-- What `count` of src/bin/rxprobe.rs reports of the bytes that came in.
use stcbsl.Base.{
  ℕ, zero, suc, ◌+◌, ◌-◌, ◌*◌, ◌≤◌, ◌<◌, ◌≡◌, inl, inr, refl, sym, ap, ◌∙◌, true, false, Bool-cases,
  [], ◌++◌, append_assoc, append-nil, Result, ok, err, length, length-append, ltb, arith,
}
use stcbsl.Base.Bytes.{Bytes}
use stcbsl.Transport.{Serial, SerialWire, polled}
use stcbsl.Rxprobe.{Probe, Tally, tally, failed, grown, hello, legible, after_read, count_loop}
use stcbsl.Rxprobe.Sample.{says_hello, IsSample, grown-IsSample, sample-hello}

-- What holds of the wire that `count` reads: `received` is all that came in. A read adds its bytes,
-- one that fails or times out adds nothing, and either takes time.
pub record Heeds {P E M : Type 0} (serial : Serial P E M) (received : M → Bytes) : Type 0 where
  pub reads :
      (n : ℕ) (m m' : M) (bs : Bytes)
      → serial.read n m ≡ (ok bs, m')
      → received m' ≡ received m ++ bs
  pub fails : (n : ℕ) (m m' : M) (e : E) → serial.read n m ≡ (err e, m') → received m' ≡ received m
  pub lasts : (n : ℕ) (m : M) → serial.now m < serial.now (serial.read n m).1

module _ {P E M : Type 0} (probe : Probe P E M) (received : M → Bytes)
    (heeds : Heeds probe.serial received) (before : Bytes) (end : ℕ) where
  -- The tally is true of what came in; the loop has gone on to its end, or a read has failed that
  -- did not time out.
  abbrev pub IsTrue : Tally E M → Type 0
  IsTrue (tally n sample w) =
      (all : Bytes) × (received w.port ≡ before ++ all)
      × (n ≡ length all)
      × IsSample sample all
      × (end ≤ probe.serial.now w.port)
  IsTrue (failed e w) = probe.serial.timed_out e ≡ false
  IsTrue Tally.unended = ⊥

  -- The variables of the loop.
  abbrev SoFar : ℕ → Bytes → SerialWire M → Type 0
  SoFar n sample w =
      (all : Bytes) × (received w.port ≡ before ++ all) × (n ≡ length all) × IsSample sample all

  grown-SoFar :
      (n : ℕ) (sample bytes : Bytes) (w : SerialWire M) (m : M)
      → SoFar n sample w
      → received m ≡ received w.port ++ bytes
      → SoFar (n + length bytes) (grown sample bytes) (record w { port = m })
  grown-SoFar n sample bytes w m (all, e, count, is_sample) more = (
    all ++ bytes,
    more ∙ ap (λ (x : Bytes). x ++ bytes) e ∙ append_assoc before all bytes,
    omega (arith, length-append all bytes),
    grown-IsSample sample all bytes is_sample,
  )

  after_read-IsTrue :
      (n : ℕ) (sample : Bytes) (w : SerialWire M) (r : Result E Bytes) (m : M)
      (again : ℕ → Bytes → SerialWire M → Tally E M)
      → SoFar n sample w
      → probe.serial.read 256 w.port ≡ (r, m)
      → ((n : ℕ) (sample : Bytes)
          → SoFar n sample (record w { port = m })
          → IsTrue (again n sample (record w { port = m })))
      → IsTrue
          (after_read probe n sample (polled probe.serial.timed_out r, record w { port = m }) again)
  after_read-IsTrue n sample w (ok bytes) m again h q go =
      go _ _ (grown-SoFar n sample bytes w m h (heeds.reads 256 w.port m bytes q))
  after_read-IsTrue n sample w (err e) m again h q go =
      elim (Bool-cases (probe.serial.timed_out e)) [
        | inr late ↦ rw late late
        | inl late ↦ rw late (
            go _ _ (
              grown-SoFar n sample [] w m h
                (heeds.fails 256 w.port m e q ∙ sym (append-nil (received w.port)))))
      ]

  count_loop-IsTrue :
      (fuel n : ℕ) (sample : Bytes) (w : SerialWire M)
      → end - probe.serial.now w.port < fuel
      → SoFar n sample w
      → IsTrue (count_loop probe fuel end n sample w)
  unfolding count_loop
  count_loop-IsTrue zero n sample w l h = absurd (omega arith)
  count_loop-IsTrue (suc fuel) n sample w l h =
      elim (Bool-cases (ltb (probe.serial.now w.port) end)) [
        | inr e ↦
            let (all, came, count, is_sample) = h in
            rw e (all, came, count, is_sample, ground arith)
        | inl e ↦ rw e (
            after_read-IsTrue n sample w (probe.serial.read 256 w.port).0
              (probe.serial.read 256 w.port).1 _ h refl
              (λ n' sample' h'.
                let lasts = heeds.lasts 256 w.port in
                count_loop-IsTrue fuel n' sample' _ (ground arith) h'))
      ]

module _ {P E M : Type 0} (probe : Probe P E M) (received : M → Bytes) (before : Bytes)
    (end : ℕ) where
  -- The number is that of the bytes that came in, and the text "hello" is seen in them, if it
  -- stands in the first 40.
  abbrev pub Reports : Tally E M → Type 0
  Reports (tally n sample w) =
      (all : Bytes) × (received w.port ≡ before ++ all)
      × (n ≡ length all)
      × (end ≤ probe.serial.now w.port)
      × (legible sample ≡ true
          → (front : Bytes) × (back : Bytes) × (all ≡ front ++ (hello ++ back)))
      × ((front back : Bytes)
          → all ≡ front ++ (hello ++ back)
          → length front + 5 ≤ 40
          → legible sample ≡ true)
  Reports (failed e w) = probe.serial.timed_out e ≡ false
  Reports Tally.unended = ⊥

  IsTrue-Reports :
      (heeds : Heeds probe.serial received) (t : Tally E M)
      → IsTrue probe received heeds before end t
      → Reports t
  IsTrue-Reports heeds (tally n sample w) (all, came, count, is_sample, late) =
      let (rest, e, short) = is_sample in
      (
        all,
        came,
        count,
        late,
        (λ seen.
            let (front, back, q) = says_hello sample seen in
            (
              front,
              back ++ rest,
              e
                  ∙ ap (λ (x : Bytes). x ++ rest) q
                  ∙ append_assoc front (hello ++ back) rest
                  ∙ ap (◌++◌ front) (append_assoc hello back rest),
            )),
        λ front back here early. sample-hello sample all front back is_sample here early,
      )
  IsTrue-Reports heeds (failed e w) h = h
  IsTrue-Reports heeds Tally.unended h = h

-- A phase of the probe ends, and tells the truth about the wire. With a bound on the rounds of more
-- than the nanoseconds to count for, the loop of `count` runs until that time is over, or a read
-- fails that did not time out. In the first case the number is that of the bytes that came in
-- meanwhile; if the sample is legible, the text "hello" was among them; and it is legible whenever
-- "hello" stands in the first 40 of them. A read takes time, and adds its bytes to what came in;
-- one that fails adds none.
pub count_loop-legible :
    {P E M : Type 0} (probe : Probe P E M) (received : M → Bytes)
    (heeds : Heeds probe.serial received) (fuel secs : ℕ) (w : SerialWire M)
    → secs * 1_000_000_000 < fuel
    → Reports probe received
        (received w.port)
        (probe.serial.now w.port + secs * 1_000_000_000)
        (count_loop probe fuel (probe.serial.now w.port + secs * 1_000_000_000) 0 [] w)
count_loop-legible probe received heeds fuel secs w l =
    let end = probe.serial.now w.port + secs * 1_000_000_000 in
    IsTrue-Reports probe received (received w.port) end heeds _ (
      count_loop-IsTrue probe received heeds (received w.port) end fuel 0 [] w (omega arith)
        ([], sym (append-nil (received w.port)), refl, ([], refl, inl refl)))
