-- ===== src/Stc89/Timing.antt =====
-- The baud arithmetic of src/protocol/stc89.rs: `frequency_hz`, `timer_reload`, `reload_field`.
use native.Mathlib.Nat.{div-eq_of_lt-le, div-add-mod, mod-lt, mul_comm}
use stcbsl.Base.{
  ℕ, ◌+◌, ◌-◌, ◌*◌, ◌/◌, ◌≤◌, ◌<◌, ◌≡◌, ◌↔◌, sym, ◌∙◌, ◌==◌, [], ◌∷◌, Result, ok, err, arith,
  if◌then◌else◌,
}
use stcbsl.Base.Bytes.{u64}
use stcbsl.Base.Int.{pos, sub_ℕ}
use stcbsl.Protocol.{ProtocolError, unreachable_baud}
use stcbsl.Stc89.Frames.{frequency_hz, timer_reload, reload_field, in_reload_range, reload_byte}

-- A byte `r` as the 16-bit two's complement of r - 256: its high byte is 0xFF.
pub reload_field_lem : (r : ℕ) → r < 256 → reload_field r ≡ 0xFF ∷ r ∷ []
unfolding reload_field
reload_field_lem r h = ground arith

product_bound : (w b : ℕ) → w < 0x1_0000 → b < 0x1_0000_0000 → w * b ≤ 0xFFFF * 0xFFFF_FFFF
product_bound w b hw hb = grind arith

-- For a 16-bit word and a 32-bit baud rate nothing overflows: the frequency is
-- word * baud * 12 / 7 in exact arithmetic, rounded down.
pub frequency_hz_exact :
    (word baud : ℕ)
    → word < 0x1_0000
    → baud < 0x1_0000_0000
    → frequency_hz word baud ≡ word * baud * 12 / 7
unfolding frequency_hz
frequency_hz_exact word baud hw hb = omega (arith, product_bound word baud hw hb)

-- The rounded quotient: `t` is the number of whole `d` in `f`, to the nearest, halves up.
quotient_bounds : (n d : ℕ) → 0 < d → (n / d * d ≤ n) × (n < n / d * d + d)
quotient_bounds n d h = omega (arith, div-add-mod n d, mod-lt n h, mul_comm d (n / d))

ticks : ℕ → ℕ → ℕ
ticks f b = (f + b * 16) / (b * 32)

ticks_bounds :
    (f b : ℕ)
    → 0 < b
    → (ticks f b * (b * 32) ≤ f + b * 16) × (f + b * 16 < ticks f b * (b * 32) + b * 32)
unfolding ticks
ticks_bounds f b h = quotient_bounds (f + b * 16) (b * 32) (omega arith)

ticks_unique :
    (f b t : ℕ) → t * (b * 32) ≤ f + b * 16 → f + b * 16 < t * (b * 32) + b * 32 → ticks f b ≡ t
unfolding ticks
ticks_unique f b t lo hi = div-eq_of_lt-le (b * 32) lo (omega arith)

-- The end of `timer_reload`, from the rounded quotient on.
abbrev from_ticks : ℕ → ℕ → Result ProtocolError ℕ
from_ticks t b =
    if b * 32 == 0
    then err (unreachable_baud b (pos 0))
    else if in_reload_range (sub_ℕ 256 t)
    then ok (reload_byte (sub_ℕ 256 t))
    else err (unreachable_baud b (sub_ℕ 256 t))

timer_reload-from_ticks :
    (f b : ℕ)
    → f < 0x4000_0000_0000_0000
    → b < 0x1_0000_0000
    → timer_reload f b ≡ from_ticks (ticks f b) b
unfolding timer_reload ticks
timer_reload-from_ticks f b hf hb = let e : u64 (f + b * 32 / 2) ≡ f + b * 16 = omega arith in rw e

from_ticks_iff :
    (t b r : ℕ) → (from_ticks t b ≡ ok r) ↔ ((0 < b) × (1 ≤ r) × (r ≤ 255) × (t ≡ 256 - r))
from_ticks_iff t b r = ((λ e. ground arith), (λ h. ground arith))

-- The reload `r` stands for 256 - r ticks, and that number of ticks of 32 bit times each comes
-- nearest to the measured frequency.
pub record IsReload (f_osc baud r : ℕ) : Type 0 where
  pub reachable : 0 < baud
  pub low : 1 ≤ r
  pub high : r ≤ 255
  pub not_above : (256 - r) * (baud * 32) ≤ f_osc + baud * 16
  pub not_below : f_osc + baud * 16 < (256 - r) * (baud * 32) + baud * 32

-- `timer_reload` answers `r` exactly if `r` is a non-zero byte and 256 - r is
-- f_osc / (32 * baud) rounded to the nearest whole number, halves up; so r is 256 less the
-- quotient rounded, which at a half is one less than the difference rounded halves up. In every other case, a zero
-- baud rate among them, it answers an error. The frequency is below 2^62 and the rate is 32 bits
-- wide.
pub timer_reload-eq-ok_iff :
    (f_osc baud r : ℕ)
    → f_osc < 0x4000_0000_0000_0000
    → baud < 0x1_0000_0000
    → (timer_reload f_osc baud ≡ ok r) ↔ IsReload f_osc baud r
timer_reload-eq-ok_iff f b r hf hb = (forth, back)
  where
    forth : timer_reload f b ≡ ok r → IsReload f b r
    forth e =
        let (hb', lo, hi, q) =
          (from_ticks_iff (ticks f b) b r).0 (sym (timer_reload-from_ticks f b hf hb) ∙ e) in
        let (above, below) = ticks_bounds f b hb' in
        record {
          reachable = hb';
          low = lo;
          high = hi;
          not_above = rw q at above;
          not_below = rw q at below;
        }

    back : IsReload f b r → timer_reload f b ≡ ok r
    back h =
        timer_reload-from_ticks f b hf hb
        ∙ (from_ticks_iff (ticks f b) b r).1
            (h.reachable, h.low, h.high, ticks_unique f b (256 - r) h.not_above h.not_below)
