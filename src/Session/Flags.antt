-- ===== src/Session/Flags.antt =====
-- Which steps of a plan are writes, and which is the last of them: what `Session::advance` of
-- src/session.rs computes with `rposition`.
use mathlib.Core.Bool.{◌||◌}
use stcbsl.Base.{
  ℕ, zero, suc, ◌+◌, ◌≤◌, ◌<◌, ◌≡◌, ◌⊎◌, refl, inl, inr, Bool, true, false, not, Option, none, some,
  List, [], ◌∷◌, length, get_elem?, take, drop, ◌==◌, arith,
}
use stcbsl.Session.{Step, is_write, rposition_write, unwrap_or}

abbrev pub any_write : List Step → Bool
any_write [] = false
any_write (s ∷ ss) = is_write s.phase || any_write ss

abbrev Last : ℕ → List Step → Option ℕ → Type 0
Last i l none = any_write l ≡ false
Last i l (some j) = (any_write l ≡ true) × (i ≤ j)

rposition_write-Last : (i : ℕ) (l : List Step) → Last i l (rposition_write i l)
unfolding rposition_write
rposition_write-Last i [] = refl
rposition_write-Last i (s ∷ ss) = ground (arith, rposition_write-Last (suc i) ss)

pub any_write-take-suc :
    (k : ℕ) (l : List Step) (step : Step)
    → get_elem? l k ≡ some step
    → any_write (take (suc k) l) ≡ (any_write (take k l) || is_write step.phase)
any_write-take-suc k [] step e = cc
any_write-take-suc zero (s ∷ ss) step e = ground arith
any_write-take-suc (suc k) (s ∷ ss) step e = ground (arith, any_write-take-suc k ss step e)

pub any_write-drop :
    (k : ℕ) (l : List Step) (step : Step)
    → get_elem? l k ≡ some step
    → any_write (drop k l) ≡ (is_write step.phase || any_write (drop (suc k) l))
any_write-drop k [] step e = cc
any_write-drop zero (s ∷ ss) step e = ground arith
any_write-drop (suc k) (s ∷ ss) step e = any_write-drop k ss step e

any_write_later : (k : ℕ) (l : List Step) → any_write l ≡ false → any_write (drop k l) ≡ false
any_write_later zero l e = e
any_write_later (suc k) [] e = e
any_write_later (suc k) (s ∷ ss) e = any_write_later k ss (ground arith)

-- A write step is the last one just when no write follows it.
pub last_write_iff :
    (i k d : ℕ) (l : List Step) (step : Step)
    → get_elem? l k ≡ some step
    → is_write step.phase ≡ true
    → (i + k == unwrap_or (rposition_write i l) d) ≡ not (any_write (drop (suc k) l))
unfolding rposition_write
last_write_iff i k d [] step e w = cc
last_write_iff i zero d (s ∷ ss) step e w = ground (arith, rposition_write-Last (suc i) ss)
last_write_iff i (suc k) d (s ∷ ss) step e w = ground (
  arith,
  rposition_write-Last (suc i) ss,
  last_write_iff (suc i) k d ss step e w,
  any_write-drop k ss step e,
  any_write_later k ss,
)

pub get_elem?-lt : (l : List Step) (k : ℕ) {step : Step} → get_elem? l k ≡ some step → k < length l
get_elem?-lt [] k e = cc
get_elem?-lt (s ∷ ss) zero e = omega arith
get_elem?-lt (s ∷ ss) (suc k) e = omega (arith, get_elem?-lt ss k e)

pub get_elem?-cases :
    (l : List Step) (k : ℕ)
    → ((length l ≤ k) × (get_elem? l k ≡ none))
      ⊎ ((step : Step) × (k < length l) × (get_elem? l k ≡ some step))
get_elem?-cases [] k = inl (omega arith, refl)
get_elem?-cases (s ∷ ss) zero = inr (s, omega arith, refl)
get_elem?-cases (s ∷ ss) (suc k) = elim (get_elem?-cases ss k) [
  | inl (h, e) ↦ inl (omega arith, e)
  | inr (step, h, e) ↦ inr (step, omega arith, e)
]
