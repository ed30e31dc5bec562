-- ===== src/Metrics/Store/Gaps.antt =====
-- The synthetic times that make an outage a hole.
use pg_console.Prelude.{
  sym, subst, ◌↔◌, ℕ, ◌+◌, ◌-◌, ◌*◌, ◌/◌, ◌<◌, ◌≡◌, refl, true, List, [], ◌∷◌, arith, ltb, ◌⊎◌, inl,
  inr, Bool-cases,
}
use pg_console.Metrics.Store.{gap_breaks_after, with_gap_breaks}

abbrev pub AscendingFrom : ℕ → List ℕ → Type 0
AscendingFrom lo [] = Unit
AscendingFrom lo (t ∷ times) = (lo < t) × AscendingFrom t times

abbrev pub Ascending : List ℕ → Type 0
Ascending [] = Unit
Ascending (t ∷ times) = AscendingFrom t times

abbrev pub Occurs : ℕ → List ℕ → Type 0
Occurs x [] = ⊥
Occurs x (t ∷ times) = (x ≡ t) ⊎ Occurs x times

-- Two neighbours further apart than one and a half steps.
abbrev pub WideGap : ℕ → ℕ → List ℕ → ℕ → ℕ → Type 0
WideGap step prev [] a b = ⊥
WideGap step prev (t ∷ times) a b =
    ((a ≡ prev) × (b ≡ t) × (step * 3 / 2 < b - a)) ⊎ WideGap step t times a b

gap_breaks-Ascending :
    (step prev : ℕ) (times : List ℕ)
    → 0 < step
    → AscendingFrom prev times
    → AscendingFrom prev (gap_breaks_after step prev times)
unfolding gap_breaks_after
gap_breaks-Ascending step prev [] pos a = tt
gap_breaks-Ascending step prev (t ∷ times) pos a =
    let rest = gap_breaks-Ascending step t times pos a.1 in
    elim (Bool-cases (ltb (step * 3 / 2) (t - prev))) [
      | inl wide ↦ rw wide (omega arith, (ground arith, rest))
      | inr near ↦ rw near (a.0, rest)
    ]

gap_breaks-Occurs :
    (step prev x : ℕ) (times : List ℕ)
    → Occurs x times
    → Occurs x (gap_breaks_after step prev times)
unfolding gap_breaks_after
gap_breaks-Occurs step prev x [] o = o
gap_breaks-Occurs step prev x (t ∷ times) (inl here) =
    elim (Bool-cases (ltb (step * 3 / 2) (t - prev))) [
      | inl wide ↦ rw wide (inr (inl here))
      | inr near ↦ rw near (inl here)
    ]
gap_breaks-Occurs step prev x (t ∷ times) (inr later) =
    let rest = gap_breaks-Occurs step t x times later in
    elim (Bool-cases (ltb (step * 3 / 2) (t - prev))) [
      | inl wide ↦ rw wide (inr (inr rest))
      | inr near ↦ rw near (inr rest)
    ]

wide_test : (step prev t : ℕ) → step * 3 / 2 < t - prev → ltb (step * 3 / 2) (t - prev) ≡ true
wide_test step prev t h = ground arith

gap_breaks-WideGap :
    (step prev a b : ℕ) (times : List ℕ)
    → WideGap step prev times a b
    → Occurs (a + step) (gap_breaks_after step prev times)
unfolding gap_breaks_after
gap_breaks-WideGap step prev a b [] g = g
gap_breaks-WideGap step prev a b (t ∷ times) (inl (p, q, wide)) =
    rw (wide_test step prev t (ground arith)) (inl (ground arith))
gap_breaks-WideGap step prev a b (t ∷ times) (inr later) =
    let rest = gap_breaks-WideGap step t a b times later in
    elim (Bool-cases (ltb (step * 3 / 2) (t - prev))) [
      | inl wide ↦ rw wide (inr (inr rest))
      | inr near ↦ rw near (inr rest)
    ]

held :
    (step at x : ℕ) (times : List ℕ)
    → Occurs x (at ∷ times)
    → Occurs x (with_gap_breaks step (at ∷ times))
unfolding with_gap_breaks
held step at x times (inl here) = inl here
held step at x times (inr later) = inr (gap_breaks-Occurs step at x times later)

-- A time one step after one whose next neighbour is far.
abbrev pub Break : ℕ → ℕ → List ℕ → ℕ → Type 0
Break step prev times x = (a : ℕ) × (b : ℕ) × WideGap step prev times a b × (x ≡ a + step)

later-Break :
    (step prev t x : ℕ) (times : List ℕ)
    → Occurs x times ⊎ Break step t times x
    → Occurs x (t ∷ times) ⊎ Break step prev (t ∷ times) x
later-Break step prev t x times (inl o) = inl (inr o)
later-Break step prev t x times (inr (a, b, g, e)) = inr (a, b, inr g, e)

here_or-Break :
    (step prev t x : ℕ) (times rest : List ℕ)
    → (Occurs x rest → Occurs x times ⊎ Break step t times x)
    → Occurs x (t ∷ rest)
    → Occurs x (t ∷ times) ⊎ Break step prev (t ∷ times) x
here_or-Break step prev t x times rest ih (inl here) = inl (inl here)
here_or-Break step prev t x times rest ih (inr o) = later-Break step prev t x times (ih o)

gap_breaks-only :
    (step prev x : ℕ) (times : List ℕ)
    → Occurs x (gap_breaks_after step prev times)
    → Occurs x times ⊎ Break step prev times x
unfolding gap_breaks_after
gap_breaks-only step prev x [] o = absurd o
gap_breaks-only step prev x (t ∷ times) o =
    let rest = here_or-Break step prev t x times _ (gap_breaks-only step t x times) in
    elim (Bool-cases (ltb (step * 3 / 2) (t - prev))) [
      | inl wide ↦ elim (rw wide at o) [
        | inl e ↦ inr (prev, t, inl (refl, refl, ground (arith, wide)), e)
        | inr later ↦ rest later
      ]
      | inr near ↦ rest (rw near at o)
    ]

from_breaks :
    (step at x : ℕ) (times : List ℕ)
    → Occurs x (with_gap_breaks step (at ∷ times))
    → Occurs x (at ∷ times) ⊎ Break step at times x
unfolding with_gap_breaks
from_breaks step at x times (inl here) = inl (inl here)
from_breaks step at x times (inr o) = elim (gap_breaks-only step at x times o) [
  | inl old ↦ inl (inr old)
  | inr new ↦ inr new
]

to_breaks :
    (step at x : ℕ) (times : List ℕ)
    → Occurs x (at ∷ times) ⊎ Break step at times x
    → Occurs x (with_gap_breaks step (at ∷ times))
unfolding with_gap_breaks
to_breaks step at x times (inl o) = held step at x times o
to_breaks step at x times (inr (a, b, g, e)) = inr (
    subst (λ y. Occurs y (gap_breaks_after step at times)) (sym e)
      (gap_breaks-WideGap step at a b times g))

-- For strictly ascending times and a positive step, the times with their breaks ascend strictly,
-- and they are exactly the given times, and the times one step after a given time whose next one
-- is more than one and a half steps away.
pub with_gap_breaks_lem :
    (step at x : ℕ) (times : List ℕ)
    → 0 < step
    → AscendingFrom at times
    → Ascending (with_gap_breaks step (at ∷ times))
      × (Occurs x (with_gap_breaks step (at ∷ times))
          ↔ (Occurs x (at ∷ times) ⊎ Break step at times x))
unfolding with_gap_breaks
with_gap_breaks_lem step at x times pos a = (
  gap_breaks-Ascending step at times pos a,
  (from_breaks step at x times, to_breaks step at x times),
)
