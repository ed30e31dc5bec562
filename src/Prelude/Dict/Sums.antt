-- ===== src/Prelude/Dict/Sums.antt =====
-- Sums over the values of a map with distinct keys.
use pg_console.Prelude.{ℕ, ◌+◌, ◌≤◌, ◌≡◌, refl, Option, none, some, [], ◌∷◌, arith, length}
use pg_console.Prelude.Eq.{Eq, ==_iff}
use pg_console.Prelude.Dict.{Dict, lookup, insert, remove, lookup-insert, lookup-remove}

abbrev pub measured {ℓ} : {V : Type ℓ} → (V → ℕ) → Option V → ℕ
measured f none = 0
measured f (some v) = f v

unfoldable pub sum_by {ℓ κ} : {K : Type ℓ} {V : Type κ} → (V → ℕ) → Dict K V → ℕ
sum_by f [] = 0
sum_by f ((k, v) ∷ m) = f v + sum_by f m

pub length-eq-sum_by {ℓ κ} : {K : Type ℓ} {V : Type κ} (m : Dict K V) → length m ≡ sum_by (λ _. 1) m
unfolding sum_by
length-eq-sum_by [] = refl
length-eq-sum_by ((n, t) ∷ m) = omega (arith, length-eq-sum_by m)

module _ {ℓ κ} {K : Type ℓ} {V : Type κ} ⦃e : Eq K⦄ where
  -- What Go's maps give: no key stands twice.
  abbrev pub Distinct : Dict K V → Type κ
  Distinct [] = Unit
  Distinct ((k, v) ∷ m) = (lookup k m ≡ none) × Distinct m

  pub Distinct-insert : (k : K) (v : V) (m : Dict K V) → Distinct m → Distinct (insert k v m)
  unfolding insert lookup
  Distinct-insert k v [] d = (refl, tt)
  Distinct-insert k v ((j, w) ∷ m) d =
      ground (arith, Distinct-insert k v m d.1, lookup-insert k j v m, ==_iff j k, ==_iff k j)

  pub Distinct-remove : (k : K) (m : Dict K V) → Distinct m → Distinct (remove k m)
  unfolding remove lookup
  Distinct-remove k [] d = tt
  Distinct-remove k ((j, w) ∷ m) d =
      ground (arith, Distinct-remove k m d.1, lookup-remove k j m, ==_iff j k, ==_iff k j)

  pub remove_absent : (k : K) (m : Dict K V) → lookup k m ≡ none → remove k m ≡ m
  unfolding remove lookup
  remove_absent k [] h = refl
  remove_absent k ((j, w) ∷ m) h = ground (arith, remove_absent k m)

  pub sum_by-insert :
      (f : V → ℕ) (k : K) (v : V) (m : Dict K V)
      → sum_by f (insert k v m) + measured f (lookup k m) ≡ sum_by f m + f v
  unfolding sum_by insert lookup
  sum_by-insert f k v [] = omega arith
  sum_by-insert f k v ((j, w) ∷ m) = ground (arith, sum_by-insert f k v m)

  pub sum_by-remove :
      (f : V → ℕ) (k : K) (m : Dict K V)
      → Distinct m
      → sum_by f (remove k m) + measured f (lookup k m) ≡ sum_by f m
  unfolding sum_by remove lookup
  sum_by-remove f k [] d = omega arith
  sum_by-remove f k ((j, w) ∷ m) d =
      ground (arith, sum_by-remove f k m d.1, ==_iff j k, remove_absent k m)

  pub measured-le-sum_by : (f : V → ℕ) (k : K) (m : Dict K V) → measured f (lookup k m) ≤ sum_by f m
  unfolding sum_by lookup
  measured-le-sum_by f k [] = omega arith
  measured-le-sum_by f k ((j, w) ∷ m) = ground (arith, measured-le-sum_by f k m)
