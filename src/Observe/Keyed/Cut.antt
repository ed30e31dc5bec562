-- ===== src/Observe/Keyed/Cut.antt =====
-- `bounded`: the cut of a published list.
use mathlib.Core.List.{Perm}
use mathlib.Core.List.Perm
use pg_console.Prelude.{
  suc, ◌≡◌, refl, Bool, true, false, List, [], ◌∷◌, arith, length, inl, inr, Bool-cases,
}
use pg_console.Observe.Keyed.{insert_by, sort_slice}

module _ {T : Type 0} (less : T → T → Bool) where
  -- Nothing of the list comes before `t`.
  abbrev pub NoneBefore : T → List T → Type 0
  NoneBefore t [] = Unit
  NoneBefore t (u ∷ us) = (less u t ≡ false) × NoneBefore t us

  abbrev pub NoneBeforeAny : List T → List T → Type 0
  NoneBeforeAny [] us = Unit
  NoneBeforeAny (t ∷ ts) us = NoneBefore t us × NoneBeforeAny ts us

  abbrev pub Sorted : List T → Type 0
  Sorted [] = Unit
  Sorted (t ∷ ts) = NoneBefore t ts × Sorted ts

  -- What a comparator of `sort.Slice` must be.
  pub record IsOrder : Type 0 where
    pub asymmetric : (a b : T) → less a b ≡ true → less b a ≡ false
    pub transitive : (a b c : T) → less b a ≡ false → less c b ≡ false → less c a ≡ false

  length-insert_by : (t : T) (ts : List T) → length (insert_by less t ts) ≡ suc (length ts)
  unfolding insert_by
  length-insert_by t [] = refl
  length-insert_by t (u ∷ us) = ground (arith, length-insert_by t us)

  pub length-sort_slice : (ts : List T) → length (sort_slice less ts) ≡ length ts
  unfolding sort_slice
  length-sort_slice [] = refl
  length-sort_slice (t ∷ ts) =
      omega (arith, length-insert_by t (sort_slice less ts), length-sort_slice ts)

  module _ (o : IsOrder) where
    NoneBefore-trans :
        (t u : T) (ts : List T) → less u t ≡ false → NoneBefore u ts → NoneBefore t ts
    NoneBefore-trans t u [] e h = tt
    NoneBefore-trans t u (x ∷ ts) e h = (o.transitive t u x e h.0, NoneBefore-trans t u ts e h.1)

    NoneBefore-insert_by :
        (x t : T) (ts : List T)
        → less t x ≡ false
        → NoneBefore x ts
        → NoneBefore x (insert_by less t ts)
    unfolding insert_by
    NoneBefore-insert_by x t [] e h = (e, tt)
    NoneBefore-insert_by x t (u ∷ us) e h = ground (arith, NoneBefore-insert_by x t us e h.1)

    insert_by-Sorted : (t : T) (ts : List T) → Sorted ts → Sorted (insert_by less t ts)
    unfolding insert_by
    insert_by-Sorted t [] s = (tt, tt)
    insert_by-Sorted t (u ∷ us) s = elim (Bool-cases (less u t)) [
      | inl e ↦
          rw e (NoneBefore-insert_by u t us (o.asymmetric u t e) s.0, insert_by-Sorted t us s.1)
      | inr e ↦ rw e ((e, NoneBefore-trans t u us e s.0), s)
    ]

    pub sort_slice-Sorted : (ts : List T) → Sorted (sort_slice less ts)
    unfolding sort_slice
    sort_slice-Sorted [] = tt
    sort_slice-Sorted (t ∷ ts) = insert_by-Sorted t (sort_slice less ts) (sort_slice-Sorted ts)
