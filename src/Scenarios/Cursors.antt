-- ===== src/Scenarios/Cursors.antt =====
-- A bucket's pairs in the order of a cursor, for a bucket that is a list of pairs.
use pg_console.Prelude.{
  ◌≡◌, refl, true, inl, inr, some, List, [], ◌∷◌, arith, if◌then◌else◌, Bool-cases,
}
use pg_console.Prelude.Eq.{Eq, ◌==◌, ==_iff, nat_eq, list_eq, string_eq}
use pg_console.Prelude.Dict.{Dict, lookup, insert, lookup-insert}
use pg_console.Prelude.Dict.Sums.{Distinct, Distinct-insert}
use pg_console.History.Types.{Bytes}
use pg_console.History.Journal.{bytes_lt, IsAbove, IsOrdered}
use pg_console.History.Journal.Cursor.{bytes_lt_total}

module _ {V : Type 0} where
  unfoldable pub insert_ordered : Bytes → V → Dict Bytes V → Dict Bytes V
  insert_ordered k v [] = (k, v) ∷ []
  insert_ordered k v ((j, w) ∷ m) =
      let rest = insert_ordered k v m in
      if k == j then (k, v) ∷ m else if bytes_lt k j then (k, v) ∷ (j, w) ∷ m else (j, w) ∷ rest

  unfoldable pub in_order : Dict Bytes V → List (Bytes × V)
  unfolding insert_ordered
  in_order [] = []
  in_order ((k, v) ∷ m) = insert_ordered k v (in_order m)

  lookup-insert_ordered :
      (k j : Bytes) (v : V) (m : Dict Bytes V)
      → lookup j (insert_ordered k v m) ≡ (if k == j then some v else lookup j m)
  unfolding insert_ordered lookup
  lookup-insert_ordered k j v [] = refl
  lookup-insert_ordered k j v ((i, w) ∷ m) =
      ground (arith, lookup-insert_ordered k j v m, ==_iff k i, ==_iff k j, ==_iff i j)

  pub lookup-in_order : (k : Bytes) (m : Dict Bytes V) → lookup k (in_order m) ≡ lookup k m
  unfolding in_order lookup
  lookup-in_order k [] = refl
  lookup-in_order k ((j, v) ∷ m) =
      ground (arith, lookup-insert_ordered j k v (in_order m), lookup-in_order k m)

  insert_ordered-IsAbove :
      (i k : Bytes) (v : V) (m : Dict Bytes V)
      → bytes_lt i k ≡ true
      → IsAbove i m
      → IsAbove i (insert_ordered k v m)
  unfolding insert_ordered IsAbove
  insert_ordered-IsAbove i k v [] below above = (below, tt)
  insert_ordered-IsAbove i k v ((j, w) ∷ m) below (next, above) = elim (Bool-cases (k == j)) [
    | inl same ↦ rw same (below, rw ((==_iff k j).0 same) above)
    | inr other ↦ rw other (elim (Bool-cases (bytes_lt k j)) [
      | inl first ↦ rw first (below, (first, above))
      | inr after ↦
          rw after (next, insert_ordered-IsAbove j k v m (bytes_lt_total k j other after) above)
    ])
  ]

  insert_ordered-IsOrdered :
      (k : Bytes) (v : V) (m : Dict Bytes V) → IsOrdered m → IsOrdered (insert_ordered k v m)
  unfolding insert_ordered IsOrdered IsAbove
  insert_ordered-IsOrdered k v [] ordered = tt
  insert_ordered-IsOrdered k v ((j, w) ∷ m) above = elim (Bool-cases (k == j)) [
    | inl same ↦ rw same (rw ((==_iff k j).0 same) above)
    | inr other ↦ rw other (elim (Bool-cases (bytes_lt k j)) [
      | inl first ↦ rw first (first, above)
      | inr after ↦ rw after (insert_ordered-IsAbove j k v m (bytes_lt_total k j other after) above)
    ])
  ]

  pub in_order-IsOrdered : (m : Dict Bytes V) → IsOrdered (in_order m)
  unfolding in_order IsOrdered
  in_order-IsOrdered [] = tt
  in_order-IsOrdered ((k, v) ∷ m) = insert_ordered-IsOrdered k v (in_order m) (in_order-IsOrdered m)

module _ {K V : Type 0} ⦃e : Eq K⦄ where
  unfoldable pub once : Dict K V → List (K × V)
  once [] = []
  once ((k, v) ∷ m) = insert k v (once m)

  pub lookup-once : (k : K) (m : Dict K V) → lookup k (once m) ≡ lookup k m
  unfolding once lookup
  lookup-once k [] = refl
  lookup-once k ((j, v) ∷ m) = ground (arith, lookup-insert j k v (once m), lookup-once k m)

  pub once-Distinct : (m : Dict K V) → Distinct (once m)
  unfolding once
  once-Distinct [] = tt
  once-Distinct ((k, v) ∷ m) = Distinct-insert k v (once m) (once-Distinct m)
