-- ===== src/Observe/Keyed/Bounds.antt =====
-- The bound on the retained items, and what each write leaves.
use pg_console.Prelude.{
  true, false, ◌≤◌, ◌<◌, ◌≡◌, ◌≢◌, refl, sym, subst, ◌↔◌, ◌∙◌, ◌&&◌, none, some, List, [], ◌∷◌,
  String, arith, length, if◌then◌else◌, ◌⊎◌, inl, inr, Bool-cases, Option-cases,
}
use mathlib.Core.Option.{some-injective}
use pg_console.Prelude.Eq.{string_eq, ◌==◌, ==_iff, ==_refl}
use pg_console.Prelude.Dict.{Dict, lookup, insert, remove, lookup-insert, lookup-remove}
use pg_console.Prelude.Dict.Sums.{
  length-eq-sum_by, Distinct, Distinct-insert, Distinct-remove, sum_by-insert, sum_by-remove,
}
use pg_console.Observe.Keyed.Cut.{IsOrder}
use pg_console.Observe.Keyed.{
  Retention, evictee_from, evictee, at_limit, put, put_all, drop_named, matches,
}

module _ {T : Type 0} (p : Retention T) where
  abbrev pub Has : Dict String T → String → Type 0
  Has k name = (t : T) × (lookup name k ≡ some t)

  here_or_later :
      (n : String) (t : T) (m : String) (k : Dict String T) → (m ≡ n) ⊎ Has k m → Has ((n, t) ∷ k) m
  unfolding lookup
  here_or_later n t m k (inl same) = (t, ground (arith, ==_iff n m))
  here_or_later n t m k (inr (u, later)) = elim (Bool-cases (n == m)) [
    | inl here ↦ (t, ground arith)
    | inr not_here ↦ (u, ground arith)
  ]

  evictee_from-Has :
      (k : Dict String T) (l : String) (worst : T)
      → (n : String) × (t : T) × (evictee_from p (some (l, worst)) k ≡ some (n, t))
        × ((n ≡ l) ⊎ Has k n)
  unfolding evictee_from lookup
  evictee_from-Has [] l worst = (l, worst, refl, inl refl)
  evictee_from-Has ((n, t) ∷ k) l worst = elim (Bool-cases (p.evictable t worst)) [
    | inl worse ↦
        let (m, u, e, at) = evictee_from-Has k n t in
        (m, u, ground arith, inr (here_or_later n t m k at))
    | inr better ↦
        let (m, u, e, at) = evictee_from-Has k l worst in
        (
          m,
          u,
          ground arith,
          elim at [ inl same ↦ inl same | inr later ↦ inr (here_or_later n t m k (inr later)) ],
        )
  ]

  -- A non-empty map has an item to evict.
  evictee-Has : (k : Dict String T) → 0 < length k → Has k (evictee p k)
  unfolding evictee evictee_from
  evictee-Has [] h = absurd (omega arith)
  evictee-Has ((n, t) ∷ k) h =
      let (m, u, e, at) = evictee_from-Has k n t in rw (e, evictee) (here_or_later n t m k at)

  length-put :
      (item : T) (k : Dict String T)
      → Distinct k
      → 0 < p.limit
      → length k ≤ p.limit
      → length (put p item k).0 ≤ p.limit
  unfolding put at_limit
  length-put item k d pos h = elim (Bool-cases (at_limit p item k)) [
    | inl full ↦
        let (loser, at) = evictee-Has k (ground arith) in
        let less = remove (evictee p k) k in
        ground (
          arith,
          length-eq-sum_by k,
          length-eq-sum_by less,
          length-eq-sum_by (insert (p.name item) item less),
          sum_by-remove (λ _. 1) (evictee p k) k d,
          sum_by-insert (λ _. 1) (p.name item) item less,
        )
    | inr room ↦ ground (
      arith,
      length-eq-sum_by k,
      length-eq-sum_by (insert (p.name item) item k),
      sum_by-insert (λ _. 1) (p.name item) item k,
    )
  ]

  Distinct-put : (item : T) (k : Dict String T) → Distinct k → Distinct (put p item k).0
  unfolding put
  Distinct-put item k d = elim (Bool-cases (at_limit p item k)) [
    | inl full ↦ rw full (
        Distinct-insert (p.name item) item (remove (evictee p k) k)
          (Distinct-remove (evictee p k) k d))
    | inr room ↦ rw room (Distinct-insert (p.name item) item k d)
  ]

  put_all-keeps :
      (items : List T) (k : Dict String T)
      → 0 < p.limit
      → Distinct k
      → length k ≤ p.limit
      → length (put_all p items k) ≤ p.limit
  unfolding put_all
  put_all-keeps [] k pos d h = h
  put_all-keeps (item ∷ items) k pos d h =
      put_all-keeps items (put p item k).0 pos (Distinct-put item k d) (length-put item k d pos h)

  -- From an empty map, any puts retain at most `Limit` items, where the limit is not zero.
  pub length-put_all : (items : List T) → 0 < p.limit → length (put_all p items []) ≤ p.limit
  length-put_all items pos = put_all-keeps items [] pos tt (omega arith)

  -- No retained entry is to be dropped before the item.
  abbrev pub IsFirst : T → Dict String T → Type 0
  IsFirst t k = (n : String) (u : T) → lookup n k ≡ some u → p.evictable u t ≡ false

  IsFirst-cons :
      (n : String) (t u : T) (k : Dict String T)
      → p.evictable t u ≡ false
      → IsFirst u k
      → IsFirst u ((n, t) ∷ k)
  unfolding lookup
  IsFirst-cons n t u k behind first m v at = elim (Bool-cases (n == m)) [
    | inl here ↦
        subst (λ x. p.evictable x u ≡ false) (some-injective t v (sym (rw here refl) ∙ at)) behind
    | inr other ↦ first m v (ground (arith, at, other))
  ]

  irreflexive : IsOrder p.evictable → (t : T) → p.evictable t t ≡ false
  irreflexive o t = elim (Bool-cases (p.evictable t t)) [
    | inl before ↦ o.asymmetric t t before
    | inr same ↦ same
  ]

  later_none :
      (l n : String) (t : T) (k : Dict String T) → lookup l ((n, t) ∷ k) ≡ none → lookup l k ≡ none
  unfolding lookup
  later_none l n t k fresh = ground (arith, fresh)

  -- The entry that the loop ends with is one of those it saw, and none of them is dropped before it.
  evictee_from-IsFirst :
      IsOrder p.evictable
      → (k : Dict String T) (l : String) (worst : T) → Distinct k
      → lookup l k ≡ none
      → (n : String) × (t : T) × (evictee_from p (some (l, worst)) k ≡ some (n, t))
        × (lookup n ((l, worst) ∷ k) ≡ some t)
        × (p.evictable worst t ≡ false)
        × IsFirst t k
  unfolding evictee_from lookup
  evictee_from-IsFirst o [] l worst d fresh = (
    l,
    worst,
    refl,
    rw (==_refl l) refl,
    irreflexive o worst,
    λ n u at. absurd (ground (arith, at)),
  )
  evictee_from-IsFirst o ((n, t) ∷ k) l worst d fresh = elim (Bool-cases (p.evictable t worst)) [
    | inl worse ↦
        let (m, u, e, at, behind, first) = evictee_from-IsFirst o k n t d.1 d.0 in
        (
          m,
          u,
          rw worse e,
          elim (Bool-cases (l == m)) [
            | inl same ↦ absurd (ground (arith, at, fresh, (==_iff l m).0 same))
            | inr other ↦ rw other at
          ],
          o.transitive u t worst behind (o.asymmetric t worst worse),
          IsFirst-cons n t u k behind first,
        )
    | inr better ↦
        let (m, u, e, at, behind, first) =
          evictee_from-IsFirst o k l worst d.1 (later_none l n t k fresh) in
        (
          m,
          u,
          rw better e,
          elim (Bool-cases (l == m)) [
            | inl same ↦ ground (arith, at, same)
            | inr other ↦ ground (arith, at, other, d.0, ==_iff n m)
          ],
          behind,
          IsFirst-cons n t u k (o.transitive u worst t behind better) first,
        )
  ]

  -- The entry that is evicted is a retained one, and no other is to be dropped before it.
  evictee-IsFirst :
      IsOrder p.evictable
      → (k : Dict String T) → Distinct k
      → 0 < length k
      → (t : T) × (lookup (evictee p k) k ≡ some t) × IsFirst t k
  unfolding evictee evictee_from
  evictee-IsFirst o [] d h = absurd (omega arith)
  evictee-IsFirst o ((n, t) ∷ k) d h =
      let (m, u, e, at, behind, first) = evictee_from-IsFirst o k n t d.1 d.0 in
      (u, rw (e, evictee) at, IsFirst-cons n t u k behind first)

  -- For a map in which no name stands twice and a policy that orders its items: after `put` the item
  -- is retained under its name. `put` evicts exactly for a new name at the limit, where there is one,
  -- and then the evicted entry is one that was retained, under another name, such that no retained
  -- item is to be dropped before its item. Every other entry is as it was.
  pub lookup-put :
      (item : T) (k : Dict String T)
      → IsOrder p.evictable
      → Distinct k
      → ((((put p item k).1 ≡ false)
            × ((j : String)
                → lookup j (put p item k).0 ≡ (if p.name item == j then some item else lookup j k)))
          ⊎ (((put p item k).1 ≡ true)
              × (loser : String) × (t : T) × (lookup loser k ≡ some t)
              × (loser ≢ p.name item)
              × IsFirst t k
              × ((j : String)
                  → lookup j (put p item k).0 ≡ (
                      if p.name item == j
                      then some item
                      else if loser == j
                      then none
                      else lookup j k))))
        × (((put p item k).1 ≡ true)
            ↔ ((lookup (p.name item) k ≡ none) × (0 < p.limit) × (p.limit ≤ length k)))
  unfolding put at_limit
  lookup-put item k o d = (
    elim (Bool-cases (at_limit p item k)) [
      | inl full ↦
          let (t, at, first) = evictee-IsFirst o k d (ground arith) in
          inr (
            full,
            evictee p k,
            t,
            at,
            (λ same. ground (arith, at)),
            first,
            (λ j. rw full (
                lookup-insert (p.name item) j item (remove (evictee p k) k)
                ∙ rw (lookup-remove (evictee p k) j k) refl)),
          )
      | inr room ↦ inl (room, λ j. rw room (lookup-insert (p.name item) j item k))
    ],
    (
      (λ full. (ground arith, ground arith, ground arith)),
      (λ (fresh, limited, packed). ground (arith, fresh, limited, packed)),
    ),
  )

  -- `remove` drops the entry of a name exactly if the deletion's UID is the retained one's; a
  -- deletion of an older incarnation changes nothing.
  pub lookup-drop_named :
      (name uid j : String) (k : Dict String T)
      → lookup j (drop_named p name uid k)
        ≡ (if name == j && matches p uid (lookup name k) then none else lookup j k)
  unfolding drop_named
  lookup-drop_named name uid j k = elim (Option-cases (lookup name k)) [
    | inl e ↦ ground arith
    | inr (t, e) ↦ ground (arith, lookup-remove name j k)
  ]
