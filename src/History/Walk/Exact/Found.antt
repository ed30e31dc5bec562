-- ===== src/History/Walk/Exact/Found.antt =====
-- The keys and positions that the reference visits are those under which either value has a part.
use pg_console.Prelude.{
  ℕ, zero, suc, ◌+◌, ◌≡◌, refl, subst, arith, Option, none, some, List, [], ◌∷◌, String, ◌⊎◌, inl,
  inr, Bool-cases, Option-cases,
}
use pg_console.Prelude.Eq.{◌==◌, ==_iff, string_eq}
use pg_console.Prelude.Dict.{Dict, lookup}
use pg_console.Prelude.Sort.{sort_strings, insert_sorted, str_le}
use pg_console.History.Values.{
  Value, Items, no_items, item, Members, no_members, member, keys, member_at, item_at, is_there,
}
use pg_console.History.Paths.{FieldPath, field_path_index}
use pg_console.History.Walk.{DiffEntry, Codec, union_keys, names_in, not_in}
use pg_console.History.Walk.Changes.{changes_at, keyed_changes, indexed_changes}
use pg_console.History.Walk.Exact.{Occurs, Occurs-append, Occurs-append_left, Occurs-append_right}

insert_sorted-Occurs :
    (x s : String) (ss : List String) → (s ≡ x) ⊎ Occurs x ss → Occurs x (insert_sorted s ss)
unfolding insert_sorted Occurs
insert_sorted-Occurs x s [] there = there
insert_sorted-Occurs x s (t ∷ ts) there = elim (Bool-cases (str_le s t)) [
  | inl first ↦ rw first there
  | inr later ↦ rw later (elim there [
    | inl here ↦ inr (insert_sorted-Occurs x s ts (inl here))
    | inr (inl head) ↦ inl head
    | inr (inr tail) ↦ inr (insert_sorted-Occurs x s ts (inr tail))
  ])
]

sort_strings-Occurs : (x : String) (ss : List String) → Occurs x ss → Occurs x (sort_strings ss)
unfolding sort_strings Occurs
sort_strings-Occurs x [] there = there
sort_strings-Occurs x (s ∷ ss) (inl here) = insert_sorted-Occurs x s (sort_strings ss) (inl here)
sort_strings-Occurs x (s ∷ ss) (inr there) =
    insert_sorted-Occurs x s (sort_strings ss) (inr (sort_strings-Occurs x ss there))

module _ {F : Type 0} where
  pub member_at-Occurs :
      (k : String) (ms : Members F) (v : Value F) → member_at k ms ≡ some v → Occurs k (keys ms)
  unfolding member_at keys Occurs
  member_at-Occurs k no_members v at = absurd (ground (arith, at))
  member_at-Occurs k (member j w ms) v at = elim (Bool-cases (j == k)) [
    | inl same ↦ inl ((==_iff j k).0 same)
    | inr other ↦ inr (member_at-Occurs k ms v (ground (arith, at, other)))
  ]

  pub lookup-Occurs :
      (k : String) (named : Dict String (Value F)) (v : Value F)
      → lookup k named ≡ some v
      → Occurs k (names_in named)
  unfolding lookup Occurs
  lookup-Occurs k [] v at = absurd (ground (arith, at))
  lookup-Occurs k ((j, w) ∷ named) v at = elim (Bool-cases (j == k)) [
    | inl same ↦ inl ((==_iff j k).0 same)
    | inr other ↦ inr (lookup-Occurs k named v (ground (arith, at, other)))
  ]

  not_in-Occurs :
      (k : String) (before : String → Option (Value F)) (names : List String)
      → before k ≡ none
      → Occurs k names
      → Occurs k (not_in before names)
  unfolding Occurs
  not_in-Occurs k before [] absent there = there
  not_in-Occurs k before (j ∷ names) absent (inl here) = rw here (rw absent (inl refl))
  not_in-Occurs k before (j ∷ names) absent (inr there) = elim (Bool-cases (is_there (before j))) [
    | inl known ↦ rw known (not_in-Occurs k before names absent there)
    | inr new ↦ rw new (inr (not_in-Occurs k before names absent there))
  ]

  -- Every key under which either side has a value is visited.
  pub union_keys-Occurs :
      (k : String) (old : List String) (before after : String → Option (Value F))
      (new : List String)
      → ((v : Value F) → before k ≡ some v → Occurs k old)
      → ((v : Value F) → after k ≡ some v → Occurs k new)
      → ((v : Value F) × (before k ≡ some v)) ⊎ ((v : Value F) × (after k ≡ some v))
      → Occurs k (union_keys old before new)
  unfolding union_keys
  union_keys-Occurs k old before after new olds news (inl (v, at)) =
      sort_strings-Occurs k _ (Occurs-append_left k old (not_in before new) (olds v at))
  union_keys-Occurs k old before after new olds news (inr (v, at)) =
      sort_strings-Occurs k _ (elim (Option-cases (before k)) [
        | inl absent ↦
            Occurs-append_right k old (not_in before new)
              (not_in-Occurs k before new absent (news v at))
        | inr (u, here) ↦ Occurs-append_left k old (not_in before new) (olds u here)
      ])

  module _ (codec : Codec F) (inner : FieldPath → Value F → Value F → List DiffEntry)
      (entry : DiffEntry) where
    pub keyed-Occurs :
        (child : String → FieldPath) (before after : String → Option (Value F))
        (names : List String)
        → Occurs entry (keyed_changes codec inner child before after names)
        → (k : String) × Occurs entry (changes_at codec inner (child k) (before k) (after k))
    unfolding keyed_changes Occurs
    keyed-Occurs child before after [] there = absurd there
    keyed-Occurs child before after (k ∷ names) there =
        elim (Occurs-append entry (changes_at codec inner (child k) (before k) (after k))
          (keyed_changes codec inner child before after names) there) [
            | inl here ↦ (k, here)
            | inr later ↦ keyed-Occurs child before after names later
          ]

    pub keyed-Occurs_back :
        (child : String → FieldPath) (before after : String → Option (Value F))
        (names : List String) (k : String)
        → Occurs k names
        → Occurs entry (changes_at codec inner (child k) (before k) (after k))
        → Occurs entry (keyed_changes codec inner child before after names)
    unfolding keyed_changes Occurs
    keyed-Occurs_back child before after [] k visited there = absurd visited
    keyed-Occurs_back child before after (j ∷ names) k (inl same) there =
        Occurs-append_left entry (changes_at codec inner (child j) (before j) (after j))
          (keyed_changes codec inner child before after names) (rw same there)
    keyed-Occurs_back child before after (j ∷ names) k (inr visited) there =
        Occurs-append_right entry (changes_at codec inner (child j) (before j) (after j))
          (keyed_changes codec inner child before after names)
          (keyed-Occurs_back child before after names k visited there)

    -- At a position: in both lists, in one of them, or in none.
    abbrev position : FieldPath → ℕ → Items F → Items F → ℕ → List DiffEntry
    position path i vs ws k =
        changes_at codec inner (field_path_index path (i + k)) (item_at vs k) (item_at ws k)

    pub moved :
        (path : FieldPath) (i j : ℕ) (old new : Option (Value F))
        → i ≡ j
        → Occurs entry (changes_at codec inner (field_path_index path i) old new)
        → Occurs entry (changes_at codec inner (field_path_index path j) old new)
    moved path i j old new e there =
        subst (λ n. Occurs entry (changes_at codec inner (field_path_index path n) old new)) e there

    abbrev Positioned : FieldPath → ℕ → Items F → Items F → Type 0
    Positioned path i vs ws = (k : ℕ) × Occurs entry (position path i vs ws k)

    position_here :
        (path : FieldPath) (i : ℕ) (vs ws : Items F)
        → Occurs entry
            (changes_at codec inner (field_path_index path i) (item_at vs 0) (item_at ws 0))
        → Positioned path i vs ws
    position_here path i vs ws there =
        (0, moved path i (i + 0) (item_at vs 0) (item_at ws 0) (omega arith) there)

    position_later :
        (path : FieldPath) (i k : ℕ) (old new : Option (Value F))
        → Occurs entry (changes_at codec inner (field_path_index path (suc i + k)) old new)
        → Occurs entry (changes_at codec inner (field_path_index path (i + suc k)) old new)
    position_later path i k old new there =
        moved path (suc i + k) (i + suc k) old new (omega arith) there

    pub indexed-Occurs :
        (path : FieldPath) (i : ℕ) (vs ws : Items F)
        → Occurs entry (indexed_changes codec inner path i vs ws)
        → Positioned path i vs ws
    unfolding indexed_changes Occurs item_at changes_at
    indexed-Occurs path i no_items no_items there = absurd there
    indexed-Occurs path i no_items (item w ws) (inl here) =
        position_here path i no_items (item w ws) (inl here)
    indexed-Occurs path i no_items (item w ws) (inr there) =
        let (k, at) = indexed-Occurs path (suc i) no_items ws there in
        (suc k, position_later path i k none (item_at ws k) at)
    indexed-Occurs path i (item v vs) no_items (inl here) =
        position_here path i (item v vs) no_items (inl here)
    indexed-Occurs path i (item v vs) no_items (inr there) =
        let (k, at) = indexed-Occurs path (suc i) vs no_items there in
        (suc k, position_later path i k (item_at vs k) none at)
    indexed-Occurs path i (item v vs) (item w ws) there =
        elim (Occurs-append entry (inner (field_path_index path i) v w)
          (indexed_changes codec inner path (suc i) vs ws) there) [
            | inl here ↦ position_here path i (item v vs) (item w ws) here
            | inr later ↦
                let (k, at) = indexed-Occurs path (suc i) vs ws later in
                (suc k, position_later path i k (item_at vs k) (item_at ws k) at)
          ]

    pub indexed-Occurs_back :
        (path : FieldPath) (i : ℕ) (vs ws : Items F) (k : ℕ)
        → Occurs entry (position path i vs ws k)
        → Occurs entry (indexed_changes codec inner path i vs ws)
    unfolding indexed_changes Occurs item_at changes_at
    indexed-Occurs_back path i no_items no_items k there = there
    indexed-Occurs_back path i no_items (item w ws) zero there =
        elim (moved path (i + 0) i none (some w) (omega arith) there) [
          | inl here ↦ inl here
          | inr never ↦ absurd never
        ]
    indexed-Occurs_back path i no_items (item w ws) (suc k) there = inr (
        indexed-Occurs_back path (suc i) no_items ws k
          (moved path (i + suc k) (suc i + k) none (item_at ws k) (omega arith) there))
    indexed-Occurs_back path i (item v vs) no_items zero there =
        elim (moved path (i + 0) i (some v) none (omega arith) there) [
          | inl here ↦ inl here
          | inr never ↦ absurd never
        ]
    indexed-Occurs_back path i (item v vs) no_items (suc k) there = inr (
        indexed-Occurs_back path (suc i) vs no_items k
          (moved path (i + suc k) (suc i + k) (item_at vs k) none (omega arith) there))
    indexed-Occurs_back path i (item v vs) (item w ws) zero there =
        Occurs-append_left entry (inner (field_path_index path i) v w)
          (indexed_changes codec inner path (suc i) vs ws)
          (moved path (i + 0) i (some v) (some w) (omega arith) there)
    indexed-Occurs_back path i (item v vs) (item w ws) (suc k) there =
        Occurs-append_right entry (inner (field_path_index path i) v w)
          (indexed_changes codec inner path (suc i) vs ws)
          (indexed-Occurs_back path (suc i) vs ws k
            (moved path (i + suc k) (suc i + k) (item_at vs k) (item_at ws k) (omega arith) there))
