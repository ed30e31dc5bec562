-- ===== src/History/Walk/Changes.antt =====
-- The walk against a reference that lists every change and has no bound.
use pg_console.Prelude.{
  ℕ, zero, suc, ◌+◌, ◌≤◌, ◌≡◌, refl, sym, ap, ◌∙◌, arith, Option, none, some, List, [], ◌∷◌, ◌++◌,
  String, min, if◌then◌else◌,
}
use pg_console.Prelude.Eq.{Eq, string_eq}
use pg_console.Prelude.Dict.{Dict, lookup}
use pg_console.History.Values.{
  Value, Items, no_items, item, keys, member_at, item_at, item_count, named_elements, Pairing,
  pairing, two_objects, two_arrays, leaves, json_equal,
}
use pg_console.History.Values.Depth.{
  depth, member_at-depth, item_at-depth, named_elements-depth, depth_pos, object-depth, array-depth,
}
use pg_console.History.Paths.{FieldPath, field_path_key, field_path_named, field_path_index}
use pg_console.History.Walk.{
  DiffEntry, Differ, add, ◌>>=◌, Codec, added, removed, changed, compare_at, walk_keyed, union_keys,
  names_in, walk_shared, drop_items, add_rest, remove_rest, walk_positions, walk_lists, walk_maps,
  walk,
}

unfoldable pub add_all : List DiffEntry → Differ → Differ
add_all [] d = d
add_all (e ∷ es) d = add_all es (add e d)

pub add_all-append :
    (es fs : List DiffEntry) (d : Differ) → add_all (es ++ fs) d ≡ add_all fs (add_all es d)
unfolding add_all
add_all-append [] fs d = refl
add_all-append (e ∷ es) fs d = add_all-append es fs (add e d)

module _ {F : Type 0} (codec : Codec F) where
  -- What two values at a path differ by; `inner` is for a path that both have.
  unfoldable pub changes_at :
      (FieldPath → Value F → Value F → List DiffEntry)
      → FieldPath
      → Option (Value F)
      → Option (Value F)
      → List DiffEntry
  changes_at inner child none none = []
  changes_at inner child none (some w) = added codec child w ∷ []
  changes_at inner child (some v) none = removed codec child v ∷ []
  changes_at inner child (some v) (some w) = inner child v w

  unfoldable pub keyed_changes :
      (FieldPath → Value F → Value F → List DiffEntry)
      → (String → FieldPath)
      → (String → Option (Value F))
      → (String → Option (Value F))
      → List String
      → List DiffEntry
  unfolding changes_at
  keyed_changes inner child before after [] = []
  keyed_changes inner child before after (key ∷ names) =
      changes_at inner (child key) (before key) (after key)
      ++ keyed_changes inner child before after names

  -- The positions of either list, from an index on.
  unfoldable pub indexed_changes :
      (FieldPath → Value F → Value F → List DiffEntry)
      → FieldPath
      → ℕ
      → Items F
      → Items F
      → List DiffEntry
  indexed_changes inner path i no_items no_items = []
  indexed_changes inner path i no_items (item w ws) =
      added codec (field_path_index path i) w ∷ indexed_changes inner path (suc i) no_items ws
  indexed_changes inner path i (item v vs) no_items =
      removed codec (field_path_index path i) v ∷ indexed_changes inner path (suc i) vs no_items
  indexed_changes inner path i (item v vs) (item w ws) =
      inner (field_path_index path i) v w ++ indexed_changes inner path (suc i) vs ws

  unfoldable pub listed_changes :
      (FieldPath → Value F → Value F → List DiffEntry)
      → FieldPath
      → Items F
      → Items F
      → Option (Dict String (Value F))
      → Option (Dict String (Value F))
      → List DiffEntry
  unfolding keyed_changes indexed_changes union_keys
  listed_changes inner path vs ws (some old) (some new) =
      keyed_changes inner (field_path_named path) (λ name. lookup name old)
        (λ name. lookup name new)
        (union_keys (names_in old) (λ name. lookup name old) (names_in new))
  listed_changes inner path vs ws none new = indexed_changes inner path 0 vs ws
  listed_changes inner path vs ws (some old) none = indexed_changes inner path 0 vs ws

  module _ ⦃e : Eq F⦄ where
    -- Every change, with no bound.
    unfoldable pub changes : ℕ → FieldPath → Value F → Value F → List DiffEntry
    unfolding keyed_changes listed_changes union_keys
    changes zero path before after = []
    changes (suc n) path before after = elim (pairing before after) [
      | two_objects ms ns ↦
          keyed_changes (changes n) (field_path_key path) (λ key. member_at key ms)
            (λ key. member_at key ns) (union_keys (keys ms) (λ key. member_at key ms) (keys ns))
      | two_arrays vs ws ↦
          listed_changes (changes n) path vs ws (named_elements vs) (named_elements ws)
      | leaves ↦ if json_equal before after then [] else changed codec path before after ∷ []
    ]

  module _ (inner : FieldPath → Value F → Value F → List DiffEntry)
      (step : FieldPath → Value F → Value F → Differ → Option Differ) (n : ℕ)
      (follows : (path : FieldPath) (v w : Value F) (d : Differ)
        → depth v ≤ n
        → step path v w d ≡ some (add_all (inner path v w) d)) where
    compare_at-follows :
        (child : FieldPath) (old new : Option (Value F)) (d : Differ)
        → ((v : Value F) → old ≡ some v → depth v ≤ n)
        → compare_at codec step child old new d ≡ some (add_all (changes_at inner child old new) d)
    unfolding compare_at changes_at add_all
    compare_at-follows child none none d fits = refl
    compare_at-follows child none (some w) d fits = refl
    compare_at-follows child (some v) none d fits = refl
    compare_at-follows child (some v) (some w) d fits = follows child v w d (fits v refl)

    keyed-follows :
        (child : String → FieldPath) (before after : String → Option (Value F))
        (names : List String) (d : Differ)
        → ((key : String) (v : Value F) → before key ≡ some v → depth v ≤ n)
        → walk_keyed codec step child before after names d
          ≡ some (add_all (keyed_changes inner child before after names) d)
    unfolding walk_keyed keyed_changes add_all
    keyed-follows child before after [] d fits = refl
    keyed-follows child before after (key ∷ names) d fits =
        let here = changes_at inner (child key) (before key) (after key) in
        ap (λ r. r >>= walk_keyed codec step child before after names)
          (compare_at-follows (child key) (before key) (after key) d (fits key))
        ∙ keyed-follows child before after names (add_all here d) fits
        ∙ ap some (sym (add_all-append here (keyed_changes inner child before after names) d))

    add_rest-follows :
        (path : FieldPath) (i : ℕ) (ws : Items F) (d : Differ)
        → add_rest codec path i ws d ≡ add_all (indexed_changes inner path i no_items ws) d
    unfolding add_rest indexed_changes add_all
    add_rest-follows path i no_items d = refl
    add_rest-follows path i (item w ws) d = add_rest-follows path (suc i) ws _

    remove_rest-follows :
        (path : FieldPath) (i : ℕ) (vs : Items F) (d : Differ)
        → remove_rest codec path i vs d ≡ add_all (indexed_changes inner path i vs no_items) d
    unfolding remove_rest indexed_changes add_all
    remove_rest-follows path i no_items d = refl
    remove_rest-follows path i (item v vs) d = remove_rest-follows path (suc i) vs _

    -- The two loops that follow the shared positions.
    abbrev rests : FieldPath → ℕ → ℕ → Items F → Items F → Differ → Option Differ
    rests path j c vs ws d =
        some
          (remove_rest codec path j (drop_items c vs) (add_rest codec path j (drop_items c ws) d))

    positions-follow :
        (path : FieldPath) (i j c : ℕ) (vs ws : Items F) (d : Differ)
        → j ≡ i + c
        → c ≡ min (item_count vs) (item_count ws)
        → ((k : ℕ) (v : Value F) → item_at vs k ≡ some v → depth v ≤ n)
        → (walk_shared step path i vs ws d >>= rests path j c vs ws)
          ≡ some (add_all (indexed_changes inner path i vs ws) d)
    unfolding walk_shared drop_items item_at item_count indexed_changes
    positions-follow path i j zero no_items ws d at count fits =
        let e : j ≡ i = omega arith in
        rw e (ap some (unfold remove_rest in add_rest-follows path i ws d))
    positions-follow path i j (suc c) no_items ws d at count fits = absurd (omega arith)
    positions-follow path i j zero (item v vs) no_items d at count fits =
        let e : j ≡ i = omega arith in
        rw e (ap some (unfold add_rest in remove_rest-follows path i (item v vs) d))
    positions-follow path i j (suc c) (item v vs) no_items d at count fits = absurd (omega arith)
    positions-follow path i j zero (item v vs) (item w ws) d at count fits = absurd (omega arith)
    positions-follow path i j (suc c) (item v vs) (item w ws) d at count fits =
        let here = inner (field_path_index path i) v w in
        ap (λ r. (r >>= walk_shared step path (suc i) vs ws) >>= rests path j c vs ws)
          (follows (field_path_index path i) v w d (fits 0 v refl))
        ∙ positions-follow path (suc i) j c vs ws (add_all here d) (omega arith) (omega arith)
            (λ k u found. fits (suc k) u found)
        ∙ ap some (sym (add_all-append here (indexed_changes inner path (suc i) vs ws) d))

    walk_lists-follows :
        (path : FieldPath) (vs ws : Items F) (d : Differ) (old new : Option (Dict String (Value F)))
        → named_elements vs ≡ old
        → named_elements ws ≡ new
        → ((k : ℕ) (v : Value F) → item_at vs k ≡ some v → depth v ≤ n)
        → ((named : Dict String (Value F)) (k : String) (v : Value F)
            → named_elements vs ≡ some named
            → lookup k named ≡ some v
            → depth v ≤ n)
        → walk_lists codec step path vs ws d
          ≡ some (add_all (listed_changes inner path vs ws old new) d)
    unfolding walk_lists walk_positions listed_changes
    walk_lists-follows path vs ws d none new e g fits named =
        rw (e, walk_lists)
          (positions-follow path 0 _ (min (item_count vs) (item_count ws)) vs ws d (omega arith)
            refl fits)
    walk_lists-follows path vs ws d (some old) none e g fits named =
        rw (e, walk_lists)
          (rw (g, walk_lists)
            (positions-follow path 0 _ (min (item_count vs) (item_count ws)) vs ws d (omega arith)
              refl fits))
    walk_lists-follows path vs ws d (some old) (some new) e g fits named =
        rw (e, walk_lists)
          (rw (g, walk_lists)
            (keyed-follows (field_path_named path) (λ name. lookup name old)
              (λ name. lookup name new)
              (union_keys (names_in old) (λ name. lookup name old) (names_in new)) d
              (λ k v found. named old k v e found)))

  module _ ⦃e : Eq F⦄ where
    walk_step :
        (n : ℕ) (path : FieldPath) (before after : Value F) (d : Differ) (p : Pairing F)
        → pairing before after ≡ p
        → depth before ≤ suc n
        → ((path : FieldPath) (v w : Value F) (d : Differ)
            → depth v ≤ n
            → walk codec n path v w d ≡ some (add_all (changes n path v w) d))
        → walk codec (suc n) path before after d
          ≡ some (add_all (changes (suc n) path before after) d)
    unfolding walk changes walk_maps
    walk_step n path before after d (two_objects ms ns) e fits follows =
        let below = object-depth before after ms ns e in
        rw (e, walk, changes)
          (keyed-follows (changes n) (walk codec n) n follows (field_path_key path)
            (λ key. member_at key ms) (λ key. member_at key ns)
            (union_keys (keys ms) (λ key. member_at key ms) (keys ns)) d
            (λ k v found. omega (arith, member_at-depth k ms v found, below)))
    walk_step n path before after d (two_arrays vs ws) e fits follows =
        let below = array-depth before after vs ws e in
        rw (e, walk, changes)
          (walk_lists-follows (changes n) (walk codec n) n follows path vs ws d (named_elements vs)
            (named_elements ws) refl refl
            (λ k v found. omega (arith, item_at-depth vs k v found, below))
            (λ named k v at found.
              omega (arith, named_elements-depth vs named k v at found, below)))
    walk_step n path before after d leaves e fits follows =
        rw (e, walk, changes) (unfold add_all in ground arith)

    -- With fuel for the depth of the older value the walk ends, and it adds every change in turn.
    pub walk-changes :
        (n : ℕ) (path : FieldPath) (before after : Value F) (d : Differ)
        → depth before ≤ n
        → walk codec n path before after d ≡ some (add_all (changes n path before after) d)
    walk-changes zero path before after d fits = absurd (omega (arith, depth_pos before))
    walk-changes (suc n) path before after d fits =
        walk_step n path before after d (pairing before after) refl fits (walk-changes n)
