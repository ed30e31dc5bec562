-- ===== src/History/Walk/Exact/Both.antt =====
-- The reference lists exactly what two values differ by.
use pg_console.Prelude.{
  ℕ, zero, suc, ◌+◌, ◌≤◌, ◌≡◌, ◌↔◌, refl, sym, subst, ap, ◌∙◌, arith, Option, none, some, [], ◌∷◌,
  String, ◌⊎◌, inl, inr, Bool-cases, if◌then◌else◌,
}
use pg_console.Prelude.Eq.{Eq, string_eq}
use pg_console.Prelude.Dict.{Dict, lookup}
use pg_console.History.Values.{
  Value, array, object, Items, Members, keys, member_at, item_at, named_elements, Pairing, pairing,
  two_objects, two_arrays, leaves, json_equal,
}
use pg_console.History.Values.Depth.{
  depth, depth_pos, member_at-depth, item_at-depth, named_elements-depth, pairing-objects,
  pairing-arrays,
}
use pg_console.History.Paths.{FieldPath, field_path_key, field_path_named}
use pg_console.History.Walk.{DiffEntry, Codec, changed, union_keys, names_in}
use pg_console.History.Walk.Changes.{
  changes_at, keyed_changes, indexed_changes, listed_changes, changes,
}
use pg_console.History.Walk.Exact.{
  Step, key, named, index, extend, Occurs, part, found_in, Compares, Differs, unlike, gained, lost,
  inside,
}
use pg_console.History.Walk.Exact.Found.{
  union_keys-Occurs, member_at-Occurs, lookup-Occurs, keyed-Occurs, keyed-Occurs_back, moved,
  indexed-Occurs, indexed-Occurs_back,
}

module _ {F : Type 0} ⦃e : Eq F⦄ (codec : Codec F) (entry : DiffEntry) where
  -- The entry is a difference of the parts of two values.
  abbrev AtPart : ℕ → FieldPath → Value F → Value F → Step → Type 0
  AtPart n path before after s =
      Occurs entry
        (changes_at codec (changes codec n) (extend path s) (part s before) (part s after))

  Sound : ℕ → Type 0
  Sound n =
      (path : FieldPath) (v w : Value F)
      → Occurs entry (changes codec n path v w)
      → Differs codec entry path v w

  part-Differs :
      (n : ℕ) (path : FieldPath) (before after : Value F) (s : Step) (old new : Option (Value F))
      → Sound n
      → Compares s before after
      → part s before ≡ old
      → part s after ≡ new
      → Occurs entry (changes_at codec (changes codec n) (extend path s) old new)
      → Differs codec entry path before after
  unfolding Sound changes_at Occurs
  part-Differs n path before after s none none sound compared p q there = absurd there
  part-Differs n path before after s none (some w) sound compared p q (inl here) =
      gained s w compared p q here
  part-Differs n path before after s none (some w) sound compared p q (inr never) = absurd never
  part-Differs n path before after s (some v) none sound compared p q (inl here) =
      lost s v compared p q here
  part-Differs n path before after s (some v) none sound compared p q (inr never) = absurd never
  part-Differs n path before after s (some v) (some w) sound compared p q there =
      inside s v w compared p q (sound (extend path s) v w there)

  part_of-Differs :
      (n : ℕ) (path : FieldPath) (before after : Value F) (s : Step)
      → Sound n
      → Compares s before after
      → AtPart n path before after s
      → Differs codec entry path before after
  part_of-Differs n path before after s sound compared there =
      part-Differs n path before after s (part s before) (part s after) sound compared refl refl
        there

  objects-Differ :
      (n : ℕ) (path : FieldPath) (ms ns : Members F)
      → Sound n
      → Occurs entry (
          keyed_changes codec
            (changes codec n)
            (field_path_key path)
            (λ k. member_at k ms)
            (λ k. member_at k ns)
            (union_keys (keys ms) (λ k. member_at k ms) (keys ns)))
      → Differs codec entry path (object ms) (object ns)
  objects-Differ n path ms ns sound there =
      let (k, at) =
        keyed-Occurs codec (changes codec n) entry (field_path_key path) (λ k. member_at k ms)
          (λ k. member_at k ns) _ there in
      part_of-Differs n path (object ms) (object ns) (key k) sound tt at

  arrays-Differ :
      (n : ℕ) (path : FieldPath) (vs ws : Items F) (old new : Option (Dict String (Value F)))
      → named_elements vs ≡ old
      → named_elements ws ≡ new
      → Sound n
      → Occurs entry (listed_changes codec (changes codec n) path vs ws old new)
      → Differs codec entry path (array vs) (array ws)
  unfolding listed_changes
  arrays-Differ n path vs ws none new p q sound there =
      let (k, at) = indexed-Occurs codec (changes codec n) entry path 0 vs ws there in
      part_of-Differs n path (array vs) (array ws) (index k) sound (inl p) (
        moved codec (changes codec n) entry path (0 + k) k (item_at vs k) (item_at ws k)
          (omega arith) at)
  arrays-Differ n path vs ws (some old) none p q sound there =
      let (k, at) = indexed-Occurs codec (changes codec n) entry path 0 vs ws there in
      part_of-Differs n path (array vs) (array ws) (index k) sound (inr q) (
        moved codec (changes codec n) entry path (0 + k) k (item_at vs k) (item_at ws k)
          (omega arith) at)
  arrays-Differ n path vs ws (some old) (some new) p q sound there =
      let (k, at) =
        keyed-Occurs codec (changes codec n) entry (field_path_named path) (λ k. lookup k old)
          (λ k. lookup k new) _ there in
      part-Differs n path (array vs) (array ws) (named k) (lookup k old) (lookup k new) sound
        (old, p, new, q) (ap (found_in k) p) (ap (found_in k) q) at

  changes-leaves :
      (n : ℕ) (path : FieldPath) (before after : Value F)
      → pairing before after ≡ leaves
      → changes codec (suc n) path before after
        ≡ (if json_equal before after then [] else changed codec path before after ∷ [])
  unfolding changes
  changes-leaves n path before after e = rw (e, changes) refl

  leaves-Differ :
      (path : FieldPath) (before after : Value F)
      → pairing before after ≡ leaves
      → Occurs entry (if json_equal before after then [] else changed codec path before after ∷ [])
      → Differs codec entry path before after
  unfolding Occurs
  leaves-Differ path before after e there = elim (Bool-cases (json_equal before after)) [
    | inl same ↦ absurd (rw same at there)
    | inr differ ↦ (elim (rw differ at there) [
      | inl here ↦ unlike e differ here
      | inr never ↦ absurd never
    ])
  ]

  Sound-step :
      (n : ℕ) (path : FieldPath) (before after : Value F) (p : Pairing F)
      → pairing before after ≡ p
      → Sound n
      → Occurs entry (changes codec (suc n) path before after)
      → Differs codec entry path before after
  unfolding changes
  Sound-step n path before after (two_objects ms ns) e sound there =
      let (b, a) = pairing-objects before after ms ns e in
      rw (b, a) (objects-Differ n path ms ns sound (rw (b, a) at there))
  Sound-step n path before after (two_arrays vs ws) e sound there =
      let (b, a) = pairing-arrays before after vs ws e in
      rw (b, a)
        (arrays-Differ n path vs ws (named_elements vs) (named_elements ws) refl refl sound
          (rw (b, a) at there))
  Sound-step n path before after leaves e sound there =
      leaves-Differ path before after e
        (subst (Occurs entry) (changes-leaves n path before after e) there)

  changes-Sound : (n : ℕ) → Sound n
  unfolding Sound
  changes-Sound zero path v w there = absurd (unfold changes Occurs in there)
  changes-Sound (suc n) path v w there =
      Sound-step n path v w (pairing v w) refl (changes-Sound n) there

  by_position :
      (n : ℕ) (path : FieldPath) (vs ws : Items F) (old new : Option (Dict String (Value F)))
      → named_elements vs ≡ old
      → named_elements ws ≡ new
      → (named_elements vs ≡ none) ⊎ (named_elements ws ≡ none)
      → listed_changes codec (changes codec n) path vs ws (named_elements vs) (named_elements ws)
        ≡ indexed_changes codec (changes codec n) path 0 vs ws
  unfolding listed_changes
  by_position n path vs ws none new p q unnamed = rw p refl
  by_position n path vs ws (some old) none p q unnamed = rw p (rw q refl)
  by_position n path vs ws (some old) (some new) p q (inl none_before) =
      absurd (ground (arith, p, none_before))
  by_position n path vs ws (some old) (some new) p q (inr none_after) =
      absurd (ground (arith, q, none_after))

  -- Either value has the part.
  IsPart : Step → Value F → Value F → Type 0
  IsPart s before after =
      ((v : Value F) × (part s before ≡ some v)) ⊎ ((w : Value F) × (part s after ≡ some w))

  visits :
      (n : ℕ) (path : FieldPath) (s : Step) (before after : Value F)
      → Compares s before after
      → IsPart s before after
      → AtPart n path before after s
      → Occurs entry (changes codec (suc n) path before after)
  unfolding changes IsPart listed_changes
  visits n path (key k) (object ms) (object ns) compared some_part there =
      keyed-Occurs_back codec (changes codec n) entry (field_path_key path) (λ j. member_at j ms)
        (λ j. member_at j ns) (union_keys (keys ms) (λ j. member_at j ms) (keys ns)) k
        (union_keys-Occurs k (keys ms) (λ j. member_at j ms) (λ j. member_at j ns) (keys ns)
          (member_at-Occurs k ms) (member_at-Occurs k ns) some_part)
        there
  visits n path (named k) (array vs) (array ws) (old, p, new, q) some_part there = rw p (
      rw q (
        keyed-Occurs_back codec (changes codec n) entry (field_path_named path) (λ j. lookup j old)
          (λ j. lookup j new) (union_keys (names_in old) (λ j. lookup j old) (names_in new)) k
          (union_keys-Occurs k (names_in old) (λ j. lookup j old) (λ j. lookup j new) (names_in new)
            (lookup-Occurs k old) (lookup-Occurs k new) (rw (p, q) at some_part))
          (rw (p, q) at there)))
  visits n path (index i) (array vs) (array ws) compared some_part there =
      subst (Occurs entry)
        (sym (by_position n path vs ws (named_elements vs) (named_elements ws) refl refl compared))
        (indexed-Occurs_back codec (changes codec n) entry path 0 vs ws i (
          moved codec (changes codec n) entry path i (0 + i) (item_at vs i) (item_at ws i)
            (omega arith) there))
  visits n path s before after compared some_part there = absurd compared

  part-depth :
      (s : Step) (before after v : Value F)
      → Compares s before after
      → part s before ≡ some v
      → suc (depth v) ≤ depth before
  unfolding depth
  part-depth (key k) (object ms) (object ns) v compared at =
      omega (arith, member_at-depth k ms v at)
  part-depth (named k) (array vs) (array ws) v (old, p, new, q) at =
      omega (arith, named_elements-depth vs old k v p (sym (ap (found_in k) p) ∙ at))
  part-depth (index i) (array vs) (array ws) v compared at = omega (arith, item_at-depth vs i v at)
  part-depth s before after v compared at = absurd compared

  -- What two values differ by is listed, with fuel for the depth of the first.
  Differs-listed :
      (path : FieldPath) (before after : Value F)
      → Differs codec entry path before after
      → (n : ℕ) → depth before ≤ n
      → Occurs entry (changes codec n path before after)
  unfolding IsPart changes_at
  Differs-listed path before after difference zero fits = absurd (omega (arith, depth_pos before))
  Differs-listed path before after (unlike e differ same) (suc n) fits =
      subst (Occurs entry) (sym (changes-leaves n path before after e))
        (rw differ (unfold Occurs in inl same))
  Differs-listed path before after (gained s w compared p q same) (suc n) fits =
      visits n path s before after compared (inr (w, q))
        (rw (p, q) (unfold changes_at Occurs in inl same))
  Differs-listed path before after (lost s v compared p q same) (suc n) fits =
      visits n path s before after compared (inl (v, p))
        (rw (p, q) (unfold changes_at Occurs in inl same))
  Differs-listed path before after (inside s v w compared p q difference) (suc n) fits =
      visits n path s before after compared (inl (v, p)) (
        rw (p, q)
          (Differs-listed (extend path s) v w difference n
            (omega (arith, part-depth s before after v compared p))))

  pub changes-Differs :
      (n : ℕ) (path : FieldPath) (before after : Value F)
      → depth before ≤ n
      → Occurs entry (changes codec n path before after) ↔ Differs codec entry path before after
  unfolding Sound
  changes-Differs n path before after fits = (
    changes-Sound n path before after,
    (λ difference. Differs-listed path before after difference n fits),
  )
