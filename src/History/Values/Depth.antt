-- ===== src/History/Values/Depth.antt =====
-- How deep a decoded value is: the walk that compares two values descends no further.
use pg_console.Prelude.{
  ℕ, zero, suc, ◌≤◌, ◌≡◌, refl, sym, ap, arith, true, false, some, [], String, inl, inr, Bool-cases,
  Option-cases,
}
use Prim.Native.Nat.{max}
use mathlib.Core.Option.{some-injective}
use pg_console.Prelude.Eq.{◌==◌, string_eq}
use pg_console.Prelude.Dict.{Dict, lookup, insert, lookup-insert}
use pg_console.History.Values.{
  Value, null, boolean, number, text, array, object, Items, no_items, item, Members, no_members,
  member, member_at, item_at, named_from, named_elements, name_of, pairing, two_objects, two_arrays,
}

module _ {F : Type 0} where
  unfoldable mutual
    pub depth : Value F → ℕ
    depth (object ms) = suc (depth_members ms)
    depth (array vs) = suc (depth_items vs)
    depth _ = 1

    pub depth_members : Members F → ℕ
    depth_members no_members = 0
    depth_members (member k v ms) = max (depth v) (depth_members ms)

    pub depth_items : Items F → ℕ
    depth_items no_items = 0
    depth_items (item v vs) = max (depth v) (depth_items vs)

  head_found :
      (j k : String) (w v : Value F) (ms : Members F)
      → (j == k) ≡ true
      → member_at k (member j w ms) ≡ some v
      → w ≡ v
  unfolding member_at
  head_found j k w v ms same at = ground (arith, at, same)

  tail_found :
      (j k : String) (w v : Value F) (ms : Members F)
      → (j == k) ≡ false
      → member_at k (member j w ms) ≡ some v
      → member_at k ms ≡ some v
  unfolding member_at
  tail_found j k w v ms other at = ground (arith, at, other)

  pub member_at-depth :
      (k : String) (ms : Members F) (v : Value F)
      → member_at k ms ≡ some v
      → depth v ≤ depth_members ms
  unfolding depth member_at
  member_at-depth k no_members v at = absurd (ground (arith, at))
  member_at-depth k (member j w ms) v at = elim (Bool-cases (j == k)) [
    | inl same ↦ omega (arith, ap depth (head_found j k w v ms same at))
    | inr other ↦ omega (arith, member_at-depth k ms v (tail_found j k w v ms other at))
  ]

  pub item_at-depth :
      (vs : Items F) (i : ℕ) (v : Value F) → item_at vs i ≡ some v → depth v ≤ depth_items vs
  unfolding depth item_at
  item_at-depth no_items i v at = absurd (ground (arith, at))
  item_at-depth (item w vs) zero v at =
      let e : w ≡ v = some-injective w v at in rw (sym e) (omega arith)
  item_at-depth (item w vs) (suc i) v at = omega (arith, item_at-depth vs i v at)

  AllBelow : ℕ → Dict String (Value F) → Type 0
  AllBelow n named = (k : String) (v : Value F) → lookup k named ≡ some v → depth v ≤ n

  AllBelow-insert :
      (n : ℕ) (name : String) (w : Value F) (named : Dict String (Value F))
      → depth w ≤ n
      → AllBelow n named
      → AllBelow n (insert name w named)
  unfolding AllBelow
  AllBelow-insert n name w named fits below k v at =
      ground (arith, at, lookup-insert name k w named, below k v)

  named_step :
      (n : ℕ) (w : Value F) (vs : Items F) (named all : Dict String (Value F))
      → AllBelow n named
      → depth w ≤ n
      → ((named : Dict String (Value F))
          → AllBelow n named
          → named_from named vs ≡ some all
          → AllBelow n all)
      → named_from named (item w vs) ≡ some all
      → AllBelow n all
  unfolding named_from
  named_step n w vs named all below fits rest at = elim (Option-cases (name_of w)) [
    | inl unnamed ↦ absurd (ground (arith, at, unnamed))
    | inr (name, e) ↦ (elim (Option-cases (lookup name named)) [
      | inl fresh ↦
          rest (insert name w named) (AllBelow-insert n name w named fits below)
            (ground (arith, at, e, fresh))
      | inr (dup, taken) ↦ absurd (ground (arith, at, e, taken))
    ])
  ]

  named_from-depth :
      (n : ℕ) (vs : Items F) (named all : Dict String (Value F))
      → AllBelow n named
      → depth_items vs ≤ n
      → named_from named vs ≡ some all
      → AllBelow n all
  unfolding depth
  named_from-depth n no_items named all below fits at =
      rw (sym (some-injective named all (unfold named_from in at))) below
  named_from-depth n (item w vs) named all below fits at =
      named_step n w vs named all below (omega arith)
        (λ others kept. named_from-depth n vs others all kept (omega arith)) at

  pub named_elements-depth :
      (vs : Items F) (named : Dict String (Value F)) (k : String) (v : Value F)
      → named_elements vs ≡ some named
      → lookup k named ≡ some v
      → depth v ≤ depth_items vs
  unfolding named_elements AllBelow
  named_elements-depth no_items named k v at found = absurd (ground (arith, at))
  named_elements-depth (item w vs) named k v at found =
      named_from-depth (depth_items (item w vs)) (item w vs) [] named
        (λ j u none_there. absurd (unfold lookup in ground (arith, none_there))) (omega arith) at k
        v found

  pub depth_pos : (v : Value F) → 1 ≤ depth v
  unfolding depth
  depth_pos (object ms) = omega arith
  depth_pos (array vs) = omega arith
  depth_pos null = omega arith
  depth_pos (boolean b) = omega arith
  depth_pos (number m) = omega arith
  depth_pos (text t) = omega arith

  pub pairing-objects :
      (v w : Value F) (ms ns : Members F)
      → pairing v w ≡ two_objects ms ns
      → (v ≡ object ms) × (w ≡ object ns)
  pairing-objects (object ms) (object ns) is os e = (ground (arith, e), ground (arith, e))
  pairing-objects _ _ is os e = absurd (ground (arith, e))

  pub pairing-arrays :
      (v w : Value F) (vs ws : Items F)
      → pairing v w ≡ two_arrays vs ws
      → (v ≡ array vs) × (w ≡ array ws)
  pairing-arrays (array vs) (array ws) xs ys e = (ground (arith, e), ground (arith, e))
  pairing-arrays _ _ xs ys e = absurd (ground (arith, e))

  pub object-depth :
      (v w : Value F) (ms ns : Members F)
      → pairing v w ≡ two_objects ms ns
      → suc (depth_members ms) ≡ depth v
  unfolding depth
  object-depth v w ms ns e = rw (pairing-objects v w ms ns e).0 refl

  pub array-depth :
      (v w : Value F) (vs ws : Items F)
      → pairing v w ≡ two_arrays vs ws
      → suc (depth_items vs) ≡ depth v
  unfolding depth
  array-depth v w vs ws e = rw (pairing-arrays v w vs ws e).0 refl
