-- ===== src/Observe/Keyed.antt =====
-- internal/observe/keyed.go: the retained items of a collection, one per resource name.
pub mod Bounds
pub mod Cut
use pg_console.Prelude.{
  ℕ, zero, suc, ◌+◌, Bool, true, false, not, ◌&&◌, Option, none, some, List, [], ◌∷◌, ◌++◌, String,
  ltb, leb, length, take, if◌then◌else◌,
}
use pg_console.Prelude.Eq.{string_eq, ◌==◌}
use pg_console.Prelude.Dict.{Dict, lookup, insert, remove}

-- A limit of zero is no limit. `evictable a b`: a is dropped before b.
pub record Retention {ℓ} (T : Type ℓ) : Type ℓ where
  pub name : T → String
  pub uid : T → String
  pub limit : ℕ
  pub evictable : T → T → Bool

abbrev pub present {ℓ} : {T : Type ℓ} → Option T → Bool
present none = false
present (some t) = true

module _ {ℓ} {T : Type ℓ} (p : Retention T) where
  -- The loop of `evictee`: the loser so far, with its item.
  unfoldable pub evictee_from : Option (String × T) → Dict String T → Option (String × T)
  evictee_from loser [] = loser
  evictee_from none ((name, item) ∷ k) = evictee_from (some (name, item)) k
  evictee_from (some (l, worst)) ((name, item) ∷ k) =
      evictee_from (if p.evictable item worst then some (name, item) else some (l, worst)) k

  abbrev pub loser_name : Option (String × T) → String
  loser_name none = ""
  loser_name (some (name, item)) = name

  unfoldable pub evictee : Dict String T → String
  unfolding evictee_from
  evictee k = loser_name (evictee_from none k)

  -- Whether `put` evicts before it writes.
  unfoldable pub at_limit : T → Dict String T → Bool
  at_limit item k =
      not (present (lookup (p.name item) k)) && ltb 0 p.limit && leb p.limit (length k)

  -- The new map, and whether an entry was evicted.
  unfoldable pub put : T → Dict String T → Dict String T × Bool
  unfolding evictee at_limit
  put item k =
      let evicted = at_limit item k in
      (insert (p.name item) item (if evicted then remove (evictee k) k else k), evicted)

  unfoldable pub drop_named : String → String → Dict String T → Dict String T
  drop_named name uid k = elim (lookup name k) [
    | none ↦ k
    | some current ↦ if p.uid current == uid then remove name k else k
  ]

  unfoldable pub put_all : List T → Dict String T → Dict String T
  put_all [] k = k
  put_all (item ∷ items) k = put_all items (put item k).0

  -- Whether a retained item is the incarnation that a deletion names.
  abbrev pub matches : String → Option T → Bool
  matches uid none = false
  matches uid (some t) = p.uid t == uid

module _ {ℓ} {T : Type ℓ} where
  unfoldable pub list : Dict String T → List T
  list [] = []
  list ((name, item) ∷ k) = item ∷ list k

  unfoldable pub insert_by : (T → T → Bool) → T → List T → List T
  insert_by less t [] = t ∷ []
  insert_by less t (u ∷ us) =
      let rest = insert_by less t us in if less u t then u ∷ rest else t ∷ u ∷ us

  -- sort.Slice: each comparator breaks ties by name, so the order does not depend on the algorithm.
  unfoldable pub sort_slice : (T → T → Bool) → List T → List T
  unfolding insert_by
  sort_slice less [] = []
  sort_slice less (t ∷ ts) = insert_by less t (sort_slice less ts)

  unfoldable pub bounded : List T → (T → T → Bool) → ℕ → List T × Bool
  unfolding sort_slice
  bounded items less limit =
      let kept = sort_slice less items in
      if ltb limit (length kept) then (take limit kept, true) else (kept, false)
