-- ===== src/History/Values.antt =====
-- Decoded JSON, as internal/history/diff.go compares it: what `json.Unmarshal` puts into an `any`.
--
-- A number is of a type that is an argument, with its equality. An object is a list of members; Go's
-- map has no order and no key twice, and nothing here looks at more than what a key leads to.
pub mod Depth
use pg_console.Prelude.{
  ℕ, zero, suc, ◌+◌, Bool, true, false, not, ◌&&◌, Option, none, some, List, [], ◌∷◌, ◌++◌, String,
  eqb, if◌then◌else◌,
}
use pg_console.Prelude.Eq.{Eq, ◌==◌, string_eq}
use pg_console.Prelude.Dict.{Dict, lookup, insert}

mutual
  pub data Value (F : Type 0) : Type 0 where
    null : Value F
    boolean : Bool → Value F
    number : F → Value F
    text : String → Value F
    array : Items F → Value F
    object : Members F → Value F

  pub data Items (F : Type 0) : Type 0 where
    no_items : Items F
    item : Value F → Items F → Items F

  pub data Members (F : Type 0) : Type 0 where
    no_members : Members F
    member : String → Value F → Members F → Members F

-- The three cases of `walk`.
pub data Pairing (F : Type 0) : Type 0 where
  two_objects : Members F → Members F → Pairing F
  two_arrays : Items F → Items F → Pairing F
  leaves : Pairing F

module _ {F : Type 0} where
  unfoldable pub member_at : String → Members F → Option (Value F)
  member_at k no_members = none
  member_at k (member j v ms) = let rest = member_at k ms in if j == k then some v else rest

  unfoldable pub item_at : Items F → ℕ → Option (Value F)
  item_at no_items i = none
  item_at (item v vs) zero = some v
  item_at (item v vs) (suc i) = item_at vs i

  unfoldable pub item_count : Items F → ℕ
  item_count no_items = 0
  item_count (item v vs) = suc (item_count vs)

  unfoldable pub member_count : Members F → ℕ
  member_count no_members = 0
  member_count (member k v ms) = suc (member_count ms)

  unfoldable pub keys : Members F → List String
  keys no_members = []
  keys (member k v ms) = k ∷ keys ms

  abbrev pub is_there : Option (Value F) → Bool
  is_there none = false
  is_there (some v) = true

  -- A name of an element, by the convention.
  abbrev pub name_in : Option (Value F) → Option String
  name_in (some (text name)) = if name == "" then none else some name
  name_in _ = none

  abbrev pub name_of : Value F → Option String
  name_of (object ms) = name_in (member_at "name" ms)
  name_of _ = none

  -- The loop of `namedElements`.
  unfoldable pub named_from : Dict String (Value F) → Items F → Option (Dict String (Value F))
  named_from named no_items = some named
  named_from named (item v vs) = elim (name_of v) [
    | none ↦ none
    | some name ↦ (elim (lookup name named) [
      | some dup ↦ none
      | none ↦ named_from (insert name v named) vs
    ])
  ]

  unfoldable pub named_elements : Items F → Option (Dict String (Value F))
  unfolding named_from
  named_elements no_items = none
  named_elements (item v vs) = named_from [] (item v vs)

  abbrev pub pairing : Value F → Value F → Pairing F
  pairing (object ms) (object ns) = two_objects ms ns
  pairing (array vs) (array ws) = two_arrays vs ws
  pairing _ _ = leaves

module _ {F : Type 0} ⦃e : Eq F⦄ where
  unfoldable mutual
    -- `jsonEqual`.
    pub json_equal : Value F → Value F → Bool
    json_equal (object ms) (object ns) =
        eqb (member_count ms) (member_count ns) && members_equal ms ns
    json_equal (array vs) (array ws) = items_equal vs ws
    json_equal null null = true
    json_equal (boolean true) (boolean b) = b
    json_equal (boolean false) (boolean b) = not b
    json_equal (number m) (number n) = m == n
    json_equal (text s) (text t) = s == t
    json_equal _ _ = false

    -- Every member of the first map is in the second.
    pub members_equal : Members F → Members F → Bool
    members_equal no_members ns = true
    members_equal (member k v ms) ns = elim (member_at k ns) [
      | none ↦ false
      | some w ↦ json_equal v w && members_equal ms ns
    ]

    -- The lengths and the elements.
    pub items_equal : Items F → Items F → Bool
    items_equal no_items no_items = true
    items_equal (item v vs) (item w ws) = json_equal v w && items_equal vs ws
    items_equal _ _ = false
