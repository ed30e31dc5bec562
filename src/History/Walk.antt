-- ===== src/History/Walk.antt =====
-- internal/history/diff.go: the structural walk over two decoded values.
--
-- `json.Marshal` of a value and the test for valid UTF-8 are arguments. The walk recurs on fuel, of
-- which it needs the depth of the older value; `none` means that it ran out.
pub mod Changes
pub mod Exact
use pg_console.Prelude.{
  ℕ, zero, suc, ◌+◌, ◌-◌, ◌≡◌, Bool, true, false, not, ◌&&◌, Option, none, some, List, [], ◌∷◌,
  ◌++◌, String, ltb, leb, eqb, length, map, take, get_elem?, min, if◌then◌else◌,
}
use pg_console.Prelude.Eq.{Eq, ◌==◌, string_eq}
use pg_console.Prelude.Dict.{Dict, lookup}
use pg_console.Prelude.Sort.{sort_strings}
use pg_console.Observe.Keyed.{sort_slice}
use pg_console.History.Types.{Bytes, Time, Revision, FieldOwner}
use pg_console.History.Values.{
  Value, Items, no_items, item, Members, keys, member_at, item_at, item_count, is_there,
  named_elements, pairing, two_objects, two_arrays, leaves, json_equal,
}
use pg_console.History.Values.Depth.{depth}
use pg_console.History.Paths.{
  FieldPath, field_path_key, field_path_named, field_path_index, attribute,
}
use pg_console.History.Journal.{bytes_lt}
use pg_console.History.Store.Defs.{Store}
use pg_console.History.Store.Reads.{search_index, is_some}

abbrev pub max_diff_entries : ℕ
max_diff_entries = 256

abbrev pub max_diff_value_len : ℕ
max_diff_value_len = 256

pub data DiffOp : Type 0 where
  diff_added diff_removed diff_changed : DiffOp

-- A rendered value is its bytes; the manager is empty until the entry is attributed.
pub record DiffEntry : Type 0 where
  pub path : FieldPath
  pub op : DiffOp
  pub before : Bytes
  pub after : Bytes
  pub manager : String

pub record Differ : Type 0 where
  pub entries : List DiffEntry
  pub truncated : Bool

unfoldable pub add : DiffEntry → Differ → Differ
add entry d =
    if leb max_diff_entries (length d.entries)
    then record d { truncated = true }
    else record d { entries = d.entries ++ entry ∷ [] }

infixl 5 ◌>>=◌
abbrev pub ◌>>=◌ : Option Differ → (Differ → Option Differ) → Option Differ
none >>= f = none
some d >>= f = f d

module _ {F : Type 0} where
  abbrev pub not_in : (String → Option (Value F)) → List String → List String
  not_in before [] = []
  not_in before (key ∷ names) =
      let rest = not_in before names in if is_there (before key) then rest else key ∷ rest

  -- The sorted union of both key sets.
  unfoldable pub union_keys : List String → (String → Option (Value F)) → List String → List String
  union_keys old before new = sort_strings (old ++ not_in before new)

  -- The loops over positions, from an index on.
  unfoldable pub walk_shared :
      (FieldPath → Value F → Value F → Differ → Option Differ)
      → FieldPath
      → ℕ
      → Items F
      → Items F
      → Differ
      → Option Differ
  walk_shared walk path i no_items ws d = some d
  walk_shared walk path i (item v vs) no_items d = some d
  walk_shared walk path i (item v vs) (item w ws) d =
      walk (field_path_index path i) v w d >>= walk_shared walk path (suc i) vs ws

  unfoldable pub drop_items : ℕ → Items F → Items F
  drop_items zero vs = vs
  drop_items (suc n) no_items = no_items
  drop_items (suc n) (item v vs) = drop_items n vs

  abbrev pub names_in : Dict String (Value F) → List String
  names_in [] = []
  names_in ((name, v) ∷ named) = name ∷ names_in named

-- What the code takes from `encoding/json` and `unicode/utf8`. `none` is an error.
pub record Codec (F : Type 0) : Type 0 where
  pub unmarshal : Bytes → Option (Value F)
  pub marshal : Value F → Option Bytes
  pub valid_utf8 : Bytes → Bool

module _ {F : Type 0} (codec : Codec F) where
  -- The loop that cuts an encoding back to valid text: `some` drops of the last byte.
  unfoldable pub trim_to_valid : ℕ → Bytes → Bytes
  trim_to_valid zero bytes = bytes
  trim_to_valid (suc fuel) bytes =
      let shorter = trim_to_valid fuel (take (length bytes - 1) bytes) in
      if ltb 0 (length bytes) && not (codec.valid_utf8 bytes) then shorter else bytes

  -- The bytes of the ellipsis.
  abbrev pub ellipsis : Bytes
  ellipsis = 226 ∷ 128 ∷ 166 ∷ []

  unfoldable pub bounded_text : Bytes → Bytes
  unfolding trim_to_valid
  bounded_text rendered =
      if leb (length rendered) max_diff_value_len
      then rendered
      else trim_to_valid max_diff_value_len (take max_diff_value_len rendered) ++ ellipsis

  unfoldable pub render_value : Value F → Bytes
  unfolding bounded_text
  render_value v = elim (codec.marshal v) [ none ↦ [] | some encoded ↦ bounded_text encoded ]

  abbrev pub added : FieldPath → Value F → DiffEntry
  added path v = record {
    path = path;
    op = diff_added;
    before = [];
    after = render_value v;
    manager = "";
  }

  abbrev pub removed : FieldPath → Value F → DiffEntry
  removed path v = record {
    path = path;
    op = diff_removed;
    before = render_value v;
    after = [];
    manager = "";
  }

  abbrev pub changed : FieldPath → Value F → Value F → DiffEntry
  changed path v w = record {
    path = path;
    op = diff_changed;
    before = render_value v;
    after = render_value w;
    manager = "";
  }

  -- The switch of the two keyed loops, which do the same on a map and on the named elements of a
  -- list; `walk` is the recursive call.
  unfoldable pub compare_at :
      (FieldPath → Value F → Value F → Differ → Option Differ)
      → FieldPath
      → Option (Value F)
      → Option (Value F)
      → Differ
      → Option Differ
  compare_at walk child none none d = some d
  compare_at walk child none (some w) d = some (add (added child w) d)
  compare_at walk child (some v) none d = some (add (removed child v) d)
  compare_at walk child (some v) (some w) d = walk child v w d

  -- The loop over the sorted union of the keys.
  unfoldable pub walk_keyed :
      (FieldPath → Value F → Value F → Differ → Option Differ)
      → (String → FieldPath)
      → (String → Option (Value F))
      → (String → Option (Value F))
      → List String
      → Differ
      → Option Differ
  unfolding compare_at
  walk_keyed walk child before after [] d = some d
  walk_keyed walk child before after (key ∷ names) d =
      compare_at walk (child key) (before key) (after key) d
      >>= walk_keyed walk child before after names

  unfoldable pub add_rest : FieldPath → ℕ → Items F → Differ → Differ
  add_rest path i no_items d = d
  add_rest path i (item w ws) d =
      add_rest path (suc i) ws (add (added (field_path_index path i) w) d)

  unfoldable pub remove_rest : FieldPath → ℕ → Items F → Differ → Differ
  remove_rest path i no_items d = d
  remove_rest path i (item v vs) d =
      remove_rest path (suc i) vs (add (removed (field_path_index path i) v) d)

  unfoldable pub walk_positions :
      (FieldPath → Value F → Value F → Differ → Option Differ)
      → FieldPath
      → Items F
      → Items F
      → Differ
      → Option Differ
  unfolding walk_shared drop_items add_rest remove_rest
  walk_positions walk path vs ws d =
      let shared = min (item_count vs) (item_count ws) in
      walk_shared walk path 0 vs ws d >>= λ d. some (
        remove_rest path shared (drop_items shared vs)
          (add_rest path shared (drop_items shared ws) d))

  unfoldable pub walk_lists :
      (FieldPath → Value F → Value F → Differ → Option Differ)
      → FieldPath
      → Items F
      → Items F
      → Differ
      → Option Differ
  unfolding walk_positions walk_keyed union_keys
  walk_lists walk path vs ws d = elim (named_elements vs) [
    | none ↦ walk_positions walk path vs ws d
    | some old ↦ (elim (named_elements ws) [
      | none ↦ walk_positions walk path vs ws d
      | some new ↦
          walk_keyed walk (field_path_named path) (λ name. lookup name old)
            (λ name. lookup name new)
            (union_keys (names_in old) (λ name. lookup name old) (names_in new)) d
    ])
  ]

  unfoldable pub walk_maps :
      (FieldPath → Value F → Value F → Differ → Option Differ)
      → FieldPath
      → Members F
      → Members F
      → Differ
      → Option Differ
  unfolding walk_keyed union_keys
  walk_maps walk path ms ns d =
      walk_keyed walk (field_path_key path) (λ key. member_at key ms) (λ key. member_at key ns)
        (union_keys (keys ms) (λ key. member_at key ms) (keys ns)) d

  module _ ⦃e : Eq F⦄ where
    unfoldable pub walk : ℕ → FieldPath → Value F → Value F → Differ → Option Differ
    unfolding walk_maps walk_lists
    walk zero path before after d = none
    walk (suc n) path before after d = elim (pairing before after) [
      | two_objects ms ns ↦ walk_maps (walk n) path ms ns d
      | two_arrays vs ws ↦ walk_lists (walk n) path vs ws d
      | leaves ↦ some (if json_equal before after then d else add (changed path before after) d)
    ]
