-- ===== src/History/Diff.antt =====
-- internal/history/diff.go: the comparison of a revision with the previous definition.
--
-- `json.Unmarshal` is an argument. `none` inside a result means that the walk ran out of fuel.
pub mod Base
pub mod Entries
pub mod Report
use pg_console.Prelude.{
  ℕ, zero, suc, ◌+◌, ◌-◌, ◌≡◌, Bool, true, false, not, ◌&&◌, Option, none, some, List, [], ◌∷◌,
  ◌++◌, String, ltb, leb, eqb, length, map, take, get_elem?, min, if◌then◌else◌,
}
use pg_console.Prelude.Eq.{Eq, ◌==◌, string_eq}
use pg_console.Prelude.Dict.{Dict, lookup}
use pg_console.Prelude.Sort.{sort_strings}
use pg_console.Observe.Keyed.{sort_slice}
use pg_console.History.Types.{Bytes, Time, Revision, FieldOwner}
use pg_console.History.Values.{
  Value, Items, no_items, item, Members, keys, member_at, item_at, item_count, is_there,
  named_elements, pairing, two_objects, two_arrays, leaves, json_equal,
}
use pg_console.History.Values.Depth.{depth}
use pg_console.History.Paths.{
  FieldPath, field_path_key, field_path_named, field_path_index, attribute,
}
use pg_console.History.Journal.{bytes_lt}
use pg_console.History.Store.Defs.{Store}
use pg_console.History.Store.Reads.{search_index, is_some}
use pg_console.History.Walk.{
  Codec, DiffEntry, DiffOp, Differ, add, add_rest, added, bounded_text, changed, compare_at,
  drop_items, ellipsis, max_diff_entries, max_diff_value_len, names_in, not_in, remove_rest,
  removed, render_value, trim_to_valid, union_keys, walk, walk_keyed, walk_lists, walk_maps,
  walk_positions, walk_shared,
}

pub record Diff : Type 0 where
  pub seq : ℕ
  pub has_base : Bool
  pub base_seq : ℕ
  pub base_observed_at : Time
  pub entries : List DiffEntry
  pub truncated : Bool

abbrev pub no_bytes : Option Bytes → Bytes
no_bytes none = []
no_bytes (some bytes) = bytes

-- The loop down from an index to the previous definition of an object.
unfoldable pub base_below : ℕ → String → List Revision → Option Revision
base_below zero uid revs = none
base_below (suc k) uid revs = elim (get_elem? revs k) [
  | none ↦ none
  | some rev ↦
      let below = base_below k uid revs in
      if rev.uid == uid && is_some rev.manifest then some rev else below
]

abbrev pub without_base : ℕ → Diff
without_base seq = record {
  seq = seq;
  has_base = false;
  base_seq = 0;
  base_observed_at = 0;
  entries = [];
  truncated = false;
}

abbrev pub path_lt : DiffEntry → DiffEntry → Bool
path_lt a b = bytes_lt a.path b.path

abbrev pub attributed : List FieldOwner → DiffEntry → DiffEntry
attributed owners entry = record entry { manager = attribute entry.path owners }

module _ {F : Type 0} (codec : Codec F) where
  module _ ⦃e : Eq F⦄ where
    -- The comparison of two decoded manifests.
    unfoldable pub compare_values : Value F → Value F → List FieldOwner → Diff → Option Diff
    unfolding walk
    compare_values before after owners diff =
        elim (walk codec (depth before) [] before after
          (record { entries = []; truncated = false })) [
            | none ↦ none
            | some d ↦ some (record diff {
              entries = map (attributed owners) (sort_slice path_lt d.entries);
              truncated = d.truncated;
            })
          ]

    -- A manifest that does not decode leaves the comparison without entries.
    unfoldable pub compare_manifests : Bytes → Bytes → List FieldOwner → Diff → Option Diff
    unfolding compare_values
    compare_manifests before after owners diff = elim (codec.unmarshal before) [
      | none ↦ some diff
      | some v ↦ (elim (codec.unmarshal after) [
        | none ↦ some diff
        | some w ↦ compare_values v w owners diff
      ])
    ]

    unfoldable pub against : Option Revision → Bytes → List FieldOwner → Diff → Option Diff
    unfolding compare_manifests
    against none manifest owners diff = some diff
    against (some base) manifest owners diff =
        compare_manifests (no_bytes base.manifest) manifest owners (record diff {
          has_base = true;
          base_seq = base.seq;
          base_observed_at = base.observed_at;
        })

    unfoldable pub diff_at : ℕ → Revision → ℕ → Store → Option Diff
    unfolding base_below against
    diff_at i rev seq s = elim rev.manifest [
      | none ↦ some (without_base seq)
      | some manifest ↦
          against (base_below i rev.uid s.entries) manifest rev.owners (without_base seq)
    ]

    -- `Diff`: nothing where the sequence number is unknown, and inside it `none` only where the walk
    -- is short of fuel.
    unfoldable pub diff : ℕ → Store → Option (Option Diff)
    unfolding diff_at
    diff seq s =
        let i = search_index seq s.entries in
        elim (get_elem? s.entries i) [
          | none ↦ none
          | some rev ↦ if eqb rev.seq seq then some (diff_at i rev seq s) else none
        ]
