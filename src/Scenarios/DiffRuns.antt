-- ===== src/Scenarios/DiffRuns.antt =====
-- internal/history/diff.go on two definitions of a deployment: its replicas change, an image is added,
-- and a paused flag goes.
use pg_console.Prelude.{
  ℕ, ◌≡◌, ◌↔◌, refl, arith, true, false, Option, none, some, List, [], ◌∷◌, ◌⊎◌, codes, leb,
  if◌then◌else◌,
}
use pg_console.Prelude.Int.{pos}
use pg_console.Prelude.Eq.{nat_eq, string_eq}
use pg_console.Prelude.Dict.{lookup, insert}
use pg_console.Prelude.Sort.{sort_strings, insert_sorted, sort_search, search_loop}
use pg_console.Observe.Keyed.{sort_slice, insert_by}
use pg_console.Logstream.Texts.{starts_with}
use pg_console.History.Journal.{bytes_lt}
use pg_console.History.Types.{Bytes, Revision, FieldOwner, spec_changed}
use pg_console.History.Store.Defs.{Store, new_store}
use pg_console.History.Store.Reads.{revision, search_index, at_least}
use pg_console.Scenarios.HistoryRuns.{two_kept}
use pg_console.History.Values.{
  Value, boolean, number, text, object, array, member, no_members, item, no_items, member_at,
  member_count, item_count, keys, json_equal, members_equal, items_equal, named_elements,
  named_from,
}
use pg_console.History.Values.Depth.{depth}
use pg_console.History.Paths.{
  attribute, attribute_from, relates_any, paths_relate, extends_at, field_path_key,
  field_path_named, field_path_index, simple_field_key, all_simple, is_simple_char, itoa, digits,
}
use pg_console.History.Paths.Owner.{attribute-sole, candidates, sole, AreNamed}
use pg_console.History.Diff.{
  Diff, base_below, compare_values, compare_manifests, against, diff_at, diff, without_base,
  attributed,
}
use pg_console.History.Walk.{
  diff_changed, diff_added, diff_removed, Codec, DiffEntry, add, union_keys, trim_to_valid,
  bounded_text, render_value, compare_at, walk_keyed, walk_shared, drop_items, add_rest,
  remove_rest, walk_positions, walk_lists, walk_maps, walk,
}
use pg_console.History.Diff.Base.{IsBase, base_below-IsBase}
use pg_console.History.Walk.Exact.{Occurs, Differs}
use pg_console.History.Diff.Report.{IsReport, compare_values-Differs, diff-IsReport}

abbrev older : Value ℕ
older = object (
    member "spec"
      (object (
        member "replicas" (number 1) (
          member "paused" (boolean true) (
            member "containers"
              (array (item (object (member "name" (text "app") no_members)) no_items))
              no_members))))
      no_members)

abbrev newer : Value ℕ
newer = object (
    member "spec"
      (object (
        member "containers"
          (array (
            item (object (member "name" (text "app") (member "image" (text "v2") no_members)))
              no_items))
          (member "replicas" (number 3) no_members)))
      no_members)

-- Two documents of one byte; a number is written as its own byte, and all else as one.
abbrev unmarshal : Bytes → Option (Value ℕ)
unmarshal [] = none
unmarshal (c ∷ cs) = some (if leb c 1 then older else newer)

abbrev marshal : Value ℕ → Option Bytes
marshal (number n) = some (n ∷ [])
marshal v = some (0 ∷ [])

abbrev codec : Codec ℕ
codec = record { unmarshal = unmarshal; marshal = marshal; valid_utf8 = λ bytes. true }

abbrev owners : List FieldOwner
owners =
    record { manager = "helm"; paths = ".spec.replicas" ∷ [] }
    ∷ record { manager = "hpa"; paths = ".spec.replicas" ∷ ".spec.containers" ∷ [] }
    ∷ []

abbrev a_revision : ℕ → Bytes → Revision
a_revision seq manifest = record {
  seq = seq;
  scope = "deployments";
  group = "apps";
  version = "v1";
  kind = "Deployment";
  namespace = "shop";
  name = "web";
  uid = "u1";
  generation = pos seq;
  change = spec_changed;
  after_gap = false;
  actor = record { manager = "kubectl"; operation = "Update" };
  observed_at = seq;
  prev_observed_at = 0;
  coalesced = 0;
  manifest = some manifest;
  spec_hash = "";
  status_hash = "";
  owners = owners;
}

abbrev revisions : List Revision
revisions = a_revision 4 (1 ∷ []) ∷ a_revision 7 (2 ∷ []) ∷ []

abbrev store : Store
store = record (new_store two_kept) { entries = revisions }

abbrev entries : List DiffEntry
entries =
    record {
      path = codes ".spec.containers[name=app].image";
      op = diff_added;
      before = [];
      after = 0 ∷ [];
      manager = "hpa";
    }
    ∷ record {
      path = codes ".spec.paused";
      op = diff_removed;
      before = 0 ∷ [];
      after = [];
      manager = "";
    }
    ∷ record {
      path = codes ".spec.replicas";
      op = diff_changed;
      before = 1 ∷ [];
      after = 3 ∷ [];
      manager = "";
    }
    ∷ []

abbrev report : Diff
report = record {
  seq = 7;
  has_base = true;
  base_seq = 4;
  base_observed_at = 4;
  entries = entries;
  truncated = false;
}

-- Both managers have the replicas, so that change is attributed to neither.
diff_of_store : diff codec 7 store ≡ some (some report)
unfolding revision new_store add base_below union_keys trim_to_valid bounded_text render_value
    compare_at walk_keyed walk_shared drop_items add_rest remove_rest walk_positions walk_lists
    walk_maps walk compare_values compare_manifests against diff_at diff depth attribute
    attribute_from relates_any paths_relate extends_at field_path_key field_path_named
    field_path_index simple_field_key all_simple is_simple_char itoa digits member_at member_count
    item_count keys json_equal members_equal items_equal named_elements named_from search_index
    at_least sort_search search_loop bytes_lt starts_with sort_slice insert_by sort_strings
    insert_sorted lookup insert
diff_of_store = refl

abbrev start : Diff
start = without_base 7

owners_named : AreNamed owners
unfolding AreNamed
owners_named = (refl, (refl, tt))

attribute-sole_example :
    attribute (codes ".spec.containers[name=app].image") owners
    ≡ sole (candidates (codes ".spec.containers[name=app].image") owners)
attribute-sole_example =
    attribute-sole (codes ".spec.containers[name=app].image") owners owners_named

base_below-IsBase_example : IsBase "u1" revisions 1 (base_below 1 "u1" revisions)
base_below-IsBase_example = base_below-IsBase 1 "u1" revisions (omega arith)

abbrev compared : Diff
compared = record report { base_seq = 0; base_observed_at = 0; has_base = false }

abbrev replicas : DiffEntry
replicas = record {
  path = codes ".spec.replicas";
  op = diff_changed;
  before = 1 ∷ [];
  after = 3 ∷ [];
  manager = "";
}

compared_values : compare_values codec older newer owners start ≡ some compared
unfolding new_store add base_below union_keys trim_to_valid bounded_text render_value compare_at
    walk_keyed walk_shared drop_items add_rest remove_rest walk_positions walk_lists walk_maps walk
    compare_values compare_manifests against diff_at diff depth attribute attribute_from relates_any
    paths_relate extends_at field_path_key field_path_named field_path_index simple_field_key
    all_simple is_simple_char itoa digits member_at member_count item_count keys json_equal
    members_equal items_equal named_elements named_from search_index at_least sort_search
    search_loop bytes_lt starts_with sort_slice insert_by sort_strings insert_sorted lookup insert
compared_values = refl

compare_values-Differs_example :
    Occurs replicas compared.entries
    ↔ ((raw : DiffEntry) × (attributed owners raw ≡ replicas) × Differs codec raw [] older newer)
compare_values-Differs_example =
    compare_values-Differs codec older newer owners start compared replicas compared_values refl

diff-IsReport_example :
    ((revision 7 store ≡ none) × (diff codec 7 store ≡ none))
    ⊎ ((rev : Revision) × (revision 7 store ≡ some rev)
        × (r : Diff) × (diff codec 7 store ≡ some (some r))
        × IsReport 7 r)
diff-IsReport_example = diff-IsReport codec 7 store
