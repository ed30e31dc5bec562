-- ===== src/Scenarios/JournalRuns.antt =====
-- internal/history/bolt/bolt.go on a short run of the store, with tables for the buckets.
use pg_console.Prelude.{
  true, ◌↔◌, ap, ◌^◌, ◌<◌, ◌≡◌, refl, false, ◌&&◌, Option, none, some, List, [], ◌∷◌, String, arith,
}
use pg_console.Prelude.Int.{◌+ℤ◌, ◌-ℤ◌}
use pg_console.Prelude.Eq.{Eq, ==_iff, ==_refl, string_eq, nat_eq, list_eq}
use pg_console.Prelude.Dict.{Dict, lookup, insert, remove, adjust, lookup-insert, lookup-remove}
use pg_console.Prelude.Sort.{sort_strings, insert_sorted}
use pg_console.History.Types.{Revision, ObjectRecord, Contents, Mutation}
use pg_console.History.Replay.{revision_after, object_after, seq_after, mark_after, replay}
use pg_console.History.Journal.{
  seq_key, Table, Bbolt, File, Event, mutated, flush_begins, flush_ends, handle_all, handle, opened,
  begin, finish,
}
use pg_console.History.Journal.Written.{stored_revision, stored_object}
use pg_console.History.Journal.Durable.{mutations, flushed, handle_all-Refines}
use pg_console.History.Journal.Steps.{FitsEvents, known_revision, known_object}
use pg_console.History.Journal.Load.{returned, load}
use pg_console.History.Journal.LoadErrors.{
  is_returned, is_panicked, all_sound, objects_decode, MeetsShort, load-ends,
}
use pg_console.History.Restart.{IsBlank, load-Restored}
use pg_console.History.Persisted.{record_calls-Mirrored}
use pg_console.History.Store.Mirror.{record_at, told_at, told}
use pg_console.History.Store.Mirror.Revisions.{with_persister}
use pg_console.History.Store.Runs.{appends_all}
use pg_console.History.Store.Defs.{
  new_store, append_revision, enforce_bounds, enforce_per_object, push, is_over, revision_size,
  count_revision, enforce_loop, evict_at, evict_first, evict_revision, forget_revision, index_of,
  mirror, remove_at,
}
use pg_console.History.Store.Ops.{
  record_calls, record_call, observe_at, observe_new, delete_all, delete_observed,
  delete_unobserved, fresh_state, gone_revision, gone_uids, missing, observe, observe_all,
  observe_known, seed, track, uids_of,
}
use pg_console.History.Store.Commit.{
  commit, revision_of, coalesce, coalesce_into, committed, contains, find_revision, folded, forget,
  may_coalesce, put_state, replace_revision, rewrite, scope_add, scopes_remove, set_remove,
}
use pg_console.Scenarios.Cursors.{
  in_order, lookup-in_order, in_order-IsOrdered, once, lookup-once, once-Distinct,
}
use pg_console.Scenarios.HistoryRuns.{two_kept, calls}

module _ {K V : Type 0} ⦃e : Eq K⦄ where
  lookup-insert_same : (k : K) (v : V) (b : Dict K V) → lookup k (insert k v b) ≡ some v
  lookup-insert_same k v b = ground (arith, lookup-insert k k v b, ==_refl k)

  lookup-insert_other :
      (j k : K) (v : V) (b : Dict K V) → ¬ (j ≡ k) → lookup j (insert k v b) ≡ lookup j b
  lookup-insert_other j k v b n = ground (arith, lookup-insert k j v b, ==_iff k j, n)

  lookup-remove_same : (k : K) (b : Dict K V) → lookup k (remove k b) ≡ none
  lookup-remove_same k b = ground (arith, lookup-remove k k b, ==_refl k)

  lookup-remove_other : (j k : K) (b : Dict K V) → ¬ (j ≡ k) → lookup j (remove k b) ≡ lookup j b
  lookup-remove_other j k b n = ground (arith, lookup-remove k j b, ==_iff k j, n)

-- A bucket as a list of its pairs.
abbrev table : {K V : Type 0} ⦃e : Eq K⦄ → Table K V
table {K} {V} = record {
  Bucket = Dict K V;
  get = lookup;
  put = insert;
  delete = remove;
  get_put_same = lookup-insert_same;
  get_put_other = lookup-insert_other;
  get_delete_same = lookup-remove_same;
  get_delete_other = lookup-remove_other;
}

data Json : Type 0 where
  revision_value : Revision → Json
  object_value : ObjectRecord → Json

abbrev revision_of_value : Json → Option Revision
revision_of_value (revision_value rev) = some rev
revision_of_value (object_value rec) = none

abbrev object_of_value : Json → Option ObjectRecord
object_of_value (revision_value rev) = none
object_of_value (object_value rec) = some rec

abbrev tables : Bbolt
tables = record {
  Json = Json;
  revision_table = table;
  object_table = table;
  meta_table = table;
  revision_entries = in_order;
  revision_entries_get = lookup-in_order;
  revision_entries_ascend = in_order-IsOrdered;
  object_entries = once;
  object_entries_get = lookup-once;
  object_entries_distinct = once-Distinct;
  revision_json = revision_value;
  revision_of_json = revision_of_value;
  object_json = object_value;
  object_of_json = object_of_value;
  revision_back = λ rev. refl;
  object_back = λ rec. refl;
}

abbrev empty_file : File tables
empty_file = record { revisions = []; objects = []; meta = [] }

abbrev log_of : Option (List Mutation) → List Mutation
log_of none = []
log_of (some log) = log

abbrev log : List Mutation
log = log_of (record_calls calls (with_persister two_kept)).journal

-- A flush fails after each call, and the next one starts before the next call.
abbrev failing : List Mutation → List (Event tables)
failing [] = []
failing (m ∷ ms) = mutated m ∷ flush_begins ∷ flush_ends false ∷ failing ms

few_appends : appends_all calls (with_persister two_kept) < 2 ^ 64
unfolding appends_all record_calls new_store record_call observe_at observe_new commit revision_of
    coalesce coalesce_into committed contains delete_all delete_observed delete_unobserved
    find_revision folded forget fresh_state gone_revision gone_uids may_coalesce missing observe
    observe_all observe_known put_state replace_revision rewrite scope_add scopes_remove seed
    set_remove track uids_of append_revision enforce_bounds enforce_per_object push is_over
    revision_size count_revision enforce_loop evict_at evict_first evict_revision forget_revision
    index_of mirror remove_at lookup adjust insert remove sort_strings insert_sorted ◌+ℤ◌ ◌-ℤ◌
few_appends = omega arith

journal_log : (record_calls calls (with_persister two_kept)).journal ≡ some log
unfolding appends_all record_calls new_store record_call observe_at observe_new commit revision_of
    coalesce coalesce_into committed contains delete_all delete_observed delete_unobserved
    find_revision folded forget fresh_state gone_revision gone_uids may_coalesce missing observe
    observe_all observe_known put_state replace_revision rewrite scope_add scopes_remove seed
    set_remove track uids_of append_revision enforce_bounds enforce_per_object push is_over
    revision_size count_revision enforce_loop evict_at evict_first evict_revision forget_revision
    index_of mirror remove_at lookup adjust insert remove sort_strings insert_sorted ◌+ℤ◌ ◌-ℤ◌
journal_log = refl

failing-mutations : (ms : List Mutation) → mutations tables (failing ms) ≡ ms
failing-mutations [] = refl
failing-mutations (m ∷ ms) = ap (λ rest. m ∷ rest) (failing-mutations ms)

all_fit : FitsEvents tables (failing log)
unfolding appends_all record_calls new_store record_call observe_at observe_new commit revision_of
    coalesce coalesce_into committed contains delete_all delete_observed delete_unobserved
    find_revision folded forget fresh_state gone_revision gone_uids may_coalesce missing observe
    observe_all observe_known put_state replace_revision rewrite scope_add scopes_remove seed
    set_remove track uids_of append_revision enforce_bounds enforce_per_object push is_over
    revision_size count_revision enforce_loop evict_at evict_first evict_revision forget_revision
    index_of mirror remove_at lookup adjust insert remove sort_strings insert_sorted ◌+ℤ◌ ◌-ℤ◌
all_fit = omega arith

idle : (handle_all tables (failing log) (opened tables empty_file)).taken ≡ none
unfolding handle_all handle begin finish opened record_calls new_store record_call observe_at
    observe_new commit revision_of coalesce coalesce_into committed contains delete_all
    delete_observed delete_unobserved find_revision folded forget fresh_state gone_revision
    gone_uids may_coalesce missing observe observe_all observe_known put_state replace_revision
    rewrite scope_add scopes_remove seed set_remove track uids_of append_revision enforce_bounds
    enforce_per_object push is_over revision_size count_revision enforce_loop evict_at evict_first
    evict_revision forget_revision index_of mirror remove_at lookup adjust insert remove
    sort_strings insert_sorted ◌+ℤ◌ ◌-ℤ◌
idle = refl

record_calls-Mirrored_example :
    (find_revision 3 (record_calls calls (with_persister two_kept)).entries
      ≡ told (revision_after 3) none (record_calls calls (with_persister two_kept)).journal)
    × (record_at "u1" (record_calls calls (with_persister two_kept))
        ≡ told_at "u1" (record_calls calls (with_persister two_kept)))
    × ((record_calls calls (with_persister two_kept)).seq
        ≡ told seq_after 0 (record_calls calls (with_persister two_kept)).journal)
    × ((record_calls calls (with_persister two_kept)).evicted
        ≡ told mark_after false (record_calls calls (with_persister two_kept)).journal)
record_calls-Mirrored_example = record_calls-Mirrored calls two_kept 3 "u1" few_appends

handle_all-Refines_example :
    (known_revision tables 3 (handle_all tables (failing log) (opened tables empty_file))
      ≡ replay
          (revision_after 3)
          (mutations tables (failing log))
          (stored_revision tables 3 empty_file))
    × (known_object tables "u1" (handle_all tables (failing log) (opened tables empty_file))
        ≡ replay
            (object_after "u1")
            (mutations tables (failing log))
            (stored_object tables "u1" empty_file))
handle_all-Refines_example =
    handle_all-Refines tables 3 "u1" (failing log) empty_file (omega arith) all_fit

load-Restored_example :
    (c : Contents) × ((load tables
          (flushed tables (handle_all tables (failing log) (opened tables empty_file))).file
        ≡ returned c)
      × ((c.revisions ≡ (record_calls calls (with_persister two_kept)).entries)
          × ((uid : String)
              → lookup uid c.objects
                ≡ record_at uid (record_calls calls (with_persister two_kept)))))
load-Restored_example =
    load-Restored tables calls two_kept log (failing log) empty_file few_appends journal_log
      (failing-mutations log) (unfold IsBlank lookup in (λ k. refl, λ uid. refl)) all_fit idle

-- A value under a revision's key that is the record of an object.
abbrev damaged : ObjectRecord → File tables
damaged rec = record {
  revisions = (seq_key 7, object_value rec) ∷ [];
  objects = ("u1", object_value rec) ∷ [];
  meta = [];
}

abbrev some_record : ObjectRecord
some_record = record {
  scope = "deployments";
  group = "apps";
  version = "v1";
  kind = "Deployment";
  namespace = "shop";
  name = "web";
  spec_hash = "s1";
  status_hash = "t1";
  last_observed_at = 3;
}

load-ends_example :
    (is_returned (load tables (damaged some_record)) ≡ (
      all_sound tables (in_order (damaged some_record).revisions)
      && objects_decode tables (once (damaged some_record).objects)))
    × ((is_panicked (load tables (damaged some_record)) ≡ true)
        ↔ MeetsShort tables (in_order (damaged some_record).revisions))
load-ends_example = load-ends tables (damaged some_record)
