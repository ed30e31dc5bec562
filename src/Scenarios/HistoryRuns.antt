-- ===== src/Scenarios/HistoryRuns.antt =====
-- internal/history/store.go on a short run: a deployment is listed, changes its spec twice, changes
-- its status, and is missing from the second listing.
use pg_console.Prelude.{
  not, ◌&&◌, if◌then◌else◌, ℕ, ◌^◌, ◌<◌, ◌≡◌, refl, true, false, none, some, List, [], ◌∷◌, String,
  arith,
}
use pg_console.Prelude.Int.{pos, ◌+ℤ◌, ◌-ℤ◌}
use pg_console.Prelude.Dict.{map_some, lookup, adjust, insert, remove}
use pg_console.Prelude.Sort.{sort_strings, insert_sorted}
use pg_console.History.Types.{
  Observation, Revision, Limits, Contents, Change, status_transition, deleted_unobserved,
}
use pg_console.History.Store.Defs.{
  Store, new_store, append_revision, enforce_bounds, enforce_per_object, push, is_over,
  revision_size, count_revision, enforce_loop, evict_at, evict_first, evict_revision,
  forget_revision, index_of, mirror, remove_at,
}
use pg_console.History.Store.Ops.{
  Call, observed, seeded, record_calls, record_call, observe_at, observe_new, delete_all,
  delete_observed, delete_unobserved, fresh_state, gone_revision, gone_uids, missing, observe,
  observe_all, observe_known, seed, track, uids_of,
}
use pg_console.History.Store.Commit.{
  or_empty, commit, revision_of, coalesce, coalesce_into, committed, contains, find_revision,
  folded, forget, may_coalesce, put_state, replace_revision, rewrite, scope_add, scopes_remove,
  set_remove,
}
use pg_console.History.Store.Prime.{prime}
use pg_console.History.Store.Reads.{copied, revision}
use pg_console.History.Store.Runs.{appends_all}
use pg_console.History.Store.Accounting.{IsAccounted, record_calls-IsAccounted}
use pg_console.History.Store.Bounds.{IsWithin, record_calls-IsWithin, prime-IsWithin}
use pg_console.History.Store.Pointers.{IsOrdered, record_calls-IsOrdered}
use pg_console.Prelude.Eq.{◌==◌, string_eq}
use pg_console.History.Store.Current.{known_at, known_at-observe}
use pg_console.History.Store.Listing.{listed_as, known_at-seed}
use pg_console.History.Store.Lookup.{revision-eq-find}

abbrev pub web : String → String → Observation
web spec_hash status_hash = record {
  scope = "deployments";
  group = "apps";
  version = "v1";
  kind = "Deployment";
  namespace = "shop";
  name = "web";
  uid = "u1";
  generation = pos 1;
  manifest = some (1 ∷ 2 ∷ 3 ∷ []);
  spec_hash = spec_hash;
  status_hash = status_hash;
  actor = record { manager = "kubectl"; operation = "Update" };
  owners = record { manager = "kubectl"; paths = ".spec.replicas" ∷ [] } ∷ [];
  deleted = false;
}

abbrev pub two_kept : Limits
two_kept = record { per_object = 2; max_revisions = 3; max_bytes = 100_000; coalesce_window = 10 }

abbrev pub calls : List Call
calls =
    seeded "deployments" (web "a" "x" ∷ []) 1
    ∷ observed (web "b" "x") 2
    ∷ observed (web "b" "y") 20
    ∷ observed (web "b" "z") 25
    ∷ seeded "deployments" [] 40
    ∷ []

abbrev changes : List Revision → List (ℕ × Change × ℕ)
changes [] = []
changes (rev ∷ revs) = (rev.seq, rev.change, rev.coalesced) ∷ changes revs

-- The change to z folds into the revision of y, and the deletion takes the place of the oldest.
final_changes :
    changes (record_calls calls (new_store two_kept)).entries
    ≡ ((3, status_transition, 1) ∷ (4, deleted_unobserved, 0) ∷ [])
unfolding record_calls new_store record_call observe_at observe_new commit revision_of coalesce
    coalesce_into committed contains delete_all delete_observed delete_unobserved find_revision
    folded forget fresh_state gone_revision gone_uids may_coalesce missing observe observe_all
    observe_known put_state replace_revision rewrite scope_add scopes_remove seed set_remove track
    uids_of append_revision enforce_bounds enforce_per_object push is_over revision_size
    count_revision enforce_loop evict_at evict_first evict_revision forget_revision index_of mirror
    remove_at lookup adjust insert remove sort_strings insert_sorted ◌+ℤ◌ ◌-ℤ◌
final_changes = refl

abbrev persisted : Contents
persisted = record {
  revisions = (record_calls calls (new_store two_kept)).entries;
  objects = [];
  seq = 4;
  evicted = true;
}

few_appends : appends_all calls (new_store two_kept) < 2 ^ 64
unfolding appends_all record_calls new_store record_call observe_at observe_new commit revision_of
    coalesce coalesce_into committed contains delete_all delete_observed delete_unobserved
    find_revision folded forget fresh_state gone_revision gone_uids may_coalesce missing observe
    observe_all observe_known put_state replace_revision rewrite scope_add scopes_remove seed
    set_remove track uids_of append_revision enforce_bounds enforce_per_object push is_over
    revision_size count_revision enforce_loop evict_at evict_first evict_revision forget_revision
    index_of mirror remove_at lookup adjust insert remove sort_strings insert_sorted ◌+ℤ◌ ◌-ℤ◌
few_appends = omega arith

record_calls-IsAccounted_example :
    IsAccounted (record_calls calls (new_store two_kept))
    × IsAccounted (record_calls calls (prime persisted (new_store two_kept)))
record_calls-IsAccounted_example =
    record_calls-IsAccounted calls two_kept persisted (new_store two_kept)

record_calls-IsWithin_example : IsWithin two_kept (record_calls calls (new_store two_kept))
record_calls-IsWithin_example = record_calls-IsWithin calls two_kept

prime-IsWithin_example :
    IsWithin (new_store two_kept).limits (record_calls calls (prime persisted (new_store two_kept)))
prime-IsWithin_example = prime-IsWithin calls persisted (new_store two_kept)

record_calls-IsOrdered_example : IsOrdered 0 (record_calls calls (new_store two_kept))
record_calls-IsOrdered_example = record_calls-IsOrdered calls two_kept few_appends

revision-eq-find_example :
    revision 3 (record_calls calls (new_store two_kept))
    ≡ map_some copied (find_revision 3 (record_calls calls (new_store two_kept)).entries)
revision-eq-find_example = revision-eq-find calls two_kept 3 few_appends

-- After the deletion the object is new again.
known_at-observe_example :
    known_at "u1" (observe (web "b" "z") 25 (record_calls calls (new_store two_kept))) ≡ (
      if ◌==◌ {K = String} "u1" "u1"
      then (if (web "b" "z").deleted then none else some ("b", "z", 25))
      else known_at "u1" (record_calls calls (new_store two_kept)))
known_at-observe_example =
    known_at-observe (web "b" "z") 25 (record_calls calls (new_store two_kept)) "u1"

-- The deployment is known before the second listing.
abbrev before : Store
before =
    record_calls (seeded "deployments" (web "a" "x" ∷ []) 1 ∷ observed (web "b" "y") 2 ∷ [])
      (new_store two_kept)

known_at-seed_example :
    known_at "u1" (seed "deployments" [] 40 before)
    ≡ listed_as "u1" [] 40 (
        if contains "u1" (or_empty (lookup "deployments" before.scopes))
          && not (contains "u1" (uids_of []))
        then none
        else known_at "u1" before)
known_at-seed_example = known_at-seed "deployments" [] 40 before "u1"
