-- ===== src/History/Store/Prime.antt =====
-- `prime` and `NewPersistedStore`: the store rebuilt from what the persister loads.
use pg_console.Prelude.{ℕ, ◌+◌, Option, none, some, List, [], ◌∷◌, String}
use pg_console.Prelude.Int.{pos}
use pg_console.Prelude.Eq.{string_eq}
use pg_console.Prelude.Dict.{Dict, adjust}
use pg_console.History.Types.{Revision, Limits, ObjectRecord, Contents}
use pg_console.History.Store.Defs.{
  ObjectState, Store, new_store, revision_size, enforce_bounds, enforce_per_object, count_revision,
}
use pg_console.History.Store.Commit.{scope_add}

unfoldable pub from_record : ObjectRecord → ObjectState
from_record rec = record {
  scope = rec.scope;
  group = rec.group;
  version = rec.version;
  kind = rec.kind;
  namespace = rec.namespace;
  name = rec.name;
  spec_hash = rec.spec_hash;
  status_hash = rec.status_hash;
  last_observed_at = rec.last_observed_at;
  count = pos 0;
  last = none;
}

unfoldable pub total_size : List Revision → ℕ
total_size [] = 0
total_size (rev ∷ revs) = revision_size rev + total_size revs

unfoldable pub prime_objects : Dict String ObjectRecord → Dict String ObjectState
unfolding from_record
prime_objects [] = []
prime_objects ((uid, rec) ∷ objects) = (uid, from_record rec) ∷ prime_objects objects

unfoldable pub prime_scopes : Dict String ObjectRecord → Dict String (List String)
prime_scopes [] = []
prime_scopes ((uid, rec) ∷ objects) = scope_add rec.scope uid (prime_scopes objects)

-- Counts and coalescing targets, derived from the revisions oldest first.
unfoldable pub derive_counts : List Revision → Dict String ObjectState → Dict String ObjectState
derive_counts [] objects = objects
derive_counts (rev ∷ revs) objects =
    derive_counts revs (adjust rev.uid (count_revision rev.seq) objects)

abbrev pub keys : Dict String ObjectState → List String
keys [] = []
keys ((uid, state) ∷ objects) = uid ∷ keys objects

unfoldable pub enforce_all : List String → Store → Store
enforce_all [] s = s
enforce_all (uid ∷ uids) s = enforce_all uids (enforce_per_object uid s)

-- The generation resumes at the sequence.
unfoldable pub loaded : Contents → Store → Store
unfolding total_size prime_objects prime_scopes derive_counts
loaded contents s = record s {
  entries = contents.revisions;
  total_bytes = total_size contents.revisions;
  seq = contents.seq;
  generation = contents.seq;
  evicted = contents.evicted;
  objects = derive_counts contents.revisions (prime_objects contents.objects);
  scopes = prime_scopes contents.objects;
}

unfoldable pub prime : Contents → Store → Store
unfolding loaded enforce_all
prime contents s = let s' = loaded contents s in enforce_bounds (enforce_all (keys s'.objects) s')

-- What `Load` returns is an argument; `none` is its failure, which is returned.
unfoldable pub new_persisted_store : Limits → Option Contents → Option Store
unfolding prime new_store
new_persisted_store limits none = none
new_persisted_store limits (some contents) =
    some (prime contents (record (new_store limits) { journal = some [] }))
