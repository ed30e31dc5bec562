-- ===== src/History/Store/Ops.antt =====
-- internal/history/store.go: observe, seed, the deletions, and the calls of a recorder.
use pg_console.Prelude.{
  Bool, true, false, ◌&&◌, not, none, some, List, [], ◌∷◌, String, if◌then◌else◌,
}
use pg_console.Prelude.Int.{pos}
use pg_console.Prelude.Eq.{◌==◌, string_eq}
use pg_console.Prelude.Dict.{lookup, insert}
use pg_console.Prelude.Sort.{sort_strings}
use pg_console.History.Types.{
  Time, Observation, Change, created, first_observed, spec_changed, status_transition,
  deleted_unobserved, Revision,
}
use pg_console.History.Store.Defs.{ObjectState, Store, append_revision}
use pg_console.History.Store.Commit.{
  coalesce, commit, contains, folded, forget, is_status, or_empty, put_state, revision_of,
  scope_add,
}

unfoldable pub delete_observed : Observation → Time → Store → Store
unfolding revision_of
delete_observed obs now s = elim (lookup obs.uid s.objects) [
  | none ↦ s
  | some state ↦
      let rev = revision_of obs Change.deleted now state.last_observed_at false in
      forget obs.uid (append_revision (record rev { manifest = none }) s)
]

unfoldable pub gone_revision : String → ObjectState → Time → Revision
gone_revision uid state now = record {
  seq = 0;
  scope = state.scope;
  group = state.group;
  version = state.version;
  kind = state.kind;
  namespace = state.namespace;
  name = state.name;
  uid = uid;
  generation = pos 0;
  change = deleted_unobserved;
  after_gap = true;
  actor = record { manager = ""; operation = "" };
  observed_at = now;
  prev_observed_at = state.last_observed_at;
  coalesced = 0;
  spec_hash = "";
  status_hash = "";
  owners = [];
  manifest = none;
}

unfoldable pub delete_unobserved : String → Time → Store → Store
unfolding gone_revision
delete_unobserved uid now s = elim (lookup uid s.objects) [
  | none ↦ s
  | some state ↦ forget uid (append_revision (gone_revision uid state now) s)
]

unfoldable pub fresh_state : Observation → ObjectState
fresh_state obs = record {
  scope = obs.scope;
  group = obs.group;
  version = obs.version;
  kind = obs.kind;
  namespace = obs.namespace;
  name = obs.name;
  spec_hash = "";
  status_hash = "";
  last_observed_at = 0;
  count = pos 0;
  last = none;
}

unfoldable pub track : Observation → Store → Store
unfolding fresh_state scope_add
track obs s = record s {
  objects = insert obs.uid (fresh_state obs) s.objects;
  scopes = scope_add obs.scope obs.uid s.scopes;
}

-- An object that the store does not know.
unfoldable pub observe_new : Observation → Time → Bool → Store → Store
unfolding track
observe_new obs now seed s =
    let change = if seed then first_observed else created in
    commit obs now (append_revision (revision_of obs change now 0 false) (track obs s))

abbrev pub same_hashes : Observation → ObjectState → Bool
same_hashes obs state = obs.spec_hash == state.spec_hash && obs.status_hash == state.status_hash

abbrev pub transition : Observation → ObjectState → Change
transition obs state = if obs.spec_hash == state.spec_hash then status_transition else spec_changed

abbrev pub observe_fresh : Observation → ObjectState → Time → Bool → Store → Store
observe_fresh obs state now seed s =
    let rev = revision_of obs (transition obs state) now state.last_observed_at seed in
    commit obs now (append_revision rev s)

-- An object that the store knows.
unfoldable pub observe_known : Observation → ObjectState → Time → Bool → Store → Store
observe_known obs state now seed s =
    let fresh = observe_fresh obs state now seed s in
    if same_hashes obs state
    then put_state obs.uid (record state { last_observed_at = now }) s
    else if is_status (transition obs state) && not seed
    then elim (coalesce obs state now s) [ none ↦ fresh | some folded ↦ folded ]
    else fresh

-- The unexported `observe`, with the time read by its caller.
unfoldable pub observe_at : Observation → Time → Bool → Store → Store
observe_at obs now seed s =
    if obs.deleted then delete_observed obs now s else elim (lookup obs.uid s.objects) [
      | none ↦ observe_new obs now seed s
      | some state ↦ observe_known obs state now seed s
    ]

-- `Observe`: one watch delivery.
unfoldable pub observe : Observation → Time → Store → Store
observe obs now s = observe_at obs now false s

unfoldable pub uids_of : List Observation → List String
uids_of [] = []
uids_of (obs ∷ rest) = obs.uid ∷ uids_of rest

unfoldable pub missing : List String → List String → List String
unfolding contains
missing listed [] = []
missing listed (uid ∷ uids) =
    let rest = missing listed uids in if contains uid listed then rest else uid ∷ rest

unfoldable pub delete_all : List String → Time → Store → Store
delete_all [] now s = s
delete_all (uid ∷ uids) now s = delete_all uids now (delete_unobserved uid now s)

unfoldable pub observe_all : List Observation → Time → Store → Store
observe_all [] now s = s
observe_all (obs ∷ rest) now s = observe_all rest now (observe_at obs now true s)

-- The UIDs of the scope that a listing lacks, in the order in which they are deleted.
unfoldable pub gone_uids : String → List Observation → Store → List String
unfolding uids_of missing
gone_uids scope listing s =
    sort_strings (missing (uids_of listing) (or_empty (lookup scope s.scopes)))

-- `Seed`: one complete listing of a scope.
unfoldable pub seed : String → List Observation → Time → Store → Store
unfolding gone_uids delete_all observe_all
seed scope listing now s = observe_all listing now (delete_all (gone_uids scope listing s) now s)

-- The calls of the `Recorder` interface, each with the time at which it reads the clock.
pub data Call : Type 0 where
  observed : Observation → Time → Call
  seeded : String → List Observation → Time → Call

unfoldable pub record_call : Call → Store → Store
unfolding observe seed
record_call (observed obs now) s = observe obs now s
record_call (seeded scope listing now) s = seed scope listing now s

unfoldable pub record_calls : List Call → Store → Store
record_calls [] s = s
record_calls (call ∷ calls) s = record_calls calls (record_call call s)
