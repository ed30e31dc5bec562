-- ===== src/History/Store/Commit.antt =====
-- internal/history/store.go: the table of objects, and the coalescing of a status change.
use pg_console.Prelude.{
  ℕ, ◌+◌, ◌-◌, Bool, true, false, ◌&&◌, ◌||◌, Option, none, some, List, [], ◌∷◌, String, ltb, eqb,
  u64, if◌then◌else◌,
}
use pg_console.Prelude.Eq.{◌==◌, string_eq}
use pg_console.Prelude.Dict.{Dict, lookup, insert, remove}
use pg_console.History.Types.{
  Time, Observation, Change, status_transition, Revision, Limits, update, put_object, delete_object,
}
use pg_console.History.Store.Defs.{
  ObjectState, to_record, Store, revision_size, mirror, enforce_bounds,
}

unfoldable pub revision_of : Observation → Change → Time → Time → Bool → Revision
revision_of obs change now prev after_gap = record {
  seq = 0;
  scope = obs.scope;
  group = obs.group;
  version = obs.version;
  kind = obs.kind;
  namespace = obs.namespace;
  name = obs.name;
  uid = obs.uid;
  generation = obs.generation;
  change = change;
  after_gap = after_gap;
  actor = obs.actor;
  observed_at = now;
  prev_observed_at = prev;
  coalesced = 0;
  spec_hash = obs.spec_hash;
  status_hash = obs.status_hash;
  owners = obs.owners;
  manifest = obs.manifest;
}

unfoldable pub contains : String → List String → Bool
contains uid [] = false
contains uid (x ∷ xs) = x == uid || contains uid xs

unfoldable pub set_remove : String → List String → List String
set_remove uid [] = []
set_remove uid (x ∷ xs) = let rest = set_remove uid xs in if x == uid then rest else x ∷ rest

abbrev pub or_empty : Option (List String) → List String
or_empty none = []
or_empty (some uids) = uids

-- s.scopeSet(scope)[uid] = true
unfoldable pub scope_add : String → String → Dict String (List String) → Dict String (List String)
unfolding contains
scope_add scope uid scopes =
    let uids = or_empty (lookup scope scopes) in
    insert scope (if contains uid uids then uids else uid ∷ uids) scopes

-- The UID leaves every scope's set.
unfoldable pub scopes_remove : String → Dict String (List String) → Dict String (List String)
scopes_remove uid [] = []
scopes_remove uid ((scope, uids) ∷ scopes) = (scope, set_remove uid uids) ∷ scopes_remove uid scopes

unfoldable pub forget : String → Store → Store
unfolding mirror scopes_remove
forget uid s =
    mirror (delete_object uid)
      (record s { objects = remove uid s.objects; scopes = scopes_remove uid s.scopes })

unfoldable pub committed : Observation → Time → ObjectState → ObjectState
committed obs now state = record state {
  spec_hash = obs.spec_hash;
  status_hash = obs.status_hash;
  last_observed_at = now;
}

-- What the map holds at `uid` is replaced, and mirrored.
unfoldable pub put_state : String → ObjectState → Store → Store
unfolding mirror
put_state uid state s =
    mirror (put_object uid (to_record state)) (record s { objects = insert uid state s.objects })

-- The state that `commit` writes to is the one that the map holds.
unfoldable pub commit : Observation → Time → Store → Store
unfolding committed put_state
commit obs now s = elim (lookup obs.uid s.objects) [
  | none ↦ s
  | some state ↦ put_state obs.uid (committed obs now state) s
]

unfoldable pub find_revision : ℕ → List Revision → Option Revision
find_revision seq [] = none
find_revision seq (rev ∷ revs) = if eqb rev.seq seq then some rev else find_revision seq revs

-- A write through the pointer to a retained revision.
unfoldable pub replace_revision : Revision → List Revision → List Revision
replace_revision rev [] = []
replace_revision rev (r ∷ revs) =
    let rest = replace_revision rev revs in if eqb r.seq rev.seq then rev ∷ revs else r ∷ rest

abbrev pub is_status : Change → Bool
is_status status_transition = true
is_status _ = false

unfoldable pub folded : Observation → Time → Revision → Revision
folded obs now last = record last {
  manifest = obs.manifest;
  status_hash = obs.status_hash;
  generation = obs.generation;
  actor = obs.actor;
  owners = obs.owners;
  observed_at = now;
  coalesced = last.coalesced + 1;
}

-- The writes of `coalesce` up to the mirrored update.
unfoldable pub rewrite : Revision → Revision → Store → Store
unfolding mirror replace_revision
rewrite last rev s = mirror (update rev) (record s {
  entries = replace_revision rev s.entries;
  total_bytes = s.total_bytes - revision_size last + revision_size rev;
})

abbrev pub next_generation : Store → Store
next_generation s = record s { generation = u64 (s.generation + 1) }

unfoldable pub coalesce_into : Observation → Time → Revision → Store → Store
coalesce_into obs now last s =
    enforce_bounds (next_generation (commit obs now (rewrite last (folded obs now last) s)))

-- `now - last.observed_at` stops at 0 where the clock went back; the code's negative difference
-- is below a positive window as well.
unfoldable pub may_coalesce : Limits → Time → Revision → Bool
may_coalesce limits now last =
    ltb 0 limits.coalesce_window
    && is_status last.change
    && ltb (now - last.observed_at) limits.coalesce_window

abbrev pub last_revision : ObjectState → Store → Option Revision
last_revision state s = elim state.last [ none ↦ none | some seq ↦ find_revision seq s.entries ]

-- `none` where the code returns false.
unfoldable pub coalesce : Observation → ObjectState → Time → Store → Option Store
coalesce obs state now s = elim (last_revision state s) [
  | none ↦ none
  | some last ↦ if may_coalesce s.limits now last then some (coalesce_into obs now last s) else none
]
