-- ===== src/History/Store/Defs.antt =====
-- The state of the store, and its retention: append, evict and the bounds.
use Prim.Native.String.{len}
use pg_console.Prelude.{
  ℕ, zero, suc, ◌+◌, ◌-◌, Bool, true, false, ◌&&◌, ◌||◌, Option, none, some, List, [], ◌∷◌, ◌++◌,
  String, ltb, eqb, u64, length, get_elem?, if◌then◌else◌,
}
use pg_console.Prelude.Int.{ℤ, pos, ◌+ℤ◌, ◌-ℤ◌, ltb_ℤ}
use pg_console.Prelude.Eq.{◌==◌, string_eq}
use pg_console.Prelude.Dict.{Dict, lookup, adjust, map_some}
use pg_console.History.Types.{
  Time, Bytes, FieldOwner, Revision, Limits, ObjectRecord, Mutation, append, evict, mark_evicted,
}

-- `last` names the newest retained revision, the coalescing target.
pub record ObjectState : Type 0 where
  pub scope : String
  pub group : String
  pub version : String
  pub kind : String
  pub namespace : String
  pub name : String
  pub spec_hash : String
  pub status_hash : String
  pub last_observed_at : Time
  pub count : ℤ
  pub last : Option ℕ

abbrev pub to_record : ObjectState → ObjectRecord
to_record o = record {
  scope = o.scope;
  group = o.group;
  version = o.version;
  kind = o.kind;
  namespace = o.namespace;
  name = o.name;
  spec_hash = o.spec_hash;
  status_hash = o.status_hash;
  last_observed_at = o.last_observed_at;
}

-- `scopes` holds the set of live UIDs of each scope.
pub record Store : Type 0 where
  pub limits : Limits
  pub journal : Option (List Mutation)
  pub seq : ℕ  -- uint64
  pub generation : ℕ  -- uint64
  pub entries : List Revision
  pub objects : Dict String ObjectState
  pub scopes : Dict String (List String)
  pub total_bytes : ℕ
  pub evicted : Bool

unfoldable pub new_store : Limits → Store
new_store limits = record {
  limits = limits;
  journal = none;
  seq = 0;
  generation = 0;
  entries = [];
  objects = [];
  scopes = [];
  total_bytes = 0;
  evicted = false;
}

abbrev pub manifest_size : Option Bytes → ℕ
manifest_size none = 0
manifest_size (some bytes) = length bytes

paths_size : List String → ℕ
paths_size [] = 0
paths_size (path ∷ paths) = len path + paths_size paths

owners_size : List FieldOwner → ℕ
unfolding paths_size
owners_size [] = 0
owners_size (owner ∷ owners) = len owner.manager + paths_size owner.paths + owners_size owners

unfoldable pub revision_size : Revision → ℕ
unfolding owners_size
revision_size rev = manifest_size rev.manifest + owners_size rev.owners

-- A call of the persister, where there is one.
unfoldable pub mirror : Mutation → Store → Store
mirror m s = record s { journal = map_some (λ log. log ++ m ∷ []) s.journal }

unfoldable pub remove_at : ℕ → List Revision → List Revision
remove_at i [] = []
remove_at zero (rev ∷ revs) = revs
remove_at (suc i) (rev ∷ revs) = rev ∷ remove_at i revs

-- The object's bookkeeping when the revision `seq` is evicted.
unfoldable pub forget_revision : ℕ → ObjectState → ObjectState
forget_revision seq state = record state {
  count = state.count -ℤ pos 1;
  last = (elim state.last [ none ↦ none | some last ↦ if eqb last seq then none else some last ]);
}

-- The part of `evict` that follows the lookup of the revision. The subtraction is exact wherever
-- `total_bytes` is the sum of the sizes.
unfoldable pub evict_revision : ℕ → Revision → Store → Store
unfolding mirror forget_revision remove_at
evict_revision i rev s =
    let dropped = record s {
      entries = remove_at i s.entries;
      total_bytes = s.total_bytes - revision_size rev;
    } in
    let mirrored = mirror (evict rev.seq) dropped in
    let marked = if s.evicted then mirrored else mirror mark_evicted mirrored in
    record marked { evicted = true; objects = adjust rev.uid (forget_revision rev.seq) s.objects }

-- An index out of range panics in the code; no caller gives one.
unfoldable pub evict_at : ℕ → Store → Store
unfolding evict_revision
evict_at i s = elim (get_elem? s.entries i) [ none ↦ s | some rev ↦ evict_revision i rev s ]

unfoldable pub is_over : Store → Bool
is_over s =
    (ltb 0 s.limits.max_revisions && ltb s.limits.max_revisions (length s.entries))
    || (ltb 0 s.limits.max_bytes && ltb s.limits.max_bytes s.total_bytes)

-- The loop of `enforceBounds`. Each round drops one entry, so their number is enough fuel.
unfoldable pub enforce_loop : ℕ → Store → Store
enforce_loop zero s = s
enforce_loop (suc fuel) s =
    let rest = enforce_loop fuel (evict_at 0 s) in if is_over s then rest else s

unfoldable pub enforce_bounds : Store → Store
unfolding enforce_loop
enforce_bounds s = enforce_loop (length s.entries) s

-- The index of the first revision of `uid`.
unfoldable pub index_of : String → List Revision → Option ℕ
index_of uid [] = none
index_of uid (rev ∷ revs) =
    let rest = map_some suc (index_of uid revs) in if rev.uid == uid then some 0 else rest

unfoldable pub evict_first : String → Store → Store
unfolding index_of
evict_first uid s = elim (index_of uid s.entries) [ none ↦ s | some i ↦ evict_at i s ]

abbrev pub exceeds : ℕ → ObjectState → Bool
exceeds per_object state = ltb 0 per_object && ltb_ℤ (pos per_object) state.count

unfoldable pub enforce_per_object : String → Store → Store
unfolding evict_first
enforce_per_object uid s = elim (lookup uid s.objects) [
  | none ↦ s
  | some state ↦ if exceeds s.limits.per_object state then evict_first uid s else s
]

-- The object's bookkeeping when it gets the revision `seq`.
unfoldable pub count_revision : ℕ → ObjectState → ObjectState
count_revision seq state = record state { count = state.count +ℤ pos 1; last = some seq }

-- The part of `append` before the bounds are enforced.
unfoldable pub push : Revision → Store → Store
unfolding mirror count_revision
push rev s =
    let seq = u64 (s.seq + 1) in
    let numbered = record rev { seq = seq } in
    mirror (append numbered) (record s {
      seq = seq;
      entries = s.entries ++ numbered ∷ [];
      total_bytes = s.total_bytes + revision_size numbered;
      objects = adjust rev.uid (count_revision seq) s.objects;
      generation = u64 (s.generation + 1);
    })

unfoldable pub append_revision : Revision → Store → Store
append_revision rev s = enforce_bounds (enforce_per_object rev.uid (push rev s))
