-- ===== src/History/Store/Reads.antt =====
-- `Snapshot` and `Revision`: what the readers get. A value is its own copy here, so `copyOwners` is the
-- identity; the copy of a manifest is not, since appending no bytes to nil gives nil.
use pg_console.Prelude.{
  ℕ, Bool, true, false, Option, none, some, List, [], ◌∷◌, ◌++◌, ltb, leb, eqb, length, get_elem?,
  if◌then◌else◌,
}
use pg_console.Prelude.Sort.{sort_search}
use pg_console.History.Types.{Bytes, Revision, Entry, Snapshot}
use pg_console.History.Store.Defs.{Store}

abbrev pub is_some : Option Bytes → Bool
is_some none = false
is_some (some bytes) = true

unfoldable pub to_entry : Revision → Entry
to_entry rev = record {
  seq = rev.seq;
  scope = rev.scope;
  group = rev.group;
  version = rev.version;
  kind = rev.kind;
  namespace = rev.namespace;
  name = rev.name;
  uid = rev.uid;
  change = rev.change;
  after_gap = rev.after_gap;
  actor = rev.actor;
  observed_at = rev.observed_at;
  prev_observed_at = rev.prev_observed_at;
  coalesced = rev.coalesced;
  has_manifest = is_some rev.manifest;
}

-- Newest first.
unfoldable pub newest_first : List Revision → List Entry
unfolding to_entry
newest_first [] = []
newest_first (rev ∷ revs) = newest_first revs ++ to_entry rev ∷ []

unfoldable pub snapshot : Store → Snapshot × Bool
unfolding newest_first
snapshot s =
    let entries = newest_first s.entries in
    (
      record { generation = s.generation; evicted = s.evicted; entries = entries },
      ltb 0 (length entries),
    )

-- The predicate of the binary search, at an index in range.
unfoldable pub at_least : ℕ → List Revision → ℕ → Bool
at_least seq revs i = elim (get_elem? revs i) [ none ↦ false | some rev ↦ leb seq rev.seq ]

unfoldable pub search_index : ℕ → List Revision → ℕ
unfolding at_least
search_index seq revs = sort_search (length revs) (at_least seq revs)

-- append([]byte(nil), manifest...).
abbrev pub copied_bytes : Option Bytes → Option Bytes
copied_bytes none = none
copied_bytes (some []) = none
copied_bytes (some (b ∷ bytes)) = some (b ∷ bytes)

unfoldable pub copied : Revision → Revision
copied rev = record rev { manifest = copied_bytes rev.manifest }

unfoldable pub revision : ℕ → Store → Option Revision
unfolding search_index copied
revision seq s = elim (get_elem? s.entries (search_index seq s.entries)) [
  | none ↦ none
  | some rev ↦ if eqb rev.seq seq then some (copied rev) else none
]
