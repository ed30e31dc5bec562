-- ===== src/History/Types.antt =====
-- internal/history/history.go: observations, revisions, limits and persisted contents.
-- A time is the number of nanoseconds since Go's zero time, so 0 is the zero time.
use pg_console.Prelude.{ℕ, Bool, Option, List, String}
use pg_console.Prelude.Int.{ℤ}
use pg_console.Prelude.Dict.{Dict}

abbrev pub Time : Type 0
Time = ℕ

abbrev pub Duration : Type 0
Duration = ℕ

abbrev pub Bytes : Type 0
Bytes = List ℕ

pub record Actor : Type 0 where
  pub manager : String
  pub operation : String

pub record FieldOwner : Type 0 where
  pub manager : String
  pub paths : List String

-- A nil manifest is `none`.
pub record Observation : Type 0 where
  pub scope : String
  pub group : String
  pub version : String
  pub kind : String
  pub namespace : String
  pub name : String
  pub uid : String
  pub generation : ℤ
  pub manifest : Option Bytes
  pub spec_hash : String
  pub status_hash : String
  pub actor : Actor
  pub owners : List FieldOwner
  pub deleted : Bool

pub data Change : Type 0 where
  created first_observed spec_changed status_transition deleted deleted_unobserved : Change

pub record Revision : Type 0 where
  pub seq : ℕ  -- uint64
  pub scope : String
  pub group : String
  pub version : String
  pub kind : String
  pub namespace : String
  pub name : String
  pub uid : String
  pub generation : ℤ
  pub change : Change
  pub after_gap : Bool
  pub actor : Actor
  pub observed_at : Time
  pub prev_observed_at : Time
  pub coalesced : ℕ
  pub spec_hash : String
  pub status_hash : String
  pub owners : List FieldOwner
  pub manifest : Option Bytes

pub record Entry : Type 0 where
  pub seq : ℕ
  pub scope : String
  pub group : String
  pub version : String
  pub kind : String
  pub namespace : String
  pub name : String
  pub uid : String
  pub change : Change
  pub after_gap : Bool
  pub actor : Actor
  pub observed_at : Time
  pub prev_observed_at : Time
  pub coalesced : ℕ
  pub has_manifest : Bool

pub record Snapshot : Type 0 where
  pub generation : ℕ
  pub entries : List Entry
  pub evicted : Bool

-- Zero is unbounded. A negative bound, which the code treats like zero, is not represented.
pub record Limits : Type 0 where
  pub per_object : ℕ
  pub max_revisions : ℕ
  pub max_bytes : ℕ
  pub coalesce_window : Duration

pub record ObjectRecord : Type 0 where
  pub scope : String
  pub group : String
  pub version : String
  pub kind : String
  pub namespace : String
  pub name : String
  pub spec_hash : String
  pub status_hash : String
  pub last_observed_at : Time

pub record Contents : Type 0 where
  pub revisions : List Revision
  pub objects : Dict String ObjectRecord
  pub seq : ℕ
  pub evicted : Bool

-- The mutations of the `Persister` interface, as the list of calls that the store makes.
pub data Mutation : Type 0 where
  append update : Revision → Mutation
  evict : ℕ → Mutation
  put_object : String → ObjectRecord → Mutation
  delete_object : String → Mutation
  mark_evicted : Mutation
