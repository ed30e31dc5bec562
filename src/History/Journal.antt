-- ===== src/History/Journal.antt =====
-- internal/history/bolt/bolt.go: the journal file that mirrors the history store.
--
-- The bbolt file is an argument, a record of what the code relies on: a bucket maps bytes to bytes,
-- and `Update` either applies a transaction or leaves the file as it was, so whether it does is the
-- environment's choice. The JSON encoding is an argument as well. `flush` takes what is pending
-- under the lock, writes it without the lock, and merges it back under the lock if the write failed;
-- what is enqueued meanwhile falls between two steps. A nil entry of a pending map is `some none`.
pub mod Keys
pub mod Written
pub mod Steps
pub mod Durable
pub mod Cursor
pub mod Keyed
pub mod Load
pub mod Loaded
pub mod LoadedObjects
pub mod LoadErrors
use pg_console.Prelude.{
  ℕ, zero, suc, ◌+◌, ◌*◌, ◌/◌, ◌%◌, ◌^◌, ◌≡◌, Bool, true, false, not, ◌&&◌, ◌||◌, Option, none,
  some, List, [], ◌∷◌, String, ltb, eqb, if◌then◌else◌,
}
use pg_console.Prelude.Eq.{◌==◌, nat_eq, string_eq, list_eq}
use pg_console.Prelude.Dict.{Dict, lookup, insert}
use pg_console.Prelude.Dict.Sums.{Distinct}
use pg_console.History.Types.{
  Bytes, Revision, ObjectRecord, Contents, Mutation, append, update, evict, put_object,
  delete_object, mark_evicted,
}

-- binary.BigEndian.PutUint64.
unfoldable pub seq_key : ℕ → Bytes
seq_key seq =
    seq / 2 ^ 56 % 256
    ∷ seq / 2 ^ 48 % 256
    ∷ seq / 2 ^ 40 % 256
    ∷ seq / 2 ^ 32 % 256
    ∷ seq / 2 ^ 24 % 256
    ∷ seq / 2 ^ 16 % 256
    ∷ seq / 2 ^ 8 % 256
    ∷ seq % 256
    ∷ []

-- binary.BigEndian.Uint64 of the first eight bytes; on fewer it panics.
unfoldable pub uint64_of : Bytes → ℕ
uint64_of (a ∷ b ∷ c ∷ d ∷ e ∷ f ∷ g ∷ h ∷ rest) =
    a * 2 ^ 56 + b * 2 ^ 48 + c * 2 ^ 40 + d * 2 ^ 32 + e * 2 ^ 24 + f * 2 ^ 16 + g * 2 ^ 8 + h
uint64_of _ = 0  -- not reached: the caller tests for the panic

-- What the code relies on of a bbolt bucket with its keys and values. A text is its bytes, so that a
-- bucket whose keys are the bytes of texts is one of texts.
pub record Table (K V : Type 0) : Type 1 where
  pub Bucket : Type 0
  pub get : K → Bucket → Option V
  pub put : K → V → Bucket → Bucket
  pub delete : K → Bucket → Bucket
  pub get_put_same : (k : K) (v : V) (b : Bucket) → get k (put k v b) ≡ some v
  pub get_put_other : (j k : K) (v : V) (b : Bucket) → ¬ (j ≡ k) → get j (put k v b) ≡ get j b
  pub get_delete_same : (k : K) (b : Bucket) → get k (delete k b) ≡ none
  pub get_delete_other : (j k : K) (b : Bucket) → ¬ (j ≡ k) → get j (delete k b) ≡ get j b

-- The order of the bytes, in which a cursor visits the keys.
unfoldable pub bytes_lt : Bytes → Bytes → Bool
bytes_lt [] [] = false
bytes_lt [] (c ∷ cs) = true
bytes_lt (b ∷ bs) [] = false
bytes_lt (b ∷ bs) (c ∷ cs) = ltb b c || (eqb b c && bytes_lt bs cs)

module _ {V : Type 0} where
  unfoldable pub IsAbove : Bytes → List (Bytes × V) → Type 0
  IsAbove k [] = Unit
  IsAbove k ((j, v) ∷ entries) = (bytes_lt k j ≡ true) × IsAbove j entries

  -- The keys ascend.
  unfoldable pub IsOrdered : List (Bytes × V) → Type 0
  unfolding IsAbove
  IsOrdered [] = Unit
  IsOrdered ((k, v) ∷ entries) = IsAbove k entries

-- The buckets, what a cursor and `ForEach` visit, and the JSON encoding of the values.
pub record Bbolt : Type 1 where
  pub Json : Type 0
  pub revision_table : Table Bytes Json
  pub object_table : Table String Json
  pub meta_table : Table String Bytes
  pub revision_entries : revision_table.Bucket → List (Bytes × Json)
  pub revision_entries_get :
      (k : Bytes) (b : revision_table.Bucket)
      → lookup k (revision_entries b) ≡ revision_table.get k b
  pub revision_entries_ascend : (b : revision_table.Bucket) → IsOrdered (revision_entries b)
  pub object_entries : object_table.Bucket → List (String × Json)
  pub object_entries_get :
      (k : String) (b : object_table.Bucket) → lookup k (object_entries b) ≡ object_table.get k b
  pub object_entries_distinct : (b : object_table.Bucket) → Distinct (object_entries b)
  pub revision_json : Revision → Json
  pub revision_of_json : Json → Option Revision
  pub object_json : ObjectRecord → Json
  pub object_of_json : Json → Option ObjectRecord
  pub revision_back : (rev : Revision) → revision_of_json (revision_json rev) ≡ some rev
  pub object_back : (rec : ObjectRecord) → object_of_json (object_json rec) ≡ some rec

-- What is not yet written.
pub record Pending : Type 0 where
  pub revisions : Dict ℕ (Option Revision)
  pub objects : Dict String (Option ObjectRecord)
  pub seq : ℕ
  pub evicted : Bool

abbrev pub nothing_pending : Pending
nothing_pending = record { revisions = []; objects = []; seq = 0; evicted = false }

-- The methods of the persister.
unfoldable pub enqueue : Mutation → Pending → Pending
enqueue (append rev) p = record p {
  revisions = insert rev.seq (some rev) p.revisions;
  seq = (if ltb p.seq rev.seq then rev.seq else p.seq);
}
enqueue (update rev) p = record p { revisions = insert rev.seq (some rev) p.revisions }
enqueue (evict seq) p = record p { revisions = insert seq none p.revisions }
enqueue (put_object uid rec) p = record p { objects = insert uid (some rec) p.objects }
enqueue (delete_object uid) p = record p { objects = insert uid none p.objects }
enqueue mark_evicted p = record p { evicted = true }

abbrev pub is_absent {ℓ} : {A : Type ℓ} → Option A → Bool
is_absent none = true
is_absent (some a) = false

-- The loops of `flush` that merge a failed write back: what is pending already wins.
unfoldable pub merge_revisions :
    Dict ℕ (Option Revision) → Dict ℕ (Option Revision) → Dict ℕ (Option Revision)
merge_revisions [] pending = pending
merge_revisions ((s, rev) ∷ failed) pending =
    merge_revisions failed (if is_absent (lookup s pending) then insert s rev pending else pending)

unfoldable pub merge_objects :
    Dict String (Option ObjectRecord)
    → Dict String (Option ObjectRecord)
    → Dict String (Option ObjectRecord)
merge_objects [] pending = pending
merge_objects ((uid, rec) ∷ failed) pending =
    merge_objects failed
      (if is_absent (lookup uid pending) then insert uid rec pending else pending)

unfoldable pub merge_back : Pending → Pending → Pending
unfolding merge_revisions merge_objects
merge_back failed p = record {
  revisions = merge_revisions failed.revisions p.revisions;
  objects = merge_objects failed.objects p.objects;
  seq = (if ltb p.seq failed.seq then failed.seq else p.seq);
  evicted = p.evicted || failed.evicted;
}

abbrev pub meta_seq_key : String
meta_seq_key = "seq"

abbrev pub meta_evicted_key : String
meta_evicted_key = "evicted"

module _ (db : Bbolt) where
  -- The buckets of the file.
  pub record File : Type 0 where
    pub revisions : db.revision_table.Bucket
    pub objects : db.object_table.Bucket
    pub meta : db.meta_table.Bucket

  -- The journal: the file, what is pending, and what a running flush has taken.
  pub record Journal : Type 0 where
    pub file : File
    pub pending : Pending
    pub taken : Option Pending

  unfoldable pub write_revision :
      ℕ → Option Revision → db.revision_table.Bucket → db.revision_table.Bucket
  write_revision seq none b = db.revision_table.delete (seq_key seq) b
  write_revision seq (some rev) b = db.revision_table.put (seq_key seq) (db.revision_json rev) b

  -- The order in which a `range` visits the pending map is open; this one comes last to the first.
  unfoldable pub write_revisions :
      Dict ℕ (Option Revision) → db.revision_table.Bucket → db.revision_table.Bucket
  unfolding write_revision
  write_revisions [] b = b
  write_revisions ((seq, rev) ∷ revs) b = write_revision seq rev (write_revisions revs b)

  unfoldable pub write_object :
      String → Option ObjectRecord → db.object_table.Bucket → db.object_table.Bucket
  write_object uid none b = db.object_table.delete uid b
  write_object uid (some rec) b = db.object_table.put uid (db.object_json rec) b

  unfoldable pub write_objects :
      Dict String (Option ObjectRecord) → db.object_table.Bucket → db.object_table.Bucket
  unfolding write_object
  write_objects [] b = b
  write_objects ((uid, rec) ∷ recs) b = write_object uid rec (write_objects recs b)

  unfoldable pub write_meta : Pending → db.meta_table.Bucket → db.meta_table.Bucket
  write_meta p b =
      let counted = if ltb 0 p.seq then db.meta_table.put meta_seq_key (seq_key p.seq) b else b in
      if p.evicted then db.meta_table.put meta_evicted_key (1 ∷ []) counted else counted

  -- The transaction of `flush`.
  unfoldable pub write : Pending → File → File
  unfolding write_revisions write_objects write_meta
  write p f = record {
    revisions = write_revisions p.revisions f.revisions;
    objects = write_objects p.objects f.objects;
    meta = write_meta p f.meta;
  }

  -- What happens to the journal: a mutation, the start of a flush, and its end, with whether the
  -- transaction was applied.
  pub data Event : Type 0 where
    mutated : Mutation → Event
    flush_begins : Event
    flush_ends : Bool → Event

  unfoldable pub finish : Bool → Option Pending → Journal → Journal
  unfolding write merge_back
  finish applied none j = j
  finish true (some p) j = record j { file = write p j.file; taken = none }
  finish false (some p) j = record j { pending = merge_back p j.pending; taken = none }

  -- Only one flush runs at a time, since one loop calls it. An empty one returns at once, which is
  -- to write nothing.
  unfoldable pub begin : Option Pending → Journal → Journal
  begin none j = record j { pending = nothing_pending; taken = some j.pending }
  begin (some p) j = j

  unfoldable pub handle : Event → Journal → Journal
  unfolding enqueue begin finish
  handle (mutated m) j = record j { pending = enqueue m j.pending }
  handle flush_begins j = begin j.taken j
  handle (flush_ends applied) j = finish applied j.taken j

  unfoldable pub handle_all : List Event → Journal → Journal
  handle_all [] j = j
  handle_all (e ∷ es) j = handle_all es (handle e j)

  unfoldable pub opened : File → Journal
  opened f = record { file = f; pending = nothing_pending; taken = none }
