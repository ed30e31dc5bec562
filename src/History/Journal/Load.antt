-- ===== src/History/Journal/Load.antt =====
-- internal/history/bolt/bolt.go: `Load`, which reads the file back.
use pg_console.Prelude.{
  ℕ, Bool, true, false, Option, none, some, List, [], ◌∷◌, ◌++◌, String, ltb, leb, eqb, length,
  if◌then◌else◌,
}
use pg_console.Prelude.Eq.{string_eq}
use pg_console.Prelude.Dict.{Dict, insert}
use pg_console.History.Types.{Bytes, Revision, ObjectRecord, Contents}
use pg_console.History.Journal.{uint64_of, Bbolt, File, meta_seq_key, meta_evicted_key, is_absent}

abbrev pub later : ℕ → ℕ → ℕ
later seq counted = if ltb counted seq then seq else counted

abbrev pub counted_of : Option Bytes → ℕ → ℕ
counted_of none counted = counted
counted_of (some raw) counted =
    if eqb (length raw) 8 then later (uint64_of raw) counted else counted

-- How a reading ends: with a value, with the error of a value that does not decode, or with the panic
-- of `binary.BigEndian.Uint64`.
pub data Outcome (A : Type 0) : Type 0 where
  returned : A → Outcome A
  failed : Outcome A
  panicked : Outcome A

-- Whether a key has the eight bytes of a sequence number.
unfoldable pub has_seq : Bytes → Bool
has_seq key = leb 8 (length key)

module _ (db : Bbolt) where
  -- The loop over the cursor, with what is collected so far. The value is decoded before the key is read.
  unfoldable pub load_revisions :
      List (Bytes × db.Json) → List Revision → ℕ → Outcome (List Revision × ℕ)
  unfolding has_seq
  load_revisions [] revs counted = returned (revs, counted)
  load_revisions ((key, value) ∷ entries) revs counted = elim (db.revision_of_json value) [
    | none ↦ failed
    | some rev ↦
        let rest = load_revisions entries (revs ++ rev ∷ []) (later (uint64_of key) counted) in
        if has_seq key then rest else panicked
  ]

  unfoldable pub load_objects :
      List (String × db.Json) → Dict String ObjectRecord → Option (Dict String ObjectRecord)
  load_objects [] recs = some recs
  load_objects ((uid, value) ∷ entries) recs = elim (db.object_of_json value) [
    | none ↦ none
    | some rec ↦ load_objects entries (insert uid rec recs)
  ]

  abbrev pub with_meta :
      db.meta_table.Bucket → List Revision × ℕ → Dict String ObjectRecord → Contents
  with_meta meta (revs, counted) recs = record {
    revisions = revs;
    objects = recs;
    seq = counted_of (db.meta_table.get meta_seq_key meta) counted;
    evicted = (if is_absent (db.meta_table.get meta_evicted_key meta) then false else true);
  }

  abbrev pub with_objects :
      File db → List Revision × ℕ → Option (Dict String ObjectRecord) → Outcome Contents
  with_objects f revs none = failed
  with_objects f revs (some recs) = returned (with_meta f.meta revs recs)

  -- What is left once the revisions are read.
  unfoldable pub with_revisions : File db → Outcome (List Revision × ℕ) → Outcome Contents
  unfolding load_objects
  with_revisions f failed = failed
  with_revisions f panicked = panicked
  with_revisions f (returned revs) =
      with_objects f revs (load_objects (db.object_entries f.objects) [])

  unfoldable pub load : File db → Outcome Contents
  unfolding load_revisions with_revisions
  load f = with_revisions f (load_revisions (db.revision_entries f.revisions) [] 0)
