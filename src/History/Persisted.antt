-- ===== src/History/Persisted.antt =====
-- The history store with its journal file: what the file holds is what the store has.
use pg_console.Prelude.{ℕ, ◌^◌, ◌<◌, ◌≡◌, refl, sym, ◌∙◌, ap, false, none, some, List, String}
use pg_console.Prelude.Eq.{string_eq}
use pg_console.Prelude.Dict.{lookup}
use pg_console.History.Types.{Mutation, Limits}
use pg_console.History.Replay.{revision_after, object_after, seq_after, mark_after, replay}
use pg_console.History.Journal.{Bbolt, File, Event, handle_all, opened}
use pg_console.History.Journal.Durable.{mutations, flushed, flushed-Durable}
use pg_console.History.Journal.Steps.{FitsEvents}
use pg_console.History.Journal.Written.{stored_revision, stored_object}
use pg_console.History.Store.Defs.{new_store}
use pg_console.History.Store.Ops.{Call, record_calls}
use pg_console.History.Store.Commit.{find_revision}
use pg_console.History.Store.Runs.{appends_all}
use pg_console.History.Store.Mirror.{record_at, told_at, told}
use pg_console.History.Store.Mirror.Calls.{record_calls-InStep}
use pg_console.History.Store.Mirror.Revisions.{with_persister, record_calls-IsTold}

-- The calls of the persister amount to the store: from a new store, after any calls that append
-- fewer than 2 ^ 64 revisions, replaying them gives every retained revision and no other, every
-- object's record and no other, the counter, and the mark that history was dropped.
pub record_calls-Mirrored :
    (calls : List Call) (limits : Limits) (k : ℕ) (uid : String)
    → appends_all calls (with_persister limits) < 2 ^ 64
    → (find_revision k (record_calls calls (with_persister limits)).entries
        ≡ told (revision_after k) none (record_calls calls (with_persister limits)).journal)
      × (record_at uid (record_calls calls (with_persister limits))
          ≡ told_at uid (record_calls calls (with_persister limits)))
      × ((record_calls calls (with_persister limits)).seq
          ≡ told seq_after 0 (record_calls calls (with_persister limits)).journal)
      × ((record_calls calls (with_persister limits)).evicted
          ≡ told mark_after false (record_calls calls (with_persister limits)).journal)
unfolding new_store lookup
record_calls-Mirrored calls limits k uid h =
    let t = record_calls-IsTold calls limits h in
    let o =
      record_calls-InStep uid calls (with_persister limits)
        (record { wired = refl; agrees = refl }) in
    (t.revisions k, o.agrees, t.counted, t.marked)

-- For a store with a journal whose file was empty: however the flushes fall between the calls of the
-- persister and whichever fail, once none is running one that is applied leaves in the file exactly
-- the retained revisions and the objects' records of the store.
pub flushed-Persisted :
    (db : Bbolt) (calls : List Call) (limits : Limits) (log : List Mutation) (es : List (Event db))
    (f : File db) (k : ℕ) (uid : String)
    → appends_all calls (with_persister limits) < 2 ^ 64
    → (record_calls calls (with_persister limits)).journal ≡ some log
    → mutations db es ≡ log
    → stored_revision db k f ≡ none
    → stored_object db uid f ≡ none
    → k < 2 ^ 64
    → FitsEvents db es
    → (handle_all db es (opened db f)).taken ≡ none
    → (stored_revision db k (flushed db (handle_all db es (opened db f))).file
        ≡ find_revision k (record_calls calls (with_persister limits)).entries)
      × (stored_object db uid (flushed db (handle_all db es (opened db f))).file
          ≡ record_at uid (record_calls calls (with_persister limits)))
flushed-Persisted db calls limits log es f k uid h journal same no_revision no_object hk fits idle =
    let stored = flushed-Durable db k uid es f hk fits idle in
    let mirrored = record_calls-Mirrored calls limits k uid h in
    (
      stored.0
          ∙ ap (replay (revision_after k) (mutations db es)) no_revision
          ∙ ap (λ ms. replay (revision_after k) ms none) same
          ∙ sym (mirrored.0 ∙ ap (told (revision_after k) none) journal),
      stored.1
          ∙ ap (replay (object_after uid) (mutations db es)) no_object
          ∙ ap (λ ms. replay (object_after uid) ms none) same
          ∙ sym (mirrored.1 ∙ ap (told (object_after uid) none) journal),
    )
