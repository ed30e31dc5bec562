-- ===== src/History/Restart.antt =====
-- A restart: what `Load` reads from the journal file is what the history store had.
use pg_console.Prelude.{
  ℕ, ◌^◌, ◌<◌, ◌≤◌, ◌≡◌, refl, sym, ap, ◌∙◌, arith, true, none, some, List, [], ◌∷◌, String, ltb,
  eqb, eqb_iff, Bool-cases, inl, inr, ◌⊎◌, Option,
}
use mathlib.Core.Option.{some-injective}
use pg_console.Prelude.Eq.{nat_eq, list_eq, string_eq}
use pg_console.Prelude.Dict.{Dict, lookup}
use pg_console.History.Types.{Bytes, Revision, ObjectRecord, Contents, Mutation, Limits}
use pg_console.History.Journal.{
  seq_key, Bbolt, File, Event, handle_all, opened, flush_begins, flush_ends,
}
use pg_console.History.Journal.Durable.{mutations, flushed, handle_all-IsFit}
use pg_console.History.Journal.Keyed.{IsKeyed, handle_all-IsKeyed}
use pg_console.History.Journal.Load.{
  returned, load, load_revisions, load_objects, with_meta, with_objects, with_revisions,
}
use pg_console.History.Journal.Loaded.{IsRising, loading_all}
use pg_console.History.Journal.LoadedObjects.{layered, loading_objects}
use pg_console.History.Journal.Written.{decoded, decoded_object, stored_revision, stored_object}
use pg_console.History.Journal.Steps.{FitsEvents, IsFit}
use pg_console.History.Persisted.{flushed-Persisted}
use pg_console.History.Store.Mirror.{record_at}
use pg_console.History.Store.Mirror.Revisions.{with_persister, record_calls-IsTold}
use pg_console.History.Store.Ops.{Call, record_calls}
use pg_console.History.Store.Commit.{find_revision}
use pg_console.History.Store.Order.{Ascending, find-above, find-below, find-beyond}
use pg_console.History.Store.Runs.{appends_all}

find_head : (x : Revision) (xs : List Revision) → find_revision x.seq (x ∷ xs) ≡ some x
unfolding find_revision
find_head x xs = ground arith

-- Where a list that ascends has the revision that another begins with.
head_order :
    (x y : Revision) (ys : List Revision) (hi : ℕ)
    → Ascending y.seq ys hi
    → find_revision x.seq (y ∷ ys) ≡ some x
    → (y ≡ x) ⊎ (y.seq < x.seq)
unfolding find_revision
head_order x y ys hi up at = elim (Bool-cases (eqb y.seq x.seq)) [
  | inl same ↦ inl (some-injective _ _ (ground (arith, at, same)))
  | inr other ↦ inr (find-above y.seq ys hi x.seq x up (ground (arith, at, other)))
]

same_heads : (x y : Revision) → (y ≡ x) ⊎ (y.seq < x.seq) → (x ≡ y) ⊎ (x.seq < y.seq) → y ≡ x
same_heads x y (inl e) other = e
same_heads x y (inr less) (inl e) = sym e
same_heads x y (inr less) (inr more) = absurd (omega (arith, less, more))

tails_agree :
    (x : Revision) (xs ys : List Revision) (ha hb : ℕ)
    → Ascending x.seq xs ha
    → Ascending x.seq ys hb
    → ((k : ℕ) → find_revision k (x ∷ xs) ≡ find_revision k (x ∷ ys))
    → (k : ℕ) → find_revision k xs ≡ find_revision k ys
tails_agree x xs ys ha hb ua ub agree k = elim (Bool-cases (eqb x.seq k)) [
  | inl same ↦ rw (sym ((eqb_iff x.seq k).0 same)) (
      find-below x.seq xs ha x.seq ua (omega arith)
      ∙ sym (find-below x.seq ys hb x.seq ub (omega arith)))
  | inr other ↦ unfold find_revision in ground (arith, agree k, other)
]

Ascending-IsRising : (lo : ℕ) (revs : List Revision) (hi : ℕ) → Ascending lo revs hi → IsRising revs
unfolding IsRising
Ascending-IsRising lo [] hi up = tt
Ascending-IsRising lo (rev ∷ revs) hi up = (hi, up.1)

-- A list of revisions that ascends is determined by what is found in it.
rising_unique :
    (xs ys : List Revision)
    → IsRising xs
    → IsRising ys
    → ((k : ℕ) → find_revision k xs ≡ find_revision k ys)
    → xs ≡ ys
unfolding IsRising
rising_unique [] [] ux uy agree = refl
rising_unique [] (y ∷ ys) ux uy agree =
    absurd (unfold find_revision in ground (arith, agree y.seq, find_head y ys))
rising_unique (x ∷ xs) [] ux uy agree =
    absurd (unfold find_revision in ground (arith, agree x.seq, find_head x xs))
rising_unique (x ∷ xs) (y ∷ ys) (ha, ua) (hb, ub) agree =
    let x_in_y = head_order x y ys hb ub (sym (agree x.seq) ∙ find_head x xs) in
    let y_in_x = head_order y x xs ha ua (agree y.seq ∙ find_head y ys) in
    let heads = same_heads x y x_in_y y_in_x in
    let up : Ascending x.seq ys hb = rw (sym heads) ub in
    let tails =
      tails_agree x xs ys ha hb ua up (λ k. agree k ∙ ap (λ z. find_revision k (z ∷ ys)) heads) in
    ap (λ revs. x ∷ revs)
      (rising_unique xs ys (Ascending-IsRising x.seq xs ha ua) (Ascending-IsRising x.seq ys hb up)
        tails)
    ∙ ap (λ z. z ∷ ys) (sym heads)

-- The file of a journal that has not been written.
unfoldable pub IsBlank : (db : Bbolt) → File db → Type 0
IsBlank db f =
    ((k : Bytes) → db.revision_table.get k f.revisions ≡ none)
    × ((uid : String) → db.object_table.get uid f.objects ≡ none)

blank-IsKeyed : (db : Bbolt) (f : File db) → IsBlank db f → IsKeyed db f
unfolding IsBlank
blank-IsKeyed db f (no_revisions, no_objects) = record {
  revisions = λ k v at. absurd (ground (arith, at, no_revisions k));
  objects = λ uid v at. absurd (ground (arith, at, no_objects uid));
}

flushed-IsKeyed :
    (db : Bbolt) (es : List (Event db)) (f : File db)
    → FitsEvents db es
    → IsBlank db f
    → IsKeyed db (flushed db (handle_all db es (opened db f))).file
unfolding opened handle_all
flushed-IsKeyed db es f fits blank =
    let fresh : IsFit db (opened db f) = record { pending = tt; taken = tt } in
    handle_all-IsKeyed db (flush_begins ∷ flush_ends true ∷ []) (handle_all db es (opened db f))
      (tt, (tt, tt)) (handle_all-IsFit db es (opened db f) fits fresh)
      (handle_all-IsKeyed db es (opened db f) fits fresh (blank-IsKeyed db f blank))

layered-stored : (db : Bbolt) (v : Option db.Json) → layered db v none ≡ decoded_object db v
layered-stored db none = refl
layered-stored db (some v) = refl

-- What `Load` reads from a file that decodes.
record LoadsStored (db : Bbolt) (f : File db) : Type 0 where
  contents : Contents
  loads : load db f ≡ returned contents
  rises : IsRising contents.revisions
  finds : (k : ℕ) → k < 2 ^ 64 → find_revision k contents.revisions ≡ stored_revision db k f
  beyond : (k : ℕ) → 2 ^ 64 ≤ k → find_revision k contents.revisions ≡ none
  objects : (uid : String) → lookup uid contents.objects ≡ stored_object db uid f

load-both :
    (db : Bbolt) (f : File db) (revs : List Revision × ℕ) (recs : Dict String ObjectRecord)
    → load_revisions db (db.revision_entries f.revisions) [] 0 ≡ returned revs
    → load_objects db (db.object_entries f.objects) [] ≡ some recs
    → load db f ≡ returned (with_meta db f.meta revs recs)
unfolding load with_revisions
load-both db f revs recs loads_revisions loads_objects =
    ap (with_revisions db f) loads_revisions ∙ ap (with_objects db f revs) loads_objects

keyed-LoadsStored : (db : Bbolt) (f : File db) → IsKeyed db f → LoadsStored db f
unfolding lookup
keyed-LoadsStored db f keyed =
    let revs =
      loading_all db (db.revision_entries f.revisions) (db.revision_entries_ascend f.revisions)
        (λ k v at. keyed.revisions k v (sym (db.revision_entries_get k f.revisions) ∙ at)) in
    let objs =
      loading_objects db (db.object_entries f.objects) [] (db.object_entries_distinct f.objects)
        (λ uid v at. keyed.objects uid v (sym (db.object_entries_get uid f.objects) ∙ at)) in
    record {
      contents = with_meta db f.meta (revs.loaded, revs.counted) objs.loaded;
      loads = load-both db f (revs.loaded, revs.counted) objs.loaded revs.loads objs.loads;
      rises = revs.rises;
      finds = λ k hk.
          revs.finds k hk ∙ ap (decoded db) (db.revision_entries_get (seq_key k) f.revisions);
      beyond = revs.beyond;
      objects = λ uid.
          objs.finds uid
          ∙ layered-stored db (lookup uid (db.object_entries f.objects))
          ∙ ap (decoded_object db) (db.object_entries_get uid f.objects);
    }

find_revision-loaded :
    (db : Bbolt) (f : File db) (revs : List Revision) (hi : ℕ) (stored : LoadsStored db f)
    → Ascending 0 revs hi
    → hi < 2 ^ 64
    → ((k : ℕ) → k < 2 ^ 64 → stored_revision db k f ≡ find_revision k revs)
    → (k : ℕ) → find_revision k stored.contents.revisions ≡ find_revision k revs
find_revision-loaded db f revs hi stored up fits same k = elim (Bool-cases (ltb k (2 ^ 64))) [
  | inl low ↦ let hk : k < 2 ^ 64 = ground (arith, low) in stored.finds k hk ∙ same k hk
  | inr high ↦
      let hk : 2 ^ 64 ≤ k = ground (arith, high) in
      stored.beyond k hk ∙ sym (find-beyond 0 revs hi k up (omega arith) (omega (arith, hk, fits)))
]

-- For a new store, not primed from earlier contents, with a journal whose file was blank: however
-- the flushes fall between the calls of the persister and whichever fail, once none is running one
-- that is applied leaves a file that `Load` reads without an error or a panic, and the contents are
-- the store's retained revisions, in order, and the record of every object. Fewer than 2 ^ 64
-- revisions are appended.
pub load-Restored :
    (db : Bbolt) (calls : List Call) (limits : Limits) (log : List Mutation) (es : List (Event db))
    (f : File db)
    → appends_all calls (with_persister limits) < 2 ^ 64
    → (record_calls calls (with_persister limits)).journal ≡ some log
    → mutations db es ≡ log
    → IsBlank db f
    → FitsEvents db es
    → (handle_all db es (opened db f)).taken ≡ none
    → (c : Contents) × ((load db (flushed db (handle_all db es (opened db f))).file ≡ returned c)
        × ((c.revisions ≡ (record_calls calls (with_persister limits)).entries)
            × ((uid : String)
                → lookup uid c.objects
                  ≡ record_at uid (record_calls calls (with_persister limits)))))
unfolding IsBlank
load-Restored db calls limits log es f few journal same blank fits idle =
    let store = record_calls calls (with_persister limits) in
    let file = (flushed db (handle_all db es (opened db f))).file in
    let stored = keyed-LoadsStored db file (flushed-IsKeyed db es f fits blank) in
    let told = record_calls-IsTold calls limits few in
    let at = λ (k : ℕ) (uid : String) (hk : k < 2 ^ 64).
      flushed-Persisted db calls limits log es f k uid few journal same
        (ap (decoded db) (blank.0 (seq_key k))) (ap (decoded_object db) (blank.1 uid)) hk fits
        idle in
    (
      stored.contents,
      (
        stored.loads,
        (
          rising_unique stored.contents.revisions store.entries stored.rises
              (Ascending-IsRising 0 store.entries store.seq told.ordered.ascending)
              (find_revision-loaded db file store.entries store.seq stored told.ordered.ascending
                (omega (arith, told.ordered.room)) (λ k hk. (at k "" hk).0)),
          (λ uid. stored.objects uid ∙ (at 0 uid (omega arith)).1),
        ),
      ),
    )
