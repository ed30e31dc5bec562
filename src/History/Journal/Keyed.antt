-- ===== src/History/Journal/Keyed.antt =====
-- What a journal's file holds decodes, and a revision stands under its own key.
use pg_console.Prelude.{
  ℕ, ◌^◌, ◌<◌, ◌≡◌, sym, ap, ◌∙◌, Bool, true, false, Option, none, some, List, [], ◌∷◌, String,
  arith, inl, inr, Bool-cases,
}
use pg_console.Prelude.Eq.{◌==◌, ==_iff, nat_eq, string_eq, list_eq}
use pg_console.Prelude.Dict.{Dict}
use pg_console.History.Types.{Bytes, Revision, ObjectRecord}
use pg_console.History.Journal.{
  seq_key, Bbolt, File, Journal, Pending, write, write_revision, write_revisions, write_object,
  write_objects, Event, mutated, flush_begins, flush_ends, begin, finish, handle, handle_all,
}
use pg_console.History.Journal.Written.{decoded, decoded_object, FitsAll, IsOwn}
use pg_console.History.Journal.Steps.{FitsTaken, FitsEvents, IsFit, handle-IsFit}

module _ (db : Bbolt) where
  pub record HoldsRevision (k : Bytes) (v : db.Json) : Type 0 where
    pub rev : Revision
    pub decodes : db.revision_of_json v ≡ some rev
    pub own_key : k ≡ seq_key rev.seq
    pub fits : rev.seq < 2 ^ 64

  pub record HoldsObject (v : db.Json) : Type 0 where
    pub rec : ObjectRecord
    pub decodes : db.object_of_json v ≡ some rec

  abbrev pub RevisionsHold : db.revision_table.Bucket → Type 0
  RevisionsHold b =
      (k : Bytes) (v : db.Json) → db.revision_table.get k b ≡ some v → HoldsRevision k v

  abbrev pub ObjectsHold : db.object_table.Bucket → Type 0
  ObjectsHold b = (k : String) (v : db.Json) → db.object_table.get k b ≡ some v → HoldsObject v

  pub record IsKeyed (f : File db) : Type 0 where
    pub revisions : RevisionsHold f.revisions
    pub objects : ObjectsHold f.objects

  write_revision-RevisionsHold :
      (seq : ℕ) (rev : Option Revision) (b : db.revision_table.Bucket)
      → (seq < 2 ^ 64) × IsOwn seq rev
      → RevisionsHold b
      → RevisionsHold (write_revision db seq rev b)
  unfolding write_revision
  write_revision-RevisionsHold seq none b (fits, own) holds k v at =
      elim (Bool-cases (k == seq_key seq)) [
        | inl same ↦ absurd (
            ground (
              arith,
              at,
              (==_iff k (seq_key seq)).0 same,
              db.revision_table.get_delete_same (seq_key seq) b,
            ))
        | inr other ↦ holds k v (
            sym (
              db.revision_table.get_delete_other k (seq_key seq) b
                (λ e. ground (arith, other, (==_iff k (seq_key seq)).1 e)))
            ∙ at)
      ]
  write_revision-RevisionsHold seq (some rev) b (fits, own) holds k v at =
      elim (Bool-cases (k == seq_key seq)) [
        | inl same ↦
            let here = (==_iff k (seq_key seq)).0 same in
            record {
              rev = rev;
              decodes =
                  ap (decoded db) (
                    sym at
                    ∙ ap
                        (λ j.
                          db.revision_table.get j
                            (db.revision_table.put (seq_key seq) (db.revision_json rev) b))
                        here
                    ∙ db.revision_table.get_put_same (seq_key seq) (db.revision_json rev) b)
                  ∙ db.revision_back rev;
              own_key = here ∙ ap seq_key (sym own);
              fits = rw own fits;
            }
        | inr other ↦ holds k v (
            sym (
              db.revision_table.get_put_other k (seq_key seq) (db.revision_json rev) b
                (λ e. ground (arith, other, (==_iff k (seq_key seq)).1 e)))
            ∙ at)
      ]

  write_revisions-RevisionsHold :
      (revs : Dict ℕ (Option Revision)) (b : db.revision_table.Bucket)
      → FitsAll revs
      → RevisionsHold b
      → RevisionsHold (write_revisions db revs b)
  unfolding write_revisions
  write_revisions-RevisionsHold [] b fit holds = holds
  write_revisions-RevisionsHold ((seq, rev) ∷ revs) b (here, fit) holds =
      write_revision-RevisionsHold seq rev (write_revisions db revs b) here
        (write_revisions-RevisionsHold revs b fit holds)

  write_object-ObjectsHold :
      (uid : String) (rec : Option ObjectRecord) (b : db.object_table.Bucket)
      → ObjectsHold b
      → ObjectsHold (write_object db uid rec b)
  unfolding write_object
  write_object-ObjectsHold uid none b holds k v at = elim (Bool-cases (k == uid)) [
    | inl same ↦
        absurd (ground (arith, at, (==_iff k uid).0 same, db.object_table.get_delete_same uid b))
    | inr other ↦ holds k v (
        sym (
          db.object_table.get_delete_other k uid b (λ e. ground (arith, other, (==_iff k uid).1 e)))
        ∙ at)
  ]
  write_object-ObjectsHold uid (some rec) b holds k v at = elim (Bool-cases (k == uid)) [
    | inl same ↦
        let here = (==_iff k uid).0 same in
        record {
          rec = rec;
          decodes =
              ap (decoded_object db) (
                sym at
                ∙ ap (λ j. db.object_table.get j (db.object_table.put uid (db.object_json rec) b))
                    here
                ∙ db.object_table.get_put_same uid (db.object_json rec) b)
              ∙ db.object_back rec;
        }
    | inr other ↦ holds k v (
        sym (
          db.object_table.get_put_other k uid (db.object_json rec) b
            (λ e. ground (arith, other, (==_iff k uid).1 e)))
        ∙ at)
  ]

  write_objects-ObjectsHold :
      (recs : Dict String (Option ObjectRecord)) (b : db.object_table.Bucket)
      → ObjectsHold b
      → ObjectsHold (write_objects db recs b)
  unfolding write_objects
  write_objects-ObjectsHold [] b holds = holds
  write_objects-ObjectsHold ((uid, rec) ∷ recs) b holds =
      write_object-ObjectsHold uid rec (write_objects db recs b)
        (write_objects-ObjectsHold recs b holds)

  finish-IsKeyed :
      (applied : Bool) (t : Option Pending) (j : Journal db)
      → FitsTaken db t
      → IsKeyed j.file
      → IsKeyed (finish db applied t j).file
  unfolding finish write
  finish-IsKeyed applied none j fit keyed = keyed
  finish-IsKeyed true (some p) j fit keyed = record {
    revisions = write_revisions-RevisionsHold p.revisions j.file.revisions fit keyed.revisions;
    objects = write_objects-ObjectsHold p.objects j.file.objects keyed.objects;
  }
  finish-IsKeyed false (some p) j fit keyed = keyed

  begin-IsKeyed :
      (t : Option Pending) (j : Journal db) → IsKeyed j.file → IsKeyed (begin db t j).file
  unfolding begin
  begin-IsKeyed none j keyed = keyed
  begin-IsKeyed (some p) j keyed = keyed

  handle-IsKeyed :
      (e : Event db) (j : Journal db) → IsFit db j → IsKeyed j.file → IsKeyed (handle db e j).file
  unfolding handle
  handle-IsKeyed (mutated m) j fit keyed = keyed
  handle-IsKeyed flush_begins j fit keyed = begin-IsKeyed j.taken j keyed
  handle-IsKeyed (flush_ends applied) j fit keyed = finish-IsKeyed applied j.taken j fit.taken keyed

  pub handle_all-IsKeyed :
      (es : List (Event db)) (j : Journal db)
      → FitsEvents db es
      → IsFit db j
      → IsKeyed j.file
      → IsKeyed (handle_all db es j).file
  unfolding handle_all
  handle_all-IsKeyed [] j fits fit keyed = keyed
  handle_all-IsKeyed (e ∷ es) j fits fit keyed =
      handle_all-IsKeyed es (handle db e j) fits.1 (handle-IsFit db e j fits.0 fit)
        (handle-IsKeyed e j fit keyed)
