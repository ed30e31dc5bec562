-- ===== src/History/Journal/Written.antt =====
-- What the file holds once pending entries are written.
use pg_console.Prelude.{
  ℕ, ◌^◌, ◌<◌, ◌≡◌, refl, ap, ◌∙◌, Option, none, some, [], ◌∷◌, String, arith, eqb, eqb_iff,
  if◌then◌else◌, inl, inr, Bool-cases,
}
use pg_console.Prelude.Eq.{◌==◌, ==_iff, nat_eq, string_eq}
use pg_console.Prelude.Dict.{Dict, lookup, insert, lookup-insert}
use pg_console.History.Types.{Revision, ObjectRecord}
use pg_console.History.Journal.{
  seq_key, Bbolt, is_absent, merge_revisions, merge_objects, File, write_revision, write_revisions,
  write_object, write_objects,
}
use pg_console.History.Journal.Keys.{seq_key_injective}

-- A pending entry over what lies below it.
abbrev pub over {ℓ} : {A : Type ℓ} → Option (Option A) → Option A → Option A
over none below = below
over (some entry) below = entry

pub over-absent {ℓ} :
    {A : Type ℓ} (entry later : Option (Option A)) (below : Option A)
    → over (if is_absent later then entry else later) below ≡ over later (over entry below)
over-absent entry none below = refl
over-absent entry (some x) below = refl

pub lookup-merge_revisions :
    (seq : ℕ) (failed pending : Dict ℕ (Option Revision))
    → lookup seq (merge_revisions failed pending)
      ≡ (if is_absent (lookup seq pending) then lookup seq failed else lookup seq pending)
unfolding merge_revisions lookup
lookup-merge_revisions seq [] pending = ground arith
lookup-merge_revisions seq ((s, rev) ∷ failed) pending = ground (
  arith,
  lookup-merge_revisions seq failed
      (if is_absent (lookup s pending) then insert s rev pending else pending),
  lookup-insert s seq rev pending,
  eqb_iff s seq,
)

pub lookup-merge_objects :
    (uid : String) (failed pending : Dict String (Option ObjectRecord))
    → lookup uid (merge_objects failed pending)
      ≡ (if is_absent (lookup uid pending) then lookup uid failed else lookup uid pending)
unfolding merge_objects lookup
lookup-merge_objects uid [] pending = ground arith
lookup-merge_objects uid ((k, rec) ∷ failed) pending = ground (
  arith,
  lookup-merge_objects uid failed
      (if is_absent (lookup k pending) then insert k rec pending else pending),
  lookup-insert k uid rec pending,
  ==_iff k uid,
)

abbrev pub IsOwn : ℕ → Option Revision → Type 0
IsOwn seq none = Unit
IsOwn seq (some rev) = rev.seq ≡ seq

-- Sequence numbers are 64 bits, and a revision is pending under its own.
abbrev pub FitsAll : Dict ℕ (Option Revision) → Type 0
FitsAll [] = Unit
FitsAll ((seq, rev) ∷ revs) = ((seq < 2 ^ 64) × IsOwn seq rev) × FitsAll revs

pub FitsAll-insert :
    (seq : ℕ) (rev : Option Revision) (revs : Dict ℕ (Option Revision))
    → (seq < 2 ^ 64) × IsOwn seq rev
    → FitsAll revs
    → FitsAll (insert seq rev revs)
unfolding insert
FitsAll-insert seq rev [] h f = (h, tt)
FitsAll-insert seq rev ((s, r) ∷ revs) h f = elim (Bool-cases (eqb s seq)) [
  | inl e ↦ rw e (h, f.1)
  | inr e ↦ rw e (f.0, FitsAll-insert seq rev revs h f.1)
]

pub FitsAll-merge_revisions :
    (failed pending : Dict ℕ (Option Revision))
    → FitsAll failed
    → FitsAll pending
    → FitsAll (merge_revisions failed pending)
unfolding merge_revisions
FitsAll-merge_revisions [] pending f g = g
FitsAll-merge_revisions ((s, rev) ∷ failed) pending f g =
    elim (Bool-cases (is_absent (lookup s pending))) [
      | inl e ↦ rw e (
          FitsAll-merge_revisions failed (insert s rev pending) f.1
            (FitsAll-insert s rev pending f.0 g))
      | inr e ↦ rw e (FitsAll-merge_revisions failed pending f.1 g)
    ]

module _ (db : Bbolt) where
  abbrev pub decoded : Option db.Json → Option Revision
  decoded none = none
  decoded (some bytes) = db.revision_of_json bytes

  abbrev pub decoded_object : Option db.Json → Option ObjectRecord
  decoded_object none = none
  decoded_object (some bytes) = db.object_of_json bytes

  -- What the file holds.
  abbrev pub stored_revision : ℕ → File db → Option Revision
  stored_revision seq f = decoded (db.revision_table.get (seq_key seq) f.revisions)

  abbrev pub stored_object : String → File db → Option ObjectRecord
  stored_object uid f = decoded_object (db.object_table.get uid f.objects)

  written_revision :
      (k seq : ℕ) (rev : Option Revision) (b : db.revision_table.Bucket)
      → k < 2 ^ 64
      → seq < 2 ^ 64
      → decoded (db.revision_table.get (seq_key k) (write_revision db seq rev b))
        ≡ (if eqb seq k then rev else decoded (db.revision_table.get (seq_key k) b))
  unfolding write_revision
  written_revision k seq none b hk hs = elim (Bool-cases (eqb seq k)) [
    | inl e ↦
        rw (e, (eqb_iff seq k).0 e) (ap decoded (db.revision_table.get_delete_same (seq_key k) b))
    | inr e ↦ rw e (
        ap decoded (
          db.revision_table.get_delete_other (seq_key k) (seq_key seq) b
            (λ same. ground (arith, seq_key_injective k seq hk hs same))))
  ]
  written_revision k seq (some rev) b hk hs = elim (Bool-cases (eqb seq k)) [
    | inl e ↦
        rw (e, (eqb_iff seq k).0 e)
          (ap decoded (db.revision_table.get_put_same (seq_key k) (db.revision_json rev) b)
            ∙ db.revision_back rev)
    | inr e ↦ rw e (
        ap decoded (
          db.revision_table.get_put_other (seq_key k) (seq_key seq) (db.revision_json rev) b
            (λ same. ground (arith, seq_key_injective k seq hk hs same))))
  ]

  pub written_revisions :
      (k : ℕ) (revs : Dict ℕ (Option Revision)) (b : db.revision_table.Bucket)
      → k < 2 ^ 64
      → FitsAll revs
      → decoded (db.revision_table.get (seq_key k) (write_revisions db revs b))
        ≡ over (lookup k revs) (decoded (db.revision_table.get (seq_key k) b))
  unfolding write_revisions lookup
  written_revisions k [] b hk f = refl
  written_revisions k ((seq, rev) ∷ revs) b hk f = ground (
    arith,
    written_revision k seq rev (write_revisions db revs b) hk f.0.0,
    written_revisions k revs b hk f.1,
  )

  written_object :
      (k uid : String) (rec : Option ObjectRecord) (b : db.object_table.Bucket)
      → decoded_object (db.object_table.get k (write_object db uid rec b))
        ≡ (if uid == k then rec else decoded_object (db.object_table.get k b))
  unfolding write_object
  written_object k uid none b = elim (Bool-cases (uid == k)) [
    | inl e ↦ rw (e, (==_iff uid k).0 e) (ap decoded_object (db.object_table.get_delete_same k b))
    | inr e ↦ rw e (
        ap decoded_object
          (db.object_table.get_delete_other k uid b (λ same. ground (arith, ==_iff uid k))))
  ]
  written_object k uid (some rec) b = elim (Bool-cases (uid == k)) [
    | inl e ↦
        rw (e, (==_iff uid k).0 e)
          (ap decoded_object (db.object_table.get_put_same k (db.object_json rec) b)
            ∙ db.object_back rec)
    | inr e ↦ rw e (
        ap decoded_object (
          db.object_table.get_put_other k uid (db.object_json rec) b
            (λ same. ground (arith, ==_iff uid k))))
  ]

  pub written_objects :
      (k : String) (recs : Dict String (Option ObjectRecord)) (b : db.object_table.Bucket)
      → decoded_object (db.object_table.get k (write_objects db recs b))
        ≡ over (lookup k recs) (decoded_object (db.object_table.get k b))
  unfolding write_objects lookup
  written_objects k [] b = refl
  written_objects k ((uid, rec) ∷ recs) b =
      ground (arith, written_object k uid rec (write_objects db recs b), written_objects k recs b)
