-- ===== src/History/Journal/LoadErrors.antt =====
-- How `Load` ends.
use pg_console.Prelude.{
  ℕ, ◌≡◌, ◌⊎◌, ◌↔◌, refl, sym, ap, ◌∙◌, Bool, true, false, not, ◌&&◌, Option, none, some, List, [],
  ◌∷◌, ◌++◌, String, arith, inl, inr, Bool-cases, Option-cases,
}
use pg_console.Prelude.Eq.{string_eq}
use pg_console.Prelude.Dict.{Dict, insert}
use pg_console.History.Types.{Bytes, Revision, ObjectRecord}
use pg_console.History.Journal.{uint64_of, Bbolt, File, is_absent}
use pg_console.History.Journal.Load.{
  Outcome, returned, failed, panicked, has_seq, later, load_revisions, load_objects, with_objects,
  with_revisions, load,
}

abbrev pub is_returned : {A : Type 0} → Outcome A → Bool
is_returned (returned a) = true
is_returned failed = false
is_returned panicked = false

abbrev pub is_panicked : {A : Type 0} → Outcome A → Bool
is_panicked (returned a) = false
is_panicked failed = false
is_panicked panicked = true

module _ (db : Bbolt) where
  -- Every value is a revision and every key has the eight bytes of a number.
  unfoldable pub all_sound : List (Bytes × db.Json) → Bool
  all_sound [] = true
  all_sound ((key, v) ∷ es) = not (is_absent (db.revision_of_json v)) && has_seq key && all_sound es

  unfoldable pub objects_decode : List (String × db.Json) → Bool
  objects_decode [] = true
  objects_decode ((uid, v) ∷ es) = not (is_absent (db.object_of_json v)) && objects_decode es

  -- Some key has fewer than eight bytes, and its value and those of all entries before it decode.
  unfoldable pub MeetsShort : List (Bytes × db.Json) → Type 0
  MeetsShort [] = ⊥
  MeetsShort ((key, v) ∷ es) =
      (is_absent (db.revision_of_json v) ≡ false) × ((has_seq key ≡ false) ⊎ MeetsShort es)

  -- How the loop over the revisions ends.
  abbrev Ends : {A : Type 0} → List (Bytes × db.Json) → Outcome A → Type 0
  Ends es read = (is_returned read ≡ all_sound es) × ((is_panicked read ≡ true) ↔ MeetsShort es)

  load_revisions-Ends :
      (es : List (Bytes × db.Json)) (revs : List Revision) (counted : ℕ)
      → Ends es (load_revisions db es revs counted)
  unfolding load_revisions all_sound MeetsShort
  load_revisions-Ends [] revs counted =
      (refl, ((λ none_such. absurd (ground (arith, none_such))), (λ none_such. absurd none_such)))
  load_revisions-Ends ((key, v) ∷ es) revs counted = elim (Option-cases (db.revision_of_json v)) [
    | inl undecoded ↦
        rw (load_revisions, undecoded)
          (
            refl,
            (
              (λ none_such. absurd (ground (arith, none_such))),
              (λ (decodes, rest). absurd (ground (arith, decodes))),
            ),
          )
    | inr (rev, decodes) ↦ (elim (Bool-cases (has_seq key)) [
      | inl long ↦
          let (sound, meets) =
            load_revisions-Ends es (revs ++ rev ∷ []) (later (uint64_of key) counted) in
          rw (load_revisions, decodes, long)
            (
              sound,
              (
                (λ ends. (refl, inr (meets.0 ends))),
                (λ (decoded, rest). elim rest [
                  | inl short ↦ absurd (ground (arith, short))
                  | inr more ↦ meets.1 more
                ]),
              ),
            )
      | inr short ↦
          rw (load_revisions, decodes, short) (refl, ((λ ends. (refl, inl refl)), (λ rest. refl)))
    ])
  ]

  load_objects-is_absent :
      (es : List (String × db.Json)) (recs : Dict String ObjectRecord)
      → is_absent (load_objects db es recs) ≡ not (objects_decode es)
  unfolding load_objects objects_decode
  load_objects-is_absent [] recs = refl
  load_objects-is_absent ((uid, v) ∷ es) recs = elim (Option-cases (db.object_of_json v)) [
    | inl undecoded ↦ rw (load_objects, undecoded) refl
    | inr (rec, decodes) ↦
        rw (load_objects, decodes) (load_objects-is_absent es (insert uid rec recs))
  ]

  with_objects-returned :
      (f : File db) (revs : List Revision × ℕ) (recs : Option (Dict String ObjectRecord))
      → is_returned (with_objects db f revs recs) ≡ not (is_absent recs)
  with_objects-returned f revs none = refl
  with_objects-returned f revs (some recs) = refl

  with_objects-panicked :
      (f : File db) (revs : List Revision × ℕ) (recs : Option (Dict String ObjectRecord))
      → is_panicked (with_objects db f revs recs) ≡ false
  with_objects-panicked f revs none = refl
  with_objects-panicked f revs (some recs) = refl

  with_revisions-ends :
      (f : File db) (read : Outcome (List Revision × ℕ))
      → (is_returned (with_revisions db f read)
          ≡ (is_returned read && objects_decode (db.object_entries f.objects)))
        × (is_panicked (with_revisions db f read) ≡ is_panicked read)
  unfolding with_revisions
  with_revisions-ends f failed = (refl, refl)
  with_revisions-ends f panicked = (refl, refl)
  with_revisions-ends f (returned revs) =
      let recs = load_objects db (db.object_entries f.objects) [] in
      (
        with_objects-returned f revs recs
            ∙ ap not (load_objects-is_absent (db.object_entries f.objects) [])
            ∙ ground arith,
        with_objects-panicked f revs recs,
      )

  -- `Load` returns contents exactly if every value of the revisions and of the objects decodes and
  -- every key of a revision has eight bytes or more. It panics exactly if it meets a shorter key, with
  -- its value and those of all revisions before it decoded. Else it returns the error; it never returns
  -- what decodes without the rest.
  pub load-ends :
      (f : File db)
      → (is_returned (load db f) ≡ (
          all_sound (db.revision_entries f.revisions)
          && objects_decode (db.object_entries f.objects)))
        × ((is_panicked (load db f) ≡ true) ↔ MeetsShort (db.revision_entries f.revisions))
  unfolding load
  load-ends f =
      let read = load_revisions db (db.revision_entries f.revisions) [] 0 in
      let (sound, meets) = load_revisions-Ends (db.revision_entries f.revisions) [] 0 in
      let (whole, ends) = with_revisions-ends f read in
      (
        whole ∙ ap (λ b. b && objects_decode (db.object_entries f.objects)) sound,
        ((λ panics. meets.0 (sym ends ∙ panics)), (λ short. ends ∙ meets.1 short)),
      )
