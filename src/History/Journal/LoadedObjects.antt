-- ===== src/History/Journal/LoadedObjects.antt =====
-- What `Load` gives back of the objects.
use pg_console.Prelude.{
  ◌≡◌, refl, sym, ◌∙◌, Option, none, some, List, [], ◌∷◌, String, arith, inl, inr, Bool-cases,
}
use pg_console.Prelude.Eq.{◌==◌, ==_iff, ==_refl, nat_eq, string_eq, list_eq}
use pg_console.Prelude.Dict.{Dict, lookup, insert, lookup-insert}
use pg_console.Prelude.Dict.Sums.{Distinct}
use pg_console.History.Types.{ObjectRecord}
use pg_console.History.Journal.{Bbolt}
use pg_console.History.Journal.Load.{load_objects}
use pg_console.History.Journal.Keyed.{HoldsObject}

module _ (db : Bbolt) where
  abbrev pub layered : Option db.Json → Option ObjectRecord → Option ObjectRecord
  layered none below = below
  layered (some v) below = db.object_of_json v

  abbrev ObjectEntriesHold : List (String × db.Json) → Type 0
  ObjectEntriesHold es = (uid : String) (v : db.Json) → lookup uid es ≡ some v → HoldsObject db v

  pub record LoadsObjects (es : List (String × db.Json)) (recs : Dict String ObjectRecord)
      : Type 0 where
    pub loaded : Dict String ObjectRecord
    pub loads : load_objects db es recs ≡ some loaded
    pub finds : (uid : String) → lookup uid loaded ≡ layered (lookup uid es) (lookup uid recs)

  load_objects_next :
      (uid : String) (v : db.Json) (rec : ObjectRecord) (es : List (String × db.Json))
      (recs : Dict String ObjectRecord)
      → db.object_of_json v ≡ some rec
      → load_objects db ((uid, v) ∷ es) recs ≡ load_objects db es (insert uid rec recs)
  unfolding load_objects
  load_objects_next uid v rec es recs decodes = rw (decodes, load_objects) refl

  object_here :
      (uid : String) (v : db.Json) (es : List (String × db.Json))
      → ObjectEntriesHold ((uid, v) ∷ es)
      → HoldsObject db v
  unfolding lookup
  object_here uid v es hold = hold uid v (rw (==_refl uid) refl)

  tail-ObjectEntriesHold :
      (k : String) (v : db.Json) (es : List (String × db.Json))
      → lookup k es ≡ none
      → ObjectEntriesHold ((k, v) ∷ es)
      → ObjectEntriesHold es
  unfolding lookup
  tail-ObjectEntriesHold k v es fresh hold j u at = elim (Bool-cases (k == j)) [
    | inl same ↦ absurd (ground (arith, at, (==_iff k j).0 same, fresh))
    | inr other ↦ hold j u (rw other at)
  ]

  find_object :
      (k : String) (v : db.Json) (rec : ObjectRecord) (es : List (String × db.Json))
      (recs : Dict String ObjectRecord) (uid : String)
      → lookup k es ≡ none
      → db.object_of_json v ≡ some rec
      → layered (lookup uid es) (lookup uid (insert k rec recs))
        ≡ layered (lookup uid ((k, v) ∷ es)) (lookup uid recs)
  unfolding lookup
  find_object k v rec es recs uid fresh decodes = elim (Bool-cases (k == uid)) [
    | inl same ↦
        let absent : lookup uid es ≡ none = rw (sym ((==_iff k uid).0 same)) fresh in
        let inserted : lookup uid (insert k rec recs) ≡ some rec =
          lookup-insert k uid rec recs ∙ rw same refl in
        rw (same, absent, inserted) (sym decodes)
    | inr other ↦
        let inserted : lookup uid (insert k rec recs) ≡ lookup uid recs =
          lookup-insert k uid rec recs ∙ rw other refl in
        rw (other, inserted) refl
  ]

  pub loading_objects :
      (es : List (String × db.Json)) (recs : Dict String ObjectRecord)
      → Distinct es
      → ObjectEntriesHold es
      → LoadsObjects es recs
  unfolding lookup load_objects
  loading_objects [] recs distinct hold = record {
    loaded = recs;
    loads = refl;
    finds = λ uid. refl;
  }
  loading_objects ((k, v) ∷ es) recs (fresh, distinct) hold =
      let held = object_here k v es hold in
      let more =
        loading_objects es (insert k held.rec recs) distinct
          (tail-ObjectEntriesHold k v es fresh hold) in
      record {
        loaded = more.loaded;
        loads = load_objects_next k v held.rec es recs held.decodes ∙ more.loads;
        finds = λ uid. more.finds uid ∙ find_object k v held.rec es recs uid fresh held.decodes;
      }
