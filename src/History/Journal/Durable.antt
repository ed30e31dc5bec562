-- ===== src/History/Journal/Durable.antt =====
-- The journal over any mutations and flushes.
use pg_console.Prelude.{
  ℕ, ◌^◌, ◌<◌, ◌≡◌, refl, sym, ap, ◌∙◌, true, Option, none, some, List, [], ◌∷◌, String, arith,
}
use pg_console.Prelude.Eq.{nat_eq, string_eq}
use pg_console.Prelude.Dict.{lookup}
use pg_console.History.Types.{Revision, ObjectRecord, Mutation}
use pg_console.History.Journal.{
  Bbolt, Pending, File, Journal, write, Event, mutated, flush_begins, flush_ends, begin, finish,
  handle, handle_all, opened,
}
use pg_console.History.Replay.{revision_after, object_after, replay}
use pg_console.History.Journal.Written.{
  over, stored_revision, stored_object, written_revisions, written_objects,
}
use pg_console.History.Journal.Steps.{
  FitsEvents, known_revision, known_object, pending_revision, pending_object, IsFit, handle-IsFit,
  event_revision, event_object, handle-revision, handle-object,
}

module _ (db : Bbolt) where
  -- The mutations among the events.
  abbrev pub mutations : List (Event db) → List Mutation
  mutations [] = []
  mutations (mutated m ∷ es) = m ∷ mutations es
  mutations (_ ∷ es) = mutations es

  replay-event_revision :
      (k : ℕ) (e : Event db) (es : List (Event db)) (old : Option Revision)
      → replay (revision_after k) (mutations es) (event_revision db k e old)
        ≡ replay (revision_after k) (mutations (e ∷ es)) old
  replay-event_revision k (mutated m) es old = refl
  replay-event_revision k flush_begins es old = refl
  replay-event_revision k (flush_ends applied) es old = refl

  replay-event_object :
      (k : String) (e : Event db) (es : List (Event db)) (old : Option ObjectRecord)
      → replay (object_after k) (mutations es) (event_object db k e old)
        ≡ replay (object_after k) (mutations (e ∷ es)) old
  replay-event_object k (mutated m) es old = refl
  replay-event_object k flush_begins es old = refl
  replay-event_object k (flush_ends applied) es old = refl

  handle_all-revision :
      (k : ℕ) (es : List (Event db)) (j : Journal db)
      → k < 2 ^ 64
      → FitsEvents db es
      → IsFit db j
      → known_revision db k (handle_all db es j)
        ≡ replay (revision_after k) (mutations es) (known_revision db k j)
  unfolding handle_all
  handle_all-revision k [] j hk f h = refl
  handle_all-revision k (e ∷ es) j hk f h =
      handle_all-revision k es (handle db e j) hk f.1 (handle-IsFit db e j f.0 h)
      ∙ ap (replay (revision_after k) (mutations es)) (handle-revision db k e j hk h)
      ∙ replay-event_revision k e es (known_revision db k j)

  handle_all-object :
      (k : String) (es : List (Event db)) (j : Journal db)
      → known_object db k (handle_all db es j)
        ≡ replay (object_after k) (mutations es) (known_object db k j)
  unfolding handle_all
  handle_all-object k [] j = refl
  handle_all-object k (e ∷ es) j =
      handle_all-object k es (handle db e j)
      ∙ ap (replay (object_after k) (mutations es)) (handle-object db k e j)
      ∙ replay-event_object k e es (known_object db k j)

  -- Whatever is enqueued, and whichever flushes fail, what the journal knows of a revision and of an
  -- object is what the mutations make of what the file held when it was opened.
  pub handle_all-Refines :
      (k : ℕ) (uid : String) (es : List (Event db)) (f : File db)
      → k < 2 ^ 64
      → FitsEvents db es
      → (known_revision db k (handle_all db es (opened db f))
          ≡ replay (revision_after k) (mutations es) (stored_revision db k f))
        × (known_object db uid (handle_all db es (opened db f))
            ≡ replay (object_after uid) (mutations es) (stored_object db uid f))
  unfolding opened lookup
  handle_all-Refines k uid es f hk fits = (
    handle_all-revision k es (opened db f) hk fits (record { pending = tt; taken = tt }),
    handle_all-object uid es (opened db f),
  )

  -- A flush that is applied, with nothing enqueued in between.
  abbrev pub flushed : Journal db → Journal db
  flushed j = handle db (flush_ends true) (handle db flush_begins j)

  flushed-revision :
      (k : ℕ) (t : Option Pending) (j : Journal db)
      → k < 2 ^ 64
      → IsFit db j
      → t ≡ none
      → j.taken ≡ t
      → stored_revision db k (handle db (flush_ends true) (begin db t j)).file
        ≡ known_revision db k j
  unfolding handle begin finish write
  flushed-revision k (some p) j hk h n e = absurd (ground (arith, n))
  flushed-revision k none j hk h n e =
      written_revisions db k j.pending.revisions j.file.revisions hk h.pending
      ∙ ap
          (λ t.
            over (lookup k j.pending.revisions)
              (over (pending_revision db k t) (stored_revision db k j.file)))
          (sym e)

  flushed-object :
      (k : String) (t : Option Pending) (j : Journal db)
      → t ≡ none
      → j.taken ≡ t
      → stored_object db k (handle db (flush_ends true) (begin db t j)).file ≡ known_object db k j
  unfolding handle begin finish write
  flushed-object k (some p) j n e = absurd (ground (arith, n))
  flushed-object k none j n e =
      written_objects db k j.pending.objects j.file.objects
      ∙ ap
          (λ t.
            over (lookup k j.pending.objects)
              (over (pending_object db k t) (stored_object db k j.file)))
          (sym e)

  pub handle_all-IsFit :
      (es : List (Event db)) (j : Journal db)
      → FitsEvents db es
      → IsFit db j
      → IsFit db (handle_all db es j)
  unfolding handle_all
  handle_all-IsFit [] j f h = h
  handle_all-IsFit (e ∷ es) j f h =
      handle_all-IsFit es (handle db e j) f.1 (handle-IsFit db e j f.0 h)

  -- Once no flush is running, one that is applied leaves in the file exactly what the mutations make
  -- of what it held when it was opened, whichever flushes failed before.
  pub flushed-Durable :
      (k : ℕ) (uid : String) (es : List (Event db)) (f : File db)
      → k < 2 ^ 64
      → FitsEvents db es
      → (handle_all db es (opened db f)).taken ≡ none
      → (stored_revision db k (flushed (handle_all db es (opened db f))).file
          ≡ replay (revision_after k) (mutations es) (stored_revision db k f))
        × (stored_object db uid (flushed (handle_all db es (opened db f))).file
            ≡ replay (object_after uid) (mutations es) (stored_object db uid f))
  unfolding opened handle
  flushed-Durable k uid es f hk fits idle =
      let j = handle_all db es (opened db f) in
      let fit = handle_all-IsFit es (opened db f) fits (record { pending = tt; taken = tt }) in
      let known = handle_all-Refines k uid es f hk fits in
      (
        flushed-revision k j.taken j hk fit idle refl ∙ known.0,
        flushed-object uid j.taken j idle refl ∙ known.1,
      )
