-- ===== src/History/Journal/Steps.antt =====
-- One step of the journal, and what it makes of what the journal knows.
use pg_console.Prelude.{
  ℕ, ◌^◌, ◌<◌, ◌≡◌, refl, sym, ap, ◌∙◌, Bool, true, false, Option, none, some, List, [], ◌∷◌,
  String, arith,
}
use pg_console.Prelude.Eq.{nat_eq, string_eq}
use pg_console.Prelude.Dict.{lookup, lookup-insert}
use pg_console.History.Types.{
  Revision, ObjectRecord, Mutation, append, update, evict, put_object, delete_object, mark_evicted,
}
use pg_console.History.Journal.{
  Bbolt, Pending, enqueue, merge_back, Journal, write, Event, mutated, flush_begins, flush_ends,
  begin, finish, handle,
}
use pg_console.History.Replay.{revision_after, object_after}
use pg_console.History.Journal.Written.{
  over, over-absent, lookup-merge_revisions, lookup-merge_objects, FitsAll, FitsAll-insert,
  FitsAll-merge_revisions, stored_revision, stored_object, written_revisions, written_objects,
}

abbrev pub Fits : Mutation → Type 0
Fits (append rev) = rev.seq < 2 ^ 64
Fits (update rev) = rev.seq < 2 ^ 64
Fits (evict seq) = seq < 2 ^ 64
Fits _ = Unit

module _ (db : Bbolt) where
  abbrev pub pending_revision : ℕ → Option Pending → Option (Option Revision)
  pending_revision seq none = none
  pending_revision seq (some p) = lookup seq p.revisions

  abbrev pub pending_object : String → Option Pending → Option (Option ObjectRecord)
  pending_object uid none = none
  pending_object uid (some p) = lookup uid p.objects

  -- What the journal knows.
  abbrev pub known_revision : ℕ → Journal db → Option Revision
  known_revision seq j =
      over (lookup seq j.pending.revisions)
        (over (pending_revision seq j.taken) (stored_revision db seq j.file))

  abbrev pub known_object : String → Journal db → Option ObjectRecord
  known_object uid j =
      over (lookup uid j.pending.objects)
        (over (pending_object uid j.taken) (stored_object db uid j.file))

  abbrev pub FitsTaken : Option Pending → Type 0
  FitsTaken none = Unit
  FitsTaken (some p) = FitsAll p.revisions

  pub record IsFit (j : Journal db) : Type 0 where
    pub pending : FitsAll j.pending.revisions
    pub taken : FitsTaken j.taken

  abbrev pub FitsEvent : Event db → Type 0
  FitsEvent (mutated m) = Fits m
  FitsEvent _ = Unit

  abbrev pub FitsEvents : List (Event db) → Type 0
  FitsEvents [] = Unit
  FitsEvents (e ∷ es) = FitsEvent e × FitsEvents es

  enqueue-FitsAll :
      (m : Mutation) (p : Pending) → Fits m → FitsAll p.revisions → FitsAll (enqueue m p).revisions
  unfolding enqueue
  enqueue-FitsAll (append rev) p h f = FitsAll-insert rev.seq (some rev) p.revisions (h, refl) f
  enqueue-FitsAll (update rev) p h f = FitsAll-insert rev.seq (some rev) p.revisions (h, refl) f
  enqueue-FitsAll (evict seq) p h f = FitsAll-insert seq none p.revisions (h, tt) f
  enqueue-FitsAll (put_object uid rec) p h f = f
  enqueue-FitsAll (delete_object uid) p h f = f
  enqueue-FitsAll mark_evicted p h f = f

  finish-IsFit :
      (applied : Bool) (t : Option Pending) (j : Journal db)
      → FitsTaken t
      → IsFit j
      → IsFit (finish db applied t j)
  unfolding finish merge_back
  finish-IsFit applied none j f h = h
  finish-IsFit true (some p) j f h = record { pending = h.pending; taken = tt }
  finish-IsFit false (some p) j f h = record {
    pending = FitsAll-merge_revisions p.revisions j.pending.revisions f h.pending;
    taken = tt;
  }

  begin-IsFit : (t : Option Pending) (j : Journal db) → IsFit j → IsFit (begin db t j)
  unfolding begin
  begin-IsFit none j h = record { pending = tt; taken = h.pending }
  begin-IsFit (some p) j h = h

  pub handle-IsFit : (e : Event db) (j : Journal db) → FitsEvent e → IsFit j → IsFit (handle db e j)
  unfolding handle
  handle-IsFit (mutated m) j f h = record {
    pending = enqueue-FitsAll m j.pending f h.pending;
    taken = h.taken;
  }
  handle-IsFit flush_begins j f h = begin-IsFit j.taken j h
  handle-IsFit (flush_ends applied) j f h = finish-IsFit applied j.taken j h.taken h

  enqueue-revision :
      (k : ℕ) (m : Mutation) (p : Pending) (below : Option Revision)
      → over (lookup k (enqueue m p).revisions) below
        ≡ revision_after k m (over (lookup k p.revisions) below)
  unfolding enqueue
  enqueue-revision k (append rev) p below =
      ground (arith, lookup-insert rev.seq k (some rev) p.revisions)
  enqueue-revision k (update rev) p below =
      ground (arith, lookup-insert rev.seq k (some rev) p.revisions)
  enqueue-revision k (evict seq) p below = ground (arith, lookup-insert seq k none p.revisions)
  enqueue-revision k (put_object uid rec) p below = refl
  enqueue-revision k (delete_object uid) p below = refl
  enqueue-revision k mark_evicted p below = refl

  enqueue-object :
      (k : String) (m : Mutation) (p : Pending) (below : Option ObjectRecord)
      → over (lookup k (enqueue m p).objects) below
        ≡ object_after k m (over (lookup k p.objects) below)
  unfolding enqueue
  enqueue-object k (append rev) p below = refl
  enqueue-object k (update rev) p below = refl
  enqueue-object k (evict seq) p below = refl
  enqueue-object k (put_object uid rec) p below =
      ground (arith, lookup-insert uid k (some rec) p.objects)
  enqueue-object k (delete_object uid) p below = ground (arith, lookup-insert uid k none p.objects)
  enqueue-object k mark_evicted p below = refl

  -- The end of a flush changes nothing that the journal knows, whether the write was applied or not.
  finish-revision :
      (k : ℕ) (applied : Bool) (t : Option Pending) (j : Journal db)
      → k < 2 ^ 64
      → FitsTaken t
      → j.taken ≡ t
      → known_revision k (finish db applied t j) ≡ known_revision k j
  unfolding finish write merge_back
  finish-revision k applied none j hk f e = refl
  finish-revision k true (some p) j hk f e =
      ap (over (lookup k j.pending.revisions))
        (written_revisions db k p.revisions j.file.revisions hk f)
      ∙ ap
          (λ t.
            over (lookup k j.pending.revisions)
              (over (pending_revision k t) (stored_revision db k j.file)))
          (sym e)
  finish-revision k false (some p) j hk f e =
      ap (λ entry. over entry (stored_revision db k j.file))
        (lookup-merge_revisions k p.revisions j.pending.revisions)
      ∙ over-absent (lookup k p.revisions) (lookup k j.pending.revisions)
          (stored_revision db k j.file)
      ∙ ap
          (λ t.
            over (lookup k j.pending.revisions)
              (over (pending_revision k t) (stored_revision db k j.file)))
          (sym e)

  finish-object :
      (k : String) (applied : Bool) (t : Option Pending) (j : Journal db)
      → j.taken ≡ t
      → known_object k (finish db applied t j) ≡ known_object k j
  unfolding finish write merge_back
  finish-object k applied none j e = refl
  finish-object k true (some p) j e =
      ap (over (lookup k j.pending.objects)) (written_objects db k p.objects j.file.objects)
      ∙ ap
          (λ t.
            over (lookup k j.pending.objects)
              (over (pending_object k t) (stored_object db k j.file)))
          (sym e)
  finish-object k false (some p) j e =
      ap (λ entry. over entry (stored_object db k j.file))
        (lookup-merge_objects k p.objects j.pending.objects)
      ∙ over-absent (lookup k p.objects) (lookup k j.pending.objects) (stored_object db k j.file)
      ∙ ap
          (λ t.
            over (lookup k j.pending.objects)
              (over (pending_object k t) (stored_object db k j.file)))
          (sym e)

  begin-revision :
      (k : ℕ) (t : Option Pending) (j : Journal db)
      → j.taken ≡ t
      → known_revision k (begin db t j) ≡ known_revision k j
  unfolding begin lookup
  begin-revision k none j e =
      ap
        (λ t.
          over (lookup k j.pending.revisions)
            (over (pending_revision k t) (stored_revision db k j.file)))
        (sym e)
  begin-revision k (some p) j e = refl

  begin-object :
      (k : String) (t : Option Pending) (j : Journal db)
      → j.taken ≡ t
      → known_object k (begin db t j) ≡ known_object k j
  unfolding begin lookup
  begin-object k none j e =
      ap
        (λ t.
          over (lookup k j.pending.objects) (over (pending_object k t) (stored_object db k j.file)))
        (sym e)
  begin-object k (some p) j e = refl

  abbrev pub event_revision : ℕ → Event db → Option Revision → Option Revision
  event_revision k (mutated m) old = revision_after k m old
  event_revision k _ old = old

  abbrev pub event_object : String → Event db → Option ObjectRecord → Option ObjectRecord
  event_object k (mutated m) old = object_after k m old
  event_object k _ old = old

  pub handle-revision :
      (k : ℕ) (e : Event db) (j : Journal db)
      → k < 2 ^ 64
      → IsFit j
      → known_revision k (handle db e j) ≡ event_revision k e (known_revision k j)
  unfolding handle lookup
  handle-revision k (mutated m) j hk h =
      enqueue-revision k m j.pending
        (over (pending_revision k j.taken) (stored_revision db k j.file))
  handle-revision k flush_begins j hk h = begin-revision k j.taken j refl
  handle-revision k (flush_ends applied) j hk h =
      finish-revision k applied j.taken j hk h.taken refl

  pub handle-object :
      (k : String) (e : Event db) (j : Journal db)
      → known_object k (handle db e j) ≡ event_object k e (known_object k j)
  unfolding handle lookup
  handle-object k (mutated m) j =
      enqueue-object k m j.pending (over (pending_object k j.taken) (stored_object db k j.file))
  handle-object k flush_begins j = begin-object k j.taken j refl
  handle-object k (flush_ends applied) j = finish-object k applied j.taken j refl
