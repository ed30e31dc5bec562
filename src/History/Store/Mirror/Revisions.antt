-- ===== src/History/Store/Mirror/Revisions.antt =====
-- The calls of the persister against the retained revisions, the counter and the mark.
use pg_console.Prelude.{
  ℕ, zero, suc, ◌+◌, ◌^◌, ◌≤◌, ◌<◌, ◌≡◌, refl, sym, ◌∙◌, ap, Bool, true, false, Option, none, some,
  List, [], ◌∷◌, ◌++◌, arith, eqb, eqb_iff, u64, get_elem?, if◌then◌else◌, inl, inr, Bool-cases,
  Option-cases,
}
use pg_console.Prelude.Dict.{map_some, lookup}
use pg_console.History.Types.{
  Time, Observation, Revision, Mutation, Limits, append, update, evict, put_object, delete_object,
  mark_evicted,
}
use pg_console.History.Replay.{revision_after, seq_after, mark_after}
use pg_console.History.Store.Defs.{
  to_record, Store, new_store, evict_revision, push, remove_at, mirror,
}
use pg_console.History.Store.Ops.{track, Call, record_calls}
use pg_console.History.Store.Commit.{find_revision, put_state, forget, rewrite, folded}
use pg_console.History.Store.Stable.{IsStable}
use pg_console.History.Store.Runs.{appends_all, record_calls-keeps}
use pg_console.History.Store.Order.{
  Ascending, Ascending-le, find-remove_at, find-replace, same_or, find_revision-seq,
}
use pg_console.History.Store.Pointers.{IsOrdered, ordering}
use pg_console.History.Store.Mirror.{told, is_wired, told-mirror, is_wired-mirror}

find-below :
    (lo : ℕ) (revs : List Revision) (hi k : ℕ)
    → Ascending lo revs hi
    → k ≤ lo
    → find_revision k revs ≡ none
unfolding find_revision
find-below lo [] hi k a h = refl
find-below lo (r ∷ revs) hi k a h = ground (arith, find-below r.seq revs hi k a.1)

find-removed :
    (lo : ℕ) (revs : List Revision) (hi i : ℕ) (rev : Revision)
    → Ascending lo revs hi
    → get_elem? revs i ≡ some rev
    → find_revision rev.seq (remove_at i revs) ≡ none
unfolding find_revision remove_at
find-removed lo [] hi i rev a e = refl
find-removed lo (r ∷ revs) hi zero rev a e =
    let same : r.seq ≡ rev.seq = ground (arith, e) in
    find-below r.seq revs hi rev.seq a.1 (omega (arith, same))
find-removed lo (r ∷ revs) hi (suc i) rev a e =
    ground (arith, find-removed r.seq revs hi i rev a.1 e, get-above r.seq revs hi i rev a.1 e)
  where
    get-above :
        (lo : ℕ) (revs : List Revision) (hi i : ℕ) (rev : Revision)
        → Ascending lo revs hi
        → get_elem? revs i ≡ some rev
        → lo < rev.seq
    get-above lo [] hi i rev a e = absurd (ground arith)
    get-above lo (r ∷ revs) hi zero rev a e = ground (arith, a.0)
    get-above lo (r ∷ revs) hi (suc i) rev a e =
        ground (arith, get-above r.seq revs hi i rev a.1 e, a.0)

find-remove :
    (revs : List Revision) (hi i k : ℕ) (rev : Revision)
    → Ascending 0 revs hi
    → get_elem? revs i ≡ some rev
    → find_revision k (remove_at i revs) ≡ (if eqb rev.seq k then none else find_revision k revs)
find-remove revs hi i k rev a e = elim (Bool-cases (eqb rev.seq k)) [
  | inl same ↦ rw (same, sym ((eqb_iff rev.seq k).0 same)) (find-removed 0 revs hi i rev a e)
  | inr other ↦ rw other (find-remove_at revs i rev k e other)
]

find-append :
    (lo : ℕ) (revs : List Revision) (hi k : ℕ) (rev : Revision)
    → Ascending lo revs hi
    → hi < rev.seq
    → find_revision k (revs ++ rev ∷ [])
      ≡ (if eqb rev.seq k then some rev else find_revision k revs)
unfolding find_revision
find-append lo [] hi k rev a h = ground arith
find-append lo (r ∷ revs) hi k rev a h =
    ground (arith, find-append r.seq revs hi k rev a.1 h, Ascending-le r.seq revs hi a.1)

-- A persister is there, and was told of the revisions, the counter and the mark what the store has.
pub record IsTold (n : ℕ) (s : Store) : Type 0 where
  pub ordered : IsOrdered n s
  pub wired : is_wired s.journal ≡ true
  pub revisions : (k : ℕ) → find_revision k s.entries ≡ told (revision_after k) none s.journal
  pub counted : s.seq ≡ told seq_after 0 s.journal
  pub marked : s.evicted ≡ told mark_after false s.journal

module _ (n i : ℕ) (rev : Revision) (s : Store) (at : get_elem? s.entries i ≡ some rev)
    (h : IsTold n s) where
  abbrev evict_log : Option (List Mutation)
  evict_log = map_some (λ log. log ++ evict rev.seq ∷ []) s.journal

  evict_log-wired : is_wired evict_log ≡ true
  evict_log-wired = is_wired-mirror (evict rev.seq) s.journal ∙ h.wired

  evict-revisions :
      (k : ℕ)
      → find_revision k (evict_revision i rev s).entries
        ≡ told (revision_after k) none (evict_revision i rev s).journal
  unfolding evict_revision mirror
  evict-revisions k = ground (
    arith,
    find-remove s.entries s.seq i k rev h.ordered.ascending at,
    h.revisions k,
    told-mirror (revision_after k) none (evict rev.seq) s.journal h.wired,
    told-mirror (revision_after k) none mark_evicted evict_log evict_log-wired,
  )

  evict-IsTold : IsTold n (evict_revision i rev s)
  unfolding evict_revision mirror
  evict-IsTold = record {
    ordered = ordering.evict n i rev s at h.ordered;
    wired = ground (arith, evict_log-wired, is_wired-mirror mark_evicted evict_log);
    revisions = evict-revisions;
    counted = ground (
      arith,
      h.counted,
      told-mirror seq_after 0 (evict rev.seq) s.journal h.wired,
      told-mirror seq_after 0 mark_evicted evict_log evict_log-wired,
    );
    marked = ground (
      arith,
      h.marked,
      told-mirror mark_after false (evict rev.seq) s.journal h.wired,
      told-mirror mark_after false mark_evicted evict_log evict_log-wired,
    );
  }

module _ (n : ℕ) (rev : Revision) (s : Store) (h : IsTold (suc n) s) where
  abbrev numbered : Revision
  numbered = record rev { seq = u64 (s.seq + 1) }

  push-IsTold : IsTold n (push rev s)
  unfolding push mirror
  push-IsTold =
      let next : u64 (s.seq + 1) ≡ s.seq + 1 = omega (arith, h.ordered.room) in
      record {
        ordered = ordering.push n rev s h.ordered;
        wired = is_wired-mirror (append numbered) s.journal ∙ h.wired;
        revisions = λ k.
            find-append 0 s.entries s.seq k numbered h.ordered.ascending (omega (arith, next))
            ∙ ap (λ old. if eqb (u64 (s.seq + 1)) k then some numbered else old) (h.revisions k)
            ∙ sym (told-mirror (revision_after k) none (append numbered) s.journal h.wired);
        counted =
            ground
              (arith, next, h.counted, told-mirror seq_after 0 (append numbered) s.journal h.wired);
        marked = h.marked ∙ sym (told-mirror mark_after false (append numbered) s.journal h.wired);
      }

-- A call that is about none of them.
other-IsTold :
    (n : ℕ) (m : Mutation) (s t : Store)
    → ((k : ℕ) (old : Option Revision) → revision_after k m old ≡ old)
    → ((old : ℕ) → seq_after m old ≡ old)
    → ((old : Bool) → mark_after m old ≡ old)
    → t.entries ≡ s.entries
    → t.seq ≡ s.seq
    → t.evicted ≡ s.evicted
    → t.journal ≡ map_some (λ log. log ++ m ∷ []) s.journal
    → IsOrdered n t
    → IsTold n s
    → IsTold n t
other-IsTold n m s t r q b entries seq mark journal o h = record {
  ordered = o;
  wired = ap is_wired journal ∙ is_wired-mirror m s.journal ∙ h.wired;
  revisions = λ k.
      ap (find_revision k) entries
      ∙ h.revisions k
      ∙ sym (r k (told (revision_after k) none s.journal))
      ∙ sym (told-mirror (revision_after k) none m s.journal h.wired)
      ∙ ap (told (revision_after k) none) (sym journal);
  counted =
      seq
      ∙ h.counted
      ∙ sym (q (told seq_after 0 s.journal))
      ∙ sym (told-mirror seq_after 0 m s.journal h.wired)
      ∙ ap (told seq_after 0) (sym journal);
  marked =
      mark
      ∙ h.marked
      ∙ sym (b (told mark_after false s.journal))
      ∙ sym (told-mirror mark_after false m s.journal h.wired)
      ∙ ap (told mark_after false) (sym journal);
}

rewrite-IsTold :
    (n : ℕ) (obs : Observation) (now : Time) (seq : ℕ) (last : Revision) (s : Store)
    → find_revision seq s.entries ≡ some last
    → IsTold n s
    → IsTold n (rewrite last (folded obs now last) s)
unfolding rewrite folded mirror
rewrite-IsTold n obs now seq last s e h =
    let rev = folded obs now last in
    record {
      ordered = ordering.rewrite n obs now seq last s e h.ordered;
      wired = is_wired-mirror (update rev) s.journal ∙ h.wired;
      revisions = λ k.
          find-replace s.entries rev k
          ∙ same_or-found k
          ∙ ap (λ old. if eqb last.seq k then some rev else old) (h.revisions k)
          ∙ sym (told-mirror (revision_after k) none (update rev) s.journal h.wired);
      counted = h.counted ∙ sym (told-mirror seq_after 0 (update rev) s.journal h.wired);
      marked = h.marked ∙ sym (told-mirror mark_after false (update rev) s.journal h.wired);
    }
  where
    same_or-found :
        (k : ℕ)
        → same_or (folded obs now last) k (find_revision k s.entries)
          ≡ (if eqb last.seq k then some (folded obs now last) else find_revision k s.entries)
    same_or-found k = ground (
      arith,
      e,
      find_revision-seq s.entries seq last e,
      eqb_iff last.seq k,
      Option-cases (find_revision k s.entries),
    )

telling : IsStable IsTold
unfolding put_state track forget mirror
telling = record {
  weaken = λ n s h. record {
    ordered = ordering.weaken n s h.ordered;
    wired = h.wired;
    revisions = h.revisions;
    counted = h.counted;
    marked = h.marked;
  };
  evict = evict-IsTold;
  push = push-IsTold;
  put = λ n uid state' state s e q h.
      other-IsTold n (put_object uid (to_record state')) s _ (λ k old. refl) (λ old. refl)
        (λ old. refl) refl refl refl refl (ordering.put n uid state' state s e q h.ordered) h;
  track = λ n obs s h. record {
    ordered = ordering.track n obs s h.ordered;
    wired = h.wired;
    revisions = h.revisions;
    counted = h.counted;
    marked = h.marked;
  };
  forget = λ n uid s h.
      other-IsTold n (delete_object uid) s _ (λ k old. refl) (λ old. refl) (λ old. refl) refl refl
        refl refl (ordering.forget n uid s h.ordered) h;
  rewrite = rewrite-IsTold;
  next = λ n s h. record {
    ordered = ordering.next n s h.ordered;
    wired = h.wired;
    revisions = h.revisions;
    counted = h.counted;
    marked = h.marked;
  };
}

-- A new store with a persister, whose file was empty.
abbrev pub with_persister : Limits → Store
with_persister limits = record (new_store limits) { journal = some [] }

pub record_calls-IsTold :
    (calls : List Call) (limits : Limits)
    → appends_all calls (with_persister limits) < 2 ^ 64
    → IsTold 0 (record_calls calls (with_persister limits))
unfolding new_store
record_calls-IsTold calls limits h =
    record_calls-keeps telling 0 calls (with_persister limits) (record {
      ordered = record {
        room = omega arith;
        ascending = omega arith;
        anchored = λ uid state seq e p. absurd (unfold lookup in ground arith);
      };
      wired = refl;
      revisions = λ k. unfold find_revision in refl;
      counted = refl;
      marked = refl;
    })
