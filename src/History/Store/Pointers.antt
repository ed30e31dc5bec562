-- ===== src/History/Store/Pointers.antt =====
-- The sequence numbers ascend, and every pointer to a revision is to one that is retained.
use pg_console.Prelude.{
  ℕ, suc, ◌+◌, ◌^◌, ◌<◌, ◌≡◌, refl, ◌∙◌, true, false, some, List, String, u64, arith, get_elem?,
  eqb, ap, Option-cases, Bool-cases, inl, inr,
}
use pg_console.Prelude.Eq.{◌==◌, string_eq, ==_iff}
use pg_console.Prelude.Dict.{lookup, adjust, lookup-insert, lookup-remove, lookup-adjust}
use pg_console.History.Types.{Time, Observation, Revision, Limits}
use pg_console.History.Store.Defs.{
  ObjectState, Store, new_store, remove_at, forget_revision, evict_revision, count_revision, push,
}
use pg_console.History.Store.Ops.{track, Call, record_calls, fresh_state}
use pg_console.History.Store.Commit.{find_revision, folded, rewrite, put_state, forget}
use pg_console.History.Store.Stable.{IsStable}
use pg_console.History.Store.Runs.{appends_all, record_calls-keeps}
use pg_console.History.Store.Order.{
  Ascending, Ascending-append, Ascending-remove_at, Ascending-replace, find_get, find_append,
  find_append_new, find-remove_at, find-replace, same_or, find_revision-seq,
}

-- What the object of `uid` points to is retained, and is a revision of that object.
abbrev pub IsRetained : Store → String → ℕ → Type 0
IsRetained s uid seq = (rev : Revision) × (find_revision seq s.entries ≡ some rev) × (rev.uid ≡ uid)

pub record IsOrdered (n : ℕ) (s : Store) : Type 0 where
  pub room : s.seq + n < 2 ^ 64
  pub ascending : Ascending 0 s.entries s.seq
  pub anchored :
      (uid : String) (state : ObjectState) (seq : ℕ)
      → lookup uid s.objects ≡ some state
      → state.last ≡ some seq
      → IsRetained s uid seq

entries-evict :
    (i : ℕ) (rev : Revision) (s : Store) → (evict_revision i rev s).entries ≡ remove_at i s.entries
unfolding evict_revision
entries-evict i rev s = ground arith

seq-evict : (i : ℕ) (rev : Revision) (s : Store) → (evict_revision i rev s).seq ≡ s.seq
unfolding evict_revision
seq-evict i rev s = ground arith

module _ (n i : ℕ) (rev : Revision) (s : Store) (at : get_elem? s.entries i ≡ some rev)
    (h : IsOrdered n s) where
  found : find_revision rev.seq s.entries ≡ some rev
  found = find_get 0 s.entries s.seq i rev h.ascending at

  -- A pointer that survives the eviction is to another revision.
  kept_pointer :
      (uid : String) (state : ObjectState) (seq : ℕ)
      → lookup uid (adjust rev.uid (forget_revision rev.seq) s.objects) ≡ some state
      → state.last ≡ some seq
      → IsRetained s uid seq × (eqb rev.seq seq ≡ false)
  unfolding forget_revision
  kept_pointer uid state seq e p =
      let adjusted = lookup-adjust rev.uid uid (forget_revision rev.seq) s.objects in
      elim (Option-cases (lookup uid s.objects)) [
        | inl e0 ↦ absurd (ground (arith, adjusted))
        | inr (old, q) ↦
            let last : old.last ≡ some seq = ground (arith, adjusted) in
            let kept = h.anchored uid old seq q last in
            (kept, ground (arith, adjusted, found, kept.1, kept.2, ==_iff rev.uid uid))
      ]

  evict-anchored :
      (uid : String) (state : ObjectState) (seq : ℕ)
      → lookup uid (evict_revision i rev s).objects ≡ some state
      → state.last ≡ some seq
      → IsRetained (evict_revision i rev s) uid seq
  unfolding evict_revision
  evict-anchored uid state seq e p =
      let (kept, other) = kept_pointer uid state seq e p in
      (kept.0, rw entries-evict (find-remove_at s.entries i rev seq at other ∙ kept.1), kept.2)

  evict-IsOrdered : IsOrdered n (evict_revision i rev s)
  evict-IsOrdered = record {
    room = rw seq-evict h.room;
    ascending = rw (entries-evict, seq-evict) (Ascending-remove_at 0 s.entries s.seq i h.ascending);
    anchored = evict-anchored;
  }

module _ (n : ℕ) (rev : Revision) (s : Store) (h : IsOrdered (suc n) s) where
  abbrev numbered : Revision
  numbered = record rev { seq = u64 (s.seq + 1) }

  seq-push : u64 (s.seq + 1) ≡ s.seq + 1
  seq-push = omega (arith, h.room)

  push-anchored :
      (uid : String) (state : ObjectState) (seq : ℕ)
      → lookup uid (push rev s).objects ≡ some state
      → state.last ≡ some seq
      → IsRetained (push rev s) uid seq
  unfolding push
  push-anchored uid state seq e p =
      let adjusted = lookup-adjust rev.uid uid (count_revision (u64 (s.seq + 1))) s.objects in
      elim (Option-cases (lookup uid s.objects)) [
        | inl e0 ↦ absurd (ground (arith, adjusted))
        | inr (old, q) ↦ elim (Bool-cases (rev.uid == uid)) [
          | inl mine ↦
              let last : seq ≡ u64 (s.seq + 1) = ground (arith, adjusted) in
              (
                numbered,
                rw last (
                    find_append_new 0 s.entries s.seq numbered h.ascending
                      (omega (arith, seq-push))),
                (==_iff rev.uid uid).0 mine,
              )
          | inr others ↦
              let last : old.last ≡ some seq = ground (arith, adjusted) in
              let kept = h.anchored uid old seq q last in
              (kept.0, find_append s.entries numbered seq kept.0 kept.1, kept.2)
        ]
      ]

  push-IsOrdered : IsOrdered n (push rev s)
  unfolding push
  push-IsOrdered = record {
    room = omega (arith, seq-push);
    ascending = Ascending-append 0 s.entries s.seq numbered h.ascending (omega (arith, seq-push));
    anchored = push-anchored;
  }

put-IsOrdered :
    (n : ℕ) (uid : String) (state' state : ObjectState) (s : Store)
    → lookup uid s.objects ≡ some state
    → state'.last ≡ state.last
    → IsOrdered n s
    → IsOrdered n (put_state uid state' s)
unfolding put_state
put-IsOrdered n uid state' state s e q h = record {
  room = h.room;
  ascending = h.ascending;
  anchored = λ u st seq f p.
      let inserted = lookup-insert uid u state' s.objects in
      elim (Bool-cases (uid == u)) [
        | inl mine ↦
            h.anchored u state seq (ground (arith, ==_iff uid u)) (ground (arith, inserted))
        | inr others ↦ h.anchored u st seq (ground (arith, inserted)) p
      ];
}

track-IsOrdered :
    (n : ℕ) (obs : Observation) (s : Store) → IsOrdered n s → IsOrdered n (track obs s)
unfolding track
track-IsOrdered n obs s h = record {
  room = h.room;
  ascending = h.ascending;
  anchored = λ u st seq f p.
      h.anchored u st seq (ground (arith, lookup-insert obs.uid u (fresh_state obs) s.objects)) p;
}

forget-IsOrdered : (n : ℕ) (uid : String) (s : Store) → IsOrdered n s → IsOrdered n (forget uid s)
unfolding forget
forget-IsOrdered n uid s h = record {
  room = h.room;
  ascending = h.ascending;
  anchored = λ u st seq f p. h.anchored u st seq (ground (arith, lookup-remove uid u s.objects)) p;
}

same_or-uid :
    (last rev r : Revision) (seq : ℕ)
    → rev.uid ≡ last.uid
    → (eqb rev.seq seq ≡ true → last ≡ r)
    → (t : Revision) × (same_or rev seq (some r) ≡ some t) × (t.uid ≡ r.uid)
same_or-uid last rev r seq u same = elim (Bool-cases (eqb rev.seq seq)) [
  | inl e ↦ (rev, ground arith, u ∙ ap (λ (x : Revision). x.uid) (same e))
  | inr e ↦ (r, ground arith, refl)
]

rewrite-IsOrdered :
    (n : ℕ) (obs : Observation) (now : Time) (seq : ℕ) (last : Revision) (s : Store)
    → find_revision seq s.entries ≡ some last
    → IsOrdered n s
    → IsOrdered n (rewrite last (folded obs now last) s)
unfolding rewrite folded
rewrite-IsOrdered n obs now seq last s e h = record {
  room = h.room;
  ascending = Ascending-replace 0 s.entries s.seq (folded obs now last) h.ascending;
  anchored = λ u st q f p.
      let old = h.anchored u st q f p in
      let (t, at, uid) =
        same_or-uid last (folded obs now last) old.0 q refl
          (λ same. ground (arith, old.1, find_revision-seq s.entries seq last e)) in
      (t, find-replace s.entries (folded obs now last) q ∙ rw old.1 at, uid ∙ old.2);
}

pub ordering : IsStable IsOrdered
ordering = record {
  weaken = λ n s h. record {
    room = omega (arith, h.room);
    ascending = h.ascending;
    anchored = h.anchored;
  };
  evict = evict-IsOrdered;
  push = push-IsOrdered;
  put = put-IsOrdered;
  track = track-IsOrdered;
  forget = forget-IsOrdered;
  rewrite = rewrite-IsOrdered;
  next = λ n s h. record { room = h.room; ascending = h.ascending; anchored = h.anchored };
}

new_store-IsOrdered : (limits : Limits) (n : ℕ) → n < 2 ^ 64 → IsOrdered n (new_store limits)
unfolding new_store lookup
new_store-IsOrdered limits n h = record {
  room = omega arith;
  ascending = omega arith;
  anchored = λ uid state seq e p. absurd (ground arith);
}

-- From a new store, after any calls that append fewer than 2 ^ 64 revisions, the sequence numbers
-- of the retained revisions ascend strictly, the newest is at most the counter, and each object's
-- `last` pointer is to a retained revision with the object's UID.
pub record_calls-IsOrdered :
    (calls : List Call) (limits : Limits)
    → appends_all calls (new_store limits) < 2 ^ 64
    → IsOrdered 0 (record_calls calls (new_store limits))
record_calls-IsOrdered calls limits h =
    record_calls-keeps ordering 0 calls (new_store limits)
      (new_store-IsOrdered limits _ (omega arith))
