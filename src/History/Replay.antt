-- ===== src/History/Replay.antt =====
-- What the calls of the persister amount to, one key at a time.
use pg_console.Prelude.{
  ℕ, ◌≡◌, refl, Bool, true, Option, none, some, List, [], ◌∷◌, ◌++◌, String, ltb, eqb,
  if◌then◌else◌,
}
use pg_console.Prelude.Eq.{◌==◌, string_eq}
use pg_console.History.Types.{
  Revision, ObjectRecord, Mutation, append, update, evict, put_object, delete_object, mark_evicted,
}

-- What a mutation makes of the revision with a sequence number, of the record of an object, and of
-- the mark that history was dropped.
abbrev pub revision_after : ℕ → Mutation → Option Revision → Option Revision
revision_after seq (append rev) old = if eqb rev.seq seq then some rev else old
revision_after seq (update rev) old = if eqb rev.seq seq then some rev else old
revision_after seq (evict gone) old = if eqb gone seq then none else old
revision_after seq (put_object uid rec) old = old
revision_after seq (delete_object uid) old = old
revision_after seq mark_evicted old = old

abbrev pub object_after : String → Mutation → Option ObjectRecord → Option ObjectRecord
object_after uid (append rev) old = old
object_after uid (update rev) old = old
object_after uid (evict gone) old = old
object_after uid (put_object k rec) old = if k == uid then some rec else old
object_after uid (delete_object k) old = if k == uid then none else old
object_after uid mark_evicted old = old

abbrev pub seq_after : Mutation → ℕ → ℕ
seq_after (append rev) old = if ltb old rev.seq then rev.seq else old
seq_after (update rev) old = old
seq_after (evict gone) old = old
seq_after (put_object uid rec) old = old
seq_after (delete_object uid) old = old
seq_after mark_evicted old = old

abbrev pub mark_after : Mutation → Bool → Bool
mark_after (append rev) old = old
mark_after (update rev) old = old
mark_after (evict gone) old = old
mark_after (put_object uid rec) old = old
mark_after (delete_object uid) old = old
mark_after mark_evicted old = true

-- The calls in their order.
abbrev pub replay {ℓ} : {A : Type ℓ} → (Mutation → A → A) → List Mutation → A → A
replay step [] old = old
replay step (m ∷ ms) old = replay step ms (step m old)

pub replay-append {ℓ} :
    {A : Type ℓ} (step : Mutation → A → A) (ms : List Mutation) (m : Mutation) (old : A)
    → replay step (ms ++ m ∷ []) old ≡ step m (replay step ms old)
replay-append step [] m old = refl
replay-append step (n ∷ ms) m old = replay-append step ms m (step n old)
