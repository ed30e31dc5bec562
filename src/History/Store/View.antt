-- ===== src/History/Store/View.antt =====
-- What an append leaves alone: a view of the store that neither the new revision nor an eviction
-- changes is as it was, however many revisions are evicted.
use pg_console.Prelude.{
  ℕ, zero, suc, ◌≡◌, refl, ◌∙◌, String, get_elem?, length, inl, inr, Bool-cases, Option-cases,
}
use pg_console.Prelude.Eq.{string_eq}
use pg_console.Prelude.Dict.{lookup}
use pg_console.History.Types.{Revision}
use pg_console.History.Store.Defs.{
  Store, evict_revision, evict_at, is_over, enforce_loop, enforce_bounds, evict_first, index_of,
  exceeds, enforce_per_object, push, append_revision,
}

module _ {ℓ} {Y : Type ℓ} (view : Store → Y)
    (evicted : (i : ℕ) (rev : Revision) (s : Store) → view (evict_revision i rev s) ≡ view s) where
  view-evict_at : (i : ℕ) (s : Store) → view (evict_at i s) ≡ view s
  unfolding evict_at
  view-evict_at i s = elim (Option-cases (get_elem? s.entries i)) [
    | inl e ↦ rw (e, evict_at) refl
    | inr (rev, e) ↦ rw (e, evict_at) (evicted i rev s)
  ]

  view-enforce_loop : (fuel : ℕ) (s : Store) → view (enforce_loop fuel s) ≡ view s
  unfolding enforce_loop
  view-enforce_loop zero s = refl
  view-enforce_loop (suc fuel) s = elim (Bool-cases (is_over s)) [
    | inl over ↦ rw over (view-enforce_loop fuel (evict_at 0 s) ∙ view-evict_at 0 s)
    | inr within ↦ rw within refl
  ]

  pub view-enforce_bounds : (s : Store) → view (enforce_bounds s) ≡ view s
  unfolding enforce_bounds
  view-enforce_bounds s = view-enforce_loop (length s.entries) s

  view-evict_first : (uid : String) (s : Store) → view (evict_first uid s) ≡ view s
  unfolding evict_first
  view-evict_first uid s = elim (Option-cases (index_of uid s.entries)) [
    | inl e ↦ rw (e, evict_first) refl
    | inr (i, e) ↦ rw (e, evict_first) (view-evict_at i s)
  ]

  view-enforce_per_object : (uid : String) (s : Store) → view (enforce_per_object uid s) ≡ view s
  unfolding enforce_per_object
  view-enforce_per_object uid s = elim (Option-cases (lookup uid s.objects)) [
    | inl e ↦ rw (e, enforce_per_object) refl
    | inr (o, e) ↦ elim (Bool-cases (exceeds s.limits.per_object o)) [
      | inl over ↦ rw (e, over, enforce_per_object) (view-evict_first uid s)
      | inr within ↦ rw (e, within, enforce_per_object) refl
    ]
  ]

  pub view-append_revision :
      (rev : Revision) (s : Store)
      → view (push rev s) ≡ view s
      → view (append_revision rev s) ≡ view s
  unfolding append_revision
  view-append_revision rev s pushed =
      view-enforce_bounds (enforce_per_object rev.uid (push rev s))
      ∙ view-enforce_per_object rev.uid (push rev s)
      ∙ pushed
