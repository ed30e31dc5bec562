-- ===== src/History/Store/Lookup.antt =====
-- `Revision`'s binary search against the plain search through the timeline.
use pg_console.Prelude.{
  ℕ, zero, suc, ◌≤◌, ◌<◌, ◌≡◌, ◌≢◌, refl, true, none, some, List, [], ◌∷◌, arith, eqb, length,
  get_elem?, inl, inr, Bool-cases, Option-cases, ltb, ltb→lt, not_ltb, eqb_iff, subst, ◌^◌,
}
use pg_console.Prelude.Search.{IsLeast, Monotone, sort_search-IsLeast}
use pg_console.Prelude.Dict.{map_some}
use pg_console.History.Types.{Revision, Limits}
use pg_console.History.Store.Defs.{Store, new_store}
use pg_console.History.Store.Ops.{Call, record_calls}
use pg_console.History.Store.Commit.{find_revision}
use pg_console.History.Store.Reads.{at_least, search_index, copied, revision}
use pg_console.History.Store.Order.{Ascending, find_get}
use pg_console.History.Store.Pointers.{record_calls-IsOrdered}
use pg_console.History.Store.Runs.{appends_all}

get-some :
    (revs : List Revision) (i : ℕ)
    → i < length revs
    → (rev : Revision) × (get_elem? revs i ≡ some rev)
get-some [] i h = absurd (omega arith)
get-some (r ∷ revs) zero h = (r, refl)
get-some (r ∷ revs) (suc i) h = get-some revs i (omega arith)

get-lt-length :
    (revs : List Revision) (i : ℕ) (rev : Revision) → get_elem? revs i ≡ some rev → i < length revs
get-lt-length [] i rev e = absurd (ground arith)
get-lt-length (r ∷ revs) zero rev e = omega arith
get-lt-length (r ∷ revs) (suc i) rev e = omega (arith, get-lt-length revs i rev e)

get-above :
    (lo : ℕ) (revs : List Revision) (hi i : ℕ) (rev : Revision)
    → Ascending lo revs hi
    → get_elem? revs i ≡ some rev
    → lo < rev.seq
get-above lo [] hi i rev a e = absurd (ground arith)
get-above lo (r ∷ revs) hi zero rev a e = ground arith
get-above lo (r ∷ revs) hi (suc i) rev a e = omega (arith, a.0, get-above r.seq revs hi i rev a.1 e)

get_mono :
    (lo : ℕ) (revs : List Revision) (hi i j : ℕ) (a b : Revision)
    → Ascending lo revs hi
    → i ≤ j
    → get_elem? revs i ≡ some a
    → get_elem? revs j ≡ some b
    → a.seq ≤ b.seq
get_mono lo [] hi i j a b o l p q = absurd (ground arith)
get_mono lo (r ∷ revs) hi zero zero a b o l p q = ground arith
get_mono lo (r ∷ revs) hi zero (suc j) a b o l p q =
    ground (arith, get-above r.seq revs hi j b o.1 q)
get_mono lo (r ∷ revs) hi (suc i) zero a b o l p q = absurd (omega arith)
get_mono lo (r ∷ revs) hi (suc i) (suc j) a b o l p q =
    get_mono r.seq revs hi i j a b o.1 (omega arith) p q

find-none :
    (revs : List Revision) (seq : ℕ)
    → ((i : ℕ) (rev : Revision) → get_elem? revs i ≡ some rev → rev.seq ≢ seq)
    → find_revision seq revs ≡ none
unfolding find_revision
find-none [] seq h = refl
find-none (r ∷ revs) seq h =
    let head = h 0 r refl in ground (arith, find-none revs seq (λ i rev e. h (suc i) rev e))

module _ (revs : List Revision) (hi seq : ℕ) (o : Ascending 0 revs hi) where
  at_least-Monotone : Monotone (length revs) (at_least seq revs)
  unfolding at_least
  at_least-Monotone i j l m t =
      let (a, p) = get-some revs i (omega arith) in
      let (b, q) = get-some revs j m in ground (arith, get_mono 0 revs hi i j a b o l p q)

  least : IsLeast (length revs) (at_least seq revs) (search_index seq revs)
  unfolding search_index
  least = sort_search-IsLeast (length revs) (at_least seq revs) at_least-Monotone

  -- A revision at another index has another sequence number, where the one found does.
  others :
      (found : (rev : Revision) → get_elem? revs (search_index seq revs) ≡ some rev → seq < rev.seq)
      (i : ℕ) (rev : Revision)
      → get_elem? revs i ≡ some rev
      → rev.seq ≢ seq
  unfolding at_least
  others found i rev e same = elim (Bool-cases (ltb i (search_index seq revs))) [
    | inl low ↦ absurd (ground (arith, least.below i (ltb→lt i (search_index seq revs) low)))
    | inr high ↦
        let (x, p) =
          get-some revs (search_index seq revs)
            (omega (arith, get-lt-length revs i rev e, not_ltb i (search_index seq revs) high)) in
        absurd (
          omega (
            arith,
            found x p,
            get_mono 0 revs hi (search_index seq revs) i x rev o
                (not_ltb i (search_index seq revs) high) p e,
          ))
  ]

  at_index : (x : Revision) → get_elem? revs (search_index seq revs) ≡ some x → seq ≤ x.seq
  unfolding at_least
  at_index x e =
      let t =
        least.above (search_index seq revs) (omega arith)
          (get-lt-length revs (search_index seq revs) x e) in
      ground arith

  not_found :
      ((rev : Revision) → get_elem? revs (search_index seq revs) ≡ some rev → seq < rev.seq)
      → find_revision seq revs ≡ none
  not_found found = find-none revs seq (others found)

  found_at :
      (x : Revision)
      → get_elem? revs (search_index seq revs) ≡ some x
      → eqb x.seq seq ≡ true
      → find_revision seq revs ≡ some x
  found_at x e hit =
      subst (λ q. find_revision q revs ≡ some x) ((eqb_iff x.seq seq).0 hit)
        (find_get 0 revs hi (search_index seq revs) x o e)

search-eq-find :
    (s : Store) (seq : ℕ)
    → Ascending 0 s.entries s.seq
    → revision seq s ≡ map_some copied (find_revision seq s.entries)
unfolding revision
search-eq-find s seq o =
    let revs = s.entries in
    elim (Option-cases (get_elem? revs (search_index seq revs))) [
      | inl e ↦ ground (arith, not_found revs s.seq seq o (λ rev p. absurd (ground arith)))
      | inr (x, e) ↦
          let reached = at_index revs s.seq seq o x e in
          elim (Bool-cases (eqb x.seq seq)) [
            | inl hit ↦ ground (arith, found_at revs s.seq seq o x e hit)
            | inr miss ↦ ground (arith, not_found revs s.seq seq o (λ rev p. ground arith))
          ]
    ]

-- After any calls that append fewer than 2 ^ 64 revisions, `Revision` finds by binary search a copy of
-- exactly the retained revision with the sequence number, and nothing where none has it. The copy is
-- the revision, but that an empty manifest becomes an absent one.
pub revision-eq-find :
    (calls : List Call) (limits : Limits) (seq : ℕ)
    → appends_all calls (new_store limits) < 2 ^ 64
    → revision seq (record_calls calls (new_store limits))
      ≡ map_some copied (find_revision seq (record_calls calls (new_store limits)).entries)
revision-eq-find calls limits seq h =
    let s = record_calls calls (new_store limits) in
    search-eq-find s seq (record_calls-IsOrdered calls limits h).ascending
