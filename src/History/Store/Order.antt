-- ===== src/History/Store/Order.antt =====
-- The sequence numbers of the retained revisions, and the lookup by them.
use pg_console.Prelude.{
  ℕ, zero, suc, ◌≤◌, ◌<◌, ◌≡◌, refl, false, Option, none, some, List, [], ◌∷◌, ◌++◌, arith,
  get_elem?, eqb, if◌then◌else◌,
}
use pg_console.Prelude.Eq.{string_eq}
use pg_console.History.Types.{Revision}
use pg_console.History.Store.Defs.{remove_at}
use pg_console.History.Store.Commit.{find_revision, replace_revision}

-- Above `lo`, strictly ascending, and at most `hi`.
abbrev pub Ascending : ℕ → List Revision → ℕ → Type 0
Ascending lo [] hi = lo ≤ hi
Ascending lo (rev ∷ revs) hi = (lo < rev.seq) × Ascending rev.seq revs hi

pub Ascending-lower :
    (k lo : ℕ) (revs : List Revision) (hi : ℕ) → k ≤ lo → Ascending lo revs hi → Ascending k revs hi
Ascending-lower k lo [] hi h a = omega arith
Ascending-lower k lo (rev ∷ revs) hi h a = (omega arith, a.1)

pub Ascending-le : (lo : ℕ) (revs : List Revision) (hi : ℕ) → Ascending lo revs hi → lo ≤ hi
Ascending-le lo [] hi a = a
Ascending-le lo (rev ∷ revs) hi a = omega (arith, Ascending-le rev.seq revs hi a.1)

pub Ascending-append :
    (lo : ℕ) (revs : List Revision) (hi : ℕ) (rev : Revision)
    → Ascending lo revs hi
    → hi < rev.seq
    → Ascending lo (revs ++ rev ∷ []) rev.seq
Ascending-append lo [] hi rev a h = (omega arith, omega arith)
Ascending-append lo (r ∷ revs) hi rev a h = (a.0, Ascending-append r.seq revs hi rev a.1 h)

pub Ascending-remove_at :
    (lo : ℕ) (revs : List Revision) (hi i : ℕ)
    → Ascending lo revs hi
    → Ascending lo (remove_at i revs) hi
unfolding remove_at
Ascending-remove_at lo [] hi i a = a
Ascending-remove_at lo (r ∷ revs) hi zero a = Ascending-lower lo r.seq revs hi (omega arith) a.1
Ascending-remove_at lo (r ∷ revs) hi (suc i) a = (a.0, Ascending-remove_at r.seq revs hi i a.1)

pub Ascending-replace :
    (lo : ℕ) (revs : List Revision) (hi : ℕ) (rev : Revision)
    → Ascending lo revs hi
    → Ascending lo (replace_revision rev revs) hi
unfolding replace_revision
Ascending-replace lo [] hi rev a = a
Ascending-replace lo (r ∷ revs) hi rev a = ground (arith, Ascending-replace r.seq revs hi rev)

pub find-above :
    (lo : ℕ) (revs : List Revision) (hi seq : ℕ) (rev : Revision)
    → Ascending lo revs hi
    → find_revision seq revs ≡ some rev
    → lo < seq
unfolding find_revision
find-above lo [] hi seq rev a e = absurd (ground arith)
find-above lo (r ∷ revs) hi seq rev a e = ground (arith, find-above r.seq revs hi seq rev)

pub find_get :
    (lo : ℕ) (revs : List Revision) (hi i : ℕ) (rev : Revision)
    → Ascending lo revs hi
    → get_elem? revs i ≡ some rev
    → find_revision rev.seq revs ≡ some rev
unfolding find_revision
find_get lo [] hi i rev a e = absurd (ground arith)
find_get lo (r ∷ revs) hi zero rev a e = ground arith
find_get lo (r ∷ revs) hi (suc i) rev a e =
    let ih = find_get r.seq revs hi i rev a.1 e in
    ground (arith, ih, find-above r.seq revs hi rev.seq rev a.1 ih)

pub find_append :
    (revs : List Revision) (rev : Revision) (seq : ℕ) (r : Revision)
    → find_revision seq revs ≡ some r
    → find_revision seq (revs ++ rev ∷ []) ≡ some r
unfolding find_revision
find_append [] rev seq r e = absurd (ground arith)
find_append (x ∷ revs) rev seq r e = ground (arith, find_append revs rev seq r)

pub find_append_new :
    (lo : ℕ) (revs : List Revision) (hi : ℕ) (rev : Revision)
    → Ascending lo revs hi
    → hi < rev.seq
    → find_revision rev.seq (revs ++ rev ∷ []) ≡ some rev
unfolding find_revision
find_append_new lo [] hi rev a h = ground arith
find_append_new lo (x ∷ revs) hi rev a h =
    ground (arith, find_append_new x.seq revs hi rev a.1, Ascending-le x.seq revs hi a.1)

pub find-remove_at :
    (revs : List Revision) (i : ℕ) (rev : Revision) (seq : ℕ)
    → get_elem? revs i ≡ some rev
    → eqb rev.seq seq ≡ false
    → find_revision seq (remove_at i revs) ≡ find_revision seq revs
unfolding find_revision remove_at
find-remove_at [] i rev seq e q = refl
find-remove_at (x ∷ revs) zero rev seq e q = ground arith
find-remove_at (x ∷ revs) (suc i) rev seq e q = ground (arith, find-remove_at revs i rev seq e q)

abbrev pub same_or : Revision → ℕ → Option Revision → Option Revision
same_or rev seq none = none
same_or rev seq (some r) = if eqb rev.seq seq then some rev else some r

pub find-replace :
    (revs : List Revision) (rev : Revision) (seq : ℕ)
    → find_revision seq (replace_revision rev revs) ≡ same_or rev seq (find_revision seq revs)
unfolding find_revision replace_revision
find-replace [] rev seq = refl
find-replace (x ∷ revs) rev seq = ground (arith, find-replace revs rev seq)

pub find_revision-seq :
    (revs : List Revision) (seq : ℕ) (last : Revision)
    → find_revision seq revs ≡ some last
    → last.seq ≡ seq
unfolding find_revision
find_revision-seq [] seq last e = absurd (ground arith)
find_revision-seq (r ∷ revs) seq last e = ground (arith, find_revision-seq revs seq last)

pub find-below :
    (lo : ℕ) (revs : List Revision) (hi seq : ℕ)
    → Ascending lo revs hi
    → seq ≤ lo
    → find_revision seq revs ≡ none
unfolding find_revision
find-below lo [] hi seq up low = refl
find-below lo (rev ∷ revs) hi seq up low = ground (arith, find-below rev.seq revs hi seq)

pub find-beyond :
    (lo : ℕ) (revs : List Revision) (hi seq : ℕ)
    → Ascending lo revs hi
    → lo ≤ seq
    → hi < seq
    → find_revision seq revs ≡ none
unfolding find_revision
find-beyond lo [] hi seq up low high = refl
find-beyond lo (rev ∷ revs) hi seq up low high =
    ground (arith, find-beyond rev.seq revs hi seq, Ascending-le rev.seq revs hi up.1)
