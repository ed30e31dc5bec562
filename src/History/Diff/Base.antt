-- ===== src/History/Diff/Base.antt =====
-- The definition that a revision is compared with.
use pg_console.Prelude.{
  ℕ, zero, suc, ◌≤◌, ◌<◌, ◌≡◌, sym, ap, ◌∙◌, eqb, eqb_iff, arith, Bool, true, false, ◌&&◌, Option,
  none, some, List, [], ◌∷◌, String, get_elem?, length, inl, inr, Bool-cases, Option-cases,
}
use mathlib.Core.Option.{some-injective}
use pg_console.Prelude.Eq.{◌==◌, string_eq}
use pg_console.History.Types.{Revision}
use pg_console.History.Diff.{base_below}
use pg_console.History.Store.Reads.{is_some}

-- A definition of the object.
abbrev pub defines : String → Revision → Bool
defines uid rev = rev.uid == uid && is_some rev.manifest

-- Nothing from index `k` to below `i` defines the object.
abbrev pub NoneDefines : String → List Revision → ℕ → ℕ → Type 0
NoneDefines uid revs k i =
    (j : ℕ) (rev : Revision) → k ≤ j → j < i → get_elem? revs j ≡ some rev → defines uid rev ≡ false

-- What the search below an index is to give: the last definition, or nothing where there is none.
unfoldable pub IsBase : String → List Revision → ℕ → Option Revision → Type 0
IsBase uid revs i none = NoneDefines uid revs 0 i
IsBase uid revs i (some base) =
    (k : ℕ) × (k < i)
    × (get_elem? revs k ≡ some base)
    × (defines uid base ≡ true)
    × NoneDefines uid revs (suc k) i

in_range : (revs : List Revision) (i : ℕ) → i < length revs → ¬ (get_elem? revs i ≡ none)
in_range [] i fits absent = omega arith
in_range (r ∷ revs) zero fits absent = ground (arith, absent)
in_range (r ∷ revs) (suc i) fits absent = in_range revs i (omega arith) absent

NoneDefines-suc :
    (k i : ℕ) (uid : String) (revs : List Revision) (rev : Revision)
    → get_elem? revs i ≡ some rev
    → defines uid rev ≡ false
    → NoneDefines uid revs k i
    → NoneDefines uid revs k (suc i)
NoneDefines-suc k i uid revs rev at not_here below j r low high found =
    elim (Bool-cases (eqb j i)) [
      | inl last ↦
          let e : rev ≡ r =
            some-injective rev r
              (sym at ∙ ap (get_elem? revs) (sym ((eqb_iff j i).0 last)) ∙ found) in
          rw (sym e) not_here
      | inr other ↦ below j r low (ground (arith, other, eqb_iff j i, high)) found
    ]

IsBase-suc :
    (i : ℕ) (uid : String) (revs : List Revision) (rev : Revision) (b : Option Revision)
    → get_elem? revs i ≡ some rev
    → defines uid rev ≡ false
    → IsBase uid revs i b
    → IsBase uid revs (suc i) b
unfolding IsBase
IsBase-suc i uid revs rev none at not_here below =
    NoneDefines-suc 0 i uid revs rev at not_here below
IsBase-suc i uid revs rev (some base) at not_here (k, low, found, defined, below) = (
  k,
  omega (arith, low),
  found,
  defined,
  NoneDefines-suc (suc k) i uid revs rev at not_here below,
)

IsBase-here :
    (i : ℕ) (uid : String) (revs : List Revision) (rev : Revision)
    → get_elem? revs i ≡ some rev
    → defines uid rev ≡ true
    → IsBase uid revs (suc i) (some rev)
unfolding IsBase
IsBase-here i uid revs rev at defined =
    (i, omega arith, at, defined, λ j r low high found. absurd (omega (arith, low, high)))

-- For an index within the retained revisions, the base is the last definition of the same object
-- before it, and there is none only if no earlier retained revision defines the object.
pub base_below-IsBase :
    (i : ℕ) (uid : String) (revs : List Revision)
    → i ≤ length revs
    → IsBase uid revs i (base_below i uid revs)
unfolding IsBase base_below
base_below-IsBase zero uid revs fits = λ j rev low high at. absurd (omega arith)
base_below-IsBase (suc i) uid revs fits = elim (Option-cases (get_elem? revs i)) [
  | inl absent ↦ absurd (in_range revs i (omega arith) absent)
  | inr (rev, at) ↦ (elim (Bool-cases (defines uid rev)) [
    | inl here ↦ rw (at, base_below) (rw here (IsBase-here i uid revs rev at here))
    | inr later ↦
        rw (at, base_below)
          (rw later
            (IsBase-suc i uid revs rev _ at later (base_below-IsBase i uid revs (omega arith))))
  ])
]
