-- ===== src/History/Diff/Entries.antt =====
-- The entries of a comparison: what the bound, the sort and the attribution leave of them.
use pg_console.Prelude.{
  ℕ, suc, ◌≤◌, ◌≡◌, ◌↔◌, refl, sym, ap, ◌∙◌, arith, true, false, List, [], ◌∷◌, ◌++◌, leb, length,
  length-append, map, ◌⊎◌, inl, inr, Bool-cases,
}
use mathlib.Core.List.{append-nil, append_assoc}
use pg_console.Prelude.Eq.{string_eq}
use pg_console.Observe.Keyed.{sort_slice, insert_by}
use pg_console.Observe.Keyed.Cut.{IsOrder, NoneBefore, Sorted}
use pg_console.History.Journal.Cursor.{bytes_lt_asym, not_below_trans}
use pg_console.History.Types.{FieldOwner}
use pg_console.History.Diff.{path_lt, attributed}
use pg_console.History.Walk.{DiffEntry, Differ, add, max_diff_entries}
use pg_console.History.Walk.Changes.{add_all}
use pg_console.History.Walk.Exact.{Occurs}

abbrev pub no_changes : Differ
no_changes = record { entries = []; truncated = false }

below_bound : (n : ℕ) → leb max_diff_entries n ≡ false → suc n ≤ max_diff_entries
below_bound n room = ground (arith, room)

length-add :
    (entry : DiffEntry) (d : Differ)
    → length d.entries ≤ max_diff_entries
    → length (add entry d).entries ≤ max_diff_entries
unfolding add
length-add entry d fits = elim (Bool-cases (leb max_diff_entries (length d.entries))) [
  | inl full ↦ rw full fits
  | inr room ↦
      rw room
        (omega (arith, length-append d.entries (entry ∷ []), below_bound (length d.entries) room))
]

pub length-add_all :
    (es : List DiffEntry) (d : Differ)
    → length d.entries ≤ max_diff_entries
    → length (add_all es d).entries ≤ max_diff_entries
unfolding add_all
length-add_all [] d fits = fits
length-add_all (e ∷ es) d fits = length-add_all es (add e d) (length-add e d fits)

-- Once cut, a list of entries stays cut.
truncated-add_all :
    (es : List DiffEntry) (d : Differ) → d.truncated ≡ true → (add_all es d).truncated ≡ true
unfolding add_all add
truncated-add_all [] d cut = cut
truncated-add_all (e ∷ es) d cut = truncated-add_all es (add e d) (ground (arith, cut))

add-full :
    (e : DiffEntry) (d : Differ)
    → leb max_diff_entries (length d.entries) ≡ true
    → (add e d).truncated ≡ true
unfolding add
add-full e d full = rw full refl

add-room :
    (e : DiffEntry) (d : Differ)
    → leb max_diff_entries (length d.entries) ≡ false
    → (add e d).entries ≡ d.entries ++ e ∷ []
unfolding add
add-room e d room = rw room refl

-- Entries that are not cut are all that was added.
pub add_all-whole :
    (es : List DiffEntry) (d : Differ)
    → (add_all es d).truncated ≡ false
    → (add_all es d).entries ≡ d.entries ++ es
unfolding add_all
add_all-whole [] d whole = sym (append-nil d.entries)
add_all-whole (e ∷ es) d whole = elim (Bool-cases (leb max_diff_entries (length d.entries))) [
  | inl full ↦ absurd (ground (arith, whole, truncated-add_all es (add e d) (add-full e d full)))
  | inr room ↦
      add_all-whole es (add e d) whole
      ∙ ap (λ all. all ++ es) (add-room e d room)
      ∙ append_assoc d.entries (e ∷ []) es
]

insert_by-Occurs :
    (x t : DiffEntry) (ts : List DiffEntry)
    → Occurs x (insert_by path_lt t ts) ↔ ((t ≡ x) ⊎ Occurs x ts)
unfolding insert_by Occurs
insert_by-Occurs x t [] = (λ there. there, λ there. there)
insert_by-Occurs x t (u ∷ us) = elim (Bool-cases (path_lt u t)) [
  | inl after ↦ rw after (
    (λ there. elim there [
      | inl here ↦ inr (inl here)
      | inr later ↦ (elim ((insert_by-Occurs x t us).0 later) [
        | inl own ↦ inl own
        | inr rest ↦ inr (inr rest)
      ])
    ]),
    (λ there. elim there [
      | inl own ↦ inr ((insert_by-Occurs x t us).1 (inl own))
      | inr (inl here) ↦ inl here
      | inr (inr rest) ↦ inr ((insert_by-Occurs x t us).1 (inr rest))
    ]),
  )
  | inr before ↦ rw before (λ there. there, λ there. there)
]

pub sort_slice-Occurs :
    (x : DiffEntry) (ts : List DiffEntry) → Occurs x (sort_slice path_lt ts) ↔ Occurs x ts
unfolding sort_slice Occurs
sort_slice-Occurs x [] = (λ there. there, λ there. there)
sort_slice-Occurs x (t ∷ ts) =
    let inserted = insert_by-Occurs x t (sort_slice path_lt ts) in
    let sorted = sort_slice-Occurs x ts in
    (
      (λ there. elim (inserted.0 there) [ inl own ↦ inl own | inr rest ↦ inr (sorted.0 rest) ]),
      (λ there. elim there [
        | inl own ↦ inserted.1 (inl own)
        | inr rest ↦ inserted.1 (inr (sorted.1 rest))
      ]),
    )

-- An entry of a mapped list comes from one of the list.
pub Occurs-map :
    (owners : List FieldOwner) (x : DiffEntry) (ts : List DiffEntry)
    → Occurs x (map (attributed owners) ts)
      ↔ ((t : DiffEntry) × (attributed owners t ≡ x) × Occurs t ts)
unfolding Occurs
Occurs-map owners x [] = (λ there. absurd there, λ (t, same, there). absurd there)
Occurs-map owners x (u ∷ us) =
    let rest = Occurs-map owners x us in
    (
      (λ there. elim there [
        | inl here ↦ (u, here, inl refl)
        | inr later ↦ let (t, same, own) = rest.0 later in (t, same, inr own)
      ]),
      (λ (t, same, there). elim there [
        | inl here ↦ inl (ap (attributed owners) here ∙ same)
        | inr later ↦ inr (rest.1 (t, same, later))
      ]),
    )

-- The order of the reported entries.
pub by_path : IsOrder path_lt
by_path = record {
  asymmetric = λ a b below. bytes_lt_asym a.path b.path below;
  transitive = λ a b c p q. not_below_trans a.path b.path c.path p q;
}

map-NoneBefore :
    (owners : List FieldOwner) (t : DiffEntry) (ts : List DiffEntry)
    → NoneBefore path_lt t ts
    → NoneBefore path_lt (attributed owners t) (map (attributed owners) ts)
map-NoneBefore owners t [] none_before = tt
map-NoneBefore owners t (u ∷ us) (here, later) = (here, map-NoneBefore owners t us later)

pub map-Sorted :
    (owners : List FieldOwner) (ts : List DiffEntry)
    → Sorted path_lt ts
    → Sorted path_lt (map (attributed owners) ts)
map-Sorted owners [] sorted = tt
map-Sorted owners (t ∷ ts) (here, later) =
    (map-NoneBefore owners t ts here, map-Sorted owners ts later)
