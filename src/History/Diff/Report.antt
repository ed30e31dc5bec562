-- ===== src/History/Diff/Report.antt =====
-- What a comparison reports.
use pg_console.Prelude.{
  ℕ, ◌≤◌, ◌≡◌, ◌↔◌, refl, sym, subst, ◌∙◌, arith, true, false, Option, none, some, List, [], eqb,
  get_elem?, length, length-map, map, ◌⊎◌, inl, inr, Bool-cases, Option-cases,
}
use pg_console.Prelude.Eq.{Eq, string_eq}
use pg_console.Observe.Keyed.{sort_slice}
use pg_console.Observe.Keyed.Cut.{Sorted, length-sort_slice, sort_slice-Sorted}
use mathlib.Core.Option.{some-injective}
use pg_console.History.Types.{Revision, FieldOwner, Bytes}
use pg_console.History.Values.{Value}
use pg_console.History.Values.Depth.{depth}
use pg_console.History.Diff.{
  Diff, path_lt, attributed, compare_values, compare_manifests, against, diff_at, diff,
  without_base, base_below, no_bytes,
}
use pg_console.History.Walk.{DiffEntry, max_diff_entries, Codec}
use pg_console.History.Walk.Changes.{add_all, changes, walk-changes}
use pg_console.History.Diff.Entries.{
  no_changes, length-add_all, add_all-whole, sort_slice-Occurs, Occurs-map, by_path, map-Sorted,
}
use pg_console.History.Walk.Exact.{Occurs, Differs}
use pg_console.History.Walk.Exact.Both.{changes-Differs}
use pg_console.History.Store.Defs.{Store}
use pg_console.History.Store.Reads.{copied, revision, search_index}

-- A report on a sequence number, within its bounds: no more than the entries allowed, in the order of
-- their paths, and none where there was nothing to compare with.
pub record IsReport (seq : ℕ) (r : Diff) : Type 0 where
  pub of_seq : r.seq ≡ seq
  pub few : length r.entries ≤ max_diff_entries
  pub in_order : Sorted path_lt r.entries
  pub not_alone : (r.has_base ≡ true) ⊎ (r.entries ≡ [])

without_entries : (seq : ℕ) (r : Diff) → r.seq ≡ seq → r.entries ≡ [] → IsReport seq r
without_entries seq r own bare = record {
  of_seq = own;
  few = rw bare (omega arith);
  in_order = rw bare tt;
  not_alone = inr bare;
}

module _ {F : Type 0} ⦃e : Eq F⦄ (codec : Codec F) where
  abbrev reported : Value F → Value F → List FieldOwner → Diff → Diff
  reported before after owners start =
      let all = add_all (changes codec (depth before) [] before after) no_changes in
      record start {
        entries = map (attributed owners) (sort_slice path_lt all.entries);
        truncated = all.truncated;
      }

  compare_values-reported :
      (before after : Value F) (owners : List FieldOwner) (start : Diff)
      → compare_values codec before after owners start ≡ some (reported before after owners start)
  unfolding compare_values
  compare_values-reported before after owners start =
      rw
        (walk-changes codec (depth before) [] before after no_changes (omega arith), compare_values)
        refl

  reported-IsReport :
      (before after : Value F) (owners : List FieldOwner) (start : Diff)
      → start.has_base ≡ true
      → IsReport start.seq (reported before after owners start)
  reported-IsReport before after owners start based =
      let all = add_all (changes codec (depth before) [] before after) no_changes in
      record {
        of_seq = refl;
        not_alone = inl based;
        few = omega (
          arith,
          length-map (sort_slice path_lt all.entries) (attributed owners),
          length-sort_slice path_lt all.entries,
          length-add_all (changes codec (depth before) [] before after) no_changes (omega arith),
        );
        in_order =
            map-Sorted owners (sort_slice path_lt all.entries)
              (sort_slice-Sorted path_lt by_path all.entries);
      }

  reported-Differs :
      (before after : Value F) (owners : List FieldOwner) (start : Diff) (entry : DiffEntry)
      → (reported before after owners start).truncated ≡ false
      → Occurs entry (reported before after owners start).entries
        ↔ ((raw : DiffEntry) × (attributed owners raw ≡ entry) × Differs codec raw [] before after)
  reported-Differs before after owners start entry whole =
      let listed = changes codec (depth before) [] before after in
      let all = add_all listed no_changes in
      let from = Occurs-map owners entry (sort_slice path_lt all.entries) in
      let same : all.entries ≡ listed = add_all-whole listed no_changes whole in
      let exact : (raw : DiffEntry)
          → Occurs raw (sort_slice path_lt all.entries) ↔ Differs codec raw [] before after =
        λ raw.
          let sorted = sort_slice-Occurs raw all.entries in
          let spec = changes-Differs codec raw (depth before) [] before after (omega arith) in
          (
            (λ there. spec.0 (subst (Occurs raw) same (sorted.0 there))),
            (λ differs. sorted.1 (subst (Occurs raw) (sym same) (spec.1 differs))),
          ) in
      (
        (λ there. let (raw, owned, found) = from.0 there in (raw, owned, (exact raw).0 found)),
        (λ (raw, owned, differs). from.1 (raw, owned, (exact raw).1 differs)),
      )

  -- Where the report is not cut, its entries are exactly what the two values differ by, each with the
  -- manager to which its path is attributed.
  pub compare_values-Differs :
      (before after : Value F) (owners : List FieldOwner) (start r : Diff) (entry : DiffEntry)
      → compare_values codec before after owners start ≡ some r
      → r.truncated ≡ false
      → Occurs entry r.entries
        ↔ ((raw : DiffEntry) × (attributed owners raw ≡ entry) × Differs codec raw [] before after)
  compare_values-Differs before after owners start r entry compared whole =
      let own =
        some-injective _ r (sym (compare_values-reported before after owners start) ∙ compared) in
      subst
        (λ r.
          r.truncated ≡ false
          → Occurs entry r.entries ↔ (
              (raw : DiffEntry) × (attributed owners raw ≡ entry)
              × Differs codec raw [] before after))
        own (reported-Differs before after owners start entry) whole

  -- A comparison that ends in a report.
  abbrev Reports : ℕ → Option Diff → Type 0
  Reports seq answer = (r : Diff) × (answer ≡ some r) × IsReport seq r

  compare_manifests-Reports :
      (before after : Bytes) (owners : List FieldOwner) (start : Diff)
      → start.has_base ≡ true
      → start.entries ≡ []
      → Reports start.seq (compare_manifests codec before after owners start)
  unfolding compare_manifests
  compare_manifests-Reports before after owners start based bare =
      elim (Option-cases (codec.unmarshal before)) [
        | inl undecoded ↦
            rw (undecoded, compare_manifests)
              (start, refl, without_entries start.seq start refl bare)
        | inr (v, decoded) ↦
            rw (decoded, compare_manifests)
              (elim (Option-cases (codec.unmarshal after)) [
                | inl undecoded ↦
                    rw (undecoded, compare_manifests)
                      (start, refl, without_entries start.seq start refl bare)
                | inr (w, decoded) ↦
                    rw (decoded, compare_manifests)
                      (
                        reported v w owners start,
                        compare_values-reported v w owners start,
                        reported-IsReport v w owners start based,
                      )
              ])
      ]

  against-Reports :
      (base : Option Revision) (manifest : Bytes) (owners : List FieldOwner) (seq : ℕ)
      → Reports seq (against codec base manifest owners (without_base seq))
  unfolding against
  against-Reports none manifest owners seq =
      (without_base seq, refl, without_entries seq (without_base seq) refl refl)
  against-Reports (some base) manifest owners seq =
      compare_manifests-Reports (no_bytes base.manifest) manifest owners _ refl refl

  diff_at-Reports :
      (i : ℕ) (rev : Revision) (seq : ℕ) (s : Store) → Reports seq (diff_at codec i rev seq s)
  unfolding diff_at
  diff_at-Reports i rev seq s = elim (Option-cases rev.manifest) [
    | inl gone ↦ rw gone (without_base seq, refl, without_entries seq (without_base seq) refl refl)
    | inr (manifest, there) ↦
        rw there (against-Reports (base_below i rev.uid s.entries) manifest rev.owners seq)
  ]

  -- A comparison always ends: it is unknown where no revision is found under the number, and else a
  -- report on that number within its bounds.
  pub diff-IsReport :
      (seq : ℕ) (s : Store)
      → ((revision seq s ≡ none) × (diff codec seq s ≡ none))
        ⊎ ((rev : Revision) × (revision seq s ≡ some rev)
            × (r : Diff) × (diff codec seq s ≡ some (some r))
            × IsReport seq r)
  unfolding diff revision
  diff-IsReport seq s = elim (Option-cases (get_elem? s.entries (search_index seq s.entries))) [
    | inl absent ↦ inl (rw (absent, revision) refl, rw (absent, diff) refl)
    | inr (rev, found) ↦ (elim (Bool-cases (eqb rev.seq seq)) [
      | inl same ↦
          let (r, reports, bounded) = diff_at-Reports (search_index seq s.entries) rev seq s in
          inr (
            copied rev,
            rw (found, revision, same) refl,
            r,
            rw (found, diff, same, reports) refl,
            bounded,
          )
      | inr other ↦ inl (rw (found, revision, other) refl, rw (found, diff, other) refl)
    ])
  ]
