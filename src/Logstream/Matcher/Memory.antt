-- ===== src/Logstream/Matcher/Memory.antt =====
-- internal/logstream/logstream.go: how much the matcher keeps.
use pg_console.Prelude.{
  ℕ, suc, ◌*◌, ◌≤◌, ◌≡◌, refl, sym, ◌∙◌, arith, Bool, true, false, ◌||◌, none, some, List, [], ◌∷◌,
  ◌++◌, String, ltb, length, length-append, length-map, length-take, map, if◌then◌else◌, Bool-cases,
  not_ltb, inl, inr, Option,
}
use mathlib.Core.Option.{some-injective}
use pg_console.Prelude.Eq.{Eq, ◌==◌, ==_iff, ==_refl, string_eq, pair_eq}
use pg_console.Prelude.Dict.{Dict, lookup, insert, remove, lookup-insert, lookup-remove}
use pg_console.Prelude.Dict.Sums.{Distinct, Distinct-insert, Distinct-remove, remove_absent}
use pg_console.Logstream.Texts.{Bytes}
use pg_console.Logstream.Matcher.{
  Line, Observation, ObservationKey, observation_key_eq, Member, Matcher, note, bounded_line,
  max_observed_line, observe_rules, observe, new_matcher,
}
use pg_console.Logstream.Rules.{Members, Rule, matches}
use pg_console.Logstream.Matcher.Account.{observe_all}

module _ {K : Type 0} ⦃e : Eq K⦄ where
  unfoldable pub among : K → List K → Bool
  among k [] = false
  among k (j ∷ js) = j == k || among k js

  among-append : (k : K) (ks js : List K) → among k (ks ++ js) ≡ (among k ks || among k js)
  unfolding among
  among-append k [] js = refl
  among-append k (i ∷ ks) js = ground (arith, among-append k ks js)

module _ {K V : Type 0} ⦃e : Eq K⦄ where
  remove_one : (k : K) (m : Dict K V) → Distinct m → length m ≤ suc (length (remove k m))
  unfolding remove lookup
  remove_one k [] d = omega arith
  remove_one k ((j, v) ∷ m) (fresh, d) = elim (Bool-cases (j == k)) [
    | inl same ↦
        rw same (rw (remove_absent k m (rw (sym ((==_iff j k).0 same)) fresh)) (omega arith))
    | inr other ↦ rw other (omega (arith, remove_one k m d))
  ]

  -- A map whose keys are all among a list's is no longer than the list.
  length-among :
      (ks : List K) (m : Dict K V)
      → Distinct m
      → ((k : K) (v : V) → lookup k m ≡ some v → among k ks ≡ true)
      → length m ≤ length ks
  unfolding among lookup
  length-among [] [] d inside = omega arith
  length-among [] ((j, v) ∷ m) d inside = absurd (ground (arith, inside j v (rw (==_refl j) refl)))
  length-among (k ∷ ks) m d inside =
      let fewer =
        length-among ks (remove k m) (Distinct-remove k m d)
          (λ j v at. ground (arith, at, lookup-remove k j m, inside j v)) in
      omega (arith, remove_one k m d, fewer)

abbrev pub key_of : String → Member → ObservationKey
key_of id (pod, container) = (id, pod, container)

-- Every pair of a rule's id and a container.
unfoldable pub keys_of : List Rule → List Member → List ObservationKey
keys_of [] members = []
keys_of (r ∷ rules) members = map (key_of r.id) members ++ keys_of rules members

length-keys_of :
    (rules : List Rule) (members : List Member)
    → length (keys_of rules members) ≡ length rules * length members
unfolding keys_of
length-keys_of [] members = omega arith
length-keys_of (r ∷ rules) members =
    length-append (map (key_of r.id) members) (keys_of rules members)
    ∙ omega (arith, length-map members (key_of r.id), length-keys_of rules members)

among-map :
    (id : String) (x : Member) (members : List Member)
    → among x members ≡ true
    → among (key_of id x) (map (key_of id) members) ≡ true
unfolding among
among-map id x [] inside = absurd (ground (arith, inside))
among-map id (p, c) ((q, d) ∷ members) inside =
    ground (arith, ==_refl id, among-map id (p, c) members)

-- What is kept stands under a key of the list, and its line is cut.
record IsKept (keys : List ObservationKey) (observed : Dict ObservationKey Observation)
    : Type 0 where
  distinct : Distinct observed
  inside : (k : ObservationKey) (o : Observation) → lookup k observed ≡ some o → among k keys ≡ true
  cut :
      (k : ObservationKey) (o : Observation)
      → lookup k observed ≡ some o
      → length o.line ≤ max_observed_line

bounded_line-le : (t : Bytes) → length (bounded_line t) ≤ max_observed_line
unfolding bounded_line
bounded_line-le t = elim (Bool-cases (ltb max_observed_line (length t))) [
  | inl long ↦ rw long (omega (arith, length-take max_observed_line t))
  | inr short ↦ rw short (not_ltb max_observed_line (length t) short)
]

module _ (keys : List ObservationKey) (k : ObservationKey) (o : Observation)
    (observed : Dict ObservationKey Observation) (inside_key : among k keys ≡ true)
    (fits : length o.line ≤ max_observed_line) (kept : IsKept keys observed) where
  insert-IsKept : IsKept keys (insert k o observed)
  insert-IsKept = record {
    distinct = Distinct-insert k o observed kept.distinct;
    inside = λ j p at. elim (Bool-cases (k == j)) [
      | inl same ↦ rw (sym ((==_iff k j).0 same)) inside_key
      | inr other ↦ kept.inside j p (sym (lookup-insert k j o observed ∙ rw other refl) ∙ at)
    ];
    cut = λ j p at. elim (Bool-cases (k == j)) [
      | inl same ↦
          let e : o ≡ p =
            some-injective o p (sym (lookup-insert k j o observed ∙ rw same refl) ∙ at) in
          rw (sym e) fits
      | inr other ↦ kept.cut j p (sym (lookup-insert k j o observed ∙ rw other refl) ∙ at)
    ];
  }

note-cut :
    (keys : List ObservationKey) (r : Rule) (l : Line) (k : ObservationKey)
    (observed : Dict ObservationKey Observation) (before : Option Observation)
    → lookup k observed ≡ before
    → IsKept keys observed
    → length (note r l before).line ≤ max_observed_line
unfolding note
note-cut keys r l k observed none at kept = bounded_line-le l.text
note-cut keys r l k observed (some o) at kept = kept.cut k o at

unfoldable pub has_id : String → List Rule → Bool
has_id id [] = false
has_id id (r ∷ rules) = r.id == id || has_id id rules

among-keys_of :
    (id : String) (x : Member) (members : List Member) (rules : List Rule)
    → has_id id rules ≡ true
    → among x members ≡ true
    → among (key_of id x) (keys_of rules members) ≡ true
unfolding keys_of has_id
among-keys_of id x members [] rule inside = absurd (ground (arith, rule))
among-keys_of id x members (r ∷ rules) rule inside =
    among-append (key_of id x) (map (key_of r.id) members) (keys_of rules members)
    ∙ elim (Bool-cases (r.id == id)) [
      | inl same ↦ rw ((==_iff r.id id).0 same) (rw (among-map id x members inside) refl)
      | inr other ↦
          ground (arith, among-keys_of id x members rules (ground (arith, rule, other)) inside)
    ]

module _ (keys : List ObservationKey) (l : Line) (doc : Option Members) where
  noted-IsKept :
      (hit : Bool) (r : Rule) (observed : Dict ObservationKey Observation)
      → among (r.id, l.pod, l.container) keys ≡ true
      → IsKept keys observed
      → IsKept keys (
          if hit
          then insert
              (r.id, l.pod, l.container)
              (note r l (lookup (r.id, l.pod, l.container) observed))
              observed
          else observed)
  noted-IsKept false r observed inside kept = kept
  noted-IsKept true r observed inside kept =
      insert-IsKept keys (r.id, l.pod, l.container) _ observed inside
        (note-cut keys r l (r.id, l.pod, l.container) observed _ refl kept) kept

  observe_rules-IsKept :
      (rules : List Rule) (observed : Dict ObservationKey Observation)
      → ((id : String) → has_id id rules ≡ true → among (id, l.pod, l.container) keys ≡ true)
      → IsKept keys observed
      → IsKept keys (observe_rules rules l doc observed)
  unfolding observe_rules has_id
  observe_rules-IsKept [] observed inside kept = kept
  observe_rules-IsKept (r ∷ rules) observed inside kept =
      observe_rules-IsKept rules _ (λ id here. inside id (ground (arith, here)))
        (noted-IsKept (matches r l.text doc) r observed (inside r.id (ground (arith, ==_refl r.id)))
          kept)

-- Every line is of one of the containers.
unfoldable pub AreFrom : List Member → List Line → Type 0
AreFrom members [] = Unit
AreFrom members (l ∷ lines) = (among (l.pod, l.container) members ≡ true) × AreFrom members lines

abbrev pub line_length : Option Observation → ℕ
line_length none = 0
line_length (some o) = length o.line

line_cut :
    (k : ObservationKey) (observed : Dict ObservationKey Observation) (found : Option Observation)
    → lookup k observed ≡ found
    → ((o : Observation) → lookup k observed ≡ some o → length o.line ≤ max_observed_line)
    → line_length found ≤ max_observed_line
line_cut k observed none at cut = omega arith
line_cut k observed (some o) at cut = cut o at

module _ (decode : Bytes → Option Members) (members : List Member) where
  observe_all-IsKept :
      (lines : List Line) (m : Matcher)
      → AreFrom members lines
      → IsKept (keys_of m.rules members) m.observed
      → IsKept (keys_of m.rules members) (observe_all decode lines m).observed
  unfolding observe_all observe AreFrom
  observe_all-IsKept [] m from_members kept = kept
  observe_all-IsKept (l ∷ lines) m (here, from_members) kept =
      observe_all-IsKept lines (observe decode l m) from_members (
        observe_rules-IsKept (keys_of m.rules members) l _ m.rules m.observed
          (λ id rule. among-keys_of id (l.pod, l.container) members m.rules rule here) kept)

  -- However much is logged by the containers of a list, the matcher keeps at most one observation for
  -- each rule and container, and no retained line is longer than its bound.
  pub observe_all-IsBounded :
      (rules : List Rule) (max_age : ℕ) (lines : List Line) (k : ObservationKey)
      → AreFrom members lines
      → (length (observe_all decode lines (new_matcher rules max_age)).observed
          ≤ length rules * length members)
        × (line_length (lookup k (observe_all decode lines (new_matcher rules max_age)).observed)
            ≤ max_observed_line)
  unfolding new_matcher lookup
  observe_all-IsBounded rules max_age lines k from_members =
      let fresh : IsKept (keys_of rules members) [] = record {
        distinct = tt;
        inside = λ j p e. absurd (ground (arith, e));
        cut = λ j p e. absurd (ground (arith, e));
      } in
      let kept = observe_all-IsKept lines (new_matcher rules max_age) from_members fresh in
      (
        rw (sym (length-keys_of rules members))
            (length-among (keys_of rules members) _ kept.distinct kept.inside),
        line_cut k _ _ refl (kept.cut k),
      )
