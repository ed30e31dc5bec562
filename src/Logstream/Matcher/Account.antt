-- ===== src/Logstream/Matcher/Account.antt =====
-- internal/logstream/logstream.go: what the matcher holds of a rule and a container.
use pg_console.Prelude.{
  ℕ, ◌+◌, ◌≡◌, refl, ◌⊎◌, inl, inr, ◌∙◌, ap, sym, arith, Bool, true, false, ◌&&◌, Option, none,
  some, List, [], ◌∷◌, String, if◌then◌else◌, length, Bool-cases,
}
use pg_console.Prelude.Eq.{◌==◌, ==_iff, string_eq}
use pg_console.Prelude.Dict.{lookup, insert, lookup-insert, Dict}
use pg_console.Logstream.Texts.{Bytes}
use pg_console.Logstream.Matcher.{
  Line, Observation, ObservationKey, observation_key_eq, Matcher, note, bounded_line, observe_rules,
  observe, new_matcher, same_key, same_key_iff,
}
use pg_console.Logstream.Rules.{Members, Rule, FieldTest, matches, structured, hold_all, is_nil}

-- No rule of the list has the id.
unfoldable pub IsAbsent : String → List Rule → Type 0
IsAbsent id [] = Unit
IsAbsent id (q ∷ rules) = (¬ (q.id ≡ id)) × IsAbsent id rules

-- The rule stands in the list, and no other rule there has its id.
unfoldable pub IsOnly : Rule → List Rule → Type 0
unfolding IsAbsent
IsOnly r [] = ⊥
IsOnly r (q ∷ rules) = ((q ≡ r) × IsAbsent r.id rules) ⊎ ((¬ (q.id ≡ r.id)) × IsOnly r rules)

put_elsewhere :
    (b : Bool) (k j : ObservationKey) (o : Observation) (observed : Dict ObservationKey Observation)
    → same_key k j ≡ false
    → lookup j (if b then insert k o observed else observed) ≡ lookup j observed
put_elsewhere b k j o observed differ = ground (arith, lookup-insert k j o observed, differ)

put_here :
    (b : Bool) (k : ObservationKey) (o : Observation) (observed : Dict ObservationKey Observation)
    → lookup k (if b then insert k o observed else observed)
      ≡ (if b then some o else lookup k observed)
put_here b k o observed = ground (arith, lookup-insert k k o observed, same_key_iff k k)

abbrev pub from : String → String → Line → Bool
from pod container l = l.pod == pod && l.container == container

module _ (id pod container : String) (l : Line) (doc : Option Members) where
  observe_rules-elsewhere :
      (rules : List Rule) (observed : Dict ObservationKey Observation)
      → from pod container l ≡ false
      → lookup (id, pod, container) (observe_rules rules l doc observed)
        ≡ lookup (id, pod, container) observed
  unfolding observe_rules
  observe_rules-elsewhere [] observed differ = refl
  observe_rules-elsewhere (q ∷ rules) observed differ =
      let o = note q l (lookup (q.id, l.pod, l.container) observed) in
      observe_rules-elsewhere rules _ differ
      ∙ put_elsewhere (matches q l.text doc) (q.id, l.pod, l.container) (id, pod, container) o
          observed (ground (arith, differ))

  observe_rules-absent :
      (rules : List Rule) (observed : Dict ObservationKey Observation)
      → IsAbsent id rules
      → lookup (id, pod, container) (observe_rules rules l doc observed)
        ≡ lookup (id, pod, container) observed
  unfolding observe_rules IsAbsent
  observe_rules-absent [] observed absent = refl
  observe_rules-absent (q ∷ rules) observed (differ, absent) =
      let o = note q l (lookup (q.id, l.pod, l.container) observed) in
      observe_rules-absent rules _ absent
      ∙ put_elsewhere (matches q l.text doc) (q.id, l.pod, l.container) (id, pod, container) o
          observed (ground (arith, differ, ==_iff q.id id))

abbrev noted : Bool → Rule → Line → Option Observation → Option Observation
noted hit r l o = if hit then some (note r l o) else o

observe_rules-only :
    (r : Rule) (l : Line) (doc : Option Members) (rules : List Rule)
    (observed : Dict ObservationKey Observation)
    → IsOnly r rules
    → lookup (r.id, l.pod, l.container) (observe_rules rules l doc observed)
      ≡ noted (matches r l.text doc) r l (lookup (r.id, l.pod, l.container) observed)
unfolding observe_rules IsOnly
observe_rules-only r l doc [] observed impossible = elim impossible [ ]
observe_rules-only r l doc (q ∷ rules) observed (inl (here, absent)) = rw here (
    observe_rules-absent r.id l.pod l.container l doc rules _ absent
    ∙ put_here (matches r l.text doc) (r.id, l.pod, l.container)
        (note r l (lookup (r.id, l.pod, l.container) observed)) observed)
observe_rules-only r l doc (q ∷ rules) observed (inr (differ, only)) =
    observe_rules-only r l doc rules _ only
    ∙ ap (noted (matches r l.text doc) r l) (
        put_elsewhere (matches q l.text doc) (q.id, l.pod, l.container) (r.id, l.pod, l.container)
          (note q l (lookup (q.id, l.pod, l.container) observed)) observed
          (ground (arith, differ, ==_iff q.id r.id)))

hold_all-nil :
    (tests : List FieldTest) (doc : Option Members)
    → is_nil tests ≡ true
    → hold_all tests doc ≡ true
unfolding hold_all
hold_all-nil [] doc nil = refl
hold_all-nil (test ∷ tests) doc nil = ground (arith, nil)

unread_fields :
    (r : Rule) (rules : List Rule)
    → IsOnly r rules
    → structured rules ≡ false
    → is_nil r.fields ≡ true
unfolding structured IsOnly
unread_fields r [] impossible plain = elim impossible [ ]
unread_fields r (q ∷ rules) (inl (here, absent)) plain = rw (sym here) (ground (arith, plain))
unread_fields r (q ∷ rules) (inr (differ, only)) plain =
    unread_fields r rules only (ground (arith, plain))

matches-nil :
    (r : Rule) (t : Bytes) (d e : Option Members)
    → is_nil r.fields ≡ true
    → matches r t d ≡ matches r t e
unfolding matches
matches-nil r t d e nil = rw (hold_all-nil r.fields d nil) (rw (hold_all-nil r.fields e nil) refl)

-- A line is decoded only for a rule set that asks for it, which no rule of the set can tell.
matches-decoded :
    (r : Rule) (rules : List Rule) (t : Bytes) (doc : Option Members)
    → IsOnly r rules
    → matches r t (if structured rules then doc else none) ≡ matches r t doc
matches-decoded r rules t doc only = elim (Bool-cases (structured rules)) [
  | inl reads ↦ rw reads refl
  | inr plain ↦ rw plain (matches-nil r t none doc (unread_fields r rules only plain))
]

module _ (decode : Bytes → Option Members) where
  unfoldable pub observe_all : List Line → Matcher → Matcher
  observe_all [] m = m
  observe_all (l ∷ lines) m = observe_all lines (observe decode l m)

  -- The lines of a container that match a rule.
  unfoldable pub hits : Rule → String → String → List Line → List Line
  hits r pod container [] = []
  hits r pod container (l ∷ lines) =
      let rest = hits r pod container lines in
      if from pod container l && matches r l.text (decode l.text) then l ∷ rest else rest

unfoldable absorb : Rule → Option Observation → List Line → Option Observation
absorb r o [] = o
absorb r o (l ∷ lines) = absorb r (some (note r l o)) lines

unfoldable pub last_at : ℕ → List Line → ℕ
last_at at [] = at
last_at at (l ∷ lines) = last_at l.at lines

-- What is to be held of the lines that match a rule.
unfoldable pub account : Rule → List Line → Option Observation
unfolding last_at bounded_line
account r [] = none
account r (l ∷ lines) = some (record {
  rule_id = r.id;
  summary = r.summary;
  pod = l.pod;
  container = l.container;
  line = bounded_line l.text;
  first_seen = l.at;
  last_seen = last_at l.at lines;
  count = 1 + length lines;
})

absorb-some :
    (r : Rule) (o : Observation) (lines : List Line)
    → absorb r (some o) lines
      ≡ some (record o { last_seen = last_at o.last_seen lines; count = o.count + length lines })
unfolding absorb last_at note
absorb-some r o [] = ap (λ n. some (record o { count = n })) (omega arith)
absorb-some r o (l ∷ lines) =
    absorb-some r (note r l (some o)) lines
    ∙ ap (λ n. some (record o { last_seen = last_at l.at lines; count = n })) (omega arith)

absorb-none : (r : Rule) (lines : List Line) → absorb r none lines ≡ account r lines
unfolding absorb account note
absorb-none r [] = refl
absorb-none r (l ∷ lines) = absorb-some r (note r l none) lines

absorb-noted :
    (r : Rule) (l : Line) (hit : Bool) (o : Option Observation) (lines : List Line)
    → absorb r (noted hit r l o) lines ≡ absorb r o (if hit then l ∷ lines else lines)
unfolding absorb
absorb-noted r l true o lines = refl
absorb-noted r l false o lines = refl

module _ (decode : Bytes → Option Members) (r : Rule) (pod container : String) where
  from_member : (l : Line) → from pod container l ≡ true → (l.pod ≡ pod) × (l.container ≡ container)
  from_member l e =
      (ground (arith, e, ==_iff l.pod pod), ground (arith, e, ==_iff l.container container))

  lookup-observe_here :
      (l : Line) (m : Matcher)
      → IsOnly r m.rules
      → m.decodes ≡ structured m.rules
      → lookup (r.id, l.pod, l.container) (observe decode l m).observed
        ≡ noted
            (matches r l.text (decode l.text))
            r
            l
            (lookup (r.id, l.pod, l.container) m.observed)
  unfolding observe
  lookup-observe_here l m only decodes =
      observe_rules-only r l _ m.rules m.observed only
      ∙ rw decodes (rw (matches-decoded r m.rules l.text (decode l.text) only) refl)

  lookup-observe :
      (l : Line) (m : Matcher)
      → IsOnly r m.rules
      → m.decodes ≡ structured m.rules
      → lookup (r.id, pod, container) (observe decode l m).observed
        ≡ noted
            (from pod container l && matches r l.text (decode l.text))
            r
            l
            (lookup (r.id, pod, container) m.observed)
  lookup-observe l m only decodes = elim (Bool-cases (from pod container l)) [
    | inl here ↦ rw here (
        let (same_pod, same_container) = from_member l here in
        rw (sym same_pod) (rw (sym same_container) (lookup-observe_here l m only decodes)))
    | inr elsewhere ↦ rw elsewhere (
        unfold observe in
        observe_rules-elsewhere r.id pod container l _ m.rules m.observed elsewhere)
  ]

  lookup-observe_all :
      (lines : List Line) (m : Matcher)
      → IsOnly r m.rules
      → m.decodes ≡ structured m.rules
      → lookup (r.id, pod, container) (observe_all decode lines m).observed
        ≡ absorb r (lookup (r.id, pod, container) m.observed) (hits decode r pod container lines)
  unfolding observe_all hits absorb
  lookup-observe_all [] m only decodes = refl
  lookup-observe_all (l ∷ lines) m only decodes =
      lookup-observe_all lines (observe decode l m) (unfold observe in only)
        (unfold observe in decodes)
      ∙ ap (λ o. absorb r o (hits decode r pod container lines)) (lookup-observe l m only decodes)
      ∙ absorb-noted r l (from pod container l && matches r l.text (decode l.text)) _ _

  -- What a new matcher holds of a rule and a container, after any lines, is the account of the
  -- container's lines that match the rule: nothing without one, and otherwise the first of them,
  -- cut to the bound, with the times of the first and the last and their number. The rule is in the
  -- set, and no other rule of the set has its id.
  pub observe_all-account :
      (rules : List Rule) (max_age : ℕ) (lines : List Line)
      → IsOnly r rules
      → lookup
          (r.id, pod, container)
          (observe_all decode lines (new_matcher rules max_age)).observed
        ≡ account r (hits decode r pod container lines)
  unfolding new_matcher lookup
  observe_all-account rules max_age lines only =
      lookup-observe_all lines (new_matcher rules max_age) only refl
      ∙ absorb-none r (hits decode r pod container lines)
