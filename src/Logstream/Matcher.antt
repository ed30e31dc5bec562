-- ===== src/Logstream/Matcher.antt =====
-- internal/logstream/logstream.go: the matcher of log lines against a closed set of rules.
--
-- Here a text is its bytes. `json.Unmarshal` into a map is an argument, `decode`. A time is a number
-- of nanoseconds. A nil clock, which like a zero age keeps observations, is a `max_age` of 0.
pub mod Account
pub mod Memory
use pg_console.Prelude.{
  ℕ, zero, suc, ◌+◌, ◌≡◌, ◌↔◌, arith, Bool, true, false, not, ◌&&◌, ◌||◌, Option, none, some, List,
  [], ◌∷◌, String, ltb, length, take, if◌then◌else◌,
}
use pg_console.Prelude.Eq.{Eq, ◌==◌, ==_iff, string_eq, nat_eq, pair_eq, list_eq}
use pg_console.Prelude.Dict.{Dict, lookup, insert, remove}
use pg_console.Prelude.Sort.{str_lt}
use pg_console.Observe.Keyed.{sort_slice}
use pg_console.Logstream.Rules.{Json, Members, FieldTest, Rule, matches, structured}
use pg_console.Logstream.Texts.{Bytes, contains, is_empty, split_from}

pub record Line : Type 0 where
  pub pod : String
  pub container : String
  pub text : Bytes
  pub at : ℕ

pub record Observation : Type 0 where
  pub rule_id : String
  pub summary : String
  pub pod : String
  pub container : String
  pub line : Bytes
  pub first_seen : ℕ
  pub last_seen : ℕ
  pub count : ℕ

abbrev pub max_observed_line : ℕ
max_observed_line = 2048

abbrev pub Member : Type 0
Member = String × String

-- The rule, and the container.
abbrev pub ObservationKey : Type 0
ObservationKey = String × String × String

abbrev pub same_key : ObservationKey → ObservationKey → Bool
same_key (r, p, c) (s, q, d) = r == s && p == q && c == d

pub same_key_iff : (j k : ObservationKey) → (same_key j k ≡ true) ↔ (j ≡ k)
same_key_iff (r, p, c) (s, q, d) = ground (arith, ==_iff r s, ==_iff p q, ==_iff c d)

instance abbrev pub observation_key_eq : Eq ObservationKey
observation_key_eq = record { same_key = same_key; same_key_iff = same_key_iff }

pub record Unread : Type 0 where
  pub pod : String
  pub container : String
  pub since : ℕ
  pub reason : String

pub record Matcher : Type 0 where
  pub rules : List Rule
  pub decodes : Bool
  pub max_age : ℕ
  pub observed : Dict ObservationKey Observation
  pub unread : Dict Member Unread

unfoldable pub new_matcher : List Rule → ℕ → Matcher
unfolding structured
new_matcher rules max_age = record {
  rules = rules;
  decodes = structured rules;
  max_age = max_age;
  observed = [];
  unread = [];
}

unfoldable pub bounded_line : Bytes → Bytes
bounded_line t = if ltb max_observed_line (length t) then take max_observed_line t else t

-- What a matching line makes of an observation.
unfoldable pub note : Rule → Line → Option Observation → Observation
unfolding bounded_line
note r l (some existing) = record existing { count = existing.count + 1; last_seen = l.at }
note r l none = record {
  rule_id = r.id;
  summary = r.summary;
  pod = l.pod;
  container = l.container;
  line = bounded_line l.text;
  first_seen = l.at;
  last_seen = l.at;
  count = 1;
}

-- The loop of `Observe` over the rules.
unfoldable pub observe_rules :
    List Rule
    → Line
    → Option Members
    → Dict ObservationKey Observation
    → Dict ObservationKey Observation
unfolding note
observe_rules [] l doc observed = observed
observe_rules (r ∷ rules) l doc observed =
    let key : ObservationKey = (r.id, l.pod, l.container) in
    observe_rules rules l doc (
      if matches r l.text doc
      then insert key (note r l (lookup key observed)) observed
      else observed)

unfoldable pub observe : (Bytes → Option Members) → Line → Matcher → Matcher
unfolding observe_rules
observe decode l m =
    let doc = if m.decodes then decode l.text else none in
    record m { observed = observe_rules m.rules l doc m.observed }

unfoldable pub attached : String → String → ℕ → Matcher → Matcher
attached pod container at m = record m { unread = remove (pod, container) m.unread }

-- An open window keeps its start.
abbrev pub since_of : Option Unread → ℕ → ℕ
since_of none at = at
since_of (some window) at = window.since

unfoldable pub detached : String → String → ℕ → String → Matcher → Matcher
detached pod container at reason m = record m {
  unread =
      insert (pod, container)
        (record {
          pod = pod;
          container = container;
          since = since_of (lookup (pod, container) m.unread) at;
          reason = reason;
        })
        m.unread;
}

unfoldable pub dropped : String → String → Matcher → Matcher
dropped pod container m = record m { unread = remove (pod, container) m.unread }

-- Observations past their age leave the map when it is read.
unfoldable pub expire : ℕ → ℕ → Dict ObservationKey Observation → Dict ObservationKey Observation
expire max_age now [] = []
expire max_age now ((key, o) ∷ observed) =
    let rest = expire max_age now observed in
    if ltb (o.last_seen + max_age) now then rest else (key, o) ∷ rest

unfoldable pub expired : ℕ → Matcher → Matcher
unfolding expire
expired now m = record m {
  observed = (if ltb 0 m.max_age then expire m.max_age now m.observed else m.observed);
}

unfoldable pub forget_observed :
    String → Dict ObservationKey Observation → Dict ObservationKey Observation
forget_observed pod [] = []
forget_observed pod (((rule, p, container), o) ∷ observed) =
    let rest = forget_observed pod observed in
    if p == pod then rest else ((rule, p, container), o) ∷ rest

unfoldable pub forget_unread : String → Dict Member Unread → Dict Member Unread
forget_unread pod [] = []
forget_unread pod (((p, container), w) ∷ unread) =
    let rest = forget_unread pod unread in if p == pod then rest else ((p, container), w) ∷ rest

unfoldable pub forget : String → Matcher → Matcher
unfolding forget_observed forget_unread
forget pod m = record m {
  observed = forget_observed pod m.observed;
  unread = forget_unread pod m.unread;
}

abbrev pub values {ℓ κ} : {K : Type ℓ} {V : Type κ} → Dict K V → List V
values [] = []
values ((k, v) ∷ m) = v ∷ values m

unfoldable pub unread_before : Unread → Unread → Bool
unread_before a b = if a.pod == b.pod then str_lt a.container b.container else str_lt a.pod b.pod

-- `Unread`.
unfoldable pub unread_list : Matcher → List Unread
unfolding unread_before
unread_list m = sort_slice unread_before (values m.unread)

unfoldable pub observation_before : Observation → Observation → Bool
observation_before a b =
    if a.rule_id == b.rule_id
    then (if a.pod == b.pod then str_lt a.container b.container else str_lt a.pod b.pod)
    else str_lt a.rule_id b.rule_id

-- `Observations` at a time: what has expired leaves the map.
unfoldable pub observations : ℕ → Matcher → Matcher × List Observation
unfolding expired observation_before
observations now m =
    let current = expired now m in
    (current, sort_slice observation_before (values current.observed))
