-- ===== src/Scenarios/ObserveRuns.antt =====
-- internal/observe on a few rounds and a few items.
use pg_console.Prelude.{
  ℕ, ◌+◌, ◌≤◌, ◌≡◌, ◌≢◌, ◌⊎◌, ◌↔◌, ◌<◌, refl, Bool, true, false, none, some, List, [], ◌∷◌, String,
  ltb, length, arith, if◌then◌else◌,
}
use pg_console.Prelude.Eq.{◌==◌, string_eq}
use pg_console.Prelude.Dict.{Dict, lookup}
use pg_console.Prelude.Dict.Sums.{Distinct}
use pg_console.Observe.Keyed.{Retention, put, put_all}
use pg_console.Observe.Keyed.Bounds.{IsFirst, length-put_all, lookup-put}
use pg_console.Observe.Keyed.Cut.{IsOrder}
use pg_console.Observe.Loop.{
  Feed, Round, publish, mark_stale, wait_for, new_loop, turn, watch, retry, consume, fold_item, run,
}
use pg_console.Observe.Loop.Backoff.{IsPaced, run-IsPaced}
use pg_console.Observe.Loop.Freshness.{stale_after, StaleWaits, run-StaleWaits}

-- A resource: its name, its UID and its age.
record Item : Type 0 where
  name : String
  uid : String
  age : ℕ

abbrev older_first : Retention Item
older_first = record {
  name = λ i. i.name;
  uid = λ i. i.uid;
  limit = 2;
  evictable = λ a b. ltb b.age a.age;
}

abbrev first_item : Item
first_item = record { name = "a"; uid = "1"; age = 5 }

abbrev old_item : Item
old_item = record { name = "b"; uid = "2"; age = 9 }

abbrev new_item : Item
new_item = record { name = "c"; uid = "3"; age = 1 }

abbrev two : Dict String Item
two = ("a", first_item) ∷ ("b", old_item) ∷ []

length-put_all_example : length (put_all older_first (first_item ∷ old_item ∷ new_item ∷ []) []) ≤ 2
length-put_all_example =
    length-put_all older_first (first_item ∷ old_item ∷ new_item ∷ []) (omega arith)

older_first-IsOrder : IsOrder older_first.evictable
older_first-IsOrder = record {
  asymmetric = λ a b h. ground (arith, h);
  transitive = λ a b c h k. ground (arith, h, k);
}

two-Distinct : Distinct two
unfolding lookup
two-Distinct = (refl, (refl, tt))

lookup-put_example :
    ((((put older_first new_item two).1 ≡ false)
        × ((j : String)
            → lookup j (put older_first new_item two).0
              ≡ (if "c" == j then some new_item else lookup j two)))
      ⊎ (((put older_first new_item two).1 ≡ true)
          × (loser : String) × (t : Item) × (lookup loser two ≡ some t)
          × (loser ≢ "c")
          × IsFirst older_first t two
          × ((j : String)
              → lookup j (put older_first new_item two).0
                ≡ (if "c" == j then some new_item else if loser == j then none else lookup j two))))
    × (((put older_first new_item two).1 ≡ true)
        ↔ ((lookup "c" two ≡ none) × (0 < 2) × (2 ≤ length two)))
lookup-put_example = lookup-put older_first new_item two older_first-IsOrder two-Distinct

abbrev sizes : List ℕ
sizes = 3 ∷ 9 ∷ 5 ∷ []

-- A feed whose state is a number: an answer of zero is an error, an item is added and published
-- when it is not zero.
abbrev adder : Feed ℕ ℕ ℕ
adder = record {
  seed = λ answer s. if ltb 0 answer then some answer else none;
  apply = λ item s. (s + item, ltb 0 item);
}

abbrev round : ℕ → Bool → List ℕ → Bool → Round ℕ ℕ
round answer starts items cancelled = record {
  answer = answer;
  starts = starts;
  items = items;
  cancelled = cancelled;
}

abbrev rounds : List (Round ℕ ℕ)
rounds = round 0 true [] false ∷ round 0 true [] false ∷ round 4 true (1 ∷ 0 ∷ []) false ∷ []

rounds_outputs : (run adder rounds (new_loop 0)).outputs ≡ (
    mark_stale
    ∷ wait_for 1_000_000_000
    ∷ mark_stale
    ∷ wait_for 2_000_000_000
    ∷ publish 4
    ∷ publish 5
    ∷ mark_stale
    ∷ wait_for 1_000_000_000
    ∷ [])
unfolding run turn watch retry consume fold_item new_loop
rounds_outputs = refl

run-IsPaced_example : IsPaced (run adder rounds (new_loop 0))
run-IsPaced_example = run-IsPaced adder rounds 0

run-StaleWaits_example :
    StaleWaits false (run adder rounds (new_loop 0)).outputs
    × (((turn adder (round 0 true [] false) (run adder rounds (new_loop 0))).1 ≡ true)
        ⊎ (stale_after false
              (turn adder (round 0 true [] false) (run adder rounds (new_loop 0))).0.outputs
            ≡ true))
run-StaleWaits_example = run-StaleWaits adder rounds (round 0 true [] false) 0
