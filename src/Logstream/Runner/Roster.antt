-- ===== src/Logstream/Runner/Roster.antt =====
-- internal/logstream/runner.go: the set of followers and the observed members.
use pg_console.Prelude.{
  ◌≡◌, refl, ◌∙◌, inl, inr, arith, Bool, true, false, not, ◌&&◌, ◌||◌, List, [], ◌∷◌, ◌++◌,
  if◌then◌else◌, Bool-cases,
}
use pg_console.Prelude.Eq.{◌==◌, ==_iff, string_eq, pair_eq}
use pg_console.Logstream.Matcher.{Member}
use pg_console.Logstream.Runner.{
  Act, cancels, starts, has, wanted_from, cancel_gone, start_new, reconcile,
}

unfoldable pub is_cancelled : Member → List Act → Bool
is_cancelled x [] = false
is_cancelled x (cancels y ∷ acts) = y == x || is_cancelled x acts
is_cancelled x (starts y ∷ acts) = is_cancelled x acts

unfoldable pub is_started : Member → List Act → Bool
is_started x [] = false
is_started x (cancels y ∷ acts) = is_started x acts
is_started x (starts y ∷ acts) = y == x || is_started x acts

-- No member stands twice in the list.
unfoldable pub IsUnique : List Member → Type 0
IsUnique [] = Unit
IsUnique (x ∷ xs) = (has x xs ≡ false) × IsUnique xs

has-same : (x y : Member) (ys : List Member) → (y == x) ≡ true → has y ys ≡ has x ys
has-same x y ys same = rw ((==_iff y x).0 same) refl

module _ (x : Member) where
  has-wanted_from :
      (wanted members : List Member)
      → has x (wanted_from wanted members) ≡ (has x wanted || has x members)
  unfolding wanted_from has
  has-wanted_from wanted [] = ground arith
  has-wanted_from wanted (y ∷ members) =
      has-wanted_from (if has y wanted then wanted else y ∷ wanted) members
      ∙ ground (arith, has-same x y wanted, ==_iff y x)

  has-cancel_gone :
      (wanted running : List Member)
      → has x (cancel_gone wanted running).0 ≡ (has x running && has x wanted)
  unfolding cancel_gone has
  has-cancel_gone wanted [] = refl
  has-cancel_gone wanted (y ∷ running) = ground (arith, has-cancel_gone wanted running, ==_iff y x)

  is_cancelled-cancel_gone :
      (wanted running : List Member)
      → is_cancelled x (cancel_gone wanted running).1 ≡ (has x running && not (has x wanted))
  unfolding cancel_gone has is_cancelled
  is_cancelled-cancel_gone wanted [] = refl
  is_cancelled-cancel_gone wanted (y ∷ running) =
      ground (arith, is_cancelled-cancel_gone wanted running, ==_iff y x)

  is_started-cancel_gone :
      (wanted running : List Member) → is_started x (cancel_gone wanted running).1 ≡ false
  unfolding cancel_gone is_started
  is_started-cancel_gone wanted [] = refl
  is_started-cancel_gone wanted (y ∷ running) =
      ground (arith, is_started-cancel_gone wanted running)

  has-start_new :
      (running wanted : List Member)
      → has x (start_new running wanted).0 ≡ (has x running || has x wanted)
  unfolding start_new has
  has-start_new running [] = ground arith
  has-start_new running (y ∷ wanted) =
      ground (arith, has-start_new (y ∷ running) wanted, has-start_new running wanted, ==_iff y x)

  is_started-start_new :
      (running wanted : List Member)
      → is_started x (start_new running wanted).1 ≡ (has x wanted && not (has x running))
  unfolding start_new has is_started
  is_started-start_new running [] = refl
  is_started-start_new running (y ∷ wanted) = ground (
    arith,
    is_started-start_new (y ∷ running) wanted,
    is_started-start_new running wanted,
    ==_iff y x,
  )

  is_cancelled-start_new :
      (running wanted : List Member) → is_cancelled x (start_new running wanted).1 ≡ false
  unfolding start_new is_cancelled
  is_cancelled-start_new running [] = refl
  is_cancelled-start_new running (y ∷ wanted) =
      ground
        (arith, is_cancelled-start_new (y ∷ running) wanted, is_cancelled-start_new running wanted)

  is_cancelled-append :
      (a b : List Act) → is_cancelled x (a ++ b) ≡ (is_cancelled x a || is_cancelled x b)
  unfolding is_cancelled
  is_cancelled-append [] b = refl
  is_cancelled-append (cancels y ∷ a) b = ground (arith, is_cancelled-append a b)
  is_cancelled-append (starts y ∷ a) b = is_cancelled-append a b

  is_started-append : (a b : List Act) → is_started x (a ++ b) ≡ (is_started x a || is_started x b)
  unfolding is_started
  is_started-append [] b = refl
  is_started-append (cancels y ∷ a) b = is_started-append a b
  is_started-append (starts y ∷ a) b = ground (arith, is_started-append a b)

cancel_gone-IsUnique :
    (wanted running : List Member) → IsUnique running → IsUnique (cancel_gone wanted running).0
unfolding cancel_gone IsUnique
cancel_gone-IsUnique wanted [] unique = tt
cancel_gone-IsUnique wanted (x ∷ running) (fresh, unique) = elim (Bool-cases (has x wanted)) [
  | inl stays ↦ rw stays (
    rw (has-cancel_gone x wanted running) (rw fresh refl),
    cancel_gone-IsUnique wanted running unique,
  )
  | inr gone ↦ rw gone (cancel_gone-IsUnique wanted running unique)
]

start_new-IsUnique :
    (running wanted : List Member) → IsUnique running → IsUnique (start_new running wanted).0
unfolding start_new IsUnique
start_new-IsUnique running [] unique = unique
start_new-IsUnique running (x ∷ wanted) unique = elim (Bool-cases (has x running)) [
  | inl already ↦ rw already (start_new-IsUnique running wanted unique)
  | inr new ↦ rw new (start_new-IsUnique (x ∷ running) wanted (new, unique))
]

-- After a reconciliation exactly the observed members are followed, each once; exactly the followers
-- of the members that are gone have been cancelled, and exactly the members without a follower have
-- been given one. Before it no member is followed twice.
pub reconcile_lem :
    (x : Member) (members running : List Member)
    → IsUnique running
    → (has x (reconcile members running).0 ≡ has x members)
      × ((is_cancelled x (reconcile members running).1 ≡ (has x running && not (has x members)))
          × ((is_started x (reconcile members running).1 ≡ (has x members && not (has x running)))
              × IsUnique (reconcile members running).0))
unfolding reconcile has
reconcile_lem x members running unique =
    let wanted = wanted_from [] members in
    let kept = (cancel_gone wanted running).0 in
    let gone = (cancel_gone wanted running).1 in
    let new = (start_new kept wanted).1 in
    let named = has-wanted_from x [] members in
    let stay = has-cancel_gone x wanted running in
    (
      ground (arith, named, stay, has-start_new x kept wanted),
      (
        ground (
          arith,
          named,
          is_cancelled-append x gone new,
          is_cancelled-cancel_gone x wanted running,
          is_cancelled-start_new x kept wanted,
        ),
        (
          ground (
            arith,
            named,
            stay,
            is_started-append x gone new,
            is_started-cancel_gone x wanted running,
            is_started-start_new x kept wanted,
          ),
          start_new-IsUnique kept wanted (cancel_gone-IsUnique wanted running unique),
        ),
      ),
    )
