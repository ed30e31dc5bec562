-- ===== src/History/Store/Listing.antt =====
-- What the store knows of each object after a complete listing of a scope.
use pg_console.Prelude.{
  ◌≡◌, refl, ◌∙◌, ap, true, not, ◌&&◌, ◌||◌, Option, none, some, List, [], ◌∷◌, String, arith,
  if◌then◌else◌, inl, inr, Option-cases,
}
use pg_console.Prelude.Eq.{string_eq, ◌==◌, ==_iff}
use pg_console.Prelude.Dict.{lookup}
use pg_console.Prelude.Sort.{insert_sorted, sort_strings}
use pg_console.History.Types.{Time, Observation}
use pg_console.History.Store.Defs.{Store}
use pg_console.History.Store.Ops.{
  uids_of, missing, gone_uids, delete_unobserved, delete_all, observe_all, observe_at, seed,
}
use pg_console.History.Store.Commit.{contains, or_empty}
use pg_console.History.Store.Current.{
  known_at, known_at-append_revision, known_at-forget, known_at-observe_at,
}

contains-insert_sorted :
    (j k : String) (ks : List String) → contains j (insert_sorted k ks) ≡ (k == j || contains j ks)
unfolding insert_sorted contains
contains-insert_sorted j k [] = ground arith
contains-insert_sorted j k (x ∷ ks) = ground (arith, contains-insert_sorted j k ks)

contains-sort_strings :
    (j : String) (ks : List String) → contains j (sort_strings ks) ≡ contains j ks
unfolding sort_strings contains
contains-sort_strings j [] = refl
contains-sort_strings j (k ∷ ks) =
    ground (arith, contains-insert_sorted j k (sort_strings ks), contains-sort_strings j ks)

contains-missing :
    (j : String) (listed uids : List String)
    → contains j (missing listed uids) ≡ (contains j uids && not (contains j listed))
unfolding missing contains
contains-missing j listed [] = refl
contains-missing j listed (k ∷ uids) = ground (arith, contains-missing j listed uids, ==_iff k j)

known_at-delete_unobserved :
    (j uid : String) (now : Time) (s : Store)
    → known_at j (delete_unobserved uid now s) ≡ (if uid == j then none else known_at j s)
unfolding delete_unobserved
known_at-delete_unobserved j uid now s = elim (Option-cases (lookup uid s.objects)) [
  | inl e ↦ rw (e, delete_unobserved) (ground (arith, e, ==_iff uid j))
  | inr (state, e) ↦
      rw (e, delete_unobserved)
        (known_at-forget j uid _
          ∙ ap (λ old. if uid == j then none else old) (known_at-append_revision j _ s))
]

known_at-delete_all :
    (j : String) (uids : List String) (now : Time) (s : Store)
    → known_at j (delete_all uids now s) ≡ (if contains j uids then none else known_at j s)
unfolding delete_all contains
known_at-delete_all j [] now s = refl
known_at-delete_all j (uid ∷ uids) now s = ground (
  arith,
  known_at-delete_all j uids now (delete_unobserved uid now s),
  known_at-delete_unobserved j uid now s,
)

-- What a listing says of an object, the last mention if there are several, over what was known.
abbrev pub listed_as :
    String
    → List Observation
    → Time
    → Option (String × String × Time)
    → Option (String × String × Time)
listed_as j [] now old = old
listed_as j (obs ∷ rest) now old = listed_as j rest now (
    if obs.uid == j
    then (if obs.deleted then none else some (obs.spec_hash, obs.status_hash, now))
    else old)

known_at-observe_all :
    (j : String) (listing : List Observation) (now : Time) (s : Store)
    → known_at j (observe_all listing now s) ≡ listed_as j listing now (known_at j s)
unfolding observe_all
known_at-observe_all j [] now s = refl
known_at-observe_all j (obs ∷ rest) now s =
    known_at-observe_all j rest now (observe_at obs now true s)
    ∙ ap (listed_as j rest now) (known_at-observe_at obs now true s j)

-- A complete listing makes an object of the scope that it lacks unknown, and its hashes and the time
-- what is known of an object that it has; what is known of every other object is as it was.
pub known_at-seed :
    (scope : String) (listing : List Observation) (now : Time) (s : Store) (j : String)
    → known_at j (seed scope listing now s)
      ≡ listed_as j listing now (
          if contains j (or_empty (lookup scope s.scopes)) && not (contains j (uids_of listing))
          then none
          else known_at j s)
unfolding seed gone_uids
known_at-seed scope listing now s j =
    let held = or_empty (lookup scope s.scopes) in
    known_at-observe_all j listing now (delete_all (gone_uids scope listing s) now s)
    ∙ ap (listed_as j listing now) (
        known_at-delete_all j (gone_uids scope listing s) now s
        ∙ ap (λ b. if b then none else known_at j s)
            (contains-sort_strings j (missing (uids_of listing) held)
              ∙ contains-missing j (uids_of listing) held))
