-- ===== src/Ops/Executor/Bound.antt =====
-- What an operation's token is bound to.
use pg_console.Prelude.{
  ℕ, ◌^◌, ◌≡◌, ◌≤◌, ◌<◌, ◌⊎◌, refl, subst, arith, Bool, true, ◌&&◌, not, eqb, some, List, [], ◌∷◌,
  ◌++◌, String, codes, codes-injective, inl, inr, Bool-cases,
}
use pg_console.Prelude.Eq.{◌==◌, ==_iff, string_eq}
use pg_console.Ops.Csrf.{Tokens, IsTokens, Csrf, csrf_max_age, split_dot, mac}
use pg_console.Ops.Csrf.Binding.{InTime, Collision, verify-binds}
use pg_console.Ops.Executor.{Descriptor, describe, describe_in, catalog, with_nul, verify_operation}

abbrev no_nul : List ℕ → Bool
no_nul [] = true
no_nul (c ∷ cs) = not (eqb c 0) && no_nul cs

abbrev NoneHasNul : List Descriptor → Type 0
NoneHasNul [] = Unit
NoneHasNul (d ∷ ds) = (no_nul (codes d.id) ≡ true) × NoneHasNul ds

-- The first zero divides a context.
first_nul :
    (a b p q : List ℕ)
    → no_nul a ≡ true
    → no_nul b ≡ true
    → a ++ 0 ∷ p ≡ b ++ 0 ∷ q
    → (a ≡ b) × (p ≡ q)
first_nul [] [] p q da db same = (refl, cc same)
first_nul [] (c ∷ b) p q da db same = absurd (ground (arith, db, same))
first_nul (c ∷ a) [] p q da db same = absurd (ground (arith, da, same))
first_nul (c ∷ a) (d ∷ b) p q da db same =
    let (r, s) = first_nul a b p q (ground (arith, da)) (ground (arith, db)) (cc same) in
    (cc (same, r), s)

describe_in-no_nul :
    (ds : List Descriptor) (id : String) (d : Descriptor)
    → NoneHasNul ds
    → describe_in ds id ≡ some d
    → no_nul (codes id) ≡ true
unfolding describe_in
describe_in-no_nul [] id d clean known = absurd (ground (arith, known))
describe_in-no_nul (e ∷ ds) id d (here, later) known = elim (Bool-cases (e.id == id)) [
  | inl found ↦ subst (λ x. no_nul (codes x) ≡ true) ((==_iff e.id id).0 found) here
  | inr other ↦ describe_in-no_nul ds id d later (ground (arith, known, other))
]

describe-no_nul : (id : String) (d : Descriptor) → describe id ≡ some d → no_nul (codes id) ≡ true
unfolding describe catalog
describe-no_nul id d known =
    describe_in-no_nul catalog id d (refl, (refl, (refl, (refl, tt)))) known

-- For clock times from ten minutes on, below 2 ^ 63: a token with the code of one that was issued for an
-- operation of the catalog and a target verifies for no other operation of it and no other target, and
-- only in the ten minutes from the issue, whatever time the token states; or else two messages have one
-- code under the key.
pub verify_operation-binds :
    (t : Tokens) (csrf : Csrf) (id other : String) (d e : Descriptor)
    (target aim token stamp : List ℕ) (issued now : ℕ)
    → IsTokens t
    → describe id ≡ some d
    → describe other ≡ some e
    → csrf_max_age ≤ now
    → now < 2 ^ 63
    → issued < 2 ^ 63
    → split_dot token ≡ some (stamp, mac t csrf (with_nul id target) issued)
    → verify_operation t csrf other aim token now ≡ true
    → ((other ≡ id) × (aim ≡ target) × InTime now issued) ⊎ Collision t csrf
unfolding verify_operation
verify_operation-binds t csrf id other d e target aim token stamp issued now h known found late low
      early dot accepted =
    elim (verify-binds t h csrf (with_nul id target) issued now late low early (with_nul other aim)
      token stamp dot accepted) [
        | inl (same, timely) ↦
            let (ids, targets) =
              first_nul (codes other) (codes id) aim target (describe-no_nul other e found)
                (describe-no_nul id d known) same in
            inl (codes-injective other id ids, targets, timely)
        | inr collision ↦ inr collision
      ]
