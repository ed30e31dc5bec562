-- ===== src/History/Paths/Owner.antt =====
-- The manager of a changed path.
use pg_console.Prelude.{
  ◌≡◌, refl, arith, Bool, true, false, ◌&&◌, List, [], ◌∷◌, String, if◌then◌else◌, Bool-cases, inl,
  inr,
}
use pg_console.Prelude.Eq.{◌==◌, ==_iff, string_eq}
use pg_console.History.Types.{FieldOwner}
use pg_console.History.Paths.{FieldPath, relates_any, attribute, attribute_from}

-- The managers with a path that relates to a path.
unfoldable pub candidates : FieldPath → List FieldOwner → List String
candidates path [] = []
candidates path (owner ∷ owners) =
    let rest = candidates path owners in
    if relates_any path owner.paths then owner.manager ∷ rest else rest

unfoldable pub all_same : String → List String → Bool
all_same name [] = true
all_same name (other ∷ others) = name == other && all_same name others

-- The only name of a list, or none.
unfoldable pub sole : List String → String
unfolding all_same
sole [] = ""
sole (name ∷ others) = if all_same name others then name else ""

-- No manager is without a name.
unfoldable pub AreNamed : List FieldOwner → Type 0
AreNamed [] = Unit
AreNamed (owner ∷ owners) = ((owner.manager == "") ≡ false) × AreNamed owners

attribute_from-named :
    (manager : String) (path : FieldPath) (owners : List FieldOwner)
    → (manager == "") ≡ false
    → AreNamed owners
    → attribute_from manager path owners
      ≡ (if all_same manager (candidates path owners) then manager else "")
unfolding attribute_from candidates all_same AreNamed
attribute_from-named manager path [] named all = refl
attribute_from-named manager path (owner ∷ owners) named (here, all) = ground (
  arith,
  attribute_from-named manager path owners named all,
  attribute_from-named owner.manager path owners here all,
  ==_iff manager owner.manager,
)

-- A changed path is attributed to the only manager with a related path, and to none where there is
-- no such manager or more than one, where every manager has a name.
pub attribute-sole :
    (path : FieldPath) (owners : List FieldOwner)
    → AreNamed owners
    → attribute path owners ≡ sole (candidates path owners)
unfolding attribute attribute_from candidates sole AreNamed
attribute-sole path [] all = refl
attribute-sole path (owner ∷ owners) (here, all) =
    elim (Bool-cases (relates_any path owner.paths)) [
      | inl related ↦ rw related (attribute_from-named owner.manager path owners here all)
      | inr unrelated ↦ rw unrelated (attribute-sole path owners all)
    ]
