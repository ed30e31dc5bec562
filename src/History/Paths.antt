-- ===== src/History/Paths.antt =====
-- internal/history/diff.go: field paths, and the manager to which a changed path is attributed.
--
-- A path is a list of code points. The order and the prefixes of texts are the same for code points
-- as for the bytes of their encoding.
pub mod Owner
use pg_console.Prelude.{
  ℕ, zero, suc, ◌+◌, ◌/◌, ◌%◌, Bool, true, false, not, ◌&&◌, ◌||◌, Option, none, some, List, [],
  ◌∷◌, ◌++◌, String, codes, ltb, leb, eqb, length, drop, if◌then◌else◌,
}
use pg_console.Prelude.Eq.{◌==◌, string_eq, nat_eq, list_eq}
use pg_console.Logstream.Texts.{starts_with}
use pg_console.History.Types.{FieldOwner}

abbrev pub FieldPath : Type 0
FieldPath = List ℕ

unfoldable pub is_simple_char : ℕ → Bool
is_simple_char c =
    leb b'A' c && leb c b'Z'
    || leb b'a' c && leb c b'z'
    || leb b'0' c && leb c b'9'
    || eqb c b'_'
    || eqb c b'-'

unfoldable pub all_simple : List ℕ → Bool
unfolding is_simple_char
all_simple [] = true
all_simple (c ∷ cs) = is_simple_char c && all_simple cs

abbrev pub is_nonempty : List ℕ → Bool
is_nonempty [] = false
is_nonempty (c ∷ cs) = true

-- A match of `^[A-Za-z0-9_-]+$`.
unfoldable pub simple_field_key : List ℕ → Bool
unfolding all_simple
simple_field_key key = is_nonempty key && all_simple key

unfoldable pub field_path_key : FieldPath → String → FieldPath
unfolding simple_field_key
field_path_key prefix key =
    prefix
    ++ (if simple_field_key (codes key)
        then b'.' ∷ codes key
        else codes "[\"" ++ codes key ++ codes "\"]")

unfoldable pub field_path_named : FieldPath → String → FieldPath
field_path_named prefix name = prefix ++ codes "[name=" ++ codes name ++ codes "]"

-- strconv.Itoa of a number that is not negative, with as much fuel as it has digits at most.
unfoldable pub digits : ℕ → ℕ → List ℕ
digits zero n = []
digits (suc fuel) n =
    let rest = digits fuel (n / 10) in (if ltb n 10 then [] else rest) ++ (b'0' + n % 10) ∷ []

unfoldable pub itoa : ℕ → List ℕ
unfolding digits
itoa n = digits (suc n) n

unfoldable pub field_path_index : FieldPath → ℕ → FieldPath
unfolding itoa
field_path_index prefix i = prefix ++ codes "[" ++ itoa i ++ codes "]"

abbrev pub is_boundary : List ℕ → Bool
is_boundary [] = false
is_boundary (c ∷ cs) = eqb c b'.' || eqb c b'['

unfoldable pub extends_at : FieldPath → FieldPath → Bool
extends_at long short =
    starts_with short long
    && not (leb (length long) (length short))
    && is_boundary (drop (length short) long)

unfoldable pub paths_relate : FieldPath → FieldPath → Bool
unfolding extends_at
paths_relate a b = is_nonempty a && is_nonempty b && (a == b || extends_at a b || extends_at b a)

-- The inner loop of `attribute`, which ends at the first related path.
unfoldable pub relates_any : FieldPath → List String → Bool
unfolding paths_relate
relates_any path [] = false
relates_any path (owned ∷ paths) = paths_relate path (codes owned) || relates_any path paths

unfoldable pub attribute_from : String → FieldPath → List FieldOwner → String
unfolding relates_any
attribute_from manager path [] = manager
attribute_from manager path (owner ∷ owners) =
    let rest = attribute_from manager path owners in
    let taken = attribute_from owner.manager path owners in
    if relates_any path owner.paths
    then (if not (manager == "") && not (manager == owner.manager) then "" else taken)
    else rest

unfoldable pub attribute : FieldPath → List FieldOwner → String
unfolding attribute_from
attribute path owners = attribute_from "" path owners
