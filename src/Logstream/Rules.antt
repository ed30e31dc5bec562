-- ===== src/Logstream/Rules.antt =====
-- internal/logstream/logstream.go: a rule for log lines, and the test of a line against it.
--
-- A text is its bytes. What a line decodes to is an argument, as `json.Unmarshal` gives it.
use pg_console.Prelude.{
  Bool, true, false, not, ◌&&◌, ◌||◌, Option, none, some, List, [], ◌∷◌, String, if◌then◌else◌,
}
use pg_console.Prelude.Eq.{◌==◌, string_eq, nat_eq, pair_eq, list_eq}
use pg_console.Logstream.Texts.{Bytes, contains, is_empty, split_from}

-- A decoded JSON value, as far as a field test tells values apart.
mutual
  pub data Json : Type 0 where
    text : Bytes → Json
    object : Members → Json
    other : Json

  pub data Members : Type 0 where
    no_members : Members
    member : Bytes → Json → Members → Members

unfoldable pub member_at : Bytes → Members → Option Json
member_at k no_members = none
member_at k (member j v ms) = let rest = member_at k ms in if j == k then some v else rest

pub record FieldTest : Type 0 where
  pub path : Bytes
  pub equals : Bytes
  pub contains : Bytes

abbrev pub differ : Bool → Bool → Bool
differ true b = not b
differ false b = b

unfoldable pub valid : FieldTest → Bool
valid t = not (is_empty t.path) && differ (is_empty t.equals) (is_empty t.contains)

abbrev pub object_of : Json → Option Members
object_of (object ms) = some ms
object_of _ = none

-- The walk of `fieldValue` over the segments.
unfoldable pub walk_to : List Bytes → Json → Option Json
walk_to [] current = some current
walk_to (segment ∷ segments) (object ms) = elim (member_at segment ms) [
  | none ↦ none
  | some next ↦ walk_to segments next
]
walk_to (segment ∷ segments) _ = none

abbrev pub text_of : Option Json → Option Bytes
text_of (some (text t)) = some t
text_of _ = none

unfoldable pub field_value : Option Members → Bytes → Option Bytes
unfolding walk_to
field_value none path = none
field_value (some ms) path =
    if is_empty path then none else text_of (walk_to (split_from b'.' [] path) (object ms))

-- `holds` on the value of the field.
unfoldable pub value_holds : FieldTest → Option Bytes → Bool
value_holds t none = false
value_holds t (some value) =
    if is_empty t.equals then contains value t.contains else value == t.equals

unfoldable pub holds : FieldTest → Option Members → Bool
unfolding valid field_value value_holds
holds t doc = valid t && value_holds t (field_value doc t.path)

pub record Rule : Type 0 where
  pub id : String
  pub contains : List Bytes
  pub except : List Bytes
  pub fields : List FieldTest
  pub summary : String

unfoldable pub contains_all : List Bytes → Bytes → Bool
contains_all [] t = true
contains_all (needle ∷ needles) t = contains t needle && contains_all needles t

unfoldable pub contains_any : List Bytes → Bytes → Bool
contains_any [] t = false
contains_any (needle ∷ needles) t = contains t needle || contains_any needles t

unfoldable pub hold_all : List FieldTest → Option Members → Bool
hold_all [] doc = true
hold_all (test ∷ tests) doc = holds test doc && hold_all tests doc

abbrev pub is_nil {ℓ} : {A : Type ℓ} → List A → Bool
is_nil [] = true
is_nil (x ∷ xs) = false

unfoldable pub matches : Rule → Bytes → Option Members → Bool
unfolding contains_all contains_any hold_all
matches r t doc =
    not (is_nil r.contains && is_nil r.fields)
    && contains_all r.contains t
    && hold_all r.fields doc
    && not (contains_any r.except t)

unfoldable pub structured : List Rule → Bool
structured [] = false
structured (r ∷ rules) = not (is_nil r.fields) || structured rules
