-- ===== src/Authz.antt =====
-- internal/authz/authz.go: the tier that a proxy-asserted level grants.
--
-- A level is the list of its code points. `strings.TrimSpace` drops the code points of
-- `unicode.IsSpace` from both ends.
pub mod Parse
use pg_console.Prelude.{
  ℕ, Bool, true, false, ◌&&◌, ◌||◌, List, [], ◌∷◌, ◌++◌, reverse, String, ltb, leb, eqb, codes,
  if◌then◌else◌,
}

-- The tiers, in ascending order.
pub data Tier : Type 0 where
  tier_none tier_view tier_power_user tier_dba : Tier

abbrev pub level_view : String
level_view = "view"

abbrev pub level_power_user : String
level_power_user = "poweruser"

abbrev pub level_dba : String
level_dba = "dba"

unfoldable pub grantable_levels : List String
grantable_levels = level_view ∷ level_power_user ∷ level_dba ∷ []

-- `String`.
unfoldable pub tier_name : Tier → String
tier_name tier_view = "view"
tier_name tier_power_user = "poweruser"
tier_name tier_dba = "dba"
tier_name tier_none = "none"

unfoldable pub is_control : ℕ → Bool
is_control r = ltb r 0x20 || eqb r 0x7f

unfoldable pub any_control : List ℕ → Bool
unfolding is_control
any_control [] = false
any_control (r ∷ raw) = is_control r || any_control raw

unfoldable pub is_space : ℕ → Bool
is_space r =
    (leb 9 r && leb r 13)
    || eqb r 0x20
    || eqb r 0x85
    || eqb r 0xa0
    || eqb r 0x1680
    || (leb 0x2000 r && leb r 0x200a)
    || eqb r 0x2028
    || eqb r 0x2029
    || eqb r 0x202f
    || eqb r 0x205f
    || eqb r 0x3000

unfoldable pub trim_left : List ℕ → List ℕ
unfolding is_space
trim_left [] = []
trim_left (r ∷ raw) = let rest = trim_left raw in if is_space r then rest else r ∷ raw

unfoldable pub trim_space : List ℕ → List ℕ
unfolding trim_left
trim_space raw = reverse (trim_left (reverse (trim_left raw)))

unfoldable pub same : List ℕ → List ℕ → Bool
same [] [] = true
same (x ∷ xs) (y ∷ ys) = eqb x y && same xs ys
same _ _ = false

-- The `switch` on the trimmed level.
unfoldable pub match_level : List ℕ → Tier
unfolding same
match_level level =
    if same level (codes level_view)
    then tier_view
    else if same level (codes level_power_user)
    then tier_power_user
    else if same level (codes level_dba)
    then tier_dba
    else tier_none

unfoldable pub parse_level : List ℕ → Tier
unfolding any_control trim_space match_level
parse_level raw = if any_control raw then tier_none else match_level (trim_space raw)
