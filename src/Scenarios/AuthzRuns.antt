-- ===== src/Scenarios/AuthzRuns.antt =====
-- internal/authz/authz.go on concrete values.
use pg_console.Prelude.{◌≡◌, ◌≢◌, ◌↔◌, refl, codes}
use pg_console.Authz.{tier_none, tier_view, tier_power_user, tier_dba, parse_level}
use pg_console.Authz.Parse.{Names, parse_level_iff}

padded_dba : parse_level (codes " dba ") ≡ tier_dba
unfolding parse_level
padded_dba = refl

tabbed_dba : parse_level (codes "dba\t") ≡ tier_none
unfolding parse_level
tabbed_dba = refl

upper_case : parse_level (codes "DBA") ≡ tier_none
unfolding parse_level
upper_case = refl

spelled : parse_level (codes "poweruser") ≡ tier_power_user
unfolding parse_level
spelled = refl

view-ne-none : tier_view ≢ tier_none
view-ne-none = cc

parse_level_iff_example :
    (parse_level (codes " view ") ≡ tier_view) ↔ Names tier_view (codes " view ")
parse_level_iff_example = parse_level_iff tier_view (codes " view ") view-ne-none
