-- ===== src/Ops/Redact.antt =====
-- internal/redact/redact.go: the categories of an error, the only form of it that is shown.
--
-- What `errors.As` and `errors.Is` find in an error is an argument.
use pg_console.Prelude.{Bool, Option, none, some, String, if◌then◌else◌}

pub data Category : Type 0 where
  category_canceled category_timeout category_forbidden : Category
  category_not_found category_unavailable category_internal : Category

abbrev pub category_name : Category → String
category_name category_canceled = "canceled"
category_name category_timeout = "timeout"
category_name category_forbidden = "forbidden"
category_name category_not_found = "notfound"
category_name category_unavailable = "unavailable"
category_name category_internal = "internal"

-- `Error`, without the text that it never shows.
pub record Fault (E : Type 0) : Type 0 where
  pub op : String
  pub cat : Category
  pub cause : Option E

-- `as_categorizer` is `errors.As` for a Categorizer, with its category.
pub record Errors (E : Type 0) : Type 0 where
  pub of_fault : Fault E → E
  pub as_categorizer : E → Option Category
  pub is_canceled : E → Bool
  pub is_deadline : E → Bool

module _ {E : Type 0} (errors : Errors E) where
  unfoldable pub new_error : String → Category → Option E → E
  new_error op cat cause = errors.of_fault (record { op = op; cat = cat; cause = cause })

  unfoldable pub categorize : E → Category
  categorize err = elim (errors.as_categorizer err) [
    | some c ↦ c
    | none ↦
        if errors.is_canceled err
        then category_canceled
        else if errors.is_deadline err
        then category_timeout
        else category_internal
  ]

  unfoldable pub safe : Option E → String
  unfolding categorize
  safe none = ""
  safe (some err) = category_name (categorize err)
