-- ===== src/Web.antt =====
-- internal/web/handler.go, ops.go and accessreview.go: the gate of a route, and the two routes that
-- mutate. Of a page only its status is kept; the routes that render only are left out.
pub mod Gate
pub mod Operations
pub mod Decisions
use pg_console.Prelude.{
  ℕ, zero, suc, ◌-◌, Bool, true, false, not, ◌&&◌, ◌||◌, Option, none, some, List, [], ◌∷◌, String,
  ltb, leb, eqb, length, codes, if◌then◌else◌,
}
use pg_console.Prelude.Eq.{◌==◌, string_eq, nat_eq, list_eq}
use pg_console.Authz.{Tier, tier_none, tier_view, tier_power_user, tier_dba, parse_level}
use pg_console.Ops.Csrf.{Tokens, Csrf}
use pg_console.Ops.Identity.{Identity, Extractor, from_request}
use pg_console.Ops.Redact.{Errors}
use pg_console.Ops.Executor.{
  Descriptor, describe, Actor, Mutation, Event, Executed, verify_operation, execute,
}
use pg_console.Ops.Review.{
  ReviewEvent, ReviewError, invalid_action, unknown_level, write_failed, Decided, verify_decision,
  decide,
}

-- A request: `r.Header.Get`, the values of its path, and its form, which may not parse.
pub record Request : Type 0 where
  pub header : String → List ℕ
  pub op : String
  pub name : List ℕ
  pub form : Option (String → List ℕ)

-- The headers that the deployment names.
pub record Auth : Type 0 where
  pub extractor : Option Extractor
  pub level_header : String

-- The status of a page, and what was done before it.
pub record Response (A : Type 0) : Type 0 where
  pub status : ℕ
  pub done : List A

abbrev pub refuse : {A : Type 0} → ℕ → Response A
refuse status = record { status = status; done = [] }

abbrev pub rank : Tier → ℕ
rank tier_none = 0
rank tier_view = 1
rank tier_power_user = 2
rank tier_dba = 3

unfoldable pub level : Auth → Request → Tier
level auth r =
    if auth.level_header == "" then tier_none else parse_level (r.header auth.level_header)

abbrev pub identified : Option Extractor → Request → Option Identity
identified none r = none
identified (some e) r = from_request e r.header

unfoldable pub require_level :
    {A : Type 0} → Auth → Tier → (Request → Response A) → Request → Response A
unfolding level
require_level auth least next r = elim auth.extractor [
  | none ↦ refuse 503
  | some e ↦ if auth.level_header == "" then refuse 503 else elim (from_request e r.header) [
    | none ↦ refuse 403
    | some identity ↦ if ltb (rank (level auth r)) (rank least) then refuse 403 else next r
  ]
]

unfoldable pub same_origin_post : Request → Bool
same_origin_post r =
    let site = r.header "Sec-Fetch-Site" in
    not (site == codes "cross-site" || site == codes "same-site")

abbrev pub is_alphanumeric : ℕ → Bool
is_alphanumeric c = leb b'a' c && leb c b'z' || leb b'0' c && leb c b'9'

abbrev pub is_inner : ℕ → Bool
is_inner c = is_alphanumeric c || eqb c b'-' || eqb c b'.'

-- The rest of a name: inner characters, and an alphanumeric one at the end.
unfoldable pub inner_name : List ℕ → Bool
inner_name [] = true
inner_name (c ∷ []) = is_alphanumeric c
inner_name (c ∷ d ∷ cs) = is_inner c && inner_name (d ∷ cs)

-- A match of `^[a-z0-9]([-a-z0-9.]{0,251}[a-z0-9])?$`.
unfoldable pub pod_name : List ℕ → Bool
unfolding inner_name
pod_name [] = false
pod_name (c ∷ cs) = is_alphanumeric c && inner_name cs && leb (length cs) 252

module _ {E : Type 0} (errors : Errors E) (t : Tokens) (csrf : Csrf) (auth : Auth) where
  unfoldable pub actor_of : Request → Actor
  actor_of r = elim (identified auth.extractor r) [
    | none ↦ record { user = []; verified = false }
    | some identity ↦ record { user = identity.user; verified = true }
  ]

  module _ (writer : Mutation → Option E) where
    abbrev pub result_page : Executed E → Response Event
    result_page ran = record {
      status = elim ran.err [ none ↦ 200 | some err ↦ 502 ];
      done = ran.events;
    }

    -- The part of the execution that has the target and the token.
    unfoldable pub execute_confirmed : Descriptor → List ℕ → List ℕ → ℕ → Request → Response Event
    unfolding actor_of
    execute_confirmed d target token now r =
        if verify_operation t csrf d.id target token now
        then result_page (execute errors t writer d.id target (actor_of r) now)
        else refuse 403

    unfoldable pub execute_form : Descriptor → (String → List ℕ) → ℕ → Request → Response Event
    unfolding execute_confirmed pod_name
    execute_form d form now r =
        let target = form "instance" in
        if d.needs_instance && not (pod_name target)
        then refuse 400
        else execute_confirmed d (if d.needs_instance then target else []) (form "csrf") now r

    -- The part of the handler that has a form, where the form parses.
    abbrev pub with_form : Descriptor → Option (String → List ℕ) → ℕ → Request → Response Event
    with_form d none now r = refuse 400
    with_form d (some form) now r = execute_form d form now r

    unfoldable pub handle_operation_execute : ℕ → Request → Response Event
    unfolding same_origin_post execute_form
    handle_operation_execute now r = elim (describe r.op) [
      | none ↦ refuse 404
      | some d ↦ if not (same_origin_post r) then refuse 403 else with_form d r.form now r
    ]

    -- The route `POST /operations/{op}`, which exists in operations mode.
    unfoldable pub post_operation : ℕ → Request → Response Event
    unfolding require_level handle_operation_execute
    post_operation now r = require_level auth tier_dba (handle_operation_execute now) r

  module _ (writer : ReviewEvent → Option E) where
    abbrev pub decision_status : Option (ReviewError E) → ℕ
    decision_status none = 200
    decision_status (some invalid_action) = 400
    decision_status (some unknown_level) = 400
    decision_status (some (write_failed err)) = 502

    abbrev pub decided_by : Request → List ℕ
    decided_by r = elim (identified auth.extractor r) [ none ↦ [] | some identity ↦ identity.user ]

    unfoldable pub decide_form : String → (String → List ℕ) → ℕ → Request → Response ReviewEvent
    decide_form action form now r =
        if verify_decision t csrf r.name action (form "csrf") now
        then (let decided = decide errors writer r.name action (form "level") (decided_by r) now in
            record { status = decision_status decided.err; done = decided.events })
        else refuse 403

    abbrev pub decide_with_form :
        String → Option (String → List ℕ) → ℕ → Request → Response ReviewEvent
    decide_with_form action none now r = refuse 400
    decide_with_form action (some form) now r = decide_form action form now r

    unfoldable pub handle_access_decision : String → ℕ → Request → Response ReviewEvent
    unfolding same_origin_post pod_name decide_form
    handle_access_decision action now r =
        if not (pod_name r.name)
        then refuse 404
        else if not (same_origin_post r)
        then refuse 403
        else decide_with_form action r.form now r

    -- The routes `POST /access-requests/{name}/{action}`, which exist in access-review mode.
    unfoldable pub post_decision : String → ℕ → Request → Response ReviewEvent
    unfolding require_level handle_access_decision
    post_decision action now r = require_level auth tier_dba (handle_access_decision action now) r
