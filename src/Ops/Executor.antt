-- ===== src/Ops/Executor.antt =====
-- internal/ops/ops.go: the closed set of operations, and the execution of one.
--
-- What an execution does is a list of events: the calls of the writer, whose answers are an argument,
-- and the lines of the audit.
pub mod Audited
pub mod Bound
use pg_console.Prelude.{
  ℕ, Bool, true, false, ◌&&◌, Option, none, some, List, [], ◌∷◌, ◌++◌, String, codes, if◌then◌else◌,
}
use pg_console.Prelude.Eq.{◌==◌, string_eq}
use pg_console.Ops.Csrf.{Tokens, Csrf, issue, verify}
use pg_console.Ops.Redact.{Errors, category_not_found, category_internal, new_error, safe}

pub record Descriptor : Type 0 where
  pub id : String
  pub needs_instance : Bool

abbrev pub backup : String
backup = "backup"

abbrev pub reload : String
reload = "reload"

abbrev pub restart : String
restart = "restart"

abbrev pub promote : String
promote = "promote"

-- Without the titles, which are only rendered.
unfoldable pub catalog : List Descriptor
catalog =
    record { id = backup; needs_instance = false }
    ∷ record { id = reload; needs_instance = false }
    ∷ record { id = restart; needs_instance = false }
    ∷ record { id = promote; needs_instance = true }
    ∷ []

unfoldable pub describe_in : List Descriptor → String → Option Descriptor
describe_in [] id = none
describe_in (d ∷ ds) id = let rest = describe_in ds id in if d.id == id then some d else rest

unfoldable pub describe : String → Option Descriptor
unfolding describe_in catalog
describe id = describe_in catalog id

pub record Actor : Type 0 where
  pub user : List ℕ
  pub verified : Bool

pub data Mutation : Type 0 where
  create_backup : (name : List ℕ) → Mutation
  reload_cluster restart_cluster : (at : ℕ) → Mutation
  promote_instance : (instance_name : List ℕ) (at : ℕ) → Mutation

-- An audit line has the actor's user with the label of whether it is asserted by the proxy.
pub data Event : Type 0 where
  mutated : Mutation → Event
  audited :
      (id : String) (target : List ℕ) (outcome : String) (user : List ℕ) (verification : String)
      → Event

pub record Executed (E : Type 0) : Type 0 where
  pub outcome : String
  pub err : Option E
  pub events : List Event

abbrev pub is_empty : List ℕ → Bool
is_empty [] = true
is_empty (c ∷ cs) = false

abbrev pub with_nul : String → List ℕ → List ℕ
with_nul id target = codes id ++ 0 ∷ target

-- `Issue` and `Verify` of the executor.
unfoldable pub issue_operation : Tokens → Csrf → String → List ℕ → ℕ → List ℕ
issue_operation t c id target now = issue t c (with_nul id target) now

unfoldable pub verify_operation : Tokens → Csrf → String → List ℕ → List ℕ → ℕ → Bool
verify_operation t c id target token now = verify t c (with_nul id target) token now

unfoldable pub backup_name : Tokens → ℕ → List ℕ
backup_name t now = codes "ondemand-" ++ t.format_int now

-- The switch on the operation.
unfoldable pub mutation_of : Tokens → String → List ℕ → ℕ → Option Mutation
unfolding backup_name
mutation_of t id target now =
    if id == backup
    then some (create_backup (backup_name t now))
    else if id == reload
    then some (reload_cluster now)
    else if id == restart
    then some (restart_cluster now)
    else if id == promote
    then some (promote_instance target now)
    else none

unfoldable pub audit : String → List ℕ → String → Actor → Event
audit id target outcome actor =
    audited id target outcome actor.user (if actor.verified then "proxy-asserted" else "unverified")

module _ {E : Type 0} (errors : Errors E) (t : Tokens) (writer : Mutation → Option E) where
  abbrev pub written : Option Mutation → Option E
  written none = none
  written (some m) = writer m

  abbrev pub calls : Option Mutation → List Event
  calls none = []
  calls (some m) = mutated m ∷ []

  abbrev pub outcome_of : Option E → String
  outcome_of none = "accepted"
  outcome_of (some err) = safe errors (some err)

  abbrev pub rejected : E → Executed E
  rejected err = record { outcome = "rejected"; err = some err; events = [] }

  -- The part of `Execute` after its checks.
  unfoldable pub carry_out : String → List ℕ → Actor → ℕ → Executed E
  unfolding mutation_of audit
  carry_out id target actor now =
      let m = mutation_of t id target now in
      let outcome = outcome_of (written m) in
      record {
        outcome = outcome;
        err = written m;
        events = calls m ++ audit id target outcome actor ∷ [];
      }

  unfoldable pub execute : String → List ℕ → Actor → ℕ → Executed E
  unfolding describe carry_out
  execute id target actor now = elim (describe id) [
    | none ↦ rejected (new_error errors "operation" category_not_found none)
    | some d ↦
        if d.needs_instance && is_empty target
        then rejected (new_error errors "operation" category_internal none)
        else carry_out id target actor now
  ]
