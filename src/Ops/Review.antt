-- ===== src/Ops/Review.antt =====
-- internal/review/review.go: the decision of an access request.
use pg_console.Prelude.{
  ℕ, Bool, true, false, ◌||◌, Option, none, some, List, [], ◌∷◌, ◌++◌, String, codes, if◌then◌else◌,
}
use pg_console.Prelude.Eq.{◌==◌, string_eq, nat_eq, list_eq}
use pg_console.Authz.{grantable_levels}
use pg_console.Ops.Csrf.{Tokens, Csrf, issue, verify}
use pg_console.Ops.Redact.{Errors, safe}
use pg_console.Ops.Executor.{with_nul}

abbrev pub action_approve : String
action_approve = "approve"

abbrev pub action_deny : String
action_deny = "deny"

-- `WriteAccessRequestStatus` and the line of the audit.
pub data ReviewEvent : Type 0 where
  status_written :
      (name : List ℕ) (state : String) (level decided_by : List ℕ) (decided_at : ℕ) → ReviewEvent
  decision_audited :
      (action : String) (name level : List ℕ) (outcome reviewer : List ℕ) → ReviewEvent

-- The two errors of the package, and an error of the writer.
pub data ReviewError (E : Type 0) : Type 0 where
  invalid_action unknown_level : ReviewError E
  write_failed : E → ReviewError E

pub record Decided (E : Type 0) : Type 0 where
  pub outcome : String
  pub err : Option (ReviewError E)
  pub events : List ReviewEvent

-- `Issue` and `Verify` of the reviewer: the action comes first.
unfoldable pub issue_decision : Tokens → Csrf → List ℕ → String → ℕ → List ℕ
issue_decision t c name action now = issue t c (with_nul action name) now

unfoldable pub verify_decision : Tokens → Csrf → List ℕ → String → List ℕ → ℕ → Bool
verify_decision t c name action token now = verify t c (with_nul action name) token now

unfoldable pub grantable_in : List String → List ℕ → Bool
grantable_in [] level = false
grantable_in (allowed ∷ levels) level = level == codes allowed || grantable_in levels level

unfoldable pub grantable : List ℕ → Bool
unfolding grantable_in grantable_levels
grantable level = grantable_in grantable_levels level

abbrev pub is_some_error : {E : Type 0} → Option E → Bool
is_some_error none = false
is_some_error (some err) = true

module _ {E : Type 0} (errors : Errors E) (writer : ReviewEvent → Option E) where
  abbrev pub failed : Option E → Option (ReviewError E)
  failed none = none
  failed (some err) = some (write_failed err)

  abbrev pub audit_outcome : Option E → List ℕ
  audit_outcome none = codes "recorded"
  audit_outcome (some err) = codes "write failed: " ++ codes (safe errors (some err))

  -- The write of a decision and its audit.
  unfoldable pub write_decision : List ℕ → String → String → List ℕ → List ℕ → ℕ → Decided E
  write_decision name action state granted decided_by now =
      let write = status_written name state granted decided_by now in
      let err = writer write in
      record {
        outcome = if is_some_error err then "" else state;
        err = failed err;
        events = write ∷ decision_audited action name granted (audit_outcome err) decided_by ∷ [];
      }

  unfoldable pub decide : List ℕ → String → List ℕ → List ℕ → ℕ → Decided E
  unfolding grantable write_decision
  decide name action level decided_by now =
      if action == action_approve
      then (if grantable level
          then write_decision name action "approved" level decided_by now
          else record {
            outcome = "";
            err = some unknown_level;
            events =
                decision_audited action name [] (codes "rejected: unknown level") decided_by ∷ [];
          })
      else if action == action_deny
      then write_decision name action "denied" [] decided_by now
      else record { outcome = ""; err = some invalid_action; events = [] }
