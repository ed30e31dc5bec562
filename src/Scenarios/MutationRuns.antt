-- ===== src/Scenarios/MutationRuns.antt =====
-- internal/ops, internal/review and the routes of internal/web that mutate, on a few requests. Numbers
-- are written in unary, and a code is the key before the message.
use pg_console.Prelude.{
  ℕ, zero, suc, ◌^◌, ◌≡◌, ◌⊎◌, ◌↔◌, refl, arith, true, false, Option, none, some, List, [], ◌∷◌,
  ◌++◌, String, codes, replicate, length, length-replicate, ltb, if◌then◌else◌,
}
use pg_console.Prelude.Eq.{◌==◌, string_eq}
use pg_console.Ops.Csrf.{
  Tokens, IsTokens, Csrf, all_digits, split_dot, age, is_fresh, message, mac, issue, verify,
}
use pg_console.Ops.Csrf.Binding.{InTime, Collision, verify-issue}
use pg_console.Ops.Identity.{from_request, sanitize, byte_length}
use pg_console.Ops.Redact.{Errors, Category, category_forbidden}
use pg_console.Ops.Executor.{
  Mutation, with_nul, mutated, promote_instance, audited, verify_operation, issue_operation,
  describe, describe_in, catalog, execute, carry_out, mutation_of, audit, promote, restart,
}
use pg_console.Ops.Executor.Bound.{verify_operation-binds}
use pg_console.Ops.Review.{ReviewEvent, action_approve}
use pg_console.Web.{
  Request, Auth, post_operation, post_decision, require_level, level, handle_operation_execute,
  execute_form, execute_confirmed, same_origin_post, pod_name, inner_name, actor_of,
}
use pg_console.Authz.{
  trim_space, trim_left, is_space, any_control, is_control, parse_level, match_level, same,
}
use pg_console.Web.Operations.{IsPermitted, target_of, answer, post_operation-Guards}
use pg_console.Web.Decisions.{Guards, post_decision-Guards}

abbrev unary : Tokens
unary = record {
  format_int = λ n. replicate n b'1';
  parse_int = λ text. if ltb (length text) (2 ^ 64) then some (length text) else none;
  hex_hmac = λ key message. key ++ message;
}

digits-replicate : (n : ℕ) → all_digits (replicate n b'1') ≡ true
digits-replicate zero = refl
digits-replicate (suc n) = digits-replicate n

unary-IsTokens : IsTokens unary
unary-IsTokens = record {
  in_range = λ text n read. ground (arith, read);
  digits_only = λ n low. digits-replicate n;
  reads_back = λ n low. ground (arith, low, length-replicate {A = ℕ} n b'1');
}

abbrev secret : Csrf
secret = record { key = 7 ∷ 8 ∷ 9 ∷ [] }

-- Ten minutes after the first second.
abbrev at : ℕ
at = 601

abbrev promotion : List ℕ
promotion = issue_operation unary secret promote (codes "pg-1") 1

abbrev headers : String → List ℕ
headers name =
    if name == "X-Level" then codes "dba" else if name == "X-User" then codes "ann" else []

abbrev form : String → List ℕ
form name =
    if name == "instance" then codes "pg-1" else if name == "level" then codes "view" else promotion

abbrev request : Request
request = record { header = headers; op = promote; name = codes "ann-wants"; form = some form }

abbrev auth : Auth
auth = record { extractor = some (record { user_header = "X-User" }); level_header = "X-Level" }

abbrev errors : Errors Category
errors = record {
  of_fault = λ fault. fault.cat;
  as_categorizer = some;
  is_canceled = λ err. false;
  is_deadline = λ err. false;
}

abbrev accepts : Mutation → Option Category
accepts m = none

abbrev refuses : ReviewEvent → Option Category
refuses write = some category_forbidden

-- The promotion is done and audited at its last second.
promoted : post_operation errors unary secret auth accepts at request ≡ record {
  status = 200;
  done =
      mutated (promote_instance (codes "pg-1") at)
      ∷ audited promote (codes "pg-1") "accepted" (codes "ann") "proxy-asserted"
      ∷ [];
}
unfolding post_operation require_level level handle_operation_execute execute_form execute_confirmed
    same_origin_post pod_name inner_name actor_of from_request sanitize byte_length trim_space
    trim_left is_space any_control is_control parse_level match_level same describe describe_in
    catalog verify_operation issue_operation verify issue split_dot mac message is_fresh age execute
    carry_out mutation_of audit
promoted = refl

-- The same token neither restarts the cluster nor promotes another instance, and a second later it
-- does not promote.
other_uses :
    (verify_operation unary secret restart (codes "pg-1") promotion at ≡ false)
    × (verify_operation unary secret promote (codes "pg-2") promotion at ≡ false)
    × (verify_operation unary secret promote (codes "pg-1") promotion 602 ≡ false)
unfolding verify_operation issue_operation verify issue split_dot mac message is_fresh age
other_uses = (refl, refl, refl)

verify-issue_example :
    (verify unary secret (codes "reload") (issue unary secret (codes "reload") 1) at ≡ true)
    ↔ InTime at 1
verify-issue_example =
    verify-issue unary unary-IsTokens secret (codes "reload") 1 at (omega arith) (omega arith)
      (omega arith)

promotion-split :
    split_dot promotion ≡ some (b'1' ∷ [], mac unary secret (with_nul promote (codes "pg-1")) 1)
unfolding issue_operation issue split_dot mac message
promotion-split = refl

promotion_known : describe promote ≡ some (record { id = promote; needs_instance = true })
unfolding describe describe_in catalog
promotion_known = refl

promotion_verified : verify_operation unary secret promote (codes "pg-1") promotion at ≡ true
unfolding verify_operation issue_operation verify issue split_dot mac message is_fresh age
promotion_verified = refl

verify_operation-binds_example :
    ((promote ≡ promote) × (codes "pg-1" ≡ codes "pg-1") × InTime at 1) ⊎ Collision unary secret
verify_operation-binds_example =
    verify_operation-binds unary secret promote promote _ _ (codes "pg-1") (codes "pg-1") promotion
      (b'1' ∷ []) 1 at unary-IsTokens promotion_known promotion_known (omega arith) (omega arith)
      (omega arith) promotion-split promotion_verified

post_operation-Guards_example :
    (((post_operation errors unary secret auth accepts at request).done ≡ [])
      × ¬ IsPermitted errors unary secret auth accepts at request)
    ⊎ ((p : IsPermitted errors unary secret auth accepts at request) × ((m : Mutation)
          × (mutation_of unary request.op (target_of p.operation p.form) at ≡ some m)
          × (post_operation errors unary secret auth accepts at request
              ≡ answer errors unary secret auth accepts request.op
                  (target_of p.operation p.form)
                  m
                  (record { user = p.admitted.identity.user; verified = true }))))
post_operation-Guards_example = post_operation-Guards errors unary secret auth accepts at request

post_decision-Guards_example :
    Guards errors unary secret auth refuses action_approve at request
      (post_decision errors unary secret auth refuses action_approve at request)
post_decision-Guards_example =
    post_decision-Guards errors unary secret auth refuses action_approve at request
