-- ===== src/Ops/Executor/Audited.antt =====
-- Every execution that calls the writer is audited.
use pg_console.Prelude.{ℕ, ◌≡◌, arith, some, List, String, inl, inr, Option-cases}
use pg_console.Prelude.Eq.{==_iff, string_eq}
use pg_console.Ops.Csrf.{Tokens}
use pg_console.Ops.Executor.{Descriptor, describe, describe_in, catalog, Mutation, mutation_of}

-- The operations that exist have a mutation each.
pub mutation_of-describe :
    (t : Tokens) (id : String) (target : List ℕ) (now : ℕ) (d : Descriptor)
    → describe id ≡ some d
    → (m : Mutation) × (mutation_of t id target now ≡ some m)
unfolding describe describe_in catalog mutation_of
mutation_of-describe t id target now d found = elim (Option-cases (mutation_of t id target now)) [
  | inl none_such ↦ absurd (
      ground (
        arith,
        found,
        none_such,
        ==_iff id,
        ==_iff "backup" id,
        ==_iff "reload" id,
        ==_iff "restart" id,
        ==_iff "promote" id,
      ))
  | inr known ↦ known
]
