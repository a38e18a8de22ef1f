-- ===== src/Groups/Laws.antt =====
-- Test groups between their validation and their use.
use e2e_framework.Prelude.{
  ◌≡◌, ◌≢◌, Text, Dict, lookup, ◌==◌, none, some, Option-cases, Bool-cases, subst, arith, inl, inr,
  List, [], ◌∷◌, All,
}
use e2e_framework.Domain.{TestDefinition, ok, Result-cases}
use e2e_framework.Groups.{
  TestGroupConfig, TestGroup, resolve_group, validate_members, validate_group, validate_test_groups,
}

-- A group with tests, all of them defined.
pub record IsRunnable (tests : Dict TestDefinition) (ids : List Text) : Type 0 where
  pub nonempty : ids ≢ []
  pub defined : All (λ id. lookup id tests ≢ none) ids

validate_members-All :
    (name : Text) (ids : List Text) (tests : Dict TestDefinition)
    → validate_members name ids tests ≡ ok tt
    → All (λ id. lookup id tests ≢ none) ids
unfolding validate_members
validate_members-All name [] tests h = tt
validate_members-All name (id ∷ ids) tests h = elim (Option-cases (lookup id tests)) [
  | inl e ↦ absurd (ground arith)
  | inr (def, e) ↦ ((λ q. ground arith), validate_members-All name ids tests (ground arith))
]

validate_group-IsRunnable :
    (name : Text) (ids : List Text) (tests : Dict TestDefinition)
    → validate_group name ids tests ≡ ok tt
    → IsRunnable tests ids
unfolding validate_group
validate_group-IsRunnable name [] tests h = absurd (ground arith)
validate_group-IsRunnable name (id ∷ ids) tests h = record {
  nonempty = λ q. ground arith;
  defined = validate_members-All name (id ∷ ids) tests h;
}

-- If validation accepts the groups, every group that the resolver finds has tests, and all of them
-- are defined.
pub validate-resolve :
    (groups : Dict TestGroupConfig) (tests : Dict TestDefinition) (name : Text) (g : TestGroup)
    → validate_test_groups groups tests ≡ ok tt
    → resolve_group groups name ≡ some g
    → IsRunnable tests g.tests
unfolding validate_test_groups resolve_group lookup
validate-resolve [] tests name g v r = absurd (ground arith)
validate-resolve ((n, c) ∷ groups) tests name g v r =
    elim (Result-cases (validate_group n c.tests tests)) [
      | inr (e, q) ↦ absurd (ground arith)
      | inl (_, q) ↦ elim (Bool-cases (n == name)) [
        | inl same ↦
            subst (IsRunnable tests) (ground arith) (validate_group-IsRunnable n c.tests tests q)
        | inr other ↦ validate-resolve groups tests name g (ground arith) (ground arith)
      ]
    ]
