-- ===== src/Scheduler/Laws.antt =====
-- Which tests are scheduled.
use e2e_framework.Prelude.{
  ◌≡◌, refl, sym, ap, ◌∙◌, inl, inr, Text, ◌==◌, ◌||◌, ◌&&◌, not, Option, Option-cases, none, some,
  Bool, Bool-cases, true, false, List, [], ◌∷◌, ◌++◌, if◌then◌else◌, arith,
}
use mathlib.Core.List.{append-nil, append_assoc}
use e2e_framework.Domain.{TestDefinition, Error}
use e2e_framework.Scheduler.{Scheduler, register_test, register_tests}

abbrev is_none : Option Error → Bool
is_none none = true
is_none (some e) = false

module _ (parse : Text → Option Error) where
  -- Enabled, with a schedule that can be read.
  unfoldable pub is_scheduled : TestDefinition → Bool
  is_scheduled def = def.enabled && (not (def.schedule == []) && is_none (parse def.schedule))

  unfoldable pub scheduled : List TestDefinition → List TestDefinition
  scheduled [] = []
  scheduled (def ∷ defs) =
      let rest = scheduled defs in if is_scheduled def then def ∷ rest else rest

  register_test_lem :
      (def : TestDefinition) (s : Scheduler)
      → (register_test parse def s).1.entries
        ≡ s.entries ++ (if is_scheduled def then def ∷ [] else [])
  unfolding register_test is_scheduled
  register_test_lem def s = elim (Bool-cases (not def.enabled || def.schedule == [])) [
    | inl q ↦ ground (arith, q, append-nil s.entries)
    | inr q ↦ elim (Option-cases (parse def.schedule)) [
      | inl z ↦ ground (arith, q, z)
      | inr (e, z) ↦ ground (arith, q, z, append-nil s.entries)
    ]
  ]

  -- Of the tests that are registered, exactly those that are enabled and have a schedule that the
  -- parser reads are called by cron, in their order; one that cannot be scheduled does not keep
  -- back the others.
  pub register_tests_lem :
      (defs : List TestDefinition) (s : Scheduler)
      → (register_tests parse defs s).entries ≡ s.entries ++ scheduled defs
  unfolding register_tests scheduled
  register_tests_lem [] s = sym (append-nil s.entries)
  register_tests_lem (def ∷ defs) s =
      register_tests_lem defs (register_test parse def s).1
      ∙ ap (λ l. l ++ scheduled defs) (register_test_lem def s)
      ∙ append_assoc s.entries _ (scheduled defs)
      ∙ ap (λ l. s.entries ++ l)
          (elim (Bool-cases (is_scheduled def)) [
            | inl q ↦ rw (q, scheduled) refl
            | inr q ↦ rw (q, scheduled) refl
          ])
