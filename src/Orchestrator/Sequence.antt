-- ===== src/Orchestrator/Sequence.antt =====
-- `RunSequence`: how many tests run, and where a sequence stops.
use e2e_framework.Prelude.{
  ◌≡◌, refl, ◌⊎◌, inl, inr, Bool, true, false, ◌&&◌, List, [], ◌∷◌, Bool-cases,
}
use e2e_framework.Domain.{TestDefinition, TestResult, is_failure}
use e2e_framework.Ports.{Ports}
use e2e_framework.Orchestrator.Identity.{execute-test_id}
use e2e_framework.Orchestrator.Execute.{
  SequenceConfig, wait_between, run_test, run_from, run_sequence,
}

-- Results of the definitions that ran: one for each definition, or, with the stop on failure, a first
-- part that ends in the only failure.
abbrev pub Covers : Bool → List TestDefinition → List TestResult → Type 0
Covers skip [] [] = Unit
Covers skip [] (r ∷ rs) = ⊥
Covers skip (def ∷ defs) [] = ⊥
Covers skip (def ∷ defs) (r ∷ rs) =
    (r.test_id ≡ def.id)
    × (((skip && is_failure r.status ≡ true) × (rs ≡ []))
        ⊎ ((skip && is_failure r.status ≡ false) × Covers skip defs rs))

module _ {W : Type 0} (p : Ports W) where
  run_test-test_id : (def : TestDefinition) (w : W) → (run_test p def w).1.test_id ≡ def.id
  unfolding run_test
  run_test-test_id def w = (execute-test_id p def _ (p.now w).1).0

  run_from-Covers :
      (first : Bool) (cfg : SequenceConfig) (defs : List TestDefinition) (w : W)
      → Covers cfg.skip_fail_test defs (run_from p first cfg defs w).0
  unfolding run_from
  run_from-Covers first cfg [] w = tt
  run_from-Covers first cfg (def ∷ defs) w =
      let (_, r, w1) = run_test p def (wait_between p first cfg.delay w) in
      let named = run_test-test_id def (wait_between p first cfg.delay w) in
      elim (Bool-cases (cfg.skip_fail_test && is_failure r.status)) [
        | inl e ↦ rw (e, run_from) (named, inl (e, refl))
        | inr e ↦ rw (e, run_from) (named, inr (e, run_from-Covers false cfg defs w1))
      ]

  -- A sequence gives a result for each of its tests, in order, each naming its test, unless
  -- `skip_fail_test` is set: then it gives these results up to the first one that is failed or in
  -- error, that one included, and none after it.
  pub run_sequence-Covers :
      (defs : List TestDefinition) (cfg : SequenceConfig) (w : W)
      → Covers cfg.skip_fail_test defs (run_sequence p defs cfg w).0
  unfolding run_sequence
  run_sequence-Covers defs cfg w = run_from-Covers true cfg defs w
