-- ===== src/Scheduler.antt =====
-- internal/adapters/primary/cron/scheduler.go: the registration of tests, and the function of an entry.
-- The parser of schedules in robfig/cron is a parameter.
pub mod Laws
pub mod Cron
use e2e_framework.Prelude.{
  Text, lit, ◌++◌, ◌==◌, ◌||◌, not, Option, none, some, Bool, List, [], ◌∷◌, if◌then◌else◌,
}
use e2e_framework.Domain.{TestDefinition, TestResult, Error, wrap, configuration, Result, ok, err}
use e2e_framework.Ports.{Ports}
use e2e_framework.Orchestrator.{run_test}

-- The tests that `cron` calls, in the order of `AddFunc`.
pub record Scheduler : Type 0 where
  pub entries : List TestDefinition

-- `parse` is why a schedule cannot be read, if it cannot.
module _ (parse : Text → Option Error) where
  -- `RegisterTest`
  unfoldable pub register_test : TestDefinition → Scheduler → Result (Unit {0}) × Scheduler
  register_test def s =
      if not def.enabled || def.schedule == [] then (ok tt, s) else (elim (parse def.schedule) [
        | some e ↦ (
          err (
              wrap configuration
                (lit "failed to schedule test " ++ (def.id ++ (lit ": " ++ e.text)))),
          s,
        )
        | none ↦ (ok tt, record s { entries = s.entries ++ (def ∷ []) })
      ])

  -- The loop of cmd/server/main.go, which logs the errors.
  unfoldable pub register_tests : List TestDefinition → Scheduler → Scheduler
  register_tests [] s = s
  register_tests (def ∷ defs) s = register_tests defs (register_test def s).1

-- The function of an entry, whose result is only logged.
unfoldable pub scheduled_run : {W : Type 0} → Ports W → TestDefinition → W → W
scheduled_run p def w = let (run_id, result, w') = run_test p def w in w'
