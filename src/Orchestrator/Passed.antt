-- ===== src/Orchestrator/Passed.antt =====
-- What the status of a finished run says.
use e2e_framework.Prelude.{
  ℕ, ◌+◌, ◌≡◌, refl, inl, inr, Text, Option, none, some, Option-cases, Bool, true, false, List, [],
  ◌∷◌, All, arith, Bool-cases,
}
use e2e_framework.Domain.{
  Vars, RetryConfig, ReceiverConfig, TriggerConfig, TestDefinition, TestResult, RunStatus, passed,
  failed, error, skipped, running, Error, Result-cases, effective_type,
}
use e2e_framework.Ports.{Ports}
use e2e_framework.Orchestrator.Run.{Run, fail_result, reserve_recipients}
use e2e_framework.Orchestrator.Steps.{
  attempts, finish_step, wait_before, step_max_attempts, run_step, run_steps, execute_sequential,
}
use e2e_framework.Orchestrator.Execute.{new_result, stamp_finished, execute}
use e2e_framework.Orchestrator.Status.{IsOutcome, IsClean, failed-IsClean}
use e2e_framework.Orchestrator.Attempts.{Ends, attempts-Ends}

-- What a finished result of an enabled test has, by its status.
abbrev pub Finished : RunStatus → TestResult → Type 0
Finished passed r = (r.error ≡ []) × All (λ x. x.status ≡ passed) r.receivers
Finished failed r = Unit
Finished error r = Unit
Finished skipped r = ⊥
Finished running r = ⊥

-- The same, given whether the test is enabled.
abbrev pub Verdict : Bool → TestResult → Type 0
Verdict true r = Finished r.status r
Verdict false r = (r.status ≡ skipped) × (r.error ≡ []) × (r.receivers ≡ [])

Finished-case :
    (s : RunStatus) (r : TestResult)
    → IsOutcome s
    → (s ≡ passed → r.error ≡ [])
    → (s ≡ passed → All (λ x. x.status ≡ passed) r.receivers)
    → Finished s r
Finished-case passed r o e h = (e refl, h refl)
Finished-case failed r o e h = tt
Finished-case error r o e h = tt
Finished-case skipped r o e h = o
Finished-case running r o e h = o

module _ {W : Type 0} (p : Ports W) where
  record Continues (on : Bool) (r : TestResult) : Type 0 where
    clean : IsClean r
    on_means : on ≡ true → r.status ≡ passed

  stopped : {r : TestResult} → IsClean r → Continues false r
  stopped c = record { clean = c; on_means = λ q. absurd (ground arith) }

  share-IsClean :
      {r : TestResult} (vars : Vars) → IsClean r → IsClean (record r { trigger_vars = vars })
  share-IsClean vars c = record {
    outcome = c.outcome;
    no_error = c.no_error;
    receivers_passed = c.receivers_passed;
  }

  finish_step-Continues :
      (index : ℕ) (on : Bool) (s : Run W) (last : Option Error)
      → IsClean s.result
      → (on ≡ true → s.result.status ≡ passed)
      → Continues (finish_step p index (on, s, last)).0 (finish_step p index (on, s, last)).1.result
  unfolding finish_step fail_result
  finish_step-Continues index true s last c h = record {
    clean = record {
      outcome = tt;
      no_error = λ _. c.no_error (h refl);
      receivers_passed = λ _. c.receivers_passed (h refl);
    };
    on_means = λ _. refl;
  }
  finish_step-Continues index false s none c h = stopped (share-IsClean s.vars c)
  finish_step-Continues index false s (some e) c h = stopped (failed-IsClean _ refl)

  run_step-Continues :
      (retry : RetryConfig) (index : ℕ) (run_id : Text) (step : TriggerConfig) (s : Run W)
      → IsClean s.result
      → s.result.status ≡ passed
      → Continues
          (run_step p retry index run_id step s).0
          (run_step p retry index run_id step s).1.result
  unfolding run_step fail_result
  run_step-Continues retry index run_id step s c h =
      let (created, w1) =
        p.create_trigger (effective_type step) step.options (wait_before p step s.world) in
      elim (Result-cases created) [
        | inr (e, q) ↦ rw (q, run_step) (stopped (failed-IsClean _ refl))
        | inl (trigger, q) ↦
            let (failure, reserved, w2) = reserve_recipients p run_id step.receivers [] w1 in
            elim (Option-cases failure) [
              | inr (e, f) ↦ rw (q, f, run_step) (stopped (failed-IsClean _ refl))
              | inl f ↦
                  let (on, s', last) =
                    attempts p (step_max_attempts retry) retry.delay trigger step index run_id
                      (record s { world = w2 }) none in
                  let ends : Ends p step index run_id (on, s', last) =
                    attempts-Ends p step index run_id (step_max_attempts retry) retry.delay trigger
                      (record s { world = w2 }) none (record { clean = c; fresh = λ _. h }) in
                  rw (q, f, run_step)
                    (finish_step-Continues index on s' last ends.ready.clean ends.pass_means)
            ]
      ]

  run_steps-IsClean :
      (retry : RetryConfig) (index : ℕ) (run_id : Text) (steps : List TriggerConfig) (s : Run W)
      (deferred : List (List ReceiverConfig))
      → IsClean s.result
      → s.result.status ≡ passed
      → IsClean (run_steps p retry index run_id steps s deferred).0.result
  unfolding run_steps
  run_steps-IsClean retry index run_id [] s deferred c h = share-IsClean s.vars c
  run_steps-IsClean retry index run_id (step ∷ steps) s deferred c h =
      let (on, s', reserved) = run_step p retry index run_id step s in
      let k = run_step-Continues retry index run_id step s c h in
      elim (Bool-cases on) [
        | inl q ↦
            rw (q, run_steps)
              (run_steps-IsClean retry (index + 1) run_id steps s' (reserved ∷ deferred) k.clean
                (k.on_means q))
        | inr q ↦ rw (q, run_steps) k.clean
      ]

  execute_sequential-IsClean :
      (def : TestDefinition) (run_id : Text) (r : TestResult) (w : W)
      → IsClean r
      → r.status ≡ passed
      → IsClean (execute_sequential p def run_id r w).0
  unfolding execute_sequential
  execute_sequential-IsClean def run_id r w c h =
      run_steps-IsClean def.retry 0 run_id def.triggers _ [] c h

  -- A disabled test is skipped, with no error and no receivers' results. An enabled one ends passed,
  -- failed or in error, and if it passed it has no error text and all its receivers passed.
  pub execute-Verdict :
      (def : TestDefinition) (run_id : Text) (w : W)
      → Verdict def.enabled (execute p def run_id w).0
  unfolding execute stamp_finished
  execute-Verdict def run_id w =
      let (started, w1) = p.now w in
      let c =
        execute_sequential-IsClean def run_id (new_result def run_id started) w1
          (record { outcome = tt; no_error = λ _. refl; receivers_passed = λ _. tt }) refl in
      elim (Bool-cases def.enabled) [
        | inr q ↦ rw (q, execute) (refl, refl, refl)
        | inl q ↦ rw (q, execute) (Finished-case _ _ c.outcome c.no_error c.receivers_passed)
      ]
