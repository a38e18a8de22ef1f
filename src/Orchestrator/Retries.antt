-- ===== src/Orchestrator/Retries.antt =====
-- How often the trigger of a step is executed, and what a retry can do once a receiver has failed.
use e2e_framework.Prelude.{
  ◌∙◌, ℕ, zero, suc, ◌+◌, ◌*◌, ◌≤◌, ◌≡◌, refl, ◌≢◌, inl, inr, Text, length, Option, none, some,
  Option-cases, Bool, true, false, List, [], ◌∷◌, arith, Bool-cases, copy_into, ◌==◌, ◌&&◌, not,
}
use e2e_framework.Domain.{
  Duration, RetryConfig, TriggerConfig, TestResult, TestDefinition, passed, Error, is_passed,
  Result-cases, ReceiverConfig, effective_type,
}
use e2e_framework.Ports.{Ports, Trigger, ActiveReceiver}
use e2e_framework.Orchestrator.Run.{Run, fail_result, reserve_recipients}
use e2e_framework.Orchestrator.Collect.{
  merge, summarize, run_receiver, run_receivers, collect_and_assert_all, start_receivers,
}
use e2e_framework.Orchestrator.Steps.{
  Attempt, attempt_once, await_receivers, attempts, waits, pass, Verdict-cases, pause, finish_step,
  step_max_attempts, wait_before, run_step, run_steps, execute_sequential,
}
use e2e_framework.Orchestrator.Execute.{new_result, stamp_finished, execute}
use e2e_framework.Orchestrator.Status.{merge_status-ne-passed}

summarize_keeps :
    (r : TestResult) → (r.attempts ≡ (summarize r).attempts) × ((summarize r).status ≡ r.status)
unfolding summarize
summarize_keeps r = elim (Bool-cases (r.error == [] && not (is_passed r.status))) [
  | inl e ↦ rw (e, summarize) (refl, refl)
  | inr e ↦ rw (e, summarize) (refl, refl)
]

module _ {W : Type 0} (p : Ports W) (run_id : Text) (index : ℕ) where
  -- How the receivers leave the result.
  record Kept (r r' : TestResult) : Type 0 where
    attempts : r'.attempts ≡ r.attempts
    stuck : r.status ≢ passed → r'.status ≢ passed

  run_receivers-Kept :
      (l : List (ActiveReceiver W)) (s : Run W)
      → Kept s.result (run_receivers p run_id index l s).result
  unfolding run_receivers run_receiver merge
  run_receivers-Kept [] s = record { attempts = refl; stuck = λ h. h }
  run_receivers-Kept (a ∷ l) s =
      let k = run_receivers-Kept l (run_receiver p run_id index a s) in
      record {
        attempts = k.attempts;
        stuck = λ h. k.stuck (merge_status-ne-passed _ s.result.status h);
      }

  collect_and_assert_all-Kept :
      (l : List (ActiveReceiver W)) (s : Run W)
      → Kept s.result (collect_and_assert_all p run_id index l s).result
  unfolding collect_and_assert_all
  collect_and_assert_all-Kept l s =
      let s' = run_receivers p run_id index (p.finish_order s.world l) s in
      let k = run_receivers-Kept (p.finish_order s.world l) s in
      let q = summarize_keeps s'.result in
      record { attempts = ground arith; stuck = λ h e. k.stuck h (ground arith) }

module _ {W : Type 0} (p : Ports W) (step : TriggerConfig) (index : ℕ) (run_id : Text) where
  record Once (s : Run W) (a : Attempt W) : Type 0 where
    counted : a.run.result.attempts ≡ s.result.attempts + 1
    stuck :
        waits step ≡ true
        → s.result.status ≢ passed
        → (a.verdict ≢ pass) × (a.run.result.status ≢ passed)

  await_receivers-Once :
      (s : Run W) (last : Option Error) (n : ℕ)
      → s.result.attempts ≡ n + 1
      → ((await_receivers p step index run_id s last).run.result.attempts ≡ n + 1)
        × (s.result.status ≢ passed
            → ((await_receivers p step index run_id s last).verdict ≢ pass)
              × ((await_receivers p step index run_id s last).run.result.status ≢ passed))
  unfolding await_receivers fail_result
  await_receivers-Once s last n h =
      let (failure, active, vars', w) = start_receivers p run_id step.receivers [] s.vars s.world in
      elim (Option-cases failure) [
        | inr (x, e) ↦
            rw (e, await_receivers)
              (h, λ q. (λ v. absurd (ground arith), λ v. absurd (ground arith)))
        | inl e ↦
            let s1 : Run W = record s { vars = vars'; world = w } in
            let k = collect_and_assert_all-Kept p run_id index active s1 in
            rw (e, await_receivers)
              (k.attempts ∙ h, λ q. (λ v. k.stuck q (ground arith), k.stuck q))
      ]

  attempt_once-Once :
      (trigger : Trigger W) (s : Run W) (last : Option Error)
      → Once s (attempt_once p trigger step index run_id s last)
  unfolding attempt_once
  attempt_once-Once trigger s last =
      let (outcome, vars', w) = trigger.execute step run_id s.vars s.world in
      let counted = record (s.result) { attempts = s.result.attempts + 1 } in
      elim (Result-cases outcome) [
        | inr (x, e) ↦
            rw (e, attempt_once)
              (record { counted = refl; stuck = λ t q. (λ v. absurd (ground arith), q) })
        | inl (new, e) ↦
            let s1 : Run W = record { vars = copy_into vars' new; world = w; result = counted } in
            elim (Bool-cases (waits step)) [
              | inr f ↦
                  rw (e, f, attempt_once)
                    (record { counted = refl; stuck = λ t q. absurd (ground arith) })
              | inl t ↦
                  let k = await_receivers-Once s1 last s.result.attempts refl in
                  rw (e, t, attempt_once) (record { counted = k.0; stuck = λ _ q. k.1 q })
            ]
      ]

  record Counts (n : ℕ) (s r : TestResult) : Type 0 where
    least : s.attempts ≤ r.attempts
    most : r.attempts ≤ s.attempts + n

  attempts-Counts :
      (n : ℕ) (delay : Duration) (trigger : Trigger W) (s : Run W) (last : Option Error)
      → Counts n s.result (attempts p n delay trigger step index run_id s last).1.result
  unfolding attempts
  attempts-Counts zero delay trigger s last = omega arith
  attempts-Counts (suc n) delay trigger s last =
      let a = attempt_once p trigger step index run_id s last in
      let k = attempt_once-Once trigger s last in
      elim (Verdict-cases a.verdict) [
        | inl e ↦ rw (e, attempts) (omega (arith, k.counted))
        | inr (inl e) ↦ rw (e, attempts) (omega (arith, k.counted))
        | inr (inr e) ↦
            let s1 = record (a.run) { world = pause p n delay a.run.world } in
            let ih = attempts-Counts n delay trigger s1 a.last_trigger_err in
            rw (e, attempts) (omega (arith, k.counted, ih))
      ]

  -- Once the status is not "passed", a step that waits for its receivers does not pass, whatever
  -- its trigger and its receivers do in the rounds that are left.
  pub retry_is_futile :
      (n : ℕ) (delay : Duration) (trigger : Trigger W) (s : Run W) (last : Option Error)
      → waits step ≡ true
      → s.result.status ≢ passed
      → (attempts p n delay trigger step index run_id s last).0 ≡ false
  unfolding attempts
  retry_is_futile zero delay trigger s last t h = refl
  retry_is_futile (suc n) delay trigger s last t h =
      let a = attempt_once p trigger step index run_id s last in
      let k = (attempt_once-Once trigger s last).stuck t h in
      elim (Verdict-cases a.verdict) [
        | inl e ↦ absurd (k.0 e)
        | inr (inl e) ↦ rw (e, attempts) refl
        | inr (inr e) ↦
            rw (e, attempts)
              (retry_is_futile n delay trigger
                (record (a.run) { world = pause p n delay a.run.world }) a.last_trigger_err t k.1)
      ]

module _ {W : Type 0} (p : Ports W) where
  finish_step-attempts :
      (index : ℕ) (t : Bool × Run W × Option Error)
      → (finish_step p index t).1.result.attempts ≡ t.1.result.attempts
  unfolding finish_step fail_result
  finish_step-attempts index (true, s, last) = refl
  finish_step-attempts index (false, s, none) = refl
  finish_step-attempts index (false, s, some e) = refl

  run_step_most :
      (retry : RetryConfig) (index : ℕ) (run_id : Text) (step : TriggerConfig) (s : Run W)
      → (run_step p retry index run_id step s).1.result.attempts
        ≤ s.result.attempts + step_max_attempts retry
  unfolding run_step fail_result
  run_step_most retry index run_id step s =
      let (created, w1) =
        p.create_trigger (effective_type step) step.options (wait_before p step s.world) in
      elim (Result-cases created) [
        | inr (e, q) ↦ rw (q, run_step) (omega arith)
        | inl (trigger, q) ↦
            let (failure, reserved, w2) = reserve_recipients p run_id step.receivers [] w1 in
            elim (Option-cases failure) [
              | inr (e, f) ↦ rw (q, f, run_step) (omega arith)
              | inl f ↦
                  let s2 : Run W = record s { world = w2 } in
                  let n = step_max_attempts retry in
                  rw (q, f, run_step)
                    (omega (
                      arith,
                      finish_step-attempts index
                          (attempts p n retry.delay trigger step index run_id s2 none),
                      attempts-Counts p step index run_id n retry.delay trigger s2 none,
                    ))
            ]
      ]

  run_steps_most :
      (retry : RetryConfig) (index : ℕ) (run_id : Text) (steps : List TriggerConfig) (s : Run W)
      (deferred : List (List ReceiverConfig))
      → (run_steps p retry index run_id steps s deferred).0.result.attempts
        ≤ s.result.attempts + length steps * step_max_attempts retry
  unfolding run_steps
  run_steps_most retry index run_id [] s deferred = omega arith
  run_steps_most retry index run_id (step ∷ steps) s deferred =
      let (on, s', reserved) = run_step p retry index run_id step s in
      let h = run_step_most retry index run_id step s in
      elim (Bool-cases on) [
        | inl q ↦
            rw (q, run_steps)
              (grind
                (arith, h, run_steps_most retry (index + 1) run_id steps s' (reserved ∷ deferred)))
        | inr q ↦ rw (q, run_steps) (grind (arith, h))
      ]

  -- The trigger executions that a result counts are at most the number of steps times the
  -- attempts that its retry settings give a step.
  pub execute-attempts-le :
      (def : TestDefinition) (run_id : Text) (w : W)
      → (execute p def run_id w).0.attempts ≤ length def.triggers * step_max_attempts def.retry
  unfolding execute stamp_finished execute_sequential
  execute-attempts-le def run_id w = elim (Bool-cases def.enabled) [
    | inr q ↦ rw (q, execute) (omega arith)
    | inl q ↦
        rw (q, execute)
          (omega (
            arith,
            run_steps_most def.retry 0 run_id def.triggers
                (record { vars = _; world = _; result = new_result def run_id (p.now w).0 }) [],
          ))
  ]
