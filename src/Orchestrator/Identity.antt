-- ===== src/Orchestrator/Identity.antt =====
-- The test and the run that a result names.
use e2e_framework.Prelude.{
  ℕ, zero, suc, ◌+◌, ◌≡◌, refl, ◌∙◌, inl, inr, Text, Option, none, some, Option-cases, Bool, true,
  false, List, [], ◌∷◌, Bool-cases, copy_into, ◌==◌, ◌&&◌, not,
}
use e2e_framework.Domain.{
  Duration, RetryConfig, ReceiverConfig, TriggerConfig, TestResult, TestDefinition, Error,
  is_passed, Result-cases, effective_type,
}
use e2e_framework.Ports.{Ports, Trigger, ActiveReceiver}
use e2e_framework.Orchestrator.Run.{Run, fail_result, reserve_recipients}
use e2e_framework.Orchestrator.Collect.{
  merge, summarize, run_receiver, run_receivers, collect_and_assert_all, start_receivers,
}
use e2e_framework.Orchestrator.Steps.{
  attempt_once, await_receivers, attempts, waits, Verdict-cases, pause, finish_step,
  step_max_attempts, wait_before, run_step, run_steps, execute_sequential,
}
use e2e_framework.Orchestrator.Execute.{new_result, stamp_finished, execute}

-- Two results name the same test and the same run.
record Same (r r' : TestResult) : Type 0 where
  test : r'.test_id ≡ r.test_id
  run : r'.run_id ≡ r.run_id

same : {r : TestResult} → Same r r
same = record { test = refl; run = refl }

Same-trans : {r s t : TestResult} → Same r s → Same s t → Same r t
Same-trans a b = record { test = b.test ∙ a.test; run = b.run ∙ a.run }

summarize-Same : (r : TestResult) → Same r (summarize r)
unfolding summarize
summarize-Same r = elim (Bool-cases (r.error == [] && not (is_passed r.status))) [
  | inl e ↦ rw (e, summarize) (record { test = refl; run = refl })
  | inr e ↦ rw (e, summarize) (record { test = refl; run = refl })
]

module _ {W : Type 0} (p : Ports W) where
  run_receivers-Same :
      (run_id : Text) (index : ℕ) (l : List (ActiveReceiver W)) (s : Run W)
      → Same s.result (run_receivers p run_id index l s).result
  unfolding run_receivers run_receiver merge
  run_receivers-Same run_id index [] s = same
  run_receivers-Same run_id index (a ∷ l) s =
      let k = run_receivers-Same run_id index l (run_receiver p run_id index a s) in
      record { test = k.test; run = k.run }

  await_receivers-Same :
      (step : TriggerConfig) (index : ℕ) (run_id : Text) (s : Run W) (last : Option Error)
      → Same s.result (await_receivers p step index run_id s last).run.result
  unfolding await_receivers fail_result collect_and_assert_all
  await_receivers-Same step index run_id s last =
      let (failure, active, vars', w) = start_receivers p run_id step.receivers [] s.vars s.world in
      elim (Option-cases failure) [
        | inr (x, e) ↦ rw (e, await_receivers) (record { test = refl; run = refl })
        | inl e ↦
            let s1 : Run W = record s { vars = vars'; world = w } in
            let l = p.finish_order w active in
            rw (e, await_receivers)
              (Same-trans (run_receivers-Same run_id index l s1)
                (summarize-Same (run_receivers p run_id index l s1).result))
      ]

  attempt_once-Same :
      (trigger : Trigger W) (step : TriggerConfig) (index : ℕ) (run_id : Text) (s : Run W)
      (last : Option Error)
      → Same s.result (attempt_once p trigger step index run_id s last).run.result
  unfolding attempt_once
  attempt_once-Same trigger step index run_id s last =
      let (outcome, vars', w) = trigger.execute step run_id s.vars s.world in
      let counted = record (s.result) { attempts = s.result.attempts + 1 } in
      elim (Result-cases outcome) [
        | inr (x, e) ↦ rw (e, attempt_once) (record { test = refl; run = refl })
        | inl (new, e) ↦ elim (Bool-cases (waits step)) [
          | inr f ↦ rw (e, f, attempt_once) (record { test = refl; run = refl })
          | inl t ↦
              let s1 : Run W = record { vars = copy_into vars' new; world = w; result = counted } in
              let k = await_receivers-Same step index run_id s1 last in
              rw (e, t, attempt_once) (record { test = k.test; run = k.run })
        ]
      ]

  attempts-Same :
      (n : ℕ) (delay : Duration) (trigger : Trigger W) (step : TriggerConfig) (index : ℕ)
      (run_id : Text) (s : Run W) (last : Option Error)
      → Same s.result (attempts p n delay trigger step index run_id s last).1.result
  unfolding attempts
  attempts-Same zero delay trigger step index run_id s last = same
  attempts-Same (suc n) delay trigger step index run_id s last =
      let a = attempt_once p trigger step index run_id s last in
      let k = attempt_once-Same trigger step index run_id s last in
      elim (Verdict-cases a.verdict) [
        | inl e ↦ rw (e, attempts) k
        | inr (inl e) ↦ rw (e, attempts) k
        | inr (inr e) ↦
            let s1 = record (a.run) { world = pause p n delay a.run.world } in
            rw (e, attempts)
              (Same-trans k (attempts-Same n delay trigger step index run_id s1 a.last_trigger_err))
      ]

  finish_step-Same :
      (index : ℕ) (t : Bool × Run W × Option Error)
      → Same t.1.result (finish_step p index t).1.result
  unfolding finish_step fail_result
  finish_step-Same index (true, s, last) = record { test = refl; run = refl }
  finish_step-Same index (false, s, none) = record { test = refl; run = refl }
  finish_step-Same index (false, s, some e) = record { test = refl; run = refl }

  run_step-Same :
      (retry : RetryConfig) (index : ℕ) (run_id : Text) (step : TriggerConfig) (s : Run W)
      → Same s.result (run_step p retry index run_id step s).1.result
  unfolding run_step fail_result
  run_step-Same retry index run_id step s =
      let (created, w1) =
        p.create_trigger (effective_type step) step.options (wait_before p step s.world) in
      elim (Result-cases created) [
        | inr (e, q) ↦ rw (q, run_step) (record { test = refl; run = refl })
        | inl (trigger, q) ↦
            let (failure, reserved, w2) = reserve_recipients p run_id step.receivers [] w1 in
            elim (Option-cases failure) [
              | inr (e, f) ↦ rw (q, f, run_step) (record { test = refl; run = refl })
              | inl f ↦
                  let s2 : Run W = record s { world = w2 } in
                  let n = step_max_attempts retry in
                  rw (q, f, run_step)
                    (Same-trans (attempts-Same n retry.delay trigger step index run_id s2 none) (
                      finish_step-Same index
                        (attempts p n retry.delay trigger step index run_id s2 none)))
            ]
      ]

  run_steps-Same :
      (retry : RetryConfig) (index : ℕ) (run_id : Text) (steps : List TriggerConfig) (s : Run W)
      (deferred : List (List ReceiverConfig))
      → Same s.result (run_steps p retry index run_id steps s deferred).0.result
  unfolding run_steps
  run_steps-Same retry index run_id [] s deferred = record { test = refl; run = refl }
  run_steps-Same retry index run_id (step ∷ steps) s deferred =
      let (on, s', reserved) = run_step p retry index run_id step s in
      let h = run_step-Same retry index run_id step s in
      elim (Bool-cases on) [
        | inl q ↦
            rw (q, run_steps)
              (Same-trans h
                (run_steps-Same retry (index + 1) run_id steps s' (reserved ∷ deferred)))
        | inr q ↦ rw (q, run_steps) h
      ]

  -- Whatever happens in a run, its result names the test and the run id that it was started with.
  pub execute-test_id :
      (def : TestDefinition) (run_id : Text) (w : W)
      → ((execute p def run_id w).0.test_id ≡ def.id) × ((execute p def run_id w).0.run_id ≡ run_id)
  unfolding execute stamp_finished execute_sequential
  execute-test_id def run_id w = elim (Bool-cases def.enabled) [
    | inr q ↦ rw (q, execute) (refl, refl)
    | inl q ↦
        let k =
          run_steps-Same def.retry 0 run_id def.triggers
            (record { vars = _; world = _; result = new_result def run_id (p.now w).0 }) [] in
        rw (q, execute) (k.test, k.run)
  ]
