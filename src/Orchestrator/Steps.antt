-- ===== src/Orchestrator/Steps.antt =====
-- The steps of a run: attempts, retries, and the loop of `executeSequential`.
use e2e_framework.Prelude.{
  ℕ, zero, suc, ◌+◌, Text, lit, decimal, copy_into, pos, pos_part, ltb_ℤ, Option, none, some, Bool,
  true, false, List, [], ◌∷◌, ◌++◌, ◌&&◌, not, if◌then◌else◌, ◌⊎◌, inl, inr, ◌≡◌, refl,
}
use e2e_framework.Domain.{
  Duration, RetryConfig, TriggerConfig, ReceiverConfig, TestDefinition, TestResult, passed,
  is_passed, Error, ok, err, effective_type,
}
use e2e_framework.Ports.{Ports, Trigger}
use e2e_framework.Orchestrator.Run.{
  Run, fail_result, resolve_variables, reserve_recipients, run_deferred,
}
use e2e_framework.Orchestrator.Collect.{start_receivers, stop_receivers, collect_and_assert_all}

-- How an attempt ends: `break` with the step passed, `break` without, or go on to the next one.
pub data Verdict : Type 0 where
  pass give_up again : Verdict

pub Verdict-cases : (v : Verdict) → (v ≡ pass) ⊎ (v ≡ give_up) ⊎ (v ≡ again)
Verdict-cases pass = inl refl
Verdict-cases give_up = inr (inl refl)
Verdict-cases again = inr (inr refl)

pub record Attempt (W : Type 0) : Type 0 where
  pub verdict : Verdict
  pub run : Run W
  pub last_trigger_err : Option Error

unfoldable pub step_error : ℕ → Text → Error → Text
step_error index what e = lit "step " ++ (decimal (index + 1) ++ (what ++ e.text))

-- `stepMaxAttempts`
unfoldable pub step_max_attempts : RetryConfig → ℕ
step_max_attempts retry =
    if retry.enabled && ltb_ℤ (pos 1) retry.attempts then pos_part retry.attempts else 1

abbrev is_empty : List ReceiverConfig → Bool
is_empty [] = true
is_empty (cfg ∷ cfgs) = false

-- Does a step wait for its receivers?
unfoldable pub waits : TriggerConfig → Bool
waits step = step.wait_for_receivers && not (is_empty step.receivers)

abbrev verdict_of : Bool → Verdict
verdict_of true = pass
verdict_of false = again

module _ {W : Type 0} (p : Ports W) where
  abbrev fail_run : Text → Run W → Run W
  fail_run text s =
      let (r, w) = fail_result p text s.result s.world in record s { result = r; world = w }

  -- The receivers' part of an attempt.
  unfoldable pub await_receivers : TriggerConfig → ℕ → Text → Run W → Option Error → Attempt W
  await_receivers step index run_id s last =
      let (failure, active, vars', w) = start_receivers p run_id step.receivers [] s.vars s.world in
      let s1 : Run W = record s { vars = vars'; world = w } in
      elim failure [
        | some e ↦ record {
          verdict = give_up;
          run = fail_run (step_error index (lit " receiver start failed: ") e) s1;
          last_trigger_err = last;
        }
        | none ↦
            let s2 = collect_and_assert_all p run_id index active s1 in
            let s3 : Run W = record s2 { world = stop_receivers p active s2.world } in
            record {
              verdict = verdict_of (is_passed s3.result.status);
              run = s3;
              last_trigger_err = last;
            }
      ]

  -- One round of the attempts' loop, without the wait at its end.
  unfoldable pub attempt_once :
      Trigger W → TriggerConfig → ℕ → Text → Run W → Option Error → Attempt W
  attempt_once trigger step index run_id s last =
      let counted = record (s.result) { attempts = s.result.attempts + 1 } in
      let (outcome, vars', w) = trigger.execute step run_id s.vars s.world in
      elim outcome [
        | err e ↦ record {
          verdict = again;
          run = record { vars = vars'; world = w; result = counted };
          last_trigger_err = some e;
        }
        | ok step_vars ↦
            let s1 : Run W = record {
              vars = copy_into vars' step_vars;
              world = w;
              result = counted;
            } in
            (elim (waits step) [
              | false ↦ record { verdict = pass; run = s1; last_trigger_err = last }
              | true ↦ await_receivers step index run_id s1 last
            ])
      ]

  -- `if attempt < stepMaxAttempts { time.Sleep(def.Retry.Delay) }`
  abbrev pub pause : ℕ → Duration → W → W
  pause zero delay w = w
  pause (suc left) delay w = p.sleep delay w

  -- The attempts' loop: the rounds that are left, and whether the step passed.
  unfoldable pub attempts :
      ℕ
      → Duration
      → Trigger W
      → TriggerConfig
      → ℕ
      → Text
      → Run W
      → Option Error
      → Bool × Run W × Option Error
  attempts zero delay trigger step index run_id s last = (false, s, last)
  attempts (suc left) delay trigger step index run_id s last =
      let a = attempt_once trigger step index run_id s last in
      elim a.verdict [
        | pass ↦ (true, a.run, a.last_trigger_err)
        | give_up ↦ (false, a.run, a.last_trigger_err)
        | again ↦
            attempts left delay trigger step index run_id
              (record (a.run) { world = pause left delay a.run.world }) a.last_trigger_err
      ]

  abbrev share_vars : Run W → Run W
  share_vars s = record s { result = record (s.result) { trigger_vars = s.vars } }

  -- The end of a step: does the loop go on?
  unfoldable pub finish_step : ℕ → Bool × Run W × Option Error → Bool × Run W
  finish_step index (true, s, last) =
      (true, record s { result = record (s.result) { trigger_vars = s.vars; status = passed } })
  finish_step index (false, s, none) = (false, share_vars s)
  finish_step index (false, s, some e) =
      (false, fail_run (step_error index (lit " trigger failed: ") e) (share_vars s))

  unfoldable pub wait_before : TriggerConfig → W → W
  wait_before step w = if ltb_ℤ (pos 0) step.delay_before then p.sleep step.delay_before w else w

  -- One step: does the loop go on, the run, and the recipients whose release is deferred.
  unfoldable pub run_step :
      RetryConfig → ℕ → Text → TriggerConfig → Run W → Bool × Run W × List ReceiverConfig
  run_step retry index run_id step s =
      let (created, w1) =
        p.create_trigger (effective_type step) step.options (wait_before step s.world) in
      elim created [
        | err e ↦ (false, fail_run e.text (share_vars (record s { world = w1 })), [])
        | ok trigger ↦
            let (failure, reserved, w2) = reserve_recipients p run_id step.receivers [] w1 in
            (elim failure [
              | some e ↦ (false, fail_run e.text (share_vars (record s { world = w2 })), [])
              | none ↦
                  let tried =
                    attempts (step_max_attempts retry) retry.delay trigger step index run_id
                      (record s { world = w2 }) none in
                  let (on, s') = finish_step index tried in (on, s', reserved)
            ])
      ]

  -- The loop over the steps; what is deferred last stands first.
  unfoldable pub run_steps :
      RetryConfig
      → ℕ
      → Text
      → List TriggerConfig
      → Run W
      → List (List ReceiverConfig)
      → Run W × List (List ReceiverConfig)
  run_steps retry index run_id [] s deferred = (share_vars s, deferred)
  run_steps retry index run_id (step ∷ steps) s deferred =
      let (on, s', reserved) = run_step retry index run_id step s in
      elim on [
        | true ↦ run_steps retry (index + 1) run_id steps s' (reserved ∷ deferred)
        | false ↦ (s', reserved ∷ deferred)
      ]

  -- `executeSequential`
  unfoldable pub execute_sequential : TestDefinition → Text → TestResult → W → TestResult × W
  execute_sequential def run_id result w =
      let (vars, w1) = resolve_variables p def.variables ((lit "run_id", run_id) ∷ []) w in
      let (s, deferred) =
        run_steps def.retry 0 run_id def.triggers
          (record { vars = vars; world = w1; result = result }) [] in
      (s.result, run_deferred p deferred s.world)
