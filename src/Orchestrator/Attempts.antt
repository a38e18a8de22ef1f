-- ===== src/Orchestrator/Attempts.antt =====
-- The result of a run through the attempts' loop.
use e2e_framework.Prelude.{
  ℕ, zero, suc, ◌+◌, ◌≡◌, refl, inl, inr, Text, Option, Option-cases, Bool, true, false, [], arith,
  Bool-cases, copy_into,
}
use e2e_framework.Domain.{Duration, TriggerConfig, TestResult, passed, Error, Result-cases}
use e2e_framework.Ports.{Ports, Trigger}
use e2e_framework.Orchestrator.Run.{Run, fail_result}
use e2e_framework.Orchestrator.Collect.{start_receivers}
use e2e_framework.Orchestrator.Steps.{
  Attempt, attempt_once, await_receivers, attempts, waits, pass, Verdict-cases, pause,
}
use e2e_framework.Orchestrator.Status.{IsClean, failed-IsClean, collect_and_assert_all-IsClean}

module _ {W : Type 0} (p : Ports W) (step : TriggerConfig) where
  -- What an attempt needs of the result so far, and what it leaves.
  pub record IsReady (r : TestResult) : Type 0 where
    pub clean : IsClean r
    pub fresh : waits step ≡ false → r.status ≡ passed

  record Leaves (a : Attempt W) : Type 0 where
    ready : IsReady a.run.result
    pass_means : a.verdict ≡ pass → a.run.result.status ≡ passed

  module _ (index : ℕ) (run_id : Text) where
    await_receivers-Leaves :
        (s : Run W) (last : Option Error)
        → waits step ≡ true
        → IsClean s.result
        → Leaves (await_receivers p step index run_id s last)
    unfolding await_receivers fail_result
    await_receivers-Leaves s last h c =
        let (failure, active, vars', w) =
          start_receivers p run_id step.receivers [] s.vars s.world in
        elim (Option-cases failure) [
          | inr (x, e) ↦
              rw (e, await_receivers)
                (record {
                  ready = record {
                    clean = failed-IsClean _ refl;
                    fresh = λ q. absurd (ground arith);
                  };
                  pass_means = λ q. absurd (ground arith);
                })
          | inl e ↦
              let s1 : Run W = record s { vars = vars'; world = w } in
              let c1 = collect_and_assert_all-IsClean p run_id index active s1 c in
              rw (e, await_receivers)
                (record {
                  ready = record { clean = c1; fresh = λ q. absurd (ground arith) };
                  pass_means = λ q. ground arith;
                })
        ]

    attempt_once-Leaves :
        (trigger : Trigger W) (s : Run W) (last : Option Error)
        → IsReady s.result
        → Leaves (attempt_once p trigger step index run_id s last)
    unfolding attempt_once
    attempt_once-Leaves trigger s last r =
        let counted = record (s.result) { attempts = s.result.attempts + 1 } in
        let (outcome, vars', w) = trigger.execute step run_id s.vars s.world in
        let clean' : IsClean counted = record {
          outcome = r.clean.outcome;
          no_error = r.clean.no_error;
          receivers_passed = r.clean.receivers_passed;
        } in
        elim (Result-cases outcome) [
          | inr (x, e) ↦
              rw (e, attempt_once)
                (record {
                  ready = record { clean = clean'; fresh = r.fresh };
                  pass_means = λ q. absurd (ground arith);
                })
          | inl (new, e) ↦
              let s1 : Run W = record { vars = copy_into vars' new; world = w; result = counted } in
              elim (Bool-cases (waits step)) [
                | inl t ↦ rw (e, t, attempt_once) (await_receivers-Leaves s1 last t clean')
                | inr f ↦
                    rw (e, f, attempt_once)
                      (record {
                        ready = record { clean = clean'; fresh = λ q. r.fresh f };
                        pass_means = λ q. r.fresh f;
                      })
              ]
        ]

    pub record Ends (t : Bool × Run W × Option Error) : Type 0 where
      pub ready : IsReady t.1.result
      pub pass_means : t.0 ≡ true → t.1.result.status ≡ passed

    pub attempts-Ends :
        (n : ℕ) (delay : Duration) (trigger : Trigger W) (s : Run W) (last : Option Error)
        → IsReady s.result
        → Ends (attempts p n delay trigger step index run_id s last)
    unfolding attempts
    attempts-Ends zero delay trigger s last r = record {
      ready = r;
      pass_means = λ q. absurd (ground arith);
    }
    attempts-Ends (suc n) delay trigger s last r =
        let a = attempt_once p trigger step index run_id s last in
        let l = attempt_once-Leaves trigger s last r in
        elim (Verdict-cases a.verdict) [
          | inl e ↦ rw (e, attempts) (record { ready = l.ready; pass_means = λ q. l.pass_means e })
          | inr (inl e) ↦
              rw (e, attempts) (record { ready = l.ready; pass_means = λ q. absurd (ground arith) })
          | inr (inr e) ↦
              rw (e, attempts)
                (attempts-Ends n delay trigger
                  (record (a.run) { world = pause p n delay a.run.world }) a.last_trigger_err
                  l.ready)
        ]
