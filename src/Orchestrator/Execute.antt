-- ===== src/Orchestrator/Execute.antt =====
-- `execute`, `RunTest` and `RunSequence`.
use e2e_framework.Prelude.{
  ◌-◌, ◌*◌, ◌^◌, Text, lit, decimal, pos, ltb_ℤ, Bool, true, false, List, [], ◌∷◌, ◌++◌, ◌&&◌,
  if◌then◌else◌,
}
use e2e_framework.Domain.{Duration, TestDefinition, TestResult, passed, skipped, is_failure, Time}
use e2e_framework.Ports.{Ports}
use e2e_framework.Orchestrator.Run.{milliseconds}
use e2e_framework.Orchestrator.Steps.{execute_sequential}

pub record SequenceConfig : Type 0 where
  pub delay : Duration
  pub skip_fail_test : Bool

-- The Unix epoch on the scale of `Time`.
abbrev unix_epoch : Time
unix_epoch = 62135596800 * 10 ^ 9

-- The result at the start of `execute`.
abbrev pub new_result : TestDefinition → Text → Time → TestResult
new_result def run_id started = record {
  test_id = def.id;
  run_id = run_id;
  status = passed;
  attempts = 0;
  duration_ms = 0;
  receivers = [];
  error = [];
  started_at = started;
  finished_at = 0;
  trigger_vars = [];
}

module _ {W : Type 0} (p : Ports W) where
  -- `result.FinishedAt = time.Now()`, and the duration since the start.
  unfoldable pub stamp_finished : TestResult → W → TestResult × W
  stamp_finished r w =
      let (t, w') = p.now w in
      (record r { finished_at = t; duration_ms = milliseconds r.started_at t }, w')

  -- `go o.notifyFailure(…)`; the error is only logged.
  unfoldable pub notify_failure : TestDefinition → TestResult → W → W
  notify_failure def r w =
      if is_failure r.status then p.go (λ v. (p.notify def.on_failure r v).1) w else w

  -- `execute`
  unfoldable pub execute : TestDefinition → Text → W → TestResult × W
  execute def run_id w =
      let (started, w1) = p.now w in
      let result = new_result def run_id started in
      elim def.enabled [
        | false ↦ stamp_finished (record result { status = skipped }) w1
        | true ↦
            let (r, w2) = execute_sequential p def run_id result w1 in
            let (r', w3) = stamp_finished r w2 in (r', notify_failure def r' w3)
      ]

  -- `RunTest`: the run id, and what its channel delivers.
  unfoldable pub run_test : TestDefinition → W → Text × TestResult × W
  run_test def w =
      let (t, w1) = p.now w in
      let run_id = def.id ++ (lit "-" ++ decimal (t - unix_epoch)) in
      let (r, w2) = execute def run_id w1 in (run_id, r, w2)

  -- `if i > 0 && cfg.Delay > 0 { time.Sleep(cfg.Delay) }`
  unfoldable pub wait_between : Bool → Duration → W → W
  wait_between first delay w =
      if first then w else if ltb_ℤ (pos 0) delay then p.sleep delay w else w

  unfoldable pub run_from : Bool → SequenceConfig → List TestDefinition → W → List TestResult × W
  run_from first cfg [] w = ([], w)
  run_from first cfg (def ∷ defs) w =
      let (_, r, w1) = run_test def (wait_between first cfg.delay w) in
      elim (cfg.skip_fail_test && is_failure r.status) [
        | true ↦ (r ∷ [], w1)
        | false ↦ let (rs, w2) = run_from false cfg defs w1 in (r ∷ rs, w2)
      ]

  -- `RunSequence`
  unfoldable pub run_sequence : List TestDefinition → SequenceConfig → W → List TestResult × W
  run_sequence defs cfg w = run_from true cfg defs w
