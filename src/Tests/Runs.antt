-- ===== src/Tests/Runs.antt =====
-- Runs, sequences and merges.
use mathlib.Core.List.{Perm}
use mathlib.Core.List.Perm
use e2e_framework.Prelude.{
  ◌*◌, ◌≤◌, ◌≡◌, refl, lit, pos, length, none, true, false, List, [], ◌∷◌, arith,
}
use e2e_framework.Domain.{TestResult, TestDefinition, RunStatus, passed, failed, error, skipped}
use e2e_framework.Orchestrator.{
  execute, run_sequence, attempts, step_max_attempts, merge_status, SequenceConfig,
}
use e2e_framework.Orchestrator.Passed.{Verdict, execute-Verdict}
use e2e_framework.Orchestrator.Retries.{retry_is_futile, execute-attempts-le}
use e2e_framework.Orchestrator.Sequence.{Covers, run_sequence-Covers}
use e2e_framework.Orchestrator.Order.{merge_all, merge_all-perm}
use e2e_framework.Tests.World.{ports, quiet_trigger, waiting_step, signup, result_of, receiver_of}

execute-Verdict_example : Verdict true (execute (ports (lit "hi")) signup (lit "signup-1") 0).0
execute-Verdict_example = execute-Verdict (ports (lit "hi")) signup (lit "signup-1") 0

retry_is_futile_example :
    (attempts
      (ports (lit "hi"))
      2
      (pos 1)
      quiet_trigger
      waiting_step
      0
      (lit "signup-1")
      (record { vars = []; world = 0; result = result_of failed })
      none).0
    ≡ false
retry_is_futile_example =
    retry_is_futile (ports (lit "hi")) waiting_step 0 (lit "signup-1") 2 (pos 1) quiet_trigger
      (record { vars = []; world = 0; result = result_of failed }) none
      (unfold e2e_framework.Orchestrator.waits in refl) (λ e. ground arith)

execute-attempts-le_example :
    (execute (ports (lit "no")) signup (lit "signup-1") 0).0.attempts
    ≤ length signup.triggers * step_max_attempts signup.retry
execute-attempts-le_example = execute-attempts-le (ports (lit "no")) signup (lit "signup-1") 0

abbrev stop_early : SequenceConfig
stop_early = record { delay = pos 1; skip_fail_test = true }

run_sequence-Covers_example :
    Covers true
      (signup ∷ signup ∷ [])
      (run_sequence (ports (lit "no")) (signup ∷ signup ∷ []) stop_early 0).0
run_sequence-Covers_example =
    run_sequence-Covers (ports (lit "no")) (signup ∷ signup ∷ []) stop_early 0

abbrev in_order : List e2e_framework.Domain.ReceiverResult
in_order = receiver_of failed ∷ receiver_of error ∷ []

abbrev in_turn : List e2e_framework.Domain.ReceiverResult
in_turn = receiver_of error ∷ receiver_of failed ∷ []

merge_all-perm_example :
    ((merge_all in_order (result_of passed)).status ≡ (merge_all in_turn (result_of passed)).status)
    × Perm
        (merge_all in_order (result_of passed)).receivers
        (merge_all in_turn (result_of passed)).receivers
merge_all-perm_example =
    merge_all-perm in_order in_turn (result_of passed)
      (Perm.swap (receiver_of error) (receiver_of failed) [])
