-- ===== src/Orchestrator/Collect.antt =====
-- The receivers of a step: start, collect and assert, and the merge of their results.
use e2e_framework.Prelude.{
  ℕ, ◌+◌, Text, lit, join, decimal, Option, none, some, List, [], ◌∷◌, ◌++◌, ◌==◌, ◌&&◌, not,
  if◌then◌else◌,
}
use e2e_framework.Domain.{
  Vars, AssertionConfig, ReceiverConfig, Message, ReceiverResult, TestResult, RunStatus, passed,
  failed, error, is_passed, is_failure, Error, wrap_error, ok, err,
}
use e2e_framework.Template.{replace_string}
use e2e_framework.Ports.{Ports, Receiver, ActiveReceiver}
use e2e_framework.Orchestrator.Run.{Run, milliseconds}

unfoldable pub create_receiver_failed : Text → Error → Error
create_receiver_failed type e =
    wrap_error (lit "failed to create receiver " ++ (type ++ lit ": ")) e

unfoldable pub start_receiver_failed : Text → Error → Error
start_receiver_failed type e = wrap_error (lit "failed to start receiver " ++ (type ++ lit ": ")) e

-- One receiver's part of `summarizeReceiverErrors`.
unfoldable pub describe : ReceiverResult → Text
describe r =
    r.type ++ (lit " (trigger " ++ (decimal (r.trigger_index + 1) ++ (lit "): " ++ r.error)))

unfoldable pub failure_parts : List ReceiverResult → List Text
unfolding describe
failure_parts [] = []
failure_parts (r ∷ rs) =
    let rest = failure_parts rs in if is_failure r.status then describe r ∷ rest else rest

-- `summarizeReceiverErrors`
unfoldable pub summarize_receiver_errors : List ReceiverResult → Text
unfolding failure_parts
summarize_receiver_errors rs = join (failure_parts rs) (lit "; ")

-- The status under the mutex of `collectAndAssertAll`, given the receiver's status.
unfoldable pub merge_status : RunStatus → RunStatus → RunStatus
merge_status error error = error
merge_status error _ = error
merge_status failed passed = failed
merge_status _ status = status

-- The critical section: append the result, and merge its status.
unfoldable pub merge : ReceiverResult → TestResult → TestResult
merge r result = record result {
  receivers = result.receivers ++ (r ∷ []);
  status = merge_status r.status result.status;
}

-- `if result.Error == "" && result.Status != StatusPassed`
unfoldable pub summarize : TestResult → TestResult
summarize r =
    if r.error == [] && not (is_passed r.status)
    then record r { error = summarize_receiver_errors r.receivers }
    else r

module _ {W : Type 0} (p : Ports W) where
  -- `startReceivers`: what has been started stays started when a later receiver fails.
  unfoldable pub start_receivers :
      Text
      → List ReceiverConfig
      → List (ActiveReceiver W)
      → Vars
      → W
      → Option Error × List (ActiveReceiver W) × Vars × W
  start_receivers run_id [] active vars w = (none, active, vars, w)
  start_receivers run_id (cfg ∷ cfgs) active vars w =
      let (created, w1) = p.create_receiver cfg w in
      elim created [
        | err e ↦ (some (create_receiver_failed cfg.type e), active, vars, w1)
        | ok rcv ↦
            let (started, vars', w2) = rcv.start run_id vars w1 in
            (elim started [
              | err e ↦ (some (start_receiver_failed cfg.type e), active, vars', w2)
              | ok _ ↦
                  start_receivers run_id cfgs
                    (active ++ (record { cfg = cfg; instance_ = rcv } ∷ [])) vars' w2
            ])
      ]

  -- `stopReceivers`
  unfoldable pub stop_receivers : List (ActiveReceiver W) → W → W
  stop_receivers [] w = w
  stop_receivers (a ∷ active) w = stop_receivers active (a.instance_.stop w).1

  -- The loop over the assertions of `collectAndAssert`: the status and the error.
  unfoldable pub assert_all :
      List AssertionConfig → Message → Vars → W → (RunStatus × Text) × Vars × W
  assert_all [] msg vars w = ((passed, []), vars, w)
  assert_all (cfg ∷ cfgs) msg vars w =
      let (field', vars1, w1) = replace_string p.random cfg.field vars w in
      let (value', vars2, w2) = replace_string p.random cfg.value vars1 w1 in
      elim (p.create_assertion (record cfg { field = field'; value = value' })) [
        | err e ↦
            ((error, lit "invalid assertion " ++ (cfg.type ++ (lit ": " ++ e.text))), vars2, w2)
        | ok a ↦ elim (a.assert msg) [
          | err e ↦ ((failed, e.text), vars2, w2)
          | ok _ ↦ assert_all cfgs msg vars2 w2
        ]
      ]

  -- `collectAndAssert`
  unfoldable pub collect_and_assert :
      Text → ReceiverConfig → Receiver W → Vars → W → ReceiverResult × Vars × W
  collect_and_assert run_id cfg rcv vars w =
      let (collected, vars1, w1) = rcv.collect cfg.timeout vars w in
      elim collected [
        | err e ↦ (
          record {
            type = cfg.type;
            trigger_index = 0;
            status = error;
            duration_ms = 0;
            error = lit "collection failed: " ++ e.text;
            message = none;
          },
          vars1,
          w1,
        )
        | ok msg ↦
            let (_, w2) = p.store.delete run_id cfg.type w1 in
            let ((status', text), vars3, w3) = assert_all cfg.assertions msg vars1 w2 in
            (
              record {
                type = cfg.type;
                trigger_index = 0;
                status = status';
                duration_ms = 0;
                error = text;
                message = some msg;
              },
              vars3,
              w3,
            )
      ]

  -- One goroutine of `collectAndAssertAll`, up to the end of its critical section.
  unfoldable pub run_receiver : Text → ℕ → ActiveReceiver W → Run W → Run W
  run_receiver run_id index a s =
      let (started, w1) = p.now s.world in
      let (r, vars', w2) = collect_and_assert run_id a.cfg a.instance_ s.vars w1 in
      let (finished, w3) = p.now w2 in
      let r' = record r { duration_ms = milliseconds started finished; trigger_index = index } in
      record { vars = vars'; world = w3; result = merge r' s.result }

  unfoldable pub run_receivers : Text → ℕ → List (ActiveReceiver W) → Run W → Run W
  run_receivers run_id index [] s = s
  run_receivers run_id index (a ∷ active) s =
      run_receivers run_id index active (run_receiver run_id index a s)

  -- `collectAndAssertAll`: the goroutines in the order in which they finish, then the summary.
  unfoldable pub collect_and_assert_all : Text → ℕ → List (ActiveReceiver W) → Run W → Run W
  collect_and_assert_all run_id index active s =
      let s' = run_receivers run_id index (p.finish_order s.world active) s in
      record s' { result = summarize s'.result }
