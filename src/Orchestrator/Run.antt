-- ===== src/Orchestrator/Run.antt =====
-- The state of one run, its variables, and the reservation of recipients.
use e2e_framework.Prelude.{
  ℕ, ◌-◌, ◌/◌, ◌^◌, Text, lit, insert, contains_text, Option, none, some, true, false, List, [],
  ◌∷◌, ◌++◌, ◌==◌, if◌then◌else◌,
}
use e2e_framework.Domain.{Vars, Time, ReceiverConfig, TestResult, error, Error, wrap_error, ok, err}
use e2e_framework.Template.{replace_string}
use e2e_framework.Ports.{Ports}

-- `reservedVarNames`
abbrev pub reserved_var_names : List Text
reserved_var_names = lit "run_id" ∷ lit "test_id" ∷ lit "error" ∷ []

-- The variables of the run (one map, shared with triggers and receivers), the world, the result.
pub record Run (W : Type 0) : Type 0 where
  pub vars : Vars
  pub world : W
  pub result : TestResult

-- `finished.Sub(started).Milliseconds()`, on Go's monotonic clock.
abbrev pub milliseconds : Time → Time → ℕ
milliseconds started finished = (finished - started) / 10 ^ 6

unfoldable pub reservation_failed : Text → Error → Error
reservation_failed type e =
    wrap_error (lit "recipient reservation failed for " ++ (type ++ lit ": ")) e

module _ {W : Type 0} (p : Ports W) where
  -- `failResult`
  unfoldable pub fail_result : Text → TestResult → W → TestResult × W
  fail_result text r w =
      let (t, w') = p.now w in
      (
        record r {
          status = error;
          error = text;
          finished_at = t;
          duration_ms = milliseconds r.started_at t;
        },
        w',
      )

  -- One round of `for k, v := range def.Variables`.
  unfoldable pub resolve_variable : Text → Text → Vars → W → Vars × W
  resolve_variable k v vars w =
      if contains_text reserved_var_names k
      then (vars, w)
      else (let (t, vars', w') = replace_string p.random v vars w in (insert k t vars', w'))

  unfoldable pub resolve_variables : Vars → Vars → W → Vars × W
  resolve_variables [] vars w = (vars, w)
  resolve_variables ((k, v) ∷ rest) vars w =
      let (vars', w') = resolve_variable k v vars w in resolve_variables rest vars' w'

  -- `reserveRecipients`: the error, if any, and what was reserved before it.
  unfoldable pub reserve_recipients :
      Text → List ReceiverConfig → List ReceiverConfig → W → Option Error × List ReceiverConfig × W
  reserve_recipients run_id [] reserved w = (none, reserved, w)
  reserve_recipients run_id (cfg ∷ cfgs) reserved w = elim (cfg.recipient == []) [
    | true ↦ reserve_recipients run_id cfgs reserved w
    | false ↦
        let (r, w') = p.store.reserve cfg.type cfg.recipient run_id w in
        (elim r [
          | err e ↦ (some (reservation_failed cfg.type e), reserved, w')
          | ok _ ↦ reserve_recipients run_id cfgs (reserved ++ (cfg ∷ [])) w'
        ])
  ]

  -- `releaseRecipients`
  unfoldable pub release_recipients : List ReceiverConfig → W → W
  release_recipients [] w = w
  release_recipients (cfg ∷ reserved) w =
      release_recipients reserved (p.store.release cfg.type cfg.recipient w).1

  -- The deferred calls at the return of `executeSequential`, last deferred first.
  unfoldable pub run_deferred : List (List ReceiverConfig) → W → W
  run_deferred [] w = w
  run_deferred (reserved ∷ deferred) w = run_deferred deferred (release_recipients reserved w)
