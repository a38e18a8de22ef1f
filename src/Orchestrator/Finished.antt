-- ===== src/Orchestrator/Finished.antt =====
-- internal/core/services/orchestrator.go: the log line at the end of a run.
use e2e_framework.Prelude.{◌≡◌, pos, Text, lit, ◌==◌, Option, List, [], ◌∷◌, ◌++◌}
use e2e_framework.Prelude.{none, leb, if◌then◌else◌}
use e2e_framework.Domain.{RunStatus, failed, error, skipped, status_text, TestResult}
use e2e_framework.Logger
use e2e_framework.Logger.{Level, LogConfig}
use e2e_framework.Logger.Events.{
  Attr, str_value, int_value, Slog, Logger, event, msg, chain, Process, new_logger,
}
use e2e_framework.Logger.Laws.{Line, IsSlog, rank, component, world, exit_code, msg-new_logger}

-- `runStatusLevel`
unfoldable pub run_status_level : RunStatus → Level
run_status_level failed = Logger.error
run_status_level error = Logger.error
run_status_level skipped = Logger.warn
run_status_level _ = Logger.info

-- The fields of `logRunFinished`; an error text is one if there is one.
unfoldable pub run_fields : TestResult → Text → List Attr
run_fields result source =
    let fields =
      (lit "run_id", str_value result.run_id)
      ∷ (lit "test_id", str_value result.test_id)
      ∷ (lit "source", str_value source)
      ∷ (lit "status", str_value (status_text result.status))
      ∷ (lit "duration_ms", int_value (pos result.duration_ms))
      ∷ (lit "attempts", int_value (pos result.attempts))
      ∷ [] in
    if result.error == [] then fields else fields ++ ((lit "error", str_value result.error) ∷ [])

module _ {L W : Type 0} (slog : Slog L W) where
  -- `logRunFinished`
  unfoldable pub log_run_finished : Option (Logger L) → TestResult → Text → W → Process W
  unfolding chain
  log_run_finished l result source w =
      msg slog
        (chain slog (run_fields result source) (event slog (run_status_level result.status) l))
        (lit "Test run finished") w

  -- A run is logged at the level of its status, with its ids, its origin and its outcome, by a logger
  -- whose level admits it, and the process goes on.
  pub log_run_finished_lem :
      (lines : W → List Line) (threshold : L → Level) (common : L → List Attr)
      → IsSlog slog lines threshold common
      → (cfg : LogConfig) (result : TestResult) (source : Text) (w : W)
      → (exit_code (log_run_finished (new_logger slog cfg (lit "orchestrator")) result source w)
          ≡ none)
        × (lines
              (world (log_run_finished (new_logger slog cfg (lit "orchestrator")) result source w))
            ≡ (if leb (rank cfg.level) (rank (run_status_level result.status))
                then lines w
                  ++ (record {
                    level = run_status_level result.status;
                    text = lit "Test run finished";
                    attrs = component (lit "orchestrator") ++ run_fields result source;
                  }
                      ∷ [])
                else lines w))
  unfolding log_run_finished
  log_run_finished_lem lines threshold common laws cfg result source w =
      let (goes, written, _, _) =
        msg-new_logger slog lines threshold common laws cfg (lit "orchestrator")
          (run_status_level result.status) (run_fields result source) (lit "Test run finished") w in
      (goes, written)
