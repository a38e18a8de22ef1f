-- ===== src/Domain/Results.antt =====
-- internal/core/domain/result.go and message.go. A time is the nanoseconds since Go's zero time.
use e2e_framework.Prelude.{ℕ, Text, lit, Option, Bool, true, false, List}
use e2e_framework.Domain.Definitions.{Vars}

abbrev pub Time : Type 0
Time = ℕ

pub data RunStatus : Type 0 where
  passed failed error skipped running : RunStatus

abbrev pub status_text : RunStatus → Text
status_text passed = lit "passed"
status_text failed = lit "failed"
status_text error = lit "error"
status_text skipped = lit "skipped"
status_text running = lit "running"

abbrev pub is_passed : RunStatus → Bool
is_passed passed = true
is_passed _ = false

-- `status == StatusFailed || status == StatusError`
abbrev pub is_failure : RunStatus → Bool
is_failure failed = true
is_failure error = true
is_failure _ = false

pub record Message : Type 0 where
  pub run_id : Text
  pub receiver_type : Text
  pub received_at : Time
  pub headers : Vars
  pub fields : Vars
  pub raw : Text

pub record ReceiverResult : Type 0 where
  pub type : Text
  pub trigger_index : ℕ
  pub status : RunStatus
  pub duration_ms : ℕ
  pub error : Text
  pub message : Option Message

pub record TestResult : Type 0 where
  pub test_id : Text
  pub run_id : Text
  pub status : RunStatus
  pub attempts : ℕ
  pub duration_ms : ℕ
  pub receivers : List ReceiverResult
  pub error : Text
  pub started_at : Time
  pub finished_at : Time
  pub trigger_vars : Vars
