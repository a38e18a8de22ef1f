-- ===== src/Tests/World.antt =====
-- A world for the tests: its state is the clock, and its parts answer without failing unless the
-- test says so.
use e2e_framework.Prelude.{ℕ, ◌+◌, Text, lit, pos, none, true, false, [], ◌∷◌}
use e2e_framework.Domain.{
  ReceiverConfig, TriggerConfig, TestDefinition, TestResult, ReceiverResult, Message, RunStatus, ok,
}
use e2e_framework.Template.Generators.{Random}
use e2e_framework.Store.Disabled.{disabled_store}
use e2e_framework.Ports.{Trigger, Receiver, Ports}
use e2e_framework.Assertion.{assert_equals}

abbrev pub random : Random ℕ
random = record { new_uuid = λ w. (lit "u", w); int_n = λ n w. (pos 0, w) }

abbrev pub mail : Text → Message
mail subject = record {
  run_id = lit "signup-1";
  receiver_type = lit "imap";
  received_at = 5;
  headers = [];
  fields = (lit "subject", subject) ∷ [];
  raw = [];
}

abbrev pub quiet_trigger : Trigger ℕ
quiet_trigger = record { execute = λ step run_id vars w. (ok [], vars, w + 1) }

abbrev pub mailbox : Text → Receiver ℕ
mailbox subject = record {
  start = λ run_id vars w. (ok tt, vars, w);
  collect = λ timeout vars w. (ok (mail subject), vars, w + 1);
  stop = λ w. (ok tt, w);
}

-- The mail that arrives has the subject; all assertions are `equals`.
abbrev pub ports : Text → Ports ℕ
ports subject = record {
  random = random;
  store = disabled_store;
  create_trigger = λ type options w. (ok quiet_trigger, w);
  create_receiver = λ cfg w. (ok (mailbox subject), w);
  create_assertion = λ cfg. ok (record { assert = assert_equals cfg.field cfg.value });
  notify = λ cfg r w. (ok tt, w);
  now = λ w. (w, w + 1);
  sleep = λ d w. w + 10;
  go = λ f w. f w;
  finish_order = λ w l. l;
}

abbrev pub inbox : ReceiverConfig
inbox = record {
  type = lit "imap";
  timeout = pos 0;
  recipient = lit "a@b";
  options = [];
  assertions = record { type = lit "equals"; field = lit "subject"; value = lit "hi" } ∷ [];
  interval = pos 0;
  method = [];
  url = [];
  headers = [];
  body = none;
  expected_status = pos 0;
  response_asserts = [];
  extract = [];
}

abbrev pub waiting_step : TriggerConfig
waiting_step = record {
  type = lit "http";
  options = [];
  method = lit "POST";
  url = lit "http://a";
  timeout = pos 0;
  delay_before = pos 0;
  headers = [];
  body = none;
  extract = [];
  expected_status = pos 200;
  response_assertions = [];
  receivers = inbox ∷ [];
  wait_for_receivers = true;
}

abbrev pub signup : TestDefinition
signup = record {
  version = lit "1";
  id = lit "signup";
  schedule = [];
  enabled = true;
  async = false;
  retry = record { enabled = true; attempts = pos 3; delay = pos 1 };
  variables = [];
  triggers = waiting_step ∷ [];
  on_failure = record { calls = [] };
}

abbrev pub result_of : RunStatus → TestResult
result_of status = record {
  test_id = lit "signup";
  run_id = lit "signup-1";
  status = status;
  attempts = 1;
  duration_ms = 0;
  receivers = [];
  error = [];
  started_at = 0;
  finished_at = 0;
  trigger_vars = [];
}

abbrev pub receiver_of : RunStatus → ReceiverResult
receiver_of status = record {
  type = lit "imap";
  trigger_index = 0;
  status = status;
  duration_ms = 0;
  error = [];
  message = none;
}
