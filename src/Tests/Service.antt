-- ===== src/Tests/Service.antt =====
-- A run of the service with its own adapters: a trigger over HTTP, a webhook receiver, the memory
-- store, and a callback that comes while the receiver waits.
use e2e_framework.Prelude.{
  ℕ, ◌+◌, ◌≡◌, refl, lit, pos, none, [], ◌∷◌, lookup, insert, ◌==◌, strip_prefix, trim_prefix,
  trim_space, decimal, to_lower, copy_into,
}
use e2e_framework.Domain.{
  ReceiverConfig, Time, Message, TestDefinition, TestResult, passed, webhook_receiver_type, plain,
  ok, err, effective_type,
}
use e2e_framework.Store.Memory.{Json, MemoryStore, new_memory_store, claim, deposit, pair_key}
use e2e_framework.Store.Memory.Port.{clock, memory_store}
use e2e_framework.Webhook.{Extractor, handle_webhook}
use e2e_framework.Assertion.{assert_equals, create, actual_of}
use e2e_framework.Orchestrator.{
  run_test, execute, stamp_finished, execute_sequential, run_steps, run_step, reserve_recipients,
  finish_step, attempts, step_max_attempts, attempt_once, resolve_variables, waits, await_receivers,
  start_receivers, collect_and_assert_all, summarize, run_receivers, run_receiver, merge,
  merge_status, collect_and_assert, wait_before, assert_all,
}
use e2e_framework.Wiring.{World, Adapters, new_orchestrator, webhook_receiver, set_cell}
use e2e_framework.Wiring.Laws.{done, created, started, webhook, collect-start}
use e2e_framework.Receivers.{
  new_webhook_receiver, collect_webhook, start_webhook, poll, claim_webhook,
}
use e2e_framework.Registries.{create_trigger, register_trigger, create_receiver, register_receiver}
use e2e_framework.Http.{
  new_http_trigger, http_trigger, execute_http, send_and_judge, trigger_request, assemble, prepare,
  prepare_body, unresolved_reason, unresolved_header, text_or_empty, judge, status_problem,
}
use e2e_framework.Template.{
  has_unresolved, replace_string, resolve_generators, replace_all_func, replace_vars,
  resolve_increments, match_group, replace_all, match_text, generator_regex, replace_headers,
}
use e2e_framework.Ingestor.{ingest, lacks_run_id}
use e2e_framework.Tests.World.{mail, inbox, waiting_step, signup}
use e2e_framework.Tests.Exchange.{http_lib}
use e2e_framework.Tests.Callbacks.{callback}

abbrev letter : Message
letter = record (mail (lit "hi")) { run_id = lit "signup-1"; receiver_type = webhook_receiver_type }

abbrev json : Json
json = record { marshal = λ m. ok []; unmarshal = λ s. ok letter }

abbrev Base : Type 0
Base = MemoryStore × ℕ

abbrev step_clock : ℕ → Time × ℕ
step_clock c = (c, c + 1)

abbrev extractor : Extractor Base
extractor req w = (ok letter, w)

abbrev adapters : Adapters Base
adapters = record {
  store = memory_store json step_clock;
  client = record {
    send = λ req limit w.
        (ok (record { status = 200; headers = []; body = lit "{}"; read_error = none }), w);
  };
  imap = λ n c. record {
    connect = λ w. (err (plain []), w);
    search_by_run_id = λ id w. (ok none, w);
    disconnect = λ w. (ok tt, w);
  };
  random = record { new_uuid = λ w. (lit "u", w); int_n = λ n w. (pos 0, w) };
  now = clock json step_clock;
  sleep = λ d w. w;
  go = λ f w. w;
  waiting = record {
    ticks = λ limit w. 2;
    tick = λ d w.
        (handle_webhook (memory_store json step_clock) (clock json step_clock)
          ((lit "meta", extractor) ∷ []) callback w).1;
    done = lit "context deadline exceeded";
  };
  lib = http_lib;
  assertions =
      (lit "equals", λ cfg. ok (record { assert = assert_equals cfg.field cfg.value })) ∷ [];
  atoi_error = λ t. t;
  finish_order = λ w l. l;
}

abbrev definition : TestDefinition
definition = record signup {
  triggers =
      record waiting_step {
        receivers = record inbox { type = webhook_receiver_type; recipient = [] } ∷ [];
      }
      ∷ [];
}

abbrev begun : World Base
begun = record {
  base = (new_memory_store (pos 1000), 62135596800000000001);
  cells = λ n. new_webhook_receiver;
  next = 0;
}

abbrev service_run : TestResult
service_run = (run_test (new_orchestrator adapters) definition begun).1

service_run_passed : service_run.status ≡ passed
unfolding run_test execute stamp_finished execute_sequential run_steps run_step new_orchestrator
    create_trigger lookup register_trigger insert ◌==◌ effective_type new_http_trigger
    reserve_recipients finish_step attempts step_max_attempts attempt_once http_trigger execute_http
    send_and_judge trigger_request assemble prepare prepare_body unresolved_reason has_unresolved
    replace_string resolve_generators replace_all_func replace_vars resolve_increments match_group
    strip_prefix resolve_variables replace_all match_text generator_regex unresolved_header
    replace_headers text_or_empty judge status_problem waits await_receivers start_receivers
    create_receiver register_receiver webhook_receiver collect_and_assert_all summarize
    run_receivers run_receiver merge merge_status collect_and_assert collect_webhook set_cell
    wait_before start_webhook poll claim_webhook memory_store claim handle_webhook trim_prefix
    ingest lacks_run_id trim_space deposit pair_key decimal assert_all create assert_equals
    actual_of to_lower copy_into
service_run_passed = refl

abbrev hook : ReceiverConfig
hook = record inbox { type = webhook_receiver_type; recipient = [] }

-- A second receiver is made and started for another run before the first one collects.
abbrev first_started : World Base
first_started =
    ((webhook_receiver adapters 0).start (lit "signup-1") []
      ((new_orchestrator adapters).create_receiver hook begun).1).2

abbrev both_started : World Base
both_started =
    ((webhook_receiver adapters 1).start (lit "signup-2") []
      ((new_orchestrator adapters).create_receiver hook first_started).1).2

collect-start_example :
    (((new_orchestrator adapters).create_receiver hook begun).0 ≡ ok (webhook_receiver adapters 0))
    × (((webhook_receiver adapters 0).collect (pos 9) [] both_started).0
        ≡ (collect_webhook adapters.store adapters.now adapters.waiting
            (record { run_id = lit "signup-1"; started_at = 62135596800000000001 })
            (pos 9)
            both_started.base).0)
collect-start_example =
    collect-start adapters hook begun both_started (lit "signup-1") [] [] (pos 9) refl
      (created hook (started webhook refl (lit "signup-2") [] done))
