-- ===== src/Tests/Requests.antt =====
-- The server: its cache, and requests with runs that finish later.
use e2e_framework.Prelude.{if◌then◌else◌}
use e2e_framework.Prelude.{
  ℕ, ◌≡◌, refl, lit, Dict, lookup, none, some, true, false, [], ◌∷◌, arith, ◌==◌, contains_text,
}
use e2e_framework.Domain.{TestDefinition, TestResult, passed, ok, err, plain}
use e2e_framework.Orchestrator.{run_test}
use e2e_framework.Api.{
  ResultCache, no_results, store_result, Request, Server, Decoders, Config, handle_run,
}
use e2e_framework.Api.Invariant.{IsValid, store_result-IsValid}
use e2e_framework.Api.{auth_middleware, handle_run_sequence}
use e2e_framework.Api.Refusals.{Spares, refusal_changes_nothing}
use e2e_framework.Api.Eviction.{newest, with_run, store_result_lem}
use e2e_framework.Tests.World.{ports, signup, result_of}

pub no_results-IsValid : IsValid no_results
no_results-IsValid = record {
  index = record { distinct = tt; indexed = λ id. (unfold contains_text lookup in refl) };
  bounded = omega arith;
}

abbrev one : ResultCache
one = store_result (result_of passed) no_results

abbrev pub decoders : Decoders
decoders = record { string_list = λ s. none; parse_duration = λ s. err (plain s) }

abbrev pub config : Config
config = record { auth_enable = false; resolver = none }

abbrev post : Request
post = record {
  method = lit "POST";
  path = lit "/run";
  query = (lit "id", lit "signup") ∷ [];
  authorization = [];
  body = ok [];
}

abbrev pub tests : Dict TestDefinition
tests = (lit "signup", record signup { async = true }) ∷ []

abbrev pub started : Server ℕ
started = record { cache = no_results; pending = []; world = 62135596800000000000 }

abbrev pub answered : Server ℕ
answered = (handle_run (ports (lit "hi")) tests post started).1

abbrev pub outcome : TestResult
outcome = (run_test (ports (lit "hi")) (record signup { async = true }) started.world).1

refusal_changes_nothing_example :
    Spares started (
      auth_middleware
        (ports (lit "hi"))
        tests
        config
        (handle_run (ports (lit "hi")) tests)
        post
        started)
    × Spares started (
        auth_middleware
          (ports (lit "hi"))
          tests
          config
          (λ q. handle_run_sequence (ports (lit "hi")) tests decoders q config)
          post
          started)
refusal_changes_nothing_example =
    refusal_changes_nothing (ports (lit "hi")) tests decoders post config started

store_result_lem_example :
    ((store_result (result_of passed) one).result_order
      ≡ newest (with_run (lit "signup-1") one.result_order))
    × (lookup (lit "other") (store_result (result_of passed) one).results ≡ (
        if contains_text (newest (with_run (lit "signup-1") one.result_order)) (lit "other")
        then (if lit "signup-1" == lit "other"
            then some (result_of passed)
            else lookup (lit "other") one.results)
        else none))
store_result_lem_example =
    store_result_lem (result_of passed) one
      (store_result-IsValid (result_of passed) no_results no_results-IsValid) (lit "other")
