-- ===== src/Tests/Parts.antt =====
-- Reservations, random numbers and registries.
use e2e_framework.Prelude.{ℕ, ◌+◌, ◌^◌, ◌≡◌, lit, pos, [], ◌∷◌, arith}
use e2e_framework.Domain.{ok, err, plain}
use e2e_framework.Orchestrator.{reserve_recipients}
use e2e_framework.Orchestrator.Reservations.{
  with_recipient, Attempted, IsFree, reserve_recipients_lem,
}
use e2e_framework.Store.Memory.{Json, MemoryStore, new_memory_store}
use e2e_framework.Store.Memory.Port.{memory_store}
use e2e_framework.Template.Generators.{max_of}
use e2e_framework.Template.Generators.Bounds.{max_of_lem}
use e2e_framework.Registries.{}
use e2e_framework.Ports.{Ports}
use e2e_framework.Domain.{TestDefinition, passed}
use e2e_framework.Prelude.{false}
use e2e_framework.Orchestrator.{resolve_variables, execute_sequential}
use e2e_framework.Orchestrator.Released.{EachPassed, execute_sequential-EachPassed}
use e2e_framework.Tests.World.{signup, waiting_step, result_of}
use e2e_framework.Tests.World.{ports, inbox}

reserve_recipients_lem_example :
    Attempted
      (ports (lit "hi"))
      (lit "signup-1")
      (with_recipient (inbox ∷ []))
      3
      (reserve_recipients (ports (lit "hi")) (lit "signup-1") (inbox ∷ []) [] 3).0
      (reserve_recipients (ports (lit "hi")) (lit "signup-1") (inbox ∷ []) [] 3).1
      (reserve_recipients (ports (lit "hi")) (lit "signup-1") (inbox ∷ []) [] 3).2
reserve_recipients_lem_example =
    reserve_recipients_lem (ports (lit "hi")) (lit "signup-1") (inbox ∷ []) 3

max_of_lem_example : (max_of 18 ≡ pos (10 ^ 18)) × (max_of (64 + 3) ≡ pos 0)
max_of_lem_example = max_of_lem 18 3 (omega arith)

abbrev json : Json
json = record { marshal = λ m. ok m.raw; unmarshal = λ s. err (plain s) }

abbrev tick : ℕ → ℕ × ℕ
tick w = (w, w + 1)

abbrev pub store_ports : Ports (MemoryStore × ℕ)
store_ports = record {
  random = record { new_uuid = λ w. (lit "u", w); int_n = λ n w. (pos 0, w) };
  store = memory_store json tick;
  create_trigger = λ type options w. (err (plain type), w);
  create_receiver = λ cfg w. (err (plain cfg.type), w);
  create_assertion = λ cfg. err (plain cfg.type);
  notify = λ cfg r w. (ok tt, w);
  now = λ w. (w.1, w);
  sleep = λ d w. w;
  go = λ f w. w;
  finish_order = λ w l. l;
}

abbrev busy : MemoryStore × ℕ
busy =
    (reserve_recipients store_ports (lit "signup-1") (inbox ∷ []) []
      (new_memory_store (pos 9), 4)).2

abbrev idle : Ports (MemoryStore × ℕ)
idle = record store_ports {
  create_trigger =
      λ type options w. (ok (record { execute = λ step run_id vars u. (ok [], vars, u) }), w);
}

abbrev one_step : TestDefinition
one_step = record signup { triggers = record waiting_step { wait_for_receivers = false } ∷ [] }

execute_sequential-EachPassed_example :
    EachPassed idle one_step.retry
      (lit "signup-1")
      (IsFree json tick idle 6
        (execute_sequential idle one_step
          (lit "signup-1")
          (result_of passed)
          (new_memory_store (pos 9), 4)).1)
      0
      one_step.triggers
      (record {
        vars = (lit "run_id", lit "signup-1") ∷ [];
        world = (new_memory_store (pos 9), 4);
        result = result_of passed;
      })
unfolding resolve_variables
execute_sequential-EachPassed_example =
    execute_sequential-EachPassed json tick idle one_step (lit "signup-1") (result_of passed) 6
      (new_memory_store (pos 9), 4)
