-- ===== src/Ports.antt =====
-- internal/core/ports and the registries: what the orchestrator is given, over a state `W` of the
-- world outside it. A map that is handed over by reference comes back as the callee leaves it.
use e2e_framework.Prelude.{Text, List}
use e2e_framework.Domain.{
  Duration, Time, Vars, AssertionConfig, TriggerConfig, ReceiverConfig, OnFailureConfig, Message,
  TestResult, Result,
}
use e2e_framework.Template.Generators.{Random}
use e2e_framework.Store.{Store}

-- trigger.go; `nil` extracted variables are the empty map.
pub record Trigger (W : Type 0) : Type 0 where
  pub execute : TriggerConfig → Text → Vars → W → Result Vars × Vars × W

-- receiver.go; `collect` gets the timeout of its context, which counts if it is positive.
pub record Receiver (W : Type 0) : Type 0 where
  pub start : Text → Vars → W → Result (Unit {0}) × Vars × W
  pub collect : Duration → Vars → W → Result Message × Vars × W
  pub stop : W → Result (Unit {0}) × W

-- assertion.go
pub record Assertion : Type 0 where
  pub assert : Message → Result (Unit {0})

pub record ActiveReceiver (W : Type 0) : Type 0 where
  pub cfg : ReceiverConfig
  pub instance_ : Receiver W

-- `finish_order` is the order in which the goroutines of a step's receivers finish, and `go` the world
-- after a goroutine has been started that does this to a world: how much of it is done before its
-- starter goes on, and what happens to the rest, the environment decides.
pub record Ports (W : Type 0) : Type 0 where
  pub random : Random W
  pub store : Store W
  pub create_trigger : Text → Vars → W → Result (Trigger W) × W
  pub create_receiver : ReceiverConfig → W → Result (Receiver W) × W
  pub create_assertion : AssertionConfig → Result Assertion
  pub notify : OnFailureConfig → TestResult → W → Result (Unit {0}) × W
  pub now : W → Time × W
  pub sleep : Duration → W → W
  pub go : (W → W) → W → W
  pub finish_order : W → List (ActiveReceiver W) → List (ActiveReceiver W)
