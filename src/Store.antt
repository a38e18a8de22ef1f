-- ===== src/Store.antt =====
-- internal/core/ports/store.go: the interface of a message and reservation store over a state.
pub mod Memory
pub mod Disabled
pub mod Redis
pub mod Postgres
pub mod Contract
use e2e_framework.Prelude.{Text, Option}
use e2e_framework.Domain.{Message, Result}

pub record Store (W : Type 0) : Type 0 where
  pub deposit : Message → W → Result (Unit {0}) × W
  pub claim : Text → Text → W → Result (Option Message) × W
  pub reserve : Text → Text → Text → W → Result (Unit {0}) × W
  pub release : Text → Text → W → Result (Unit {0}) × W
  pub delete : Text → Text → W → Result (Unit {0}) × W
  pub close : W → Result (Unit {0}) × W
