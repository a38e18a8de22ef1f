-- ===== src/Wiring/Stores.antt =====
-- The store of the orchestrator is that of the service: it keeps what that one keeps.
use e2e_framework.Prelude.{Text, Bool, Option}
use e2e_framework.Domain.{Message}
use e2e_framework.Store.Contract.{Keeps, Serves}
use e2e_framework.Wiring.{Adapters, lifted_store}

module _ {V K : Type 0} (a : Adapters V) (pair : Text → Text → K) (same : K → K → Bool)
    (Stored : Message → Type 0) (Ready : V → Type 0) (message : V → K → Option Message)
    (held : V → K → Option Text) where
  -- If the store of the service keeps the contract of a store, so does the one that the
  -- orchestrator is given.
  pub lifted_store-Keeps :
      Keeps a.store pair same Stored Ready message held
      → Keeps
          (lifted_store a)
          pair
          same
          Stored
          (λ w. Ready w.base)
          (λ w. message w.base)
          (λ w. held w.base)
  unfolding lifted_store
  lifted_store-Keeps k = record {
    same_refl = k.same_refl;
    deposit_ready = λ m w. k.deposit_ready m w.base;
    claim_ready = λ run_id type w. k.claim_ready run_id type w.base;
    reserve_ready = λ channel recipient run_id w. k.reserve_ready channel recipient run_id w.base;
    release_ready = λ channel recipient w. k.release_ready channel recipient w.base;
    delete_ready = λ run_id type w. k.delete_ready run_id type w.base;
    deposit_message = λ m w. k.deposit_message m w.base;
    deposit_held = λ m w. k.deposit_held m w.base;
    claim_message = λ run_id type w. k.claim_message run_id type w.base;
    claim_same = λ run_id type w. k.claim_same run_id type w.base;
    reserve_free = λ channel recipient run_id w. k.reserve_free channel recipient run_id w.base;
    reserve_held = λ channel recipient run_id w. k.reserve_held channel recipient run_id w.base;
    reserve_keeps = λ channel recipient run_id w. k.reserve_keeps channel recipient run_id w.base;
    release_held = λ channel recipient w. k.release_held channel recipient w.base;
    delete_message = λ run_id type w. k.delete_message run_id type w.base;
  }

  -- And it answers as that one does.
  pub lifted_store-Serves :
      Serves a.store pair Stored Ready message held
      → Serves
          (lifted_store a)
          pair
          Stored
          (λ w. Ready w.base)
          (λ w. message w.base)
          (λ w. held w.base)
  unfolding lifted_store
  lifted_store-Serves s = record {
    deposit_serves = λ m w. s.deposit_serves m w.base;
    claim_serves = λ run_id type w. s.claim_serves run_id type w.base;
    reserve_serves = λ channel recipient run_id w. s.reserve_serves channel recipient run_id w.base;
    release_serves = λ channel recipient w. s.release_serves channel recipient w.base;
    delete_serves = λ run_id type w. s.delete_serves run_id type w.base;
  }
