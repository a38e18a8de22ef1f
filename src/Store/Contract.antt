-- ===== src/Store/Contract.antt =====
-- What a `Store` promises (internal/core/ports/store.go), by two observations of its state: the
-- message and the run under a key. The clock is not observed, so no entry expires between two
-- operations. An operation that fails promises nothing, but that no reservation takes away what is
-- held, and that a claim changes nothing.
pub mod Exclusion
pub mod Progress
use e2e_framework.Prelude.{◌≡◌, Text, Bool, true, Option, none, some, if◌then◌else◌}
use e2e_framework.Domain.{Message, ok}
use e2e_framework.Store.{Store}
use e2e_framework.Store.Memory.{Json}

-- The view of a key after it has been set, or deleted.
abbrev pub updated : {A K : Type 0} → (K → K → Bool) → (K → Option A) → K → Option A → K → Option A
updated same view key new k = if same key k then new else view k

-- A message that its encoding gives back.
abbrev pub IsStorable : Json → Message → Type 0
IsStorable json m = (data_ : Text) × (json.marshal m ≡ ok data_) × (json.unmarshal data_ ≡ ok m)

-- `Stored m` holds if the encoding of the store gives `m` back as it was, and `Ready w` of the
-- states in which the contract is kept. `pair` makes the keys, which `same` compares.
pub record Keeps {W K : Type 0} (store : Store W) (pair : Text → Text → K) (same : K → K → Bool)
    (Stored : Message → Type 0) (Ready : W → Type 0) (message : W → K → Option Message)
    (held : W → K → Option Text) : Type 0 where
  pub same_refl : (k : K) → same k k ≡ true
  pub deposit_ready : (m : Message) (w : W) → Ready w → Ready (store.deposit m w).1
  pub claim_ready : (run_id type : Text) (w : W) → Ready w → Ready (store.claim run_id type w).1
  pub reserve_ready :
      (channel recipient run_id : Text) (w : W)
      → Ready w
      → Ready (store.reserve channel recipient run_id w).1
  pub release_ready :
      (channel recipient : Text) (w : W) → Ready w → Ready (store.release channel recipient w).1
  pub delete_ready : (run_id type : Text) (w : W) → Ready w → Ready (store.delete run_id type w).1
  pub deposit_message :
      (m : Message) (w : W)
      → Ready w
      → Stored m
      → (store.deposit m w).0 ≡ ok tt
      → (k : K)
      → message (store.deposit m w).1 k
        ≡ updated same (message w) (pair m.run_id m.receiver_type) (some m) k
  pub deposit_held :
      (m : Message) (w : W)
      → (store.deposit m w).0 ≡ ok tt
      → (k : K) → held (store.deposit m w).1 k ≡ held w k
  pub claim_message :
      (run_id type : Text) (w : W) (found : Option Message)
      → (store.claim run_id type w).0 ≡ ok found
      → found ≡ message w (pair run_id type)
  pub claim_same :
      (run_id type : Text) (w : W) (k : K)
      → (message (store.claim run_id type w).1 k ≡ message w k)
        × (held (store.claim run_id type w).1 k ≡ held w k)
  pub reserve_free :
      (channel recipient run_id : Text) (w : W)
      → (store.reserve channel recipient run_id w).0 ≡ ok tt
      → held w (pair channel recipient) ≡ none
  pub reserve_held :
      (channel recipient run_id : Text) (w : W)
      → (store.reserve channel recipient run_id w).0 ≡ ok tt
      → (k : K)
      → (held (store.reserve channel recipient run_id w).1 k
          ≡ updated same (held w) (pair channel recipient) (some run_id) k)
        × (message (store.reserve channel recipient run_id w).1 k ≡ message w k)
  pub reserve_keeps :
      (channel recipient run_id : Text) (w : W) (k : K) (holder : Text)
      → held w k ≡ some holder
      → held (store.reserve channel recipient run_id w).1 k ≡ some holder
  pub release_held :
      (channel recipient : Text) (w : W)
      → (store.release channel recipient w).0 ≡ ok tt
      → (k : K)
      → (held (store.release channel recipient w).1 k
          ≡ updated same (held w) (pair channel recipient) none k)
        × (message (store.release channel recipient w).1 k ≡ message w k)
  pub delete_message :
      (run_id type : Text) (w : W)
      → (store.delete run_id type w).0 ≡ ok tt
      → (k : K)
      → (message (store.delete run_id type w).1 k
          ≡ updated same (message w) (pair run_id type) none k)
        × (held (store.delete run_id type w).1 k ≡ held w k)

-- What the store answers where nothing in its environment fails.
pub record Serves {W K : Type 0} (store : Store W) (pair : Text → Text → K)
    (Stored : Message → Type 0) (Ready : W → Type 0) (message : W → K → Option Message)
    (held : W → K → Option Text) : Type 0 where
  pub deposit_serves : (m : Message) (w : W) → Ready w → Stored m → (store.deposit m w).0 ≡ ok tt
  pub claim_serves :
      (run_id type : Text) (w : W) (m : Message)
      → Ready w
      → message w (pair run_id type) ≡ some m
      → (store.claim run_id type w).0 ≡ ok (some m)
  pub reserve_serves :
      (channel recipient run_id : Text) (w : W)
      → Ready w
      → held w (pair channel recipient) ≡ none
      → (store.reserve channel recipient run_id w).0 ≡ ok tt
  pub release_serves :
      (channel recipient : Text) (w : W) → Ready w → (store.release channel recipient w).0 ≡ ok tt
  pub delete_serves :
      (run_id type : Text) (w : W) → Ready w → (store.delete run_id type w).0 ≡ ok tt
