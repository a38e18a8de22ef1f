-- ===== src/Store/Contract/Exclusion.antt =====
-- What the contract of a store gives its users: a recipient has one run at a time, and a message
-- waits to be claimed.
use e2e_framework.Prelude.{◌≡◌, ◌≢◌, refl, ◌∙◌, Text, Bool, Option, some, false, arith}
use e2e_framework.Domain.{Message, ok}
use e2e_framework.Store.{Store}
use e2e_framework.Store.Contract.{Keeps}

-- Calls of a store without a release of the recipient with the key, in which the deposits, releases
-- and deletions succeed.
pub data Calls {W K : Type 0} (store : Store W) (pair : Text → Text → K) (same : K → K → Bool)
    (key : K) : W → W → Type 0 where
  done : {w : W} → Calls store pair same key w w
  deposited :
      {w v : W} (m : Message)
      → (store.deposit m w).0 ≡ ok tt
      → Calls store pair same key (store.deposit m w).1 v
      → Calls store pair same key w v
  claimed :
      {w v : W} (run_id type : Text)
      → Calls store pair same key (store.claim run_id type w).1 v
      → Calls store pair same key w v
  attempted :
      {w v : W} (channel recipient run_id : Text)
      → Calls store pair same key (store.reserve channel recipient run_id w).1 v
      → Calls store pair same key w v
  released :
      {w v : W} (channel recipient : Text)
      → (store.release channel recipient w).0 ≡ ok tt
      → same (pair channel recipient) key ≡ false
      → Calls store pair same key (store.release channel recipient w).1 v
      → Calls store pair same key w v
  deleted :
      {w v : W} (run_id type : Text)
      → (store.delete run_id type w).0 ≡ ok tt
      → Calls store pair same key (store.delete run_id type w).1 v
      → Calls store pair same key w v

module _ {W K : Type 0} (store : Store W) (pair : Text → Text → K) (same : K → K → Bool)
    (Stored : Message → Type 0) (Ready : W → Type 0) (message : W → K → Option Message)
    (held : W → K → Option Text) (k : Keeps store pair same Stored Ready message held) where
  pub reservation_lasts :
      (key : K) (run_id : Text) {w v : W}
      → Calls store pair same key w v
      → held w key ≡ some run_id
      → held v key ≡ some run_id
  reservation_lasts key run_id done h = h
  reservation_lasts key run_id (deposited {w} m e c) h =
      reservation_lasts key run_id c (k.deposit_held m w e key ∙ h)
  reservation_lasts key run_id (claimed {w} r type c) h =
      reservation_lasts key run_id c ((k.claim_same r type w key).1 ∙ h)
  reservation_lasts key run_id (attempted {w} channel recipient r c) h =
      reservation_lasts key run_id c (k.reserve_keeps channel recipient r w key run_id h)
  reservation_lasts key run_id (released {w} channel recipient e q c) h =
      reservation_lasts key run_id c ((k.release_held channel recipient w e key).0 ∙ rw q h)
  reservation_lasts key run_id (deleted {w} r type e c) h =
      reservation_lasts key run_id c ((k.delete_message r type w e key).1 ∙ h)

  -- In a store that keeps the contract, a recipient that has been reserved is refused to every run
  -- after any calls without a release of the recipient, where the deposits, releases and deletions
  -- among them succeed, and reservations may fail.
  pub reserve-excludes :
      (channel recipient run_id other : Text) (w v : W)
      → (store.reserve channel recipient run_id w).0 ≡ ok tt
      → Calls store pair same
          (pair channel recipient)
          (store.reserve channel recipient run_id w).1
          v
      → (store.reserve channel recipient other v).0 ≢ ok tt
  reserve-excludes channel recipient run_id other w v e c again =
      let key = pair channel recipient in
      let taken =
        reservation_lasts key run_id c
          ((k.reserve_held channel recipient run_id w e key).0 ∙ rw (k.same_refl key) refl) in
      absurd (ground (arith, taken, k.reserve_free channel recipient other v again))
