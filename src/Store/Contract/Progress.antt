-- ===== src/Store/Contract/Progress.antt =====
-- What a store that keeps the contract and answers gives its users: a message waits until it is
-- deleted.
use e2e_framework.Prelude.{◌≡◌, refl, ◌∙◌, Text, Bool, Option, some, false}
use e2e_framework.Domain.{Message, ok}
use e2e_framework.Store.{Store}
use e2e_framework.Store.Contract.{Keeps, Serves}

-- Calls of a store that succeed, in which no message with the key is deposited or deleted. A claim
-- may fail.
pub data Others {W K : Type 0} (store : Store W) (pair : Text → Text → K) (same : K → K → Bool)
    (Stored : Message → Type 0) (key : K) : W → W → Type 0 where
  done : {w : W} → Others store pair same Stored key w w
  deposited :
      {w v : W} (m : Message)
      → Stored m
      → (store.deposit m w).0 ≡ ok tt
      → same (pair m.run_id m.receiver_type) key ≡ false
      → Others store pair same Stored key (store.deposit m w).1 v
      → Others store pair same Stored key w v
  claimed :
      {w v : W} (run_id type : Text)
      → Others store pair same Stored key (store.claim run_id type w).1 v
      → Others store pair same Stored key w v
  reserved :
      {w v : W} (channel recipient run_id : Text)
      → (store.reserve channel recipient run_id w).0 ≡ ok tt
      → Others store pair same Stored key (store.reserve channel recipient run_id w).1 v
      → Others store pair same Stored key w v
  released :
      {w v : W} (channel recipient : Text)
      → (store.release channel recipient w).0 ≡ ok tt
      → Others store pair same Stored key (store.release channel recipient w).1 v
      → Others store pair same Stored key w v
  deleted :
      {w v : W} (run_id type : Text)
      → (store.delete run_id type w).0 ≡ ok tt
      → same (pair run_id type) key ≡ false
      → Others store pair same Stored key (store.delete run_id type w).1 v
      → Others store pair same Stored key w v

module _ {W K : Type 0} (store : Store W) (pair : Text → Text → K) (same : K → K → Bool)
    (Stored : Message → Type 0) (Ready : W → Type 0) (message : W → K → Option Message)
    (held : W → K → Option Text) (k : Keeps store pair same Stored Ready message held)
    (s : Serves store pair Stored Ready message held) where
  waits :
      (key : K) (m : Message) {w v : W}
      → Others store pair same Stored key w v
      → Ready w
      → message w key ≡ some m
      → Ready v × (message v key ≡ some m)
  waits key m done r h = (r, h)
  waits key m (deposited {w} n e q d c) r h =
      waits key m c (k.deposit_ready n w r) (k.deposit_message n w r e q key ∙ rw d h)
  waits key m (claimed {w} run_id type c) r h =
      waits key m c (k.claim_ready run_id type w r) ((k.claim_same run_id type w key).0 ∙ h)
  waits key m (reserved {w} channel recipient run_id q c) r h =
      waits key m c (k.reserve_ready channel recipient run_id w r)
        ((k.reserve_held channel recipient run_id w q key).1 ∙ h)
  waits key m (released {w} channel recipient q c) r h =
      waits key m c (k.release_ready channel recipient w r)
        ((k.release_held channel recipient w q key).1 ∙ h)
  waits key m (deleted {w} run_id type q d c) r h =
      waits key m c (k.delete_ready run_id type w r)
        ((k.delete_message run_id type w q key).0 ∙ rw d h)

  -- In a store that keeps the contract and answers, a message that can be stored is deposited, and
  -- is claimed unchanged after any calls that neither deposit nor delete a message with its key, where
  -- all but the claims succeed.
  pub claim-deposit-Others :
      (m : Message) (w v : W)
      → Ready w
      → Stored m
      → Others store pair same Stored (pair m.run_id m.receiver_type) (store.deposit m w).1 v
      → ((store.deposit m w).0 ≡ ok tt) × ((store.claim m.run_id m.receiver_type v).0 ≡ ok (some m))
  claim-deposit-Others m w v r e c =
      let key = pair m.run_id m.receiver_type in
      let stored = s.deposit_serves m w r e in
      let there = k.deposit_message m w r e stored key ∙ rw (k.same_refl key) refl in
      let (r', there') = waits key m c (k.deposit_ready m w r) there in
      (stored, s.claim_serves m.run_id m.receiver_type v m r' there')
