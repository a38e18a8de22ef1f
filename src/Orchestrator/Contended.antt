-- ===== src/Orchestrator/Contended.antt =====
-- A recipient that two runs want: `reserveRecipients` over any store that keeps the contract.
use e2e_framework.Prelude.{
  ◌≡◌, ◌≢◌, refl, ◌∙◌, subst, ◌⊎◌, inl, inr, Text, ◌==◌, Option, none, some, Bool, Bool-cases,
  false, List, [], ◌∷◌, ◌++◌, arith,
}
use e2e_framework.Domain.{ReceiverConfig, Message, Result-cases}
use e2e_framework.Ports.{Ports}
use e2e_framework.Store.Contract.{Keeps}
use e2e_framework.Store.Contract.Exclusion.{Calls, reservation_lasts}
use e2e_framework.Orchestrator.Run.{reserve_recipients}

-- A receiver of the list has this type and this recipient.
abbrev pub Wants : Text → Text → List ReceiverConfig → Type 0
Wants type recipient [] = ⊥
Wants type recipient (cfg ∷ cfgs) =
    ((cfg.type ≡ type) × (cfg.recipient ≡ recipient)) ⊎ Wants type recipient cfgs

module _ {W K : Type 0} (p : Ports W) (pair : Text → Text → K) (same : K → K → Bool)
    (Stored : Message → Type 0) (Ready : W → Type 0) (message : W → K → Option Message)
    (held : W → K → Option Text) (k : Keeps p.store pair same Stored Ready message held) where
  -- Reserving takes no recipient away.
  reserve_recipients-held :
      (run_id : Text) (cfgs before : List ReceiverConfig) (w : W) (key : K) (holder : Text)
      → held w key ≡ some holder
      → held (reserve_recipients p run_id cfgs before w).2 key ≡ some holder
  unfolding reserve_recipients
  reserve_recipients-held run_id [] before w key holder h = h
  reserve_recipients-held run_id (cfg ∷ cfgs) before w key holder h =
      let (r, w') = p.store.reserve cfg.type cfg.recipient run_id w in
      let kept = k.reserve_keeps cfg.type cfg.recipient run_id w key holder h in
      elim (Bool-cases (cfg.recipient == [])) [
        | inl e ↦
            rw (e, reserve_recipients) (reserve_recipients-held run_id cfgs before w key holder h)
        | inr e ↦ elim (Result-cases r) [
          | inr (f, q) ↦ rw (e, q, reserve_recipients) kept
          | inl (_, q) ↦
              rw (e, q, reserve_recipients)
                (reserve_recipients-held run_id cfgs (before ++ (cfg ∷ [])) w' key holder kept)
        ]
      ]

  module _ (type recipient : Text) (named : (recipient == []) ≡ false) where
    reserved-held :
        (run_id : Text) (cfgs before : List ReceiverConfig) (w : W)
        → Wants type recipient cfgs
        → (reserve_recipients p run_id cfgs before w).0 ≡ none
        → held (reserve_recipients p run_id cfgs before w).2 (pair type recipient) ≡ some run_id
    unfolding reserve_recipients
    reserved-held run_id [] before w m h = elim m [ ]
    reserved-held run_id (cfg ∷ cfgs) before w (inl (t, q)) h =
        let (r, w') = p.store.reserve cfg.type cfg.recipient run_id w in
        let e : (cfg.recipient == []) ≡ false = rw q named in
        elim (Result-cases r) [
          | inr (f, z) ↦ absurd (ground (arith, e, z))
          | inl (_, z) ↦
              let key = pair cfg.type cfg.recipient in
              let taken =
                (k.reserve_held cfg.type cfg.recipient run_id w z key).0
                ∙ rw (k.same_refl key) refl in
              rw (e, z, reserve_recipients)
                (reserve_recipients-held run_id cfgs (before ++ (cfg ∷ [])) w' (pair type recipient)
                  run_id (rw (← t, ← q) taken))
        ]
    reserved-held run_id (cfg ∷ cfgs) before w (inr m) h =
        let (r, w') = p.store.reserve cfg.type cfg.recipient run_id w in
        elim (Bool-cases (cfg.recipient == [])) [
          | inl e ↦
              rw (e, reserve_recipients) (reserved-held run_id cfgs before w m (ground (arith, e)))
          | inr e ↦ elim (Result-cases r) [
            | inr (f, z) ↦ absurd (ground (arith, e, z))
            | inl (_, z) ↦
                rw (e, z, reserve_recipients)
                  (reserved-held run_id cfgs (before ++ (cfg ∷ [])) w' m (ground (arith, e, z)))
          ]
        ]

    held-refused :
        (run_id holder : Text) (cfgs before : List ReceiverConfig) (w : W)
        → Wants type recipient cfgs
        → held w (pair type recipient) ≡ some holder
        → (reserve_recipients p run_id cfgs before w).0 ≢ none
    unfolding reserve_recipients
    held-refused run_id holder [] before w m h = elim m [ ]
    held-refused run_id holder (cfg ∷ cfgs) before w (inl (t, q)) h =
        let e : (cfg.recipient == []) ≡ false = rw q named in
        elim (Result-cases (p.store.reserve cfg.type cfg.recipient run_id w).0) [
          | inr (f, z) ↦ rw (e, z, reserve_recipients) (λ u. ground arith)
          | inl (_, z) ↦
              let free = k.reserve_free cfg.type cfg.recipient run_id w z in
              λ u. ground (arith, h, subst (λ y. held w y ≡ none) (λ i. pair (t i) (q i)) free)
        ]
    held-refused run_id holder (cfg ∷ cfgs) before w (inr m) h =
        let (r, w') = p.store.reserve cfg.type cfg.recipient run_id w in
        let kept = k.reserve_keeps cfg.type cfg.recipient run_id w (pair type recipient) holder h in
        elim (Bool-cases (cfg.recipient == [])) [
          | inl e ↦ rw (e, reserve_recipients) (held-refused run_id holder cfgs before w m h)
          | inr e ↦ elim (Result-cases r) [
            | inr (f, z) ↦ rw (e, z, reserve_recipients) (λ u. ground arith)
            | inl (_, z) ↦
                rw (e, z, reserve_recipients)
                  (held-refused run_id holder cfgs (before ++ (cfg ∷ [])) w' m kept)
          ]
        ]

    -- Over any store that keeps the contract: after a step of one run has reserved its recipients,
    -- no step of another run that wants one of them can reserve its own, whatever calls of the store
    -- come between, if the recipient is not released and the deposits, releases and deletions among
    -- them succeed.
    pub reserve_recipients-excludes :
        (run_id other : Text) (cfgs wanted : List ReceiverConfig) (w v : W)
        → Wants type recipient cfgs
        → Wants type recipient wanted
        → (reserve_recipients p run_id cfgs [] w).0 ≡ none
        → Calls p.store pair same (pair type recipient) (reserve_recipients p run_id cfgs [] w).2 v
        → (reserve_recipients p other wanted [] v).0 ≢ none
    reserve_recipients-excludes run_id other cfgs wanted w v m m' h c =
        held-refused other run_id wanted [] v m' (
          reservation_lasts p.store pair same Stored Ready message held k (pair type recipient)
            run_id c (reserved-held run_id cfgs [] w m h))
