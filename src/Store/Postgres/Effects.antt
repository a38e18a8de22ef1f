-- ===== src/Store/Postgres/Effects.antt =====
-- What the operations of the Postgres store do to the valid rows while its clocks stand still,
-- whichever of its statements fail.
use e2e_framework.Prelude.{
  ℕ, suc, ◌+◌, ◌<◌, ◌≤◌, ◌≡◌, refl, sym, ap, ◌∙◌, subst, inl, inr, Text, pos, Option, none, some,
  Bool-cases, true, if◌then◌else◌, arith,
}
use e2e_framework.Domain.{Duration, Time, Message, ok, err, Result-cases}
use e2e_framework.Store.Contract.{updated}
use e2e_framework.Store.Memory.{Json, add_duration, reservation_ttl}
use e2e_framework.Store.Postgres.{
  Row, Tables, Pool, same_key, insert_row, exec, read_clock, upsert_message, select_message,
  select_reservation, delete_reservation, delete_message_row, purge_expired, insert_message,
  insert_reservation, decode_payload, try_reserve, postgres_deposit, postgres_claim,
  postgres_release, postgres_delete,
}
use e2e_framework.Store.Postgres.Rows.{
  Agree, Agree-trans, KeepsHeld, valid, valid-upsert_row, insert_row-keeps,
}
use e2e_framework.Store.Postgres.Statements.{exec-cases, exec-Agree, purge_expired-Agree}

-- A message that its encoding gives back from the JSONB column.
abbrev pub IsStorableIn : {E : Type 0} → Pool E → Json → Message → Type 0
IsStorableIn pool json m =
    (data_ : Text) × (json.marshal m ≡ ok data_) × (json.unmarshal (pool.as_jsonb data_) ≡ ok m)

module _ {E : Type 0} (pool : Pool E) (t : Time) (db_still : (e : E) → (pool.db_now e).0 ≡ t) where
  module _ (json : Json) (d : ℕ) where
    abbrev pub ttl : Duration
    ttl = pos (suc d)

    abbrev pub decoded_payload : Option Text → Option Message
    decoded_payload none = none
    decoded_payload (some payload) = elim (json.unmarshal payload) [ err e ↦ none | ok m ↦ some m ]

    -- The message and the run in the valid row with the key.
    abbrev pub message_in : Tables × E → Text × Text → Option Message
    message_in w k = decoded_payload (valid t w.0.messages k)

    abbrev pub run_in : Tables × E → Text × Text → Option Text
    run_in w k = valid t w.0.reservations k

    pub decoded-updated :
        (view : Text × Text → Option Text) (key : Text × Text) (new : Option Text) (k : Text × Text)
        → decoded_payload (updated same_key view key new k)
          ≡ updated same_key (λ j. decoded_payload (view j)) key (decoded_payload new) k
    decoded-updated view key new k = elim (Bool-cases (same_key key k)) [
      | inl e ↦ rw e refl
      | inr e ↦ rw e refl
    ]

    -- The state after the purge and the reading of the clock.
    abbrev pub purged : Tables × E → Tables × E
    purged w = ((purge_expired pool w).0, (pool.now (purge_expired pool w).1).1)

    abbrev pub row_of : Text × Text → Text → Duration → Row
    row_of key value limit = record {
      key = key;
      value = value;
      expires_at = pool.as_timestamptz (add_duration t limit);
    }

    decode_payload-ok :
        (payload : Option Text) (found : Option Message)
        → decode_payload pool json ttl payload ≡ ok found
        → found ≡ decoded_payload payload
    unfolding decode_payload
    decode_payload-ok none found h = ground arith
    decode_payload-ok (some payload) found h = elim (Result-cases (json.unmarshal payload)) [
      | inr (e, q) ↦ absurd (ground (arith, q))
      | inl (m, q) ↦ rw (q, decoded_payload) (ground (arith, q))
    ]

    pub claim_ok :
        (run_id type : Text) (w : Tables × E) (found : Option Message)
        → (postgres_claim pool json ttl run_id type w).0 ≡ ok found
        → found ≡ message_in w (run_id, type)
    unfolding postgres_claim select_message
    claim_ok run_id type w found h =
        let w1 = purge_expired pool w in
        elim (exec-cases pool t db_still (select_message (run_id, type)) w1) [
          | inl (e, q, same) ↦ absurd (ground (arith, q))
          | inr (q, done) ↦
              decode_payload-ok (valid t w1.0.messages (run_id, type)) found (ground (arith, q))
              ∙ ap decoded_payload ((purge_expired-Agree pool t db_still w).0 (run_id, type))
        ]

    pub claim-Agree :
        (run_id type : Text) (w : Tables × E)
        → Agree t w.0 (postgres_claim pool json ttl run_id type w).1.0
    unfolding postgres_claim select_message
    claim-Agree run_id type w =
        let w1 = purge_expired pool w in
        let searched = Agree-trans t w.0 w1.0 _ (purge_expired-Agree pool t db_still w) (
          exec-Agree pool t db_still (select_message (run_id, type)) w1
            ((λ k. refl), (λ k. refl))) in
        elim (Result-cases (exec pool (select_message (run_id, type)) w1).0) [
          | inr (e, q) ↦ rw (q, postgres_claim) searched
          | inl (p, q) ↦ rw (q, postgres_claim) searched
        ]

    module _ (still : (e : E) → (pool.now e).0 ≡ t)
        (precise : (u : Time) → u < pool.as_timestamptz u + 1000) (long : 1000 ≤ suc d) where
      insert_message_ok :
          (m : Message) (payload : Text) (w : Tables × E)
          → (insert_message pool json ttl m payload w).0 ≡ ok tt
          → (insert_message pool json ttl m payload w).1.0
            ≡ (upsert_message
                (row_of (m.run_id, m.receiver_type) (pool.as_jsonb payload) ttl)
                t
                w.0).1
      unfolding insert_message read_clock
      insert_message_ok m payload w h =
          let row : Row = record {
            key = (m.run_id, m.receiver_type);
            value = pool.as_jsonb payload;
            expires_at = pool.as_timestamptz (add_duration (pool.now w.1).0 ttl);
          } in
          elim (exec-cases pool t db_still (upsert_message row) (w.0, (pool.now w.1).1)) [
            | inl (e, q, same) ↦ absurd (ground (arith, q))
            | inr (q, done) ↦ rw (q, insert_message) (done ∙ rw (still w.1) refl)
          ]

      pub deposit_ok :
          (m : Message) (w : Tables × E)
          → (postgres_deposit pool json ttl m w).0 ≡ ok tt
          → (payload : Text) × (json.marshal m ≡ ok payload)
            × ((k : Text × Text)
                → valid t (postgres_deposit pool json ttl m w).1.0.messages k
                  ≡ updated same_key
                      (valid t w.0.messages)
                      (m.run_id, m.receiver_type)
                      (some (pool.as_jsonb payload))
                      k)
            × ((k : Text × Text)
                → valid t (postgres_deposit pool json ttl m w).1.0.reservations k
                  ≡ valid t w.0.reservations k)
      unfolding postgres_deposit upsert_message
      deposit_ok m w h = elim (Result-cases (json.marshal m)) [
        | inr (e, q) ↦ absurd (ground (arith, q))
        | inl (payload, q) ↦
            let key : Text × Text = (m.run_id, m.receiver_type) in
            let w1 = purge_expired pool w in
            let stored = insert_message_ok m payload w1 (ground (arith, q)) in
            let (messages, reservations) = purge_expired-Agree pool t db_still w in
            (
              payload,
              q,
              λ k.
                  rw (q, postgres_deposit)
                    (ap (λ y. valid t y.messages k) stored
                      ∙ valid-upsert_row t (row_of key (pool.as_jsonb payload) ttl)
                          (ground (arith, precise (add_duration t ttl), long)) w1.0.messages k
                      ∙ ap (λ y. if same_key key k then some (pool.as_jsonb payload) else y)
                          (messages k)),
              λ k.
                  rw (q, postgres_deposit)
                    (ap (λ y. valid t y.reservations k) stored ∙ reservations k),
            )
      ]

    module _ (channel recipient run_id : Text) where
      abbrev pub wanted : Row
      wanted = row_of (channel, recipient) run_id reservation_ttl

      pub try_reserve-ok :
          (w : Tables × E)
          → (try_reserve pool json ttl channel recipient run_id t w).0 ≡ ok tt
          → ((insert_row wanted w.0.reservations).0 ≡ true)
            × ((try_reserve pool json ttl channel recipient run_id t w).1.0
                ≡ (insert_reservation wanted t w.0).1)
      unfolding try_reserve insert_reservation
      try_reserve-ok w h = elim (exec-cases pool t db_still (insert_reservation wanted) w) [
        | inl (e, q, same) ↦ absurd (ground (arith, q))
        | inr (q, done) ↦ elim (Bool-cases (insert_row wanted w.0.reservations).0) [
          | inl z ↦ (z, rw (q, z, try_reserve) done)
          | inr z ↦ absurd (ground (arith, q, z))
        ]
      ]

      pub try_reserve-keeps :
          (w : Tables × E)
          → KeepsHeld t w.0 (try_reserve pool json ttl channel recipient run_id t w).1.0
      unfolding try_reserve insert_reservation select_reservation
      try_reserve-keeps w =
          let tried = exec pool (insert_reservation wanted) w in
          let kept : KeepsHeld t w.0 tried.1.0 =
            elim (exec-cases pool t db_still (insert_reservation wanted) w) [
              | inl (e, _, same) ↦ subst (KeepsHeld t w.0) (sym same) ((λ k. refl), λ k old h. h)
              | inr (_, done) ↦
                  subst (KeepsHeld t w.0) (sym done)
                    ((λ k. refl), insert_row-keeps t wanted w.0.reservations)
            ] in
          let (messages, runs) =
            exec-Agree pool t db_still (select_reservation (channel, recipient)) tried.1
              ((λ k. refl), (λ k. refl)) in
          elim (Result-cases tried.0) [
            | inr (e, q) ↦ rw (q, try_reserve) kept
            | inl (free, q) ↦ elim (Bool-cases free) [
              | inl z ↦ rw (q, z, try_reserve) kept
              | inr z ↦
                  rw (q, z, try_reserve)
                    ((λ k. messages k ∙ kept.0 k), λ k old h. runs k ∙ kept.1 k old h)
            ]
          ]

    module _ (w : Tables × E) where
      pub release_lem :
          (channel recipient : Text)
          → (postgres_release pool json ttl channel recipient w).0 ≡ ok tt
          → (postgres_release pool json ttl channel recipient w).1.0
            ≡ (delete_reservation (channel, recipient) t w.0).1
      unfolding postgres_release
      release_lem channel recipient h =
          elim (exec-cases pool t db_still (delete_reservation (channel, recipient)) w) [
            | inl (e, q, same) ↦ absurd (ground (arith, q))
            | inr (q, done) ↦ rw (q, postgres_release) done
          ]

      pub delete_lem :
          (run_id type : Text)
          → (postgres_delete pool json ttl run_id type w).0 ≡ ok tt
          → (postgres_delete pool json ttl run_id type w).1.0
            ≡ (delete_message_row (run_id, type) t w.0).1
      unfolding postgres_delete
      delete_lem run_id type h =
          elim (exec-cases pool t db_still (delete_message_row (run_id, type)) w) [
            | inl (e, q, same) ↦ absurd (ground (arith, q))
            | inr (q, done) ↦ rw (q, postgres_delete) done
          ]
