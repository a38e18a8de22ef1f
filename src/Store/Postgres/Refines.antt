-- ===== src/Store/Postgres/Refines.antt =====
-- The Postgres store keeps the contract of a store while its clocks stand still at one time,
-- whichever of its statements fail.
use e2e_framework.Prelude.{
  ℕ, suc, ◌+◌, ◌<◌, ◌≤◌, ◌≡◌, refl, sym, ap, ◌∙◌, Text, none, some, if◌then◌else◌, arith,
}
use e2e_framework.Domain.{Time, ok}
use e2e_framework.Store.Contract.{Keeps, updated}
use e2e_framework.Store.Memory.{Json, add_duration, reservation_ttl}
use e2e_framework.Store.Postgres.{
  Tables, Pool, same_key, read_clock, delete_reservation, delete_message_row, purge_expired,
  insert_reservation, try_reserve, postgres_reserve, postgres_store,
}
use e2e_framework.Store.Postgres.Rows.{
  same_key_iff, valid, valid-delete_rows, insert_row-free, valid-insert_row,
}
use e2e_framework.Store.Postgres.Statements.{purge_expired-Agree}
use e2e_framework.Store.Postgres.Effects.{
  decoded-updated, decoded_payload, message_in, run_in, IsStorableIn, claim_ok, claim-Agree,
  deposit_ok, try_reserve-ok, try_reserve-keeps, release_lem, delete_lem, purged, wanted, ttl,
}

module _ {E : Type 0} (pool : Pool E) (t : Time) (db_still : (e : E) → (pool.db_now e).0 ≡ t)
    (json : Json) (d : ℕ) (still : (e : E) → (pool.now e).0 ≡ t) where
  pub reserve_at :
      (channel recipient run_id : Text) (w : Tables × E)
      → postgres_reserve pool json (ttl pool t db_still json d) channel recipient run_id w
        ≡ try_reserve pool json
            (ttl pool t db_still json d)
            channel
            recipient
            run_id
            t
            (purged pool t db_still json d w)
  unfolding postgres_reserve read_clock
  reserve_at channel recipient run_id w =
      ap
        (λ y.
          try_reserve pool json (ttl pool t db_still json d) channel recipient run_id y
            (purged pool t db_still json d w))
        (still (purge_expired pool w).1)

module _ {E : Type 0} (pool : Pool E) (t : Time) (db_still : (e : E) → (pool.db_now e).0 ≡ t)
    (json : Json) (d : ℕ) (still : (e : E) → (pool.now e).0 ≡ t)
    (precise : (u : Time) → u < pool.as_timestamptz u + 1000) (long : 1000 ≤ suc d) where
  reserve-held :
      (channel recipient run_id : Text) (w : Tables × E)
      → (postgres_reserve pool json (ttl pool t db_still json d) channel recipient run_id w).0
        ≡ ok tt
      → (k : Text × Text)
      → (run_in pool t db_still json d
            (postgres_reserve pool json (ttl pool t db_still json d) channel recipient run_id w).1
            k
          ≡ updated same_key (run_in pool t db_still json d w) (channel, recipient) (some run_id) k)
        × (message_in pool t db_still json d
              (postgres_reserve pool json (ttl pool t db_still json d) channel recipient run_id w).1
              k
            ≡ message_in pool t db_still json d w k)
  unfolding insert_reservation
  reserve-held channel recipient run_id w h k =
      let at = reserve_at pool t db_still json d still channel recipient run_id w in
      let (free, after) =
        try_reserve-ok pool t db_still json d channel recipient run_id
          (purged pool t db_still json d w) (sym (ap (λ y. y.0) at) ∙ h) in
      let (messages, runs) = purge_expired-Agree pool t db_still w in
      let row = wanted pool t db_still json d channel recipient run_id in
      (
        ap (λ y. run_in pool t db_still json d y.1 k) at
            ∙ ap (λ y. valid t y.reservations k) after
            ∙ valid-insert_row t row (ground (arith, precise (add_duration t reservation_ttl)))
                (purged pool t db_still json d w).0.reservations free k
            ∙ ap (λ y. if same_key (channel, recipient) k then some run_id else y) (runs k),
        ap (λ y. message_in pool t db_still json d y.1 k) at
            ∙ ap (decoded_payload pool t db_still json d) (
                (try_reserve-keeps pool t db_still json d channel recipient run_id
                    (purged pool t db_still json d w)).0
                  k
                ∙ messages k),
      )

  -- Whichever statements fail, the Postgres store keeps the contract of a store while the clock of
  -- the database and that of the process stand still at the same time, and the time to live is at
  -- least a microsecond: a message that its encoding gives back from the JSONB column is claimed
  -- unchanged after it has been deposited, a recipient is reserved for one run at a time until it
  -- is released, and messages and reservations do not disturb each other. A TIMESTAMPTZ column
  -- keeps a time to less than a microsecond. The observations are the valid rows.
  pub postgres_store-Keeps :
      Keeps
        (postgres_store pool json (ttl pool t db_still json d))
        (λ a b. (a, b))
        same_key
        (IsStorableIn pool json)
        (λ w. Unit {0})
        (message_in pool t db_still json d)
        (run_in pool t db_still json d)
  unfolding postgres_store
  postgres_store-Keeps = record {
    same_refl = λ k. (same_key_iff k k).1 refl;
    deposit_ready = λ m w h. tt;
    claim_ready = λ run_id type w h. tt;
    reserve_ready = λ channel recipient run_id w h. tt;
    release_ready = λ channel recipient w h. tt;
    delete_ready = λ run_id type w h. tt;
    deposit_message = λ m w r (data_, e, u) q k.
        let (payload, e', messages, _) =
          deposit_ok pool t db_still json d still precise long m w q in
        let back : decoded_payload pool t db_still json d (some (pool.as_jsonb payload)) ≡ some m =
          ground (arith, e, e', u) in
        ap (decoded_payload pool t db_still json d) (messages k)
        ∙ decoded-updated pool t db_still json d (valid t w.0.messages) (m.run_id, m.receiver_type)
            (some (pool.as_jsonb payload)) k
        ∙ ap
            (λ y.
              updated same_key (message_in pool t db_still json d w) (m.run_id, m.receiver_type) y
                k)
            back;
    deposit_held = λ m w q k.
        let (_, _, _, runs) = deposit_ok pool t db_still json d still precise long m w q in runs k;
    claim_message = λ run_id type w found h. claim_ok pool t db_still json d run_id type w found h;
    claim_same = λ run_id type w k.
        let (messages, runs) = claim-Agree pool t db_still json d run_id type w in
        (ap (decoded_payload pool t db_still json d) (messages k), runs k);
    reserve_free = λ channel recipient run_id w h.
        let (free, _) =
          try_reserve-ok pool t db_still json d channel recipient run_id
            (purged pool t db_still json d w)
            (sym
                (ap (λ y. y.0) (reserve_at pool t db_still json d still channel recipient run_id w))
              ∙ h) in
        sym ((purge_expired-Agree pool t db_still w).1 (channel, recipient))
        ∙ insert_row-free t (wanted pool t db_still json d channel recipient run_id)
            (purged pool t db_still json d w).0.reservations free;
    reserve_held = reserve-held;
    reserve_keeps = λ channel recipient run_id w k old h.
        ap (λ y. run_in pool t db_still json d y.1 k)
          (reserve_at pool t db_still json d still channel recipient run_id w)
        ∙ (try_reserve-keeps pool t db_still json d channel recipient run_id
              (purged pool t db_still json d w)).1
            k old ((purge_expired-Agree pool t db_still w).1 k ∙ h);
    release_held = λ channel recipient w h k.
        rw (release_lem pool t db_still json d w channel recipient h) (
          unfold delete_reservation in
          (valid-delete_rows t (channel, recipient) w.0.reservations k, refl));
    delete_message = λ run_id type w h k. rw (delete_lem pool t db_still json d w run_id type h) (
        unfold delete_message_row in
        (
          ap (decoded_payload pool t db_still json d)
                (valid-delete_rows t (run_id, type) w.0.messages k)
              ∙ decoded-updated pool t db_still json d (valid t w.0.messages) (run_id, type) none k,
          refl,
        ));
  }
