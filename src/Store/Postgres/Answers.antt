-- ===== src/Store/Postgres/Answers.antt =====
-- The Postgres store answers while its clocks stand still and no statement fails.
use e2e_framework.Prelude.{
  ℕ, ◌≡◌, refl, ap, ◌∙◌, inl, inr, Text, Option, some, none, true, List, [], ◌∷◌, arith,
}
use e2e_framework.Domain.{Time, ok, Result-cases}
use e2e_framework.Store.Contract.{Serves}
use e2e_framework.Store.Memory.{Json}
use e2e_framework.Store.Postgres.{
  Row, Tables, Pool, purge_rows, select_valid, insert_row, exec, purge_messages, purge_reservations,
  purge_expired, insert_message, upsert_message, select_message, insert_reservation,
  delete_reservation, delete_message_row, decode_payload, try_reserve, postgres_deposit,
  postgres_claim, postgres_reserve, postgres_release, postgres_delete, postgres_store,
}
use e2e_framework.Store.Postgres.Rows.{valid}
use e2e_framework.Store.Postgres.Statements.{purge_expired-Agree}
use e2e_framework.Store.Postgres.Effects.{
  IsStorableIn, message_in, run_in, decoded_payload, purged, wanted, ttl,
}
use e2e_framework.Store.Postgres.Refines.{reserve_at}

-- No row is left in the way once the expired ones are purged.
insert_row-purge_rows :
    (t : Time) (new : Row) (rows : List Row)
    → valid t rows new.key ≡ none
    → (insert_row new (purge_rows t rows)).0 ≡ true
unfolding insert_row purge_rows select_valid
insert_row-purge_rows t new [] h = refl
insert_row-purge_rows t new (r ∷ rows) h = ground (arith, insert_row-purge_rows t new rows)

module _ {E : Type 0} (pool : Pool E) (t : Time) (db_still : (e : E) → (pool.db_now e).0 ≡ t)
    (up : (e : E) → (pool.fault e).0 ≡ none) where
  exec_lem :
      {A : Type 0} (f : Time → Tables → A × Tables) (w : Tables × E)
      → ((exec pool f w).0 ≡ ok (f t w.0).0) × ((exec pool f w).1.0 ≡ (f t w.0).1)
  unfolding exec
  exec_lem f w = (
    rw (up w.1, exec, db_still (pool.fault w.1).1) refl,
    rw (up w.1, exec, db_still (pool.fault w.1).1) refl,
  )

  purge_expired-reservations :
      (w : Tables × E) → (purge_expired pool w).0.reservations ≡ purge_rows t w.0.reservations
  unfolding purge_expired purge_messages purge_reservations
  purge_expired-reservations w =
      let w1 = (exec pool purge_messages w).1 in
      rw ((exec_lem purge_messages w).0, purge_expired)
        (ap (λ y. y.reservations) (exec_lem purge_reservations w1).1
          ∙ ap (λ y. purge_rows t y.reservations) (exec_lem purge_messages w).1)

  module _ (json : Json) (d : ℕ) (still : (e : E) → (pool.now e).0 ≡ t) where
    decode_payload-eq-some :
        (payload : Option Text) {m : _}
        → decoded_payload pool t db_still json d payload ≡ some m
        → decode_payload pool json (ttl pool t db_still json d) payload ≡ ok (some m)
    unfolding decode_payload
    decode_payload-eq-some none h = cc
    decode_payload-eq-some (some p) h = elim (Result-cases (json.unmarshal p)) [
      | inl (n, q) ↦ rw (q, decode_payload) (ground (arith, q))
      | inr (e, q) ↦ absurd (ground (arith, q))
    ]

    inserted :
        (channel recipient run_id : Text) (w : Tables × E)
        → run_in pool t db_still json d w (channel, recipient) ≡ none
        → (insert_row
            (wanted pool t db_still json d channel recipient run_id)
            (purged pool t db_still json d w).0.reservations).0
          ≡ true
    inserted channel recipient run_id w h =
        let row = wanted pool t db_still json d channel recipient run_id in
        ap (λ y. (insert_row row y).0) (purge_expired-reservations w)
        ∙ insert_row-purge_rows t row w.0.reservations h

    reserve_serves :
        (channel recipient run_id : Text) (w : Tables × E)
        → run_in pool t db_still json d w (channel, recipient) ≡ none
        → (postgres_reserve pool json (ttl pool t db_still json d) channel recipient run_id w).0
          ≡ ok tt
    unfolding try_reserve insert_reservation
    reserve_serves channel recipient run_id w h =
        let row = wanted pool t db_still json d channel recipient run_id in
        let w1 = purged pool t db_still json d w in
        ap (λ y. y.0) (reserve_at pool t db_still json d still channel recipient run_id w)
        ∙ rw ((exec_lem (insert_reservation row) w1).0, try_reserve)
            (rw (inserted channel recipient run_id w h) refl)

    -- While the clocks of the database and of the process stand still at the same time and no
    -- statement fails, the Postgres store stores every message that its encoding gives back from the
    -- JSONB column, finds what it has, and reserves every recipient that no run holds.
    pub postgres_store-Serves :
        Serves
          (postgres_store pool json (ttl pool t db_still json d))
          (λ a b. (a, b))
          (IsStorableIn pool json)
          (λ w. Unit {0})
          (message_in pool t db_still json d)
          (run_in pool t db_still json d)
    unfolding postgres_store postgres_deposit postgres_claim postgres_release postgres_delete
        insert_message select_message
    postgres_store-Serves = record {
      deposit_serves = λ m w r (data_, e, u).
          rw (e, postgres_deposit) (rw ((exec_lem (upsert_message _) _).0, insert_message) refl);
      claim_serves = λ run_id type w m r h.
          let w1 = purge_expired pool w in
          let same =
            ap (decoded_payload pool t db_still json d)
              ((purge_expired-Agree pool t db_still w).0 (run_id, type)) in
          rw ((exec_lem (select_message (run_id, type)) w1).0, postgres_claim)
            (decode_payload-eq-some (valid t w1.0.messages (run_id, type)) (same ∙ h));
      reserve_serves =
          λ channel recipient run_id w r h. reserve_serves channel recipient run_id w h;
      release_serves = λ channel recipient w r.
          rw ((exec_lem (delete_reservation (channel, recipient)) w).0, postgres_release) refl;
      delete_serves = λ run_id type w r.
          rw ((exec_lem (delete_message_row (run_id, type)) w).0, postgres_delete) refl;
    }
