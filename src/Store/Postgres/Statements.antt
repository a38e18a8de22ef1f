-- ===== src/Store/Postgres/Statements.antt =====
-- The statements of the Postgres store on its tables while its clocks stand still: they fail, or have
-- their effect.
use e2e_framework.Prelude.{◌≡◌, refl, sym, subst, ◌⊎◌, inl, inr, Option-cases}
use e2e_framework.Domain.{Time, Error, ok, err, Result-cases}
use e2e_framework.Store.Postgres.{
  Tables, Pool, exec, purge_messages, purge_reservations, purge_expired,
}
use e2e_framework.Store.Postgres.Rows.{Agree, Agree-trans, valid-purge_rows}

module _ {E : Type 0} (pool : Pool E) (t : Time) (db_still : (e : E) → (pool.db_now e).0 ≡ t) where
  -- A statement fails and leaves the tables, or has its effect at the time.
  pub exec-cases :
      {A : Type 0} (f : Time → Tables → A × Tables) (w : Tables × E)
      → ((e : Error) × ((exec pool f w).0 ≡ err e) × ((exec pool f w).1.0 ≡ w.0))
        ⊎ (((exec pool f w).0 ≡ ok (f t w.0).0) × ((exec pool f w).1.0 ≡ (f t w.0).1))
  unfolding exec
  exec-cases f w = elim (Option-cases (pool.fault w.1).0) [
    | inr (e, q) ↦ inl (e, rw (q, exec) refl, rw (q, exec) refl)
    | inl q ↦ inr (
      rw (q, exec, db_still (pool.fault w.1).1) refl,
      rw (q, exec, db_still (pool.fault w.1).1) refl,
    )
  ]

  pub exec-Agree :
      {A : Type 0} (f : Time → Tables → A × Tables) (w : Tables × E)
      → Agree t w.0 (f t w.0).1
      → Agree t w.0 (exec pool f w).1.0
  exec-Agree f w h = elim (exec-cases f w) [
    | inl (e, _, same) ↦ subst (Agree t w.0) (sym same) ((λ k. refl), (λ k. refl))
    | inr (_, done) ↦ subst (Agree t w.0) (sym done) h
  ]

  pub purge_expired-Agree : (w : Tables × E) → Agree t w.0 (purge_expired pool w).0
  unfolding purge_expired purge_messages purge_reservations
  purge_expired-Agree w =
      let w1 = (exec pool purge_messages w).1 in
      let first = exec-Agree purge_messages w (valid-purge_rows t w.0.messages, λ k. refl) in
      elim (Result-cases (exec pool purge_messages w).0) [
        | inr (e, q) ↦ rw (q, purge_expired) first
        | inl (_, q) ↦
            rw (q, purge_expired)
              (Agree-trans t w.0 w1.0 _ first (
                exec-Agree purge_reservations w1 (λ k. refl, valid-purge_rows t w1.0.reservations)))
      ]
