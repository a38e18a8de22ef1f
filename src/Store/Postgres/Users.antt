-- ===== src/Store/Postgres/Users.antt =====
-- What the users of the Postgres store get while the clocks of the database and of the process stand
-- still at one time: internal/adapters/secondary/store/postgres.go.
use e2e_framework.Prelude.{ℕ, suc, ◌+◌, ◌<◌, ◌≤◌, ◌≡◌, pos}
use e2e_framework.Domain.{Time}
use e2e_framework.Store.{Store}
use e2e_framework.Store.Memory.{Json}
use e2e_framework.Store.Postgres.{Tables, Pool, postgres_store}

module _ {E : Type 0} (pool : Pool E) (t : Time) (db_still : (e : E) → (pool.db_now e).0 ≡ t)
    (json : Json) (d : ℕ) (still : (e : E) → (pool.now e).0 ≡ t)
    (precise : (u : Time) → u < pool.as_timestamptz u + 1000) (long : 1000 ≤ suc d) where
  abbrev at_rest : Store (Tables × E)
  at_rest = postgres_store pool json (pos (suc d))
