-- ===== src/Store/Postgres.antt =====
-- `PostgresStore`: internal/adapters/secondary/store/postgres.go. Its SQL statements are functions
-- on two tables. Whether a statement fails, and what the clocks of the database and of the process
-- say, is given; a statement that fails leaves the tables. The schema makes the two key columns of
-- each table its primary key.
mod Sql
pub mod Rows
pub mod Statements
pub mod Effects
pub mod Refines
pub mod Answers
pub mod Users
unfoldable pub use Sql.*
use e2e_framework.Prelude.{
  ℕ, ◌+◌, Text, lit, ◌++◌, ◌==◌, ◌&&◌, not, ltb, eqb, Option, none, some, Bool, true, false, List,
  [], ◌∷◌, if◌then◌else◌,
}
use e2e_framework.Domain.{
  Duration, Time, Message, Error, wrap, configuration, internal, Result, ok, err,
}
use e2e_framework.Config.{PostgresStoreConfig}
use e2e_framework.Store.{Store}
use e2e_framework.Store.Memory.{
  Json, add_duration, already_reserved, reservation_ttl, serialize_error, deserialize_error,
}
use e2e_framework.Store.Redis.{reserve_failed}

-- The text of `fmt.Errorf("%w: " + what + "%v", domain.ErrInternal, err)`
unfoldable pub failed_to : Text → Error → Error
failed_to what e = wrap internal (lit "failed to " ++ (what ++ (lit ": " ++ e.text)))

-- Statements on the pool: the error of the next one, if it fails, the two clocks, the text that a
-- JSONB column gives back for a text that it has taken, and the time that a TIMESTAMPTZ column keeps
-- of a time.
pub record Pool (E : Type 0) : Type 0 where
  pub fault : E → Option Error × E
  pub db_now : E → Time × E
  pub now : E → Time × E
  pub as_jsonb : Text → Text
  pub as_timestamptz : Time → Time

module _ {E : Type 0} (pool : Pool E) where
  -- `Exec` and `QueryRow` of one statement.
  unfoldable pub exec :
      {A : Type 0} → (Time → Tables → A × Tables) → Tables × E → Result A × (Tables × E)
  exec statement (tables, e) =
      let (failed, e1) = pool.fault e in
      elim failed [
        | some f ↦ (err f, (tables, e1))
        | none ↦
            let (t, e2) = pool.db_now e1 in
            let (a, tables') = statement t tables in (ok a, (tables', e2))
      ]

  unfoldable pub read_clock : Tables × E → Time × (Tables × E)
  read_clock (tables, e) = let (t, e') = pool.now e in (t, (tables, e'))

  -- `NewPostgresStore` and `init`, whose only statement makes the tables if they are not there;
  -- `connect` is `pgxpool.New`.
  unfoldable pub new_postgres_store :
      (Text → Tables × E → Result (Unit {0}) × (Tables × E))
      → PostgresStoreConfig
      → Tables × E
      → Result Duration × (Tables × E)
  new_postgres_store connect cfg w =
      if cfg.dsn == []
      then (err (wrap configuration (lit "postgres mode requires a dsn")), w)
      else (let (connected, w1) = connect cfg.dsn w in
          elim connected [
            | err e ↦ (err (failed_to (lit "connect to postgres store") e), w1)
            | ok _ ↦
                let (made, w2) = exec (λ t tables. (tt {0}, tables)) w1 in
                (elim made [
                  | err e ↦ (err (failed_to (lit "init postgres schema") e), w2)
                  | ok _ ↦ (ok cfg.ttl, w2)
                ])
          ])

  -- `purgeExpired`, whose error every caller ignores; the second statement is not tried if the
  -- first fails.
  unfoldable pub purge_expired : Tables × E → Tables × E
  purge_expired w =
      let (purged, w1) = exec purge_messages w in
      elim purged [ err e ↦ w1 | ok _ ↦ (exec purge_reservations w1).1 ]

  module _ (json : Json) (ttl : Duration) where
    unfoldable pub insert_message : Message → Text → Tables × E → Result (Unit {0}) × (Tables × E)
    insert_message msg payload w =
        let (t, w1) = read_clock w in
        let row : Row = record {
          key = (msg.run_id, msg.receiver_type);
          value = pool.as_jsonb payload;
          expires_at = pool.as_timestamptz (add_duration t ttl);
        } in
        let (done, w2) = exec (upsert_message row) w1 in
        elim done [ err e ↦ (err (failed_to (lit "deposit message") e), w2) | ok _ ↦ (ok tt, w2) ]

    -- `Deposit`
    unfoldable pub postgres_deposit : Message → Tables × E → Result (Unit {0}) × (Tables × E)
    postgres_deposit msg w = elim (json.marshal msg) [
      | err e ↦ (err (serialize_error e), w)
      | ok payload ↦ insert_message msg payload (purge_expired w)
    ]

    unfoldable pub decode_payload : Option Text → Result (Option Message)
    decode_payload none = ok none
    decode_payload (some payload) = elim (json.unmarshal payload) [
      | err e ↦ err (deserialize_error e)
      | ok m ↦ ok (some m)
    ]

    -- `Claim`
    unfoldable pub postgres_claim :
        Text → Text → Tables × E → Result (Option Message) × (Tables × E)
    postgres_claim run_id receiver_type w =
        let (found, w') = exec (select_message (run_id, receiver_type)) (purge_expired w) in
        elim found [
          | err e ↦ (err (failed_to (lit "claim message") e), w')
          | ok payload ↦ (decode_payload payload, w')
        ]

    -- The run in a row that `Scan` reads, or the empty text if it fails.
    unfoldable pub scanned : Result (Option Text) → Text
    scanned (ok (some run_id)) = run_id
    scanned _ = []

    -- `Reserve` from the reading of the clock on.
    unfoldable pub try_reserve :
        Text → Text → Text → Time → Tables × E → Result (Unit {0}) × (Tables × E)
    try_reserve channel recipient run_id t w1 =
        let row : Row = record {
          key = (channel, recipient);
          value = run_id;
          expires_at = pool.as_timestamptz (add_duration t reservation_ttl);
        } in
        let (inserted, w2) = exec (insert_reservation row) w1 in
        elim inserted [
          | err e ↦ (err (reserve_failed channel recipient e), w2)
          | ok free ↦ elim free [
            | true ↦ (ok tt, w2)
            | false ↦
                let (found, w3) = exec (select_reservation (channel, recipient)) w2 in
                (err (already_reserved channel recipient (scanned found)), w3)
          ]
        ]

    -- `Reserve`
    unfoldable pub postgres_reserve :
        Text → Text → Text → Tables × E → Result (Unit {0}) × (Tables × E)
    postgres_reserve channel recipient run_id w =
        let (t, w1) = read_clock (purge_expired w) in try_reserve channel recipient run_id t w1

    -- `Release`
    unfoldable pub postgres_release : Text → Text → Tables × E → Result (Unit {0}) × (Tables × E)
    postgres_release channel recipient w =
        let (done, w') = exec (delete_reservation (channel, recipient)) w in
        elim done [
          | err e ↦ (err (failed_to (lit "release " ++ (channel ++ (lit ":" ++ recipient))) e), w')
          | ok _ ↦ (ok tt, w')
        ]

    -- `Delete`
    unfoldable pub postgres_delete : Text → Text → Tables × E → Result (Unit {0}) × (Tables × E)
    postgres_delete run_id receiver_type w =
        let (done, w') = exec (delete_message_row (run_id, receiver_type)) w in
        elim done [ err e ↦ (err (failed_to (lit "delete message") e), w') | ok _ ↦ (ok tt, w') ]

    unfoldable pub postgres_store : Store (Tables × E)
    postgres_store = record {
      deposit = postgres_deposit;
      claim = postgres_claim;
      reserve = postgres_reserve;
      release = postgres_release;
      delete = postgres_delete;
      close = λ w. (ok tt, w);
    }
