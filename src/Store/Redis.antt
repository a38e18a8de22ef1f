-- ===== src/Store/Redis.antt =====
-- `RedisStore`: internal/adapters/secondary/store/redis.go. The client of go-redis is a parameter.
pub mod Views
pub mod Refines
pub mod Answers
pub mod Users
use e2e_framework.Prelude.{
  Text, lit, ◌++◌, ◌==◌, Option, none, some, Bool, true, false, [], if◌then◌else◌,
}
use e2e_framework.Domain.{Duration, Message, Error, wrap, configuration, internal, Result, ok, err}
use e2e_framework.Config.{RedisStoreConfig}
use e2e_framework.Store.{Store}
use e2e_framework.Store.Memory.{
  Json, pair_key, already_reserved, reservation_ttl, serialize_error, deserialize_error,
}

-- The commands that the store uses. `get` answers `none`, and `set_nx` false, for `redis.Nil`.
pub record RedisClient (W : Type 0) : Type 0 where
  pub set : Text → Text → Duration → W → Result (Unit {0}) × W
  pub get : Text → W → Result (Option Text) × W
  pub set_nx : Text → Text → Duration → W → Result Bool × W
  pub del : Text → W → Result (Unit {0}) × W
  pub close : W → Result (Unit {0}) × W

-- How go-redis makes a client, of a cluster or by the options in a URL; an empty name or password
-- leaves that of the URL.
pub record RedisLib (W : Type 0) : Type 0 where
  pub new_cluster : Text → Text → Text → RedisClient W
  pub new_client : Text → Text → Text → Result (RedisClient W)

pub record RedisStore (W : Type 0) : Type 0 where
  pub client : RedisClient W
  pub ttl : Duration

-- `NewRedisStore`
unfoldable pub new_redis_store :
    {W : Type 0} → RedisLib W → RedisStoreConfig → Result (RedisStore W)
new_redis_store lib cfg =
    if cfg.url == []
    then err (wrap configuration (lit "redis mode requires at least one URL"))
    else if cfg.cluster_mode
    then ok (record { client = lib.new_cluster cfg.url cfg.username cfg.password; ttl = cfg.ttl })
    else (elim (lib.new_client cfg.url cfg.username cfg.password) [
      | err e ↦ err (wrap configuration (lit "invalid redis URL: " ++ e.text))
      | ok c ↦ ok (record { client = c; ttl = cfg.ttl })
    ])

-- `fmt.Sprintf(e2eTestKey, runID, receiverType)`
unfoldable pub message_key : Text → Text → Text
message_key run_id receiver_type = lit "e2e-test:" ++ pair_key run_id receiver_type

-- `fmt.Sprintf("store:reservations:%s:%s", channel, recipient)`
unfoldable pub reservation_key : Text → Text → Text
reservation_key channel recipient = lit "store:reservations:" ++ pair_key channel recipient

-- The run id in an answer to `Get` whose error is ignored.
unfoldable pub known_run : Result (Option Text) → Text
known_run (ok (some run_id)) = run_id
known_run _ = []

unfoldable pub reserve_failed : Text → Text → Error → Error
reserve_failed channel recipient e =
    wrap internal (lit "failed to reserve " ++ (pair_key channel recipient ++ (lit ": " ++ e.text)))

module _ (json : Json) where
  unfoldable pub decode_found : Result (Option Text) → Result (Option Message)
  decode_found (err e) = err (wrap internal (lit "failed to claim message: " ++ e.text))
  decode_found (ok none) = ok none
  decode_found (ok (some data_)) = elim (json.unmarshal data_) [
    | err e ↦ err (deserialize_error e)
    | ok m ↦ ok (some m)
  ]

  module _ {W : Type 0} (s : RedisStore W) where
    -- `Deposit`
    unfoldable pub redis_deposit : Message → W → Result (Unit {0}) × W
    redis_deposit msg w = elim (json.marshal msg) [
      | err e ↦ (err (serialize_error e), w)
      | ok data_ ↦ s.client.set (message_key msg.run_id msg.receiver_type) data_ s.ttl w
    ]

    -- `Claim`
    unfoldable pub redis_claim : Text → Text → W → Result (Option Message) × W
    redis_claim run_id receiver_type w =
        let (found, w') = s.client.get (message_key run_id receiver_type) w in
        (decode_found found, w')

    -- `Reserve`
    unfoldable pub redis_reserve : Text → Text → Text → W → Result (Unit {0}) × W
    redis_reserve channel recipient run_id w =
        let key = reservation_key channel recipient in
        let (answer, w') = s.client.set_nx key run_id reservation_ttl w in
        elim answer [
          | err e ↦ (err (reserve_failed channel recipient e), w')
          | ok free ↦ elim free [
            | true ↦ (ok tt, w')
            | false ↦
                let (found, w'') = s.client.get key w' in
                (err (already_reserved channel recipient (known_run found)), w'')
          ]
        ]

    -- `Release`
    unfoldable pub redis_release : Text → Text → W → Result (Unit {0}) × W
    redis_release channel recipient w = s.client.del (reservation_key channel recipient) w

    -- `Delete`
    unfoldable pub redis_delete : Text → Text → W → Result (Unit {0}) × W
    redis_delete run_id receiver_type w = s.client.del (message_key run_id receiver_type) w

    unfoldable pub redis_store : Store W
    redis_store = record {
      deposit = redis_deposit;
      claim = redis_claim;
      reserve = redis_reserve;
      release = redis_release;
      delete = redis_delete;
      close = s.client.close;
    }
