-- ===== src/Tests/Answers.antt =====
-- Stores whose environment answers.
use e2e_framework.Prelude.{ℕ, refl, Text, lit, Dict, pos, none, []}
use e2e_framework.Domain.{Message}
use e2e_framework.Store.{Store}
use e2e_framework.Store.Contract.{Serves}
use e2e_framework.Store.Redis.{redis_deposit, redis_store}
use e2e_framework.Store.Postgres.{Tables, Pool, postgres_store}
use e2e_framework.Store.Postgres.Effects.{IsStorableIn, message_in, run_in}
use e2e_framework.Store.Postgres.Answers.{postgres_store-Serves}
use e2e_framework.Tests.World.{mail}
use e2e_framework.Tests.Stores.{json, still, cache, spaced, spaced_json, microseconds}

abbrev letter : Message
letter = record (mail (lit "hi")) { raw = lit "hello" }

abbrev kept_in_redis : Store (Dict Text)
kept_in_redis = redis_store json cache

abbrev stored : Dict Text
stored = (redis_deposit json cache letter []).1

-- A pool on which every statement is executed.
abbrev steady : Pool ℕ
steady = record {
  fault = λ n. (none, n);
  db_now = still;
  now = still;
  as_jsonb = spaced;
  as_timestamptz = microseconds;
}

postgres_store-Serves_example :
    Serves
      (postgres_store steady spaced_json (pos 60000))
      (λ a b. (a, b))
      (IsStorableIn steady spaced_json)
      (λ w. Unit {0})
      (message_in steady 5 (λ e. refl) spaced_json 59999)
      (run_in steady 5 (λ e. refl) spaced_json 59999)
postgres_store-Serves_example =
    postgres_store-Serves steady 5 (λ e. refl) (λ e. refl) spaced_json 59999 (λ e. refl)

abbrev no_rows : Tables × ℕ
no_rows = (record { messages = []; reservations = [] }, 9)
