-- ===== src/Tests/Stores.antt =====
-- The three stores, and the contract that they keep.
use e2e_framework.Prelude.{
  ℕ, zero, suc, ◌+◌, ◌*◌, ◌/◌, ◌<◌, ◌≢◌, refl, ◌∙◌, inl, inr, Text, lit, ◌==◌, ==_iff, Dict, lookup,
  insert, delete, lookup-insert, lookup-delete, pos, Option, Option-cases, none, some, Bool-cases,
  true, false, [], ◌∷◌, arith,
}
use e2e_framework.Domain.{Time, plain, ok}
use e2e_framework.Store.{Store}
use e2e_framework.Store.Contract.{Keeps, IsStorable}
use e2e_framework.Store.Contract.Exclusion.{done, attempted}
use e2e_framework.Store.Memory.{Json, MemoryStore, new_memory_store, pair_key, reserve, holder}
use e2e_framework.Store.Memory.Port.{memory_store}
use e2e_framework.Store.Memory.Refines.{Lives, message_at, run_at, memory_store-Keeps}
use e2e_framework.Store.Redis.{RedisClient, RedisStore, redis_store}
use e2e_framework.Store.Redis.Refines.{IsKeyValue, message_of, run_of, redis_store-Keeps}
use e2e_framework.Store.Postgres.{Tables, Pool, same_key, postgres_store}
use e2e_framework.Store.Postgres.Effects.{IsStorableIn, message_in, run_in}
use e2e_framework.Store.Postgres.Refines.{postgres_store-Keeps}
use e2e_framework.Ports.{Ports}
use e2e_framework.Orchestrator.{reserve_recipients}
use e2e_framework.Orchestrator.Contended.{reserve_recipients-excludes}
use e2e_framework.Tests.World.{mail, inbox}
use e2e_framework.Tests.Parts.{store_ports}

-- The text without a space before it.
abbrev strip_space : Text → Text
strip_space [] = []
strip_space (c ∷ t) = t

abbrev pub json : Json
json = record {
  marshal = λ m. ok m.raw;
  unmarshal = λ s. ok (record (mail (lit "hi")) { raw = s });
}

-- A clock that stands at 5.
abbrev pub still : ℕ → Time × ℕ
still c = (5, c)

memory_store-Keeps_example :
    Keeps
      (memory_store json still)
      pair_key
      ◌==◌
      (IsStorable json)
      (λ (s, c). Lives s.ttl)
      (λ (s, c). message_at json 5 s)
      (λ (s, c). run_at json 5 s)
memory_store-Keeps_example = memory_store-Keeps json 5 still (λ c. refl)

-- Redis as a map that never fails.
abbrev pub redis : RedisClient (Dict Text)
redis = record {
  set = λ k v ttl w. (ok tt, insert k v w);
  get = λ k w. (ok (lookup k w), w);
  set_nx =
      λ k v ttl w. elim (lookup k w) [ none ↦ (ok true, insert k v w) | some old ↦ (ok false, w) ];
  del = λ k w. (ok tt, delete k w);
  close = λ w. (ok tt, w);
}

abbrev pub value : Dict Text → Text → Option Text
value w k = lookup k w

pub redis-IsKeyValue : IsKeyValue redis value
redis-IsKeyValue = record {
  set_value = λ key new ttl w h k. lookup-insert key k new w;
  get_value = λ key w found h. ground arith;
  get_same = λ key w k. refl;
  set_nx_free = λ key new ttl w h. elim (Option-cases (lookup key w)) [
    | inl e ↦ e
    | inr (old, e) ↦ absurd (ground arith)
  ];
  set_nx_value = λ key new ttl w h k. elim (Option-cases (lookup key w)) [
    | inl e ↦ rw (e, redis) (lookup-insert key k new w)
    | inr (old, e) ↦ absurd (ground arith)
  ];
  set_nx_keeps = λ key new ttl w k old h. elim (Option-cases (lookup key w)) [
    | inr (old', e) ↦ rw (e, redis) h
    | inl e ↦ elim (Bool-cases (key == k)) [
      | inl q ↦ absurd (ground (arith, e, h, ==_iff key k))
      | inr q ↦ rw (e, redis) (lookup-insert key k new w ∙ rw q h)
    ]
  ];
  del_value = λ key w h k. lookup-delete key k w;
}

abbrev pub cache : RedisStore (Dict Text)
cache = record { client = redis; ttl = pos 60 }

redis_store-Keeps_example :
    Keeps
      (redis_store json cache)
      pair_key
      ◌==◌
      (IsStorable json)
      (λ w. Unit {0})
      (message_of json cache value)
      (run_of json cache value)
redis_store-Keeps_example = redis_store-Keeps json cache value redis-IsKeyValue

-- Of times, microseconds.
abbrev pub microseconds : Time → Time
microseconds u = u / 1000 * 1000

pub microseconds_lem : (u : Time) → u < microseconds u + 1000
microseconds_lem u = omega arith

-- JSON that has a space before it when it comes back.
abbrev pub spaced : Text → Text
spaced t = b' ' ∷ t

abbrev pub spaced_json : Json
spaced_json = record {
  marshal = λ m. ok m.raw;
  unmarshal = λ s. ok (record (mail (lit "hi")) { raw = strip_space s });
}

-- Every third statement fails.
abbrev pub pool : Pool ℕ
pool = record {
  fault = λ n. elim n [ zero ↦ (some (plain (lit "connection lost")), 2) | suc m ↦ (none, m) ];
  db_now = still;
  now = still;
  as_jsonb = spaced;
  as_timestamptz = microseconds;
}

postgres_store-Keeps_example :
    Keeps
      (postgres_store pool spaced_json (pos 60000))
      (λ a b. (a, b))
      same_key
      (IsStorableIn pool spaced_json)
      (λ w. Unit {0})
      (message_in pool 5 (λ e. refl) spaced_json 59999)
      (run_in pool 5 (λ e. refl) spaced_json 59999)
postgres_store-Keeps_example =
    postgres_store-Keeps pool 5 (λ e. refl) spaced_json 59999 (λ e. refl) microseconds_lem
      (omega arith)

abbrev pub empty : MemoryStore × ℕ
empty = (new_memory_store (pos 10), 0)

-- A mail arrives, another recipient is reserved, and released again.
abbrev pub store : Store (MemoryStore × ℕ)
store = memory_store json still

abbrev ports : Ports (MemoryStore × ℕ)
ports = record store_ports { store = store }

-- The second run comes while the first one holds "a@b".
abbrev reserved : MemoryStore × ℕ
reserved = (reserve_recipients ports (lit "r1") (inbox ∷ []) [] empty).2

reserve_recipients-excludes_example :
    (reserve_recipients ports
      (lit "r2")
      (inbox ∷ [])
      []
      (store.reserve (lit "imap") (lit "a@b") (lit "r3") reserved).1).0
    ≢ none
unfolding reserve_recipients memory_store reserve holder lookup ◌==◌
reserve_recipients-excludes_example =
    reserve_recipients-excludes ports pair_key ◌==◌ (IsStorable json) (λ (s, c). Lives s.ttl)
      (λ (s, c). message_at json 5 s) (λ (s, c). run_at json 5 s)
      (memory_store-Keeps json 5 still (λ c. refl)) (lit "imap") (lit "a@b") refl (lit "r1")
      (lit "r2") (inbox ∷ []) (inbox ∷ []) empty _ (inl (refl, refl)) (inl (refl, refl)) refl
      (attempted (lit "imap") (lit "a@b") (lit "r3") done)

abbrev no_rows : Tables × ℕ
no_rows = (record { messages = []; reservations = [] }, 9)

abbrev database : Store (Tables × ℕ)
database = postgres_store pool spaced_json (pos 60000)
