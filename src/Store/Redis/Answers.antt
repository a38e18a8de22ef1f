-- ===== src/Store/Redis/Answers.antt =====
-- The Redis store answers, over a client whose commands do.
use e2e_framework.Prelude.{◌≡◌, refl, inl, inr, Text, Option, some, none, true, arith}
use e2e_framework.Domain.{Duration, ok, Result-cases}
use e2e_framework.Store.Contract.{Serves, IsStorable}
use e2e_framework.Store.Memory.{Json, pair_key, reservation_ttl}
use e2e_framework.Store.Redis.{
  RedisClient, RedisStore, message_key, reservation_key, decode_found, redis_deposit, redis_claim,
  redis_reserve, redis_release, redis_delete, redis_store,
}
use e2e_framework.Store.Redis.Refines.{message_of, run_of}
use e2e_framework.Store.Redis.Views.{decoded_value}

-- The documented answers of the commands where the server is reached: SET and DEL answer, GET tells
-- the value, and SET NX sets a key that has none.
pub record IsReachable {W : Type 0} (c : RedisClient W) (value : W → Text → Option Text)
    : Type 0 where
  pub set_answer : (key new : Text) (ttl : Duration) (w : W) → (c.set key new ttl w).0 ≡ ok tt
  pub get_answer : (key : Text) (w : W) → (c.get key w).0 ≡ ok (value w key)
  pub set_nx_answer :
      (key new : Text) (ttl : Duration) (w : W)
      → value w key ≡ none
      → (c.set_nx key new ttl w).0 ≡ ok true
  pub del_answer : (key : Text) (w : W) → (c.del key w).0 ≡ ok tt

module _ (json : Json) where
  decode_found-eq-some :
      (found : Option Text) {m : _}
      → decoded_value json found ≡ some m
      → decode_found json (ok found) ≡ ok (some m)
  unfolding decode_found
  decode_found-eq-some none h = cc
  decode_found-eq-some (some data_) h = elim (Result-cases (json.unmarshal data_)) [
    | inl (n, q) ↦ rw (q, decode_found) (ground (arith, q))
    | inr (e, q) ↦ absurd (ground (arith, q))
  ]

  module _ {W : Type 0} (s : RedisStore W) (value : W → Text → Option Text)
      (up : IsReachable s.client value) where
    -- Over a client whose commands answer, the Redis store stores every message that its encoding
    -- gives back, finds what it has, and reserves every recipient that no run holds.
    pub redis_store-Serves :
        Serves
          (redis_store json s)
          pair_key
          (IsStorable json)
          (λ w. Unit {0})
          (message_of json s value)
          (run_of json s value)
    unfolding redis_store redis_deposit redis_claim redis_reserve redis_release redis_delete
        message_key reservation_key
    redis_store-Serves = record {
      deposit_serves = λ m w r (data_, e, u). rw (e, redis_deposit) (up.set_answer _ data_ s.ttl w);
      claim_serves = λ run_id type w m r h.
          rw (up.get_answer (message_key run_id type) w) (decode_found-eq-some _ h);
      reserve_serves = λ channel recipient run_id w r h.
          rw
            (
              up.set_nx_answer (reservation_key channel recipient) run_id reservation_ttl w h,
              redis_reserve,
            )
            refl;
      release_serves = λ channel recipient w r. up.del_answer _ w;
      delete_serves = λ run_id type w r. up.del_answer _ w;
    }
