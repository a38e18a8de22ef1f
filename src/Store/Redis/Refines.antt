-- ===== src/Store/Redis/Refines.antt =====
-- The Redis store keeps the contract of a store, over a client that keeps values by key.
use e2e_framework.Prelude.{
  ◌≡◌, refl, sym, ap, ◌∙◌, inl, inr, Text, ◌==◌, ==_refl, Option, none, some, true, Bool-cases,
  arith,
}
use e2e_framework.Domain.{Duration, Message, ok, Result-cases}
use e2e_framework.Store.Contract.{Keeps, IsStorable, updated}
use e2e_framework.Store.Memory.{Json, pair_key, reservation_ttl}
use e2e_framework.Store.Redis.{
  RedisClient, RedisStore, message_key, reservation_key, decode_found, redis_deposit, redis_claim,
  redis_reserve, redis_release, redis_delete, redis_store,
}
use e2e_framework.Store.Redis.Views.{
  message_prefix, reservation_prefix, decoded_value, decode_found-ok, message-updated, run-updated,
}

-- The documented behaviour of the commands, on the values that the keys have: what a command that
-- answers has done. SET NX does not change a key that has a value.
pub record IsKeyValue {W : Type 0} (c : RedisClient W) (value : W → Text → Option Text)
    : Type 0 where
  pub set_value :
      (key new : Text) (ttl : Duration) (w : W)
      → (c.set key new ttl w).0 ≡ ok tt
      → (k : Text) → value (c.set key new ttl w).1 k ≡ updated ◌==◌ (value w) key (some new) k
  pub get_value :
      (key : Text) (w : W) (found : Option Text) → (c.get key w).0 ≡ ok found → found ≡ value w key
  pub get_same : (key : Text) (w : W) (k : Text) → value (c.get key w).1 k ≡ value w k
  pub set_nx_free :
      (key new : Text) (ttl : Duration) (w : W)
      → (c.set_nx key new ttl w).0 ≡ ok true
      → value w key ≡ none
  pub set_nx_value :
      (key new : Text) (ttl : Duration) (w : W)
      → (c.set_nx key new ttl w).0 ≡ ok true
      → (k : Text) → value (c.set_nx key new ttl w).1 k ≡ updated ◌==◌ (value w) key (some new) k
  pub set_nx_keeps :
      (key new : Text) (ttl : Duration) (w : W) (k old : Text)
      → value w k ≡ some old
      → value (c.set_nx key new ttl w).1 k ≡ some old
  pub del_value :
      (key : Text) (w : W)
      → (c.del key w).0 ≡ ok tt
      → (k : Text) → value (c.del key w).1 k ≡ updated ◌==◌ (value w) key none k

module _ (json : Json) where
  module _ {W : Type 0} (s : RedisStore W) (value : W → Text → Option Text) where
    abbrev pub message_of : W → Text → Option Message
    message_of w k = decoded_value json (value w (message_prefix k))

    abbrev pub run_of : W → Text → Option Text
    run_of w k = value w (reservation_prefix k)

    module _ (laws : IsKeyValue s.client value) where
      deposit_ok :
          (m : Message) (w : W)
          → (redis_deposit json s m w).0 ≡ ok tt
          → (data_ : Text) × (json.marshal m ≡ ok data_)
            × ((k : Text)
                → value (redis_deposit json s m w).1 k
                  ≡ updated ◌==◌ (value w) (message_key m.run_id m.receiver_type) (some data_) k)
      unfolding redis_deposit
      deposit_ok m w h = elim (Result-cases (json.marshal m)) [
        | inr (e, q) ↦ absurd (ground (arith, q))
        | inl (data_, q) ↦ (
          data_,
          q,
          λ k. rw (q, redis_deposit) (laws.set_value _ data_ s.ttl w (ground (arith, q)) k),
        )
      ]

      claim_ok :
          (run_id type : Text) (w : W) (found : Option Message)
          → (redis_claim json s run_id type w).0 ≡ ok found
          → found ≡ message_of w (pair_key run_id type)
      unfolding redis_claim message_key
      claim_ok run_id type w found h =
          let key = message_key run_id type in
          elim (Result-cases (s.client.get key w).0) [
            | inr (e, q) ↦ absurd (unfold decode_found in ground (arith, q))
            | inl (got, q) ↦
                decode_found-ok json got found (sym (ap (decode_found json) q) ∙ h)
                ∙ ap (decoded_value json) (laws.get_value key w got q)
          ]

      reserve_ok :
          (channel recipient run_id : Text) (w : W)
          → (redis_reserve json s channel recipient run_id w).0 ≡ ok tt
          → ((s.client.set_nx (reservation_key channel recipient) run_id reservation_ttl w).0
              ≡ ok true)
            × ((redis_reserve json s channel recipient run_id w).1
                ≡ (s.client.set_nx (reservation_key channel recipient) run_id reservation_ttl w).1)
      unfolding redis_reserve
      reserve_ok channel recipient run_id w h =
          let answer =
            s.client.set_nx (reservation_key channel recipient) run_id reservation_ttl w in
          elim (Result-cases answer.0) [
            | inr (e, q) ↦ absurd (ground (arith, q))
            | inl (free, q) ↦ elim (Bool-cases free) [
              | inr z ↦ absurd (ground (arith, q, z))
              | inl z ↦ (q ∙ ap ok z, rw (q, z, redis_reserve) refl)
            ]
          ]

      reserve_nx :
          (channel recipient run_id : Text) (w : W) (k old : Text)
          → value w k ≡ some old
          → value (redis_reserve json s channel recipient run_id w).1 k ≡ some old
      unfolding redis_reserve
      reserve_nx channel recipient run_id w k old h =
          let key = reservation_key channel recipient in
          let answer = s.client.set_nx key run_id reservation_ttl w in
          let kept = laws.set_nx_keeps key run_id reservation_ttl w k old h in
          elim (Result-cases answer.0) [
            | inr (e, q) ↦ rw (q, redis_reserve) kept
            | inl (free, q) ↦ elim (Bool-cases free) [
              | inl z ↦ rw (q, z, redis_reserve) kept
              | inr z ↦ rw (q, z, redis_reserve) (laws.get_same key answer.1 k ∙ kept)
            ]
          ]

      -- Over a client that keeps values by key, the Redis store keeps the contract of a store: a
      -- message that is deposited is claimed unchanged, a recipient is reserved for one run at a
      -- time until it is released, and messages and reservations do not disturb each other. The
      -- observations are the message that a value encodes and the run id that is one.
      pub redis_store-Keeps :
          Keeps
            (redis_store json s)
            pair_key
            ◌==◌
            (IsStorable json)
            (λ w. Unit {0})
            message_of
            run_of
      unfolding redis_store redis_claim redis_release redis_delete message_key reservation_key
      redis_store-Keeps = record {
        same_refl = ==_refl;
        deposit_ready = λ m w h. tt;
        claim_ready = λ run_id type w h. tt;
        reserve_ready = λ channel recipient run_id w h. tt;
        release_ready = λ channel recipient w h. tt;
        delete_ready = λ run_id type w h. tt;
        deposit_message = λ m w r (data_, e, u) q k.
            let (written, e', v) = deposit_ok m w q in
            let back : decoded_value json (some written) ≡ some m = ground (arith, e, e', u) in
            (message-updated json (value w) (value (redis_deposit json s m w).1)
              (pair_key m.run_id m.receiver_type) (some written) v k).0
            ∙ ap (λ y. updated ◌==◌ (message_of w) (pair_key m.run_id m.receiver_type) y k) back;
        deposit_held = λ m w q k.
            let (written, e', v) = deposit_ok m w q in
            (message-updated json (value w) (value (redis_deposit json s m w).1)
              (pair_key m.run_id m.receiver_type) (some written) v k).1;
        claim_message = λ run_id type w found h. claim_ok run_id type w found h;
        claim_same =
            λ run_id type w k. (ap (decoded_value json) (laws.get_same _ w _), laws.get_same _ w _);
        reserve_free = λ channel recipient run_id w h.
            laws.set_nx_free _ run_id reservation_ttl w (reserve_ok channel recipient run_id w h).0;
        reserve_held = λ channel recipient run_id w h k.
            let (q, e) = reserve_ok channel recipient run_id w h in
            run-updated json (value w) (value (redis_reserve json s channel recipient run_id w).1)
              (pair_key channel recipient) (some run_id)
              (λ j. ap (λ y. value y j) e ∙ laws.set_nx_value _ run_id reservation_ttl w q j) k;
        reserve_keeps = λ channel recipient run_id w k holder h.
            reserve_nx channel recipient run_id w (reservation_prefix k) holder h;
        release_held = λ channel recipient w h k.
            run-updated json (value w) (value (redis_release json s channel recipient w).1)
              (pair_key channel recipient) none (laws.del_value _ w h) k;
        delete_message = λ run_id type w h k.
            message-updated json (value w) (value (redis_delete json s run_id type w).1)
              (pair_key run_id type) none (laws.del_value _ w h) k;
      }
