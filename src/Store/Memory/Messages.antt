-- ===== src/Store/Memory/Messages.antt =====
-- Messages of the memory store: deposit, claim, expiry and deletion.
use e2e_framework.Prelude.{
  ◌≡◌, refl, Text, ◌==◌, ==_refl, lookup-insert, lookup-delete, none, some, arith, if◌then◌else◌,
  ltb,
}
use e2e_framework.Domain.{Time, Message, ok}
use e2e_framework.Store.Memory.{
  Json, MemoryStore, pair_key, deposit, claim, claimed, delete_message, add_duration,
}

module _ (json : Json) where
  -- A deposited message is claimed unchanged up to and including its expiry, as often as one asks,
  -- and is gone after it.
  pub claim-deposit :
      (msg : Message) (payload : Text) (now t : Time) (s : MemoryStore)
      → json.marshal msg ≡ ok payload
      → json.unmarshal payload ≡ ok msg
      → ((deposit json msg now s).0 ≡ ok tt)
        × ((claim json msg.run_id msg.receiver_type t (deposit json msg now s).1).0
            ≡ (if ltb (add_duration now s.ttl) t then ok none else ok (some msg)))
        × ((claim json msg.run_id msg.receiver_type t (deposit json msg now s).1).1
            ≡ (deposit json msg now s).1)
  unfolding deposit claim claimed
  claim-deposit msg payload now t s m u =
      rw (m, deposit)
        (let key = pair_key msg.run_id msg.receiver_type in
          (
            refl,
            ground (
              arith,
              u,
              lookup-insert key key
                  (record { payload = payload; expires_at = add_duration now s.ttl }) s.messages,
              ==_refl key,
            ),
            refl,
          ))

  -- `Delete` makes the next claim find nothing, and leaves every other message.
  pub claim-delete :
      (run_id receiver_type r k : Text) (t : Time) (s : MemoryStore)
      → (claim json r k t (delete_message run_id receiver_type s).1).0 ≡ (
          if pair_key run_id receiver_type == pair_key r k then ok none else (claim json r k t s).0)
  unfolding delete_message claim claimed
  claim-delete run_id receiver_type r k t s =
      ground (arith, lookup-delete (pair_key run_id receiver_type) (pair_key r k) s.messages)
