-- ===== src/Receivers/Arrival.antt =====
-- A callback that comes while the webhook receiver waits: receiver/webhook/receiver.go, with the
-- server of webhooks, the ingestor and the memory store.
use e2e_framework.Prelude.{
  ℕ, ◌<◌, ◌≤◌, ◌≡◌, refl, sym, ap, ◌∙◌, subst, Text, lit, trim_prefix, ◌==◌, eqb, Dict, lookup,
  some, false, [], Option,
}
use e2e_framework.Domain.{Duration, Time, Message, webhook_receiver_type, Result, ok}
use e2e_framework.Store.Memory.{Json, MemEntry, MemoryStore, pair_key, claim, claimed, add_duration}
use e2e_framework.Store.Memory.Port.{clock, memory_store}
use e2e_framework.Ingestor.{lacks_run_id}
use e2e_framework.Webhook.{Callback, Extractor, handle_webhook}
use e2e_framework.Webhook.Laws.{handle_webhook-claim}
use e2e_framework.Receivers.Poll.{Waiting}
use e2e_framework.Receivers.Webhook.{
  WebhookReceiver, claim_webhook, collect_webhook, webhook_interval, webhook_timeout,
}
use e2e_framework.Receivers.Polling.{IsEmptyUntil, world_at, look_at, poll-finds}

module _ {C : Type 0} (json : Json) (now : C → Time × C) (env : Waiting (MemoryStore × C)) where
  -- The looks of a receiver of a run.
  abbrev pub look_for : Text → MemoryStore × C → Result (Option Message) × (MemoryStore × C)
  look_for = claim_webhook (memory_store json now) (clock json now) env

  claim_webhook-claim :
      (run_id : Text) (msg : Message) (s : MemoryStore) (c : C)
      → (claim json run_id webhook_receiver_type (now c).0 s).0 ≡ ok (some msg)
      → (look_for run_id (s, c)).0 ≡ ok (some msg)
  unfolding claim_webhook memory_store
  claim_webhook-claim run_id msg s c h = rw (h, claim_webhook) refl

  -- The entry for the webhook of a run.
  abbrev pub entry_at : Text → MemoryStore → Option MemEntry
  entry_at run_id s = lookup (pair_key run_id webhook_receiver_type) s.messages

  claim-entry :
      (run_id : Text) (t : Time) (s s' : MemoryStore)
      → entry_at run_id s ≡ entry_at run_id s'
      → (claim json run_id webhook_receiver_type t s).0
        ≡ (claim json run_id webhook_receiver_type t s').0
  unfolding claim
  claim-entry run_id t s s' h = ap (λ y. claimed json y t) h

  collect_webhook-finds :
      (a : WebhookReceiver) (limit : Duration) (k : ℕ) (w : MemoryStore × C) (msg : Message)
      → (a.run_id == []) ≡ false
      → k < env.ticks limit w
      → IsEmptyUntil (look_for a.run_id) (env.tick webhook_interval) k w
      → (look_at (look_for a.run_id) (env.tick webhook_interval) k w).0 ≡ ok (some msg)
      → (collect_webhook (memory_store json now) (clock json now) env a limit w).0 ≡ ok msg
  unfolding collect_webhook
  collect_webhook-finds a limit k w msg started h e f =
      let found =
        poll-finds (look_for a.run_id) (env.tick webhook_interval) (webhook_timeout env.done)
          (env.ticks limit w) k w _ msg h e
          (λ i. (f i, (look_at (look_for a.run_id) (env.tick webhook_interval) k w).1)) in
      rw (started, collect_webhook) (ap (λ y. y.0) found)

  -- If the k-th tick of a webhook receiver that has been started comes before the end of the wait,
  -- nothing was there at the ticks before, and at this tick the store has for the receiver's run the
  -- entry that a callback has left in it, then the receiver returns the message that the provider
  -- has extracted from the callback. What else has happened since the callback is of no matter; a
  -- later callback for the run would have replaced the entry.
  -- The provider is registered, the message has the run id, its type and a time, JSON gives back
  -- the message that was put into it, and it has not expired at the tick.
  pub collect_webhook-callback :
      (a : WebhookReceiver) (limit : Duration) (k : ℕ) (w : MemoryStore × C)
      (extractors : Dict (Extractor (MemoryStore × C))) (req : Callback)
      (extract : Extractor (MemoryStore × C)) (v w1 : MemoryStore × C) (msg : Message)
      (payload : Text)
      → a.run_id ≡ msg.run_id
      → (a.run_id == []) ≡ false
      → k < env.ticks limit w
      → IsEmptyUntil (look_for a.run_id) (env.tick webhook_interval) k w
      → entry_at msg.run_id
          (env.tick webhook_interval
            (world_at (look_for a.run_id) (env.tick webhook_interval) k w)).0
        ≡ entry_at msg.run_id
            (handle_webhook (memory_store json now) (clock json now) extractors req v).1.0
      → lookup (trim_prefix req.path (lit "/webhook/")) extractors ≡ some extract
      → extract req v ≡ (ok msg, w1)
      → msg.receiver_type ≡ webhook_receiver_type
      → lacks_run_id msg ≡ false
      → eqb msg.received_at 0 ≡ false
      → json.marshal msg ≡ ok payload
      → json.unmarshal payload ≡ ok msg
      → (now
          (env.tick webhook_interval
            (world_at (look_for a.run_id) (env.tick webhook_interval) k w)).1).0
        ≤ add_duration (now w1.1).0 w1.0.ttl
      → (collect_webhook (memory_store json now) (clock json now) env a limit w).0 ≡ ok msg
  collect_webhook-callback a limit k w extractors req extract v w1 msg payload run started h e
        arrives l x type known dated_ m u fresh =
      let (s, c) =
        env.tick webhook_interval (world_at (look_for a.run_id) (env.tick webhook_interval) k w) in
      let claimed =
        (handle_webhook-claim json now extractors req extract v w1 msg payload (now c).0 l x known
          dated_ m u fresh).1 in
      let s' = (handle_webhook (memory_store json now) (clock json now) extractors req v).1.0 in
      let held =
        claim-entry msg.run_id (now c).0 s s' arrives
        ∙ subst (λ y. (claim json msg.run_id y (now c).0 s').0 ≡ ok (some msg)) type claimed in
      collect_webhook-finds a limit k w msg started h e (
        subst (λ y. (look_for y (s, c)).0 ≡ ok (some msg)) (sym run)
          (claim_webhook-claim msg.run_id msg s c held))
