-- ===== src/Webhook/Laws.antt =====
-- What becomes of a callback: the way through the extractor and the ingestor into the memory store.
use e2e_framework.Prelude.{
  ◌≤◌, ◌≡◌, refl, ap, ◌∙◌, Text, lit, trim_prefix, trim_space, ◌==◌, eqb, Dict, lookup, none, some,
  false, [], arith,
}
use e2e_framework.Domain.{Time, Message, ok, wrap}
use e2e_framework.Store.{Store}
use e2e_framework.Store.Memory.{Json, MemoryStore, deposit, claim, add_duration}
use e2e_framework.Store.Memory.Messages.{claim-deposit}
use e2e_framework.Store.Memory.Port.{clock, memory_store}
use e2e_framework.Ingestor.{lacks_run_id, date_message, ingest}
use e2e_framework.Ingestor.Laws.{as_internal, ingest_deposits}
use e2e_framework.Webhook.Payload.{Callback, Codec, extract_fields}
use e2e_framework.Webhook.Providers.{
  field_or_empty, extract_with, extract_meta, raw_or_empty, meta_run_id, webhook_message,
}
use e2e_framework.Webhook.Server.{Extractor, refusal, answer, accepted, handle_webhook}

module _ {W : Type 0} (store : Store W) (now : W → Time × W) where
  date_message-dated :
      (msg : Message) (w : W)
      → eqb msg.received_at 0 ≡ false
      → date_message store now msg w ≡ (msg, w)
  unfolding date_message
  date_message-dated msg w h = rw (h, date_message) refl

  ingest_dated :
      (msg : Message) (w : W)
      → lacks_run_id msg ≡ false
      → eqb msg.received_at 0 ≡ false
      → ingest store now (some msg) w
        ≡ (as_internal (store.deposit msg w).0, (store.deposit msg w).1)
  ingest_dated msg w known dated_ =
      let d = date_message-dated msg w dated_ in
      (ingest_deposits store now msg w known).0 ∙ rw (ap (λ y. y.0) d, ap (λ y. y.1) d) refl

  handle_webhook-ingest :
      (extractors : Dict (Extractor W)) (req : Callback) (extract : Extractor W) (w w1 : W)
      (msg : Message)
      → lookup (trim_prefix req.path (lit "/webhook/")) extractors ≡ some extract
      → extract req w ≡ (ok msg, w1)
      → handle_webhook store now extractors req w
        ≡ (answer (ingest store now (some msg) w1).0, (ingest store now (some msg) w1).1)
  unfolding handle_webhook
  handle_webhook-ingest extractors req extract w w1 msg l x =
      rw (l, ap (λ y. y.0) x, ap (λ y. y.1) x, handle_webhook) refl

module _ {C : Type 0} (json : Json) (now : C → Time × C) where
  ingest_stores :
      (msg : Message) (payload : Text) (w : MemoryStore × C)
      → lacks_run_id msg ≡ false
      → eqb msg.received_at 0 ≡ false
      → json.marshal msg ≡ ok payload
      → ingest (memory_store json now) (clock json now) (some msg) w
        ≡ (ok tt, ((deposit json msg (now w.1).0 w.0).1, (now w.1).1))
  unfolding memory_store deposit
  ingest_stores msg payload w known dated_ m =
      ingest_dated (memory_store json now) (clock json now) msg w known dated_
      ∙ rw (m, deposit) refl

  -- A callback with a run id, to a provider that is registered, is answered by 204, and until the
  -- message expires the receiver of that run claims the message that the provider extracted. The
  -- extracted message has a time, and JSON gives back the message that was put into it.
  pub handle_webhook-claim :
      (extractors : Dict (Extractor (MemoryStore × C))) (req : Callback)
      (extract : Extractor (MemoryStore × C)) (w w1 : MemoryStore × C) (msg : Message)
      (payload : Text) (t : Time)
      → lookup (trim_prefix req.path (lit "/webhook/")) extractors ≡ some extract
      → extract req w ≡ (ok msg, w1)
      → lacks_run_id msg ≡ false
      → eqb msg.received_at 0 ≡ false
      → json.marshal msg ≡ ok payload
      → json.unmarshal payload ≡ ok msg
      → t ≤ add_duration (now w1.1).0 w1.0.ttl
      → let (a, w2) = handle_webhook (memory_store json now) (clock json now) extractors req w in
        (a.status ≡ 204) × ((claim json msg.run_id msg.receiver_type t w2.0).0 ≡ ok (some msg))
  unfolding answer accepted
  handle_webhook-claim extractors req extract w w1 msg payload t l x known dated_ m u h =
      let stored = ingest_stores msg payload w1 known dated_ m in
      rw
        (
          handle_webhook-ingest (memory_store json now) (clock json now) extractors req extract w w1
              msg l x,
          stored,
        )
        (refl, ground (arith, (claim-deposit json msg payload (now w1.1).0 t w1.0 m u).1))

module _ {W : Type 0} (store : Store W) (now : W → Time × W) (codec : Codec) where
  extract_meta_unknown :
      (req : Callback) (w : W)
      → (extract_fields codec req).failure ≡ none
      → field_or_empty (lit "messages.0.text.body") (extract_fields codec req).fields ≡ []
      → extract_meta codec now req w ≡ (
        ok (
            webhook_message
              (lit "unknown")
              (now w).0
              req
              (extract_fields codec req).fields
              (raw_or_empty (extract_fields codec req).raw)),
        (now w).1,
      )
  unfolding extract_meta extract_with meta_run_id ◌==◌
  extract_meta_unknown req w x e = rw (x, e, extract_meta, extract_with) refl

  -- A callback of Meta whose payload has no text of a first message is answered by 400, and leaves
  -- the store as it is: only the clock has been read.
  pub meta_without_run_id :
      (extractors : Dict (Extractor W)) (req : Callback) (w : W)
      → lookup (trim_prefix req.path (lit "/webhook/")) extractors ≡ some (extract_meta codec now)
      → (extract_fields codec req).failure ≡ none
      → field_or_empty (lit "messages.0.text.body") (extract_fields codec req).fields ≡ []
      → ((handle_webhook store now extractors req w).0.status ≡ 400)
        × ((handle_webhook store now extractors req w).1 ≡ (now w).1)
  unfolding answer refusal ingest lacks_run_id wrap trim_space ◌==◌ webhook_message
  meta_without_run_id extractors req w l x e =
      let extracted = extract_meta_unknown req w x e in
      rw (handle_webhook-ingest store now extractors req (extract_meta codec now) w _ _ l extracted)
        (refl, refl)
