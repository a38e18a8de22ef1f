-- ===== src/Tests/Waiting.antt =====
-- Receivers that wait.
use e2e_framework.Prelude.{
  ℕ, ◌+◌, ◌≡◌, ◌<◌, refl, ◌⊎◌, lit, ◌==◌, eqb, lookup, insert, trim_prefix, trim_space, pos, none,
  some, [], ◌∷◌, arith, suc, if◌then◌else◌,
}
use e2e_framework.Domain.{
  Time, Message, Error, timeout, internal, failure_kind, webhook_receiver_type, ok, err,
}
use e2e_framework.Store.Memory.{
  Json, MemoryStore, new_memory_store, deposit, claim, claimed, release,
}
use e2e_framework.Store.Memory.Port.{clock, memory_store}
use e2e_framework.Ingestor.{lacks_run_id, ingest}
use e2e_framework.Webhook.{Extractor, handle_webhook}
use e2e_framework.Receivers.{
  Waiting, WebhookReceiver, claim_webhook, collect_webhook, ImapClient, collect_imap, ApiReceiver,
  collect_api,
}
use e2e_framework.Receivers.Polling.{FailsUntil, attempt_at, collect_api-outcomes}
use e2e_framework.Receivers.Searches.{FoundNothing, answer_at, collect_imap-outcomes}
use e2e_framework.Receivers.Arrival.{collect_webhook-callback}
use e2e_framework.Tests.World.{random, mail, inbox}
use e2e_framework.Tests.Exchange.{http_lib, answering}
use e2e_framework.Tests.Callbacks.{tick, callback}

abbrev letter : Message
letter = record (mail (lit "hi")) { receiver_type = webhook_receiver_type }

abbrev json : Json
json = record { marshal = λ m. ok []; unmarshal = λ s. ok letter }

abbrev extractor : Extractor (MemoryStore × ℕ)
extractor req w = (ok letter, w)

-- Nothing happens before the first tick; before the second, the callback comes, and after it a
-- recipient is released.
abbrev waiting : Waiting (MemoryStore × ℕ)
waiting = record {
  ticks = λ limit w. 3;
  tick = λ d (s, c).
      if eqb c 0
      then (s, 1)
      else (let (s', c') =
            (handle_webhook (memory_store json tick) (clock json tick)
              ((lit "meta", extractor) ∷ []) callback (s, c)).1 in
          ((release (lit "imap") (lit "a@b") s').1, c'));
  done = lit "context deadline exceeded";
}

abbrev started : WebhookReceiver
started = record { run_id = lit "signup-1"; started_at = 0 }

collect_webhook-callback_example :
    (collect_webhook
      (memory_store json tick)
      (clock json tick)
      waiting
      started
      (pos 3)
      (new_memory_store (pos 10), 0)).0
    ≡ ok letter
unfolding lookup trim_prefix ◌==◌ lacks_run_id trim_space claim_webhook memory_store claim claimed
    handle_webhook ingest deposit insert release
collect_webhook-callback_example =
    collect_webhook-callback json tick waiting started (pos 3) 1 (new_memory_store (pos 10), 0)
      ((lit "meta", extractor) ∷ []) callback extractor (new_memory_store (pos 10), 2)
      (new_memory_store (pos 10), 2) letter [] refl refl (omega arith) (refl, tt) refl refl refl
      refl refl refl refl refl (omega arith)

-- The mail is there from the third search on.
abbrev mail_server : ImapClient ℕ
mail_server = record {
  connect = λ w. (ok tt, w);
  search_by_run_id = λ run_id w. (ok (if eqb w 3 then some (mail (lit "hi")) else none), w);
  disconnect = λ w. (ok tt, w);
}

abbrev seconds : Waiting ℕ
seconds = record { ticks = λ limit w. 5; tick = λ d w. w + 1; done = lit "done" }

collect_imap-outcomes_example :
    (FoundNothing mail_server seconds (lit "r") 5 0
      × (failure_kind (collect_imap mail_server seconds (lit "r") (pos 9) 0).0 ≡ some timeout))
    ⊎ ((k : ℕ) × (k < 5)
        × FoundNothing mail_server seconds (lit "r") k 0
        × (((msg : Message) × (answer_at mail_server seconds (lit "r") k 0 ≡ ok (some msg))
              × ((collect_imap mail_server seconds (lit "r") (pos 9) 0).0 ≡ ok msg))
            ⊎ (((e : Error) × (answer_at mail_server seconds (lit "r") k 0 ≡ err e))
                × (failure_kind (collect_imap mail_server seconds (lit "r") (pos 9) 0).0
                    ≡ some internal))))
unfolding ◌==◌
collect_imap-outcomes_example = collect_imap-outcomes mail_server seconds (lit "r") (pos 9) 0 refl

abbrev polling : ApiReceiver
polling = record { cfg = record inbox { url = lit "u" }; run_id = lit "r" }

abbrev reading : ℕ → Time × ℕ
reading w = (w, w)

collect_api-outcomes_example :
    ((k : ℕ) × (msg : Message) × (k < suc 5)
      × FailsUntil http_lib random [] (answering 500) reading seconds polling (pos 9) k [] 0
      × ((attempt_at http_lib random [] (answering 500) reading seconds polling (pos 9) k [] 0).0
          ≡ ok msg)
      × ((collect_api http_lib random [] (answering 500) reading seconds polling (pos 9) [] 0).0
          ≡ ok msg))
    ⊎ (FailsUntil http_lib random [] (answering 500) reading seconds polling (pos 9) (suc 5) [] 0
        × (failure_kind
              (collect_api http_lib random []
                (answering 500)
                reading
                seconds
                polling
                (pos 9)
                []
                0).0
            ≡ some timeout))
unfolding ◌==◌
collect_api-outcomes_example =
    collect_api-outcomes http_lib random [] (answering 500) reading seconds polling (pos 9) [] 0
      refl
