-- ===== src/Tests/Callbacks.antt =====
-- Callbacks of providers.
use e2e_framework.Prelude.{
  ℕ, ◌+◌, ◌≡◌, refl, lit, pos, ◌==◌, lookup, trim_prefix, trim_space, some, [], ◌∷◌, arith,
}
use e2e_framework.Domain.{end, Time, Message, ok}
use e2e_framework.Store.Memory.{Json, MemoryStore, new_memory_store, claim}
use e2e_framework.Store.Memory.Port.{clock, memory_store}
use e2e_framework.Ingestor.{lacks_run_id}
use e2e_framework.Webhook.{Callback, Codec, Extractor, handle_webhook}
use e2e_framework.Webhook.Laws.{handle_webhook-claim}
use e2e_framework.Tests.World.{mail}

abbrev json : Json
json = record {
  marshal = λ m. ok m.raw;
  unmarshal = λ s. ok (record (mail (lit "hi")) { raw = s });
}

abbrev pub tick : ℕ → Time × ℕ
tick w = (w, w + 1)

abbrev pub callback : Callback
callback = record {
  method = lit "POST";
  path = lit "/webhook/meta";
  query = [];
  headers = (lit "Content-Type", lit "application/json" ∷ []) ∷ [];
  body = ok (lit "{}");
  form = ok [];
}

abbrev letter : Message
letter = mail (lit "hi")

abbrev fixed : Extractor (MemoryStore × ℕ)
fixed req w = (ok letter, w)

abbrev start : MemoryStore × ℕ
start = (new_memory_store (pos 10), 5)

handle_webhook-claim_example :
    let (a, w2) =
      handle_webhook
        (memory_store json tick)
        (clock json tick)
        ((lit "meta", fixed) ∷ [])
        callback
        start in
    (a.status ≡ 204) × ((claim json (lit "signup-1") (lit "imap") 12 w2.0).0 ≡ ok (some letter))
unfolding lookup trim_prefix ◌==◌ lacks_run_id trim_space
handle_webhook-claim_example =
    handle_webhook-claim json tick ((lit "meta", fixed) ∷ []) callback fixed start start letter []
      12 refl refl refl refl refl refl (omega arith)

abbrev codec : Codec
codec = record { unmarshal = λ s. ok end; marshal = λ m. [] }
