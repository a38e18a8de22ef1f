-- ===== src/Webhook/Server.antt =====
-- internal/adapters/primary/webhook/server.go: the table of extractors and `handleWebhook`.
use e2e_framework.Prelude.{
  ℕ, Text, lit, trim_prefix, Dict, lookup, insert, Option, none, some, [], if◌then◌else◌,
}
use e2e_framework.Domain.{Time, Message, Error, is_validation, wrap, configuration, Result, ok, err}
use e2e_framework.Store.{Store}
use e2e_framework.Ingestor.{ingest}
use e2e_framework.Webhook.Payload.{Callback}

-- internal/core/ports/extractor.go
abbrev pub Extractor : Type 0 → Type 0
Extractor W = Callback → W → Result Message × W

-- The status, and the text of `http.Error`, which is empty for an accepted message.
pub record Answer : Type 0 where
  pub status : ℕ
  pub text : Text

-- `NewServer`; an ingestor that is not given is `none`. The server has no extractors.
unfoldable pub new_webhook_server : {A W : Type 0} → Option A → Result (A × Dict (Extractor W))
new_webhook_server none = err (wrap configuration (lit "message ingestor is required"))
new_webhook_server (some ingestor) = ok (ingestor, [])

-- `RegisterExtractor`
unfoldable pub register_extractor :
    {W : Type 0} → Text → Extractor W → Dict (Extractor W) → Dict (Extractor W)
register_extractor path ext extractors = insert path ext extractors

-- The two ways to report an error.
unfoldable pub refusal : Error → Answer
refusal e =
    if is_validation e.kind
    then record { status = 400; text = e.text }
    else record { status = 500; text = lit "internal server error" }

unfoldable pub accepted : Answer
accepted = record { status = 204; text = [] }

unfoldable pub answer : Result (Unit {0}) → Answer
unfolding refusal accepted
answer (ok _) = accepted
answer (err e) = refusal e

module _ {W : Type 0} (store : Store W) (now : W → Time × W) where
  -- `handleWebhook`; the route gives it paths that begin with "/webhook/".
  unfoldable pub handle_webhook : Dict (Extractor W) → Callback → W → Answer × W
  handle_webhook extractors req w =
      elim (lookup (trim_prefix req.path (lit "/webhook/")) extractors) [
        | none ↦ (record { status = 404; text = lit "unknown provider" }, w)
        | some extract ↦
            let (extracted, w1) = extract req w in
            (elim extracted [
              | err e ↦ (refusal e, w1)
              | ok msg ↦ let (r, w2) = ingest store now (some msg) w1 in (answer r, w2)
            ])
      ]
