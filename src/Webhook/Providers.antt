-- ===== src/Webhook/Providers.antt =====
-- internal/adapters/primary/webhook/providers: generic.go, meta.go and twilio.go.
use e2e_framework.Prelude.{
  Text, lit, ◌++◌, ◌==◌, trim_space, lookup, insert, Option, none, some, Bool, true, false, [], ◌∷◌,
  if◌then◌else◌,
}
use e2e_framework.Domain.{
  Vars, Time, Message, is_validation, Result, ok, err, webhook_receiver_type,
}
use e2e_framework.Webhook.Payload.{
  Callback, Codec, Extraction, extract_fields, first_value, header, joined,
}

unfoldable pub field_or_empty : Text → Vars → Text
field_or_empty k fields = elim (lookup k fields) [ none ↦ [] | some v ↦ v ]

unfoldable pub raw_or_empty : Option Text → Text
raw_or_empty none = []
raw_or_empty (some raw) = raw

-- The message that all providers build.
unfoldable pub webhook_message : Text → Time → Callback → Vars → Text → Message
webhook_message run_id now req fields raw = record {
  run_id = run_id;
  receiver_type = webhook_receiver_type;
  received_at = now;
  headers = (lit "content-type", header (lit "Content-Type") req) ∷ [];
  fields = fields;
  raw = raw;
}

-- `for k, v := range maps.Clone(fields) { fields["body."+k] = v }`
unfoldable pub body_fields : Vars → Vars → Vars
body_fields [] fields = fields
body_fields ((k, v) ∷ rest) fields = body_fields rest (insert (lit "body." ++ k) v fields)

-- The loops over the header and the query: each key under its prefix.
unfoldable pub under : Text → Vars → Vars → Vars
under prefix [] fields = fields
under prefix ((k, v) ∷ rest) fields = under prefix rest (insert (prefix ++ k) v fields)

unfoldable pub all_fields : Callback → Vars → Vars
all_fields req fields = insert (lit "method") req.method (
    under (lit "query.") (joined req.query [])
      (under (lit "headers.") (joined req.headers []) (body_fields fields fields)))

unfoldable pub generic_run_id : Callback → Vars → Text
generic_run_id req fields =
    let query_id = first_value (lookup (lit "run_id") req.query) in
    let header_id = header (lit "X-E2e-Run-Id") req in
    let run_id = trim_space (field_or_empty (lit "run_id") fields) in
    if not_empty query_id
    then query_id
    else if not_empty header_id
    then header_id
    else if not_empty run_id
    then run_id
    else trim_space (field_or_empty (lit "runid") fields)
  where
    not_empty : Text → Bool
    not_empty [] = false
    not_empty (c ∷ s) = true

-- How `GenericExtractor` takes an extraction: an invalid body that is blank counts as empty.
unfoldable pub tolerate : Extraction → Result (Vars × Text)
tolerate x = elim x.failure [
  | none ↦ ok (x.fields, raw_or_empty x.raw)
  | some e ↦ elim (is_validation e.kind) [
    | false ↦ err e
    | true ↦ if trim_space (raw_or_empty x.raw) == [] then ok ([], []) else err e
  ]
]

-- The run id of `MetaExtractor`.
unfoldable pub meta_run_id : Vars → Text
meta_run_id fields =
    let id = field_or_empty (lit "messages.0.text.body") fields in
    if id == [] then lit "unknown" else id

module _ {W : Type 0} (codec : Codec) (now : W → Time × W) where
  -- `GenericExtractor.Extract`
  unfoldable pub extract_generic : Callback → W → Result Message × W
  extract_generic req w = elim (tolerate (extract_fields codec req)) [
    | err e ↦ (err e, w)
    | ok (body, raw) ↦
        let fields = all_fields req body in
        let (t, w') = now w in
        (ok (webhook_message (generic_run_id req fields) t req fields raw), w')
  ]

  -- What `MetaExtractor` and `TwilioExtractor` share; they differ in the run id.
  unfoldable pub extract_with : (Vars → Text) → Callback → W → Result Message × W
  extract_with run_id req w =
      let x = extract_fields codec req in
      elim x.failure [
        | some e ↦ (err e, w)
        | none ↦
            let (t, w') = now w in
            (ok (webhook_message (run_id x.fields) t req x.fields (raw_or_empty x.raw)), w')
      ]

  -- `MetaExtractor.Extract`
  unfoldable pub extract_meta : Callback → W → Result Message × W
  extract_meta = extract_with meta_run_id

  -- `TwilioExtractor.Extract`
  unfoldable pub extract_twilio : Callback → W → Result Message × W
  extract_twilio = extract_with (λ fields. trim_space (field_or_empty (lit "body") fields))
