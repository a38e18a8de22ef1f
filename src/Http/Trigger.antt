-- ===== src/Http/Trigger.antt =====
-- `HTTPTrigger`: internal/adapters/secondary/trigger/http.go.
use e2e_framework.Prelude.{
  Text, lit, ◌++◌, ◌==◌, ltb_ℤ, pos, to_lower, trim_space, lookup, insert, Option, none, some, Bool,
  true, false, ◌≡◌, refl, eqb, contains, strip_prefix, arith, List, [], ◌∷◌, if◌then◌else◌,
}
use e2e_framework.Domain.{
  Duration, Vars, TriggerConfig, AssertionConfig, Error, wrap, configuration, trigger_failed,
  Result, ok, err,
}
use e2e_framework.Ports.{Trigger}
use e2e_framework.Template.Generators.{Random}
use e2e_framework.Assertion.Registry.{Registry, run_assertions}
use e2e_framework.Webhook.{flatten_json}
use e2e_framework.Http.Request.{
  HttpRequest, HttpResponse, HttpLib, HttpClient, Prepared, prepare, assemble, method_or,
  status_problem,
}

unfoldable pub failed_because : Text → Text → Error
failed_because what e = wrap trigger_failed (what ++ e)

abbrev pub nothing_asked : Vars → List AssertionConfig → Bool
nothing_asked [] [] = true
nothing_asked _ _ = false

-- `for varName, jsonPath := range def.Extract`
unfoldable pub extract_vars : Vars → Vars → Vars → Vars
extract_vars [] flat extracted = extracted
extract_vars ((name, path) ∷ rest) flat extracted =
    extract_vars rest flat
      (elim (lookup (to_lower path) flat) [ none ↦ extracted | some v ↦ insert name v extracted ])

-- `if def.Timeout > 0 { … context.WithTimeout(ctx, def.Timeout) }`
unfoldable pub timeout_or_none : Duration → Option Duration
timeout_or_none d = if ltb_ℤ (pos 0) d then some d else none

module _ (lib : HttpLib) where
  -- The response as a flat map of fields, or why there is none.
  unfoldable pub read_fields : HttpResponse → Result Vars
  read_fields resp = elim resp.read_error [
    | some e ↦ err (failed_because (lit "failed to read trigger response body: ") e.text)
    | none ↦
        if trim_space resp.body == []
        then err (
            failed_because []
              (lit "extract/response_assertions configured but trigger response body is empty"))
        else (elim (lib.unmarshal resp.body) [
          | err e ↦ err (failed_because (lit "failed to parse trigger response as JSON: ") e.text)
          | ok payload ↦ ok (flatten_json payload)
        ])
  ]

  -- The request that `Execute` sends.
  unfoldable pub trigger_request : TriggerConfig → Prepared → Result HttpRequest
  trigger_request def p =
      assemble lib (lit "trigger") (failed_because (lit "failed to serialize trigger body: "))
        (failed_because (lit "failed to create trigger request: "))
        (method_or (lit "GET") def.method) p

  module _ {W : Type 0} (r : Random W) (registry : Registry) where
    -- What `Execute` makes of the response; its loop over the assertions is that of `Registry.Run`.
    unfoldable pub judge : TriggerConfig → HttpResponse → Vars → W → Result Vars × Vars × W
    judge def resp vars w = elim (status_problem def.expected_status resp) [
      | some text ↦ (err (wrap trigger_failed text), vars, w)
      | none ↦ elim (nothing_asked def.extract def.response_assertions) [
        | true ↦ (ok [], vars, w)
        | false ↦ elim (read_fields resp) [
          | err e ↦ (err e, vars, w)
          | ok flat ↦
              let (checked, vars', w') =
                run_assertions r registry def.response_assertions flat resp.body vars w in
              (elim checked [
                | err e ↦ (err e, vars', w')
                | ok _ ↦ (ok (extract_vars def.extract flat []), vars', w')
              ])
        ]
      ]
    ]

    module _ (client : HttpClient W) where
      unfoldable pub send_and_judge :
          TriggerConfig → Result HttpRequest → Vars → W → Result Vars × Vars × W
      send_and_judge def (err e) vars w = (err e, vars, w)
      send_and_judge def (ok req) vars w =
          let (answer, w') = client.send req (timeout_or_none def.timeout) w in
          elim answer [
            | err e ↦ (err (failed_because (lit "HTTP request failed: ") e.text), vars, w')
            | ok resp ↦ judge def resp vars w'
          ]

      -- `Execute`
      unfoldable pub execute_http : TriggerConfig → Text → Vars → W → Result Vars × Vars × W
      execute_http def run_id vars w =
          let (p, vars', w') =
            prepare lib r def.url def.headers def.body (insert (lit "run_id") run_id vars) w in
          send_and_judge def (trigger_request def p) vars' w'

      unfoldable pub http_trigger : Trigger W
      http_trigger = record { execute = execute_http }

-- `NewHTTPTrigger`; a registry or a client that is not given is `none`.
unfoldable pub new_http_trigger :
    {W : Type 0} → HttpLib → Random W → Option Registry → Option (HttpClient W) → Result (Trigger W)
new_http_trigger lib r none client = err (wrap configuration (lit "assertion registry is required"))
new_http_trigger lib r (some registry) none =
    err (wrap configuration (lit "http client is required"))
new_http_trigger lib r (some registry) (some client) = ok (http_trigger lib r registry client)

-- `sanitizeURL`: what stands before the first question mark.
unfoldable pub sanitize_url : Text → Text
sanitize_url [] = []
sanitize_url (c ∷ raw) = let rest = sanitize_url raw in if eqb c b'?' then [] else c ∷ rest

-- No query string is left.
pub sanitize_url-contains : (raw : Text) → contains (sanitize_url raw) (lit "?") ≡ false
unfolding sanitize_url contains strip_prefix
sanitize_url-contains [] = refl
sanitize_url-contains (c ∷ raw) = ground (arith, sanitize_url-contains raw)
