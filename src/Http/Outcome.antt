-- ===== src/Http/Outcome.antt =====
-- What a trigger that succeeds has received.
use e2e_framework.Prelude.{
  ℕ, ◌<◌, ◌≡◌, ◌≢◌, ◌⊎◌, inl, inr, Text, lit, ℤ, pos, eqb_ℤ, insert, Option-cases, none, Bool-cases,
  true, [], arith,
}
use e2e_framework.Domain.{Vars, Fields, TriggerConfig, ok, Result-cases}
use e2e_framework.Template.Generators.{Random}
use e2e_framework.Assertion.Registry.{Registry, run_assertions}
use e2e_framework.Webhook.{flatten_json}
use e2e_framework.Http.Request.{
  HttpRequest, HttpResponse, HttpLib, HttpClient, prepare, status_problem,
}
use e2e_framework.Http.Trigger.{
  timeout_or_none, nothing_asked, extract_vars, read_fields, trigger_request, judge, send_and_judge,
  execute_http,
}

-- The status that was expected or, if none was, one below 400.
abbrev pub IsAccepted : ℤ → ℕ → Type 0
IsAccepted expected status =
    ((expected ≡ pos 0) × (status < 400)) ⊎ ((expected ≢ pos 0) × (pos status ≡ expected))

pub status_problem-none :
    (expected : ℤ) (resp : HttpResponse)
    → status_problem expected resp ≡ none
    → IsAccepted expected resp.status
unfolding status_problem
status_problem-none expected resp h = elim (Bool-cases (eqb_ℤ expected (pos 0))) [
  | inl e ↦ inl (ground arith, ground arith)
  | inr e ↦ inr (λ q. ground arith, ground arith)
]

module _ (lib : HttpLib) where
  read_fields-ok :
      (resp : HttpResponse) (flat : Vars)
      → read_fields lib resp ≡ ok flat
      → (payload : Fields) × (lib.unmarshal resp.body ≡ ok payload) × (flat ≡ flatten_json payload)
  unfolding read_fields
  read_fields-ok resp flat h = elim (Option-cases resp.read_error) [
    | inr (e, q) ↦ absurd (ground arith)
    | inl q ↦ elim (Result-cases (lib.unmarshal resp.body)) [
      | inr (e, u) ↦ absurd (ground arith)
      | inl (payload, u) ↦ (payload, u, ground arith)
    ]
  ]

  module _ {W : Type 0} (r : Random W) (registry : Registry) where
    -- The variables come from the fields of the response, whose assertions hold, if any were asked.
    pub record Answers (def : TriggerConfig) (resp : HttpResponse) (vars : Vars) (w : W)
        (new : Vars) : Type 0 where
      pub accepted : IsAccepted def.expected_status resp.status
      pub content :
          ((nothing_asked def.extract def.response_assertions ≡ true) × (new ≡ []))
          ⊎ ((payload : Fields) × (lib.unmarshal resp.body ≡ ok payload)
              × ((run_assertions r registry def.response_assertions
                    (flatten_json payload)
                    resp.body
                    vars
                    w).0
                  ≡ ok tt)
              × (new ≡ extract_vars def.extract (flatten_json payload) []))

    judge-ok :
        (def : TriggerConfig) (resp : HttpResponse) (vars : Vars) (w : W) (new : Vars)
        → (judge lib r registry def resp vars w).0 ≡ ok new
        → Answers def resp vars w new
    unfolding judge
    judge-ok def resp vars w new h = elim (Option-cases (status_problem def.expected_status resp)) [
      | inr (e, q) ↦ absurd (ground arith)
      | inl q ↦ elim (Bool-cases (nothing_asked def.extract def.response_assertions)) [
        | inl z ↦ record {
          accepted = status_problem-none def.expected_status resp q;
          content = inl (z, ground arith);
        }
        | inr z ↦ elim (Result-cases (read_fields lib resp)) [
          | inr (e, f) ↦ absurd (ground arith)
          | inl (flat, f) ↦
              let (payload, u, same) = read_fields-ok resp flat f in
              let out = run_assertions r registry def.response_assertions flat resp.body vars w in
              (elim (Result-cases out.0) [
                | inr (e, g) ↦ absurd (ground arith)
                | inl (_, g) ↦ record {
                  accepted = status_problem-none def.expected_status resp q;
                  content = inr (payload, u, rw (← same) g, ground arith);
                }
              ])
        ]
      ]
    ]

    module _ (client : HttpClient W) where
      -- A trigger that succeeds has sent its request and got a response with the expected status, or
      -- one below 400 if none was expected. If it was asked for nothing else it sets no variable;
      -- otherwise the response is JSON on which every assertion holds, and the variables are those
      -- that `extract` finds in it.
      pub execute_http-ok :
          (def : TriggerConfig) (run_id : Text) (vars : Vars) (w : W) (new : Vars)
          → (execute_http lib r registry client def run_id vars w).0 ≡ ok new
          → let (p, vars', w') =
              prepare lib r def.url def.headers def.body (insert (lit "run_id") run_id vars) w in
            (req : HttpRequest) × (resp : HttpResponse) × (trigger_request lib def p ≡ ok req)
            × ((client.send req (timeout_or_none def.timeout) w').0 ≡ ok resp)
            × Answers def resp vars' (client.send req (timeout_or_none def.timeout) w').1 new
      unfolding execute_http send_and_judge
      execute_http-ok def run_id vars w new h =
          let (p, vars', w') =
            prepare lib r def.url def.headers def.body (insert (lit "run_id") run_id vars) w in
          elim (Result-cases (trigger_request lib def p)) [
            | inr (e, q) ↦ absurd (ground arith)
            | inl (req, q) ↦
                let answer = client.send req (timeout_or_none def.timeout) w' in
                (elim (Result-cases answer.0) [
                  | inr (e, f) ↦ absurd (ground arith)
                  | inl (resp, f) ↦
                      (req, resp, q, f, judge-ok def resp vars' answer.1 new (ground arith))
                ])
          ]
