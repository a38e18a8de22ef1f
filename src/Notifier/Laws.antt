-- ===== src/Notifier/Laws.antt =====
-- Which notifications are delivered, and that one that fails does not keep back the next ones.
use e2e_framework.Prelude.{
  ◌<◌, ◌≡◌, refl, sym, ap, ◌∙◌, ◌⊎◌, inl, inr, Text, lit, pos, leb, ltb_ℤ, Bool-cases, Option,
  Option-cases, none, some, true, false, List, [], ◌∷◌, ◌++◌, if◌then◌else◌, arith,
}
use e2e_framework.Domain.{
  Duration, Vars, Fields, CallAction, OnFailureConfig, TestResult, Error, Result, ok, err,
  Result-cases,
}
use e2e_framework.Template.{replace_string, replace_headers, has_unresolved}
use e2e_framework.Template.Generators.{Random}
use e2e_framework.Http.{
  HttpRequest, HttpResponse, HttpLib, HttpClient, unresolved_header, unresolved_reason,
  text_or_empty, set_headers, method_or,
}
use e2e_framework.Http.Unresolved.{AnyUnresolved}
use e2e_framework.Notifier.{
  needs_no_notice, notice_vars, timeout_of, check_notice, join_errors, content_type_or_json,
  notice_body, notice_request, replace_fields, send_notice, prepare_call, execute_call,
  execute_calls, add_error, notify_http,
}

-- The status is below 400, and it is the one that the call expects, if it expects one.
abbrev pub IsDelivered : CallAction → HttpResponse → Type 0
IsDelivered call resp =
    (resp.status < 400)
    × ((call.expected_status ≡ pos 0) ⊎ (pos resp.status ≡ call.expected_status))

pub check_notice-ok :
    (call : CallAction) (resp : HttpResponse)
    → check_notice call resp ≡ ok tt
    → IsDelivered call resp
unfolding check_notice
check_notice-ok call resp h = elim (Bool-cases (leb 400 resp.status)) [
  | inl e ↦ absurd (ground arith)
  | inr e ↦ (ground arith, ground arith)
]

join_errors-ok : (es : List Error) → join_errors es ≡ ok tt → es ≡ []
unfolding join_errors
join_errors-ok [] h = refl
join_errors-ok (e ∷ es) h = absurd (ground arith)

-- A placeholder is left in the URL, in the value of a header, or in the text of the body.
abbrev pub IsUnresolved : Text → Vars → Option Text → Type 0
IsUnresolved url headers body =
    (has_unresolved url ≡ true)
    ⊎ AnyUnresolved headers
    ⊎ (has_unresolved (text_or_empty body) ≡ true)

unresolved_header-eq-some :
    (headers : Vars) (k : Text) → unresolved_header headers ≡ some k → AnyUnresolved headers
unfolding unresolved_header
unresolved_header-eq-some [] k h = absurd (ground arith)
unresolved_header-eq-some ((name, v) ∷ headers) k h = elim (Bool-cases (has_unresolved v)) [
  | inl e ↦ inl e
  | inr e ↦ inr (unresolved_header-eq-some headers k (ground (arith, e)))
]

unresolved_reason-eq-some :
    (what url : Text) (headers : Vars) (body : Option Text) (reason : Text)
    → unresolved_reason what url headers (text_or_empty body) ≡ some reason
    → IsUnresolved url headers body
unfolding unresolved_reason
unresolved_reason-eq-some what url headers body reason h = elim (Bool-cases (has_unresolved url)) [
  | inl e ↦ inl e
  | inr e ↦ elim (Option-cases (unresolved_header headers)) [
    | inr (k, q) ↦ inr (inl (unresolved_header-eq-some headers k q))
    | inl q ↦ elim (Bool-cases (has_unresolved (text_or_empty body))) [
      | inl b ↦ inr (inr b)
      | inr b ↦ absurd (ground (arith, e, q, b))
    ]
  ]
]

-- The parts of the request of a call with their placeholders replaced.
module _ (lib : HttpLib) (call : CallAction) (url : Text) (headers : Vars)
    (fields : Option Fields) where
  -- The request of the call, with this body.
  abbrev pub request_of : Option Text → HttpRequest
  request_of body = record {
    method = method_or (lit "POST") call.method;
    url = url;
    headers = content_type_or_json body (set_headers lib.canonical headers []);
    body = body;
  }

  notice_request-ok :
      (made : Option HttpRequest)
      → notice_request lib call url headers fields ≡ ok made
      → (body : Option Text) × (notice_body lib fields ≡ ok body)
        × (((made ≡ none) × IsUnresolved url headers body) ⊎ (made ≡ some (request_of body)))
  unfolding notice_request
  notice_request-ok made h = elim (Result-cases (notice_body lib fields)) [
    | inr (e, q) ↦ absurd (ground (arith, q))
    | inl (body, q) ↦
        let reasons = unresolved_reason [] url headers (text_or_empty body) in
        elim (Option-cases reasons) [
          | inr (reason, z) ↦ (
            body,
            q,
            inl (ground (arith, q, z), unresolved_reason-eq-some [] url headers body reason z),
          )
          | inl z ↦
              elim (Result-cases (lib.check_request (method_or (lit "POST") call.method) url)) [
                | inr (e, c) ↦ absurd (ground (arith, q, z, c))
                | inl (_, c) ↦
                    let sent : ok made ≡ ok (some (request_of body)) =
                      sym h ∙ rw (q, z, c, notice_request) refl in
                    (body, q, inr (ap (λ y. elim y [ ok x ↦ x | err e ↦ none ]) sent))
              ]
        ]
  ]

module _ {W : Type 0} (lib : HttpLib) (r : Random W) (client : HttpClient W)
    (sleep : Duration → W → W) where
  -- What becomes of a call whose placeholders are replaced by these variables in this world, after
  -- the delay before it: the text of its body is made, and a placeholder is left, or the request is
  -- sent and the response is accepted.
  abbrev pub IsSettled : CallAction → Vars → W → Type 0
  IsSettled call vars w =
      let w0 = if ltb_ℤ (pos 0) call.delay_before then sleep call.delay_before w else w in
      let (url, vars1, w1) = replace_string r call.url vars w0 in
      let (headers, vars2, w2) = replace_headers r call.headers vars1 w1 in
      let (fields, vars3, w3) = replace_fields lib r client sleep call.body vars2 w2 in
      (body : Option Text) × (notice_body lib fields ≡ ok body)
      × (IsUnresolved url headers body
          ⊎ ((resp : HttpResponse) × ((client.send (request_of lib call url headers fields body)
                  (some (timeout_of call)) w3).0
                ≡ ok resp)
              × IsDelivered call resp))

  abbrev pub AllSettled : List CallAction → Vars → W → Type 0
  AllSettled [] vars w = Unit
  AllSettled (call ∷ calls) vars w =
      let (sent, vars', w') = execute_call lib r client sleep call vars w in
      IsSettled call vars w × AllSettled calls vars' w'

  execute_call-ok :
      (call : CallAction) (vars : Vars) (w : W)
      → (execute_call lib r client sleep call vars w).0 ≡ ok tt
      → IsSettled call vars w
  unfolding execute_call send_notice prepare_call
  execute_call-ok call vars w h =
      let w0 = if ltb_ℤ (pos 0) call.delay_before then sleep call.delay_before w else w in
      let (url, vars1, w1) = replace_string r call.url vars w0 in
      let (headers, vars2, w2) = replace_headers r call.headers vars1 w1 in
      let (fields, vars3, w3) = replace_fields lib r client sleep call.body vars2 w2 in
      elim (Result-cases (notice_request lib call url headers fields)) [
        | inr (e, q) ↦ absurd (ground (arith, q))
        | inl (made, q) ↦
            let (body, b, kind) = notice_request-ok lib call url headers fields made q in
            (
              body,
              b,
              elim kind [
                | inl (_, left) ↦ inl left
                | inr z ↦
                    let req = request_of lib call url headers fields body in
                    let answer = client.send req (some (timeout_of call)) w3 in
                    (elim (Result-cases answer.0) [
                      | inr (e, f) ↦ absurd (ground (arith, q, z, f))
                      | inl (resp, f) ↦
                          inr (resp, f, check_notice-ok call resp (ground (arith, q, z, f)))
                    ])
              ],
            )
      ]

  execute_calls-none :
      (calls : List CallAction) (vars : Vars) (w : W)
      → (execute_calls lib r client sleep calls vars w).0 ≡ []
      → AllSettled calls vars w
  unfolding execute_calls add_error
  execute_calls-none [] vars w h = tt
  execute_calls-none (call ∷ calls) vars w h =
      let (sent, vars', w') = execute_call lib r client sleep call vars w in
      elim (Result-cases sent) [
        | inr (e, q) ↦ absurd (ground (arith, q))
        | inl (_, q) ↦
            (execute_call-ok call vars w q, execute_calls-none calls vars' w' (ground (arith, q)))
      ]

  add_error-++ :
      (sent : Result (Unit {0})) (errs more : List Error)
      → add_error sent (errs ++ more) ≡ add_error sent errs ++ more
  unfolding add_error
  add_error-++ (ok _) errs more = refl
  add_error-++ (err e) errs more = refl

  -- The calls after those of `before` are made in the world that these leave, whatever their
  -- outcome, and the errors are those of both, in order.
  pub execute_calls-++ :
      (before calls : List CallAction) (vars : Vars) (w : W)
      → let (errs, vars', w') = execute_calls lib r client sleep before vars w in
        let (more, vars'', w'') = execute_calls lib r client sleep calls vars' w' in
        execute_calls lib r client sleep (before ++ calls) vars w ≡ (errs ++ more, vars'', w'')
  unfolding execute_calls
  execute_calls-++ [] calls vars w = refl
  execute_calls-++ (call ∷ before) calls vars w =
      let (sent, vars', w') = execute_call lib r client sleep call vars w in
      let (errs, vars1, w1) = execute_calls lib r client sleep before vars' w' in
      let (more, vars2, w2) = execute_calls lib r client sleep calls vars1 w1 in
      let rest = execute_calls-++ before calls vars' w' in
      rw (ap (λ y. y.0) rest, ap (λ y. y.1) rest, ap (λ y. y.2) rest, execute_calls)
        (ap (λ y. (y, vars2, w2)) (add_error-++ sent errs more))

  -- If the notification of a failure succeeds, then for every call of it, in its order, the text of
  -- its body could be made, and either a placeholder is left in the URL, in a header or in that
  -- text, or the request with the URL, the headers and that text has been sent and answered with a
  -- status below 400, and with the status that the call expects, if it expects one.
  pub notify_http-ok :
      (cfg : OnFailureConfig) (result : TestResult) (w : W)
      → needs_no_notice result.status ≡ false
      → (notify_http lib r client sleep cfg result w).0 ≡ ok tt
      → AllSettled cfg.calls (notice_vars result) w
  unfolding notify_http
  notify_http-ok cfg result w due h =
      let joined : (notify_http lib r client sleep cfg result w).0
          ≡ join_errors (execute_calls lib r client sleep cfg.calls (notice_vars result) w).0 =
        rw (due, notify_http) refl in
      execute_calls-none cfg.calls (notice_vars result) w (join_errors-ok _ (sym joined ∙ h))
