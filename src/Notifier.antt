-- ===== src/Notifier.antt =====
-- `HTTPNotifier`: internal/adapters/secondary/notifier/http.go. Its logging is left out, and the
-- contexts of its requests are their timeouts.
pub mod Laws
use e2e_framework.Prelude.{
  ℕ, Text, lit, ◌++◌, ◌==◌, ◌*◌, ◌^◌, ◌&&◌, ◌||◌, not, ℤ, pos, ltb_ℤ, eqb_ℤ, leb, decimal,
  format_int, join, Dict, lookup, insert, copy_into, Option, none, some, Bool, true, false, List,
  [], ◌∷◌, map, if◌then◌else◌,
}
use e2e_framework.Domain.{
  Duration, Vars, Fields, CallAction, OnFailureConfig, RunStatus, passed, skipped, TestResult,
  Error, wrap, internal, Result, ok, err,
}
use e2e_framework.Template.{replace_string, replace_headers, replace_map, has_unresolved}
use e2e_framework.Template.Generators.{Random}
use e2e_framework.Http.{
  HttpRequest, HttpResponse, HttpLib, HttpClient, unresolved_reason, text_or_empty, set_headers,
  method_or,
}

-- `result.Status == StatusPassed || result.Status == StatusSkipped`
abbrev pub needs_no_notice : RunStatus → Bool
needs_no_notice passed = true
needs_no_notice skipped = true
needs_no_notice _ = false

abbrev pub default_call_timeout : Duration
default_call_timeout = pos (15 * 10 ^ 9)

unfoldable pub timeout_of : CallAction → Duration
timeout_of call = if eqb_ℤ call.timeout (pos 0) then default_call_timeout else call.timeout

-- The variables of the calls.
unfoldable pub notice_vars : TestResult → Vars
notice_vars result =
    copy_into
      (insert (lit "error") result.error
        (insert (lit "test_id") result.test_id (insert (lit "run_id") result.run_id [])))
      result.trigger_vars

-- A body is JSON if the headers do not say what it is.
unfoldable pub content_type_or_json : Option Text → Vars → Vars
content_type_or_json none headers = headers
content_type_or_json (some body) headers = elim (lookup (lit "Content-Type") headers) [
  | none ↦ insert (lit "Content-Type") (lit "application/json") headers
  | some v ↦
      if v == [] then insert (lit "Content-Type") (lit "application/json") headers else headers
]

unfoldable pub check_notice : CallAction → HttpResponse → Result (Unit {0})
check_notice call resp =
    if not (eqb_ℤ call.expected_status (pos 0))
      && not (eqb_ℤ (pos resp.status) call.expected_status)
    then err (
        wrap internal (
          lit "on_failure call returned status "
          ++ (decimal resp.status ++ (lit ", expected " ++ format_int call.expected_status))))
    else if leb 400 resp.status
    then err (
        wrap internal (
          lit "on_failure call returned status "
          ++ (decimal resp.status ++ (lit ": " ++ resp.body))))
    else ok tt

-- `errors.Join`: the texts on lines of their own. The kind is that of the first error; those of a
-- notification are all of one kind.
unfoldable pub join_errors : List Error → Result (Unit {0})
join_errors [] = ok tt
join_errors (e ∷ es) =
    err (record { kind = e.kind; text = join (map (λ x. x.text) (e ∷ es)) (lit "\n") })

-- `if err := …; err != nil { errs = append(errs, err) }`, with the errors of the later calls.
unfoldable pub add_error : Result (Unit {0}) → List Error → List Error
add_error (ok _) errs = errs
add_error (err e) errs = e ∷ errs

module _ (lib : HttpLib) where
  unfoldable pub notice_body : Option Fields → Result (Option Text)
  notice_body none = ok none
  notice_body (some body) = elim (lib.marshal body) [
    | err e ↦ err (wrap internal (lit "failed to serialize on_failure body: " ++ e.text))
    | ok t ↦ ok (some t)
  ]

  -- The request of a call, `none` if a placeholder is left in it, or why it cannot be made.
  unfoldable pub notice_request :
      CallAction → Text → Vars → Option Fields → Result (Option HttpRequest)
  notice_request call url headers fields = elim (notice_body fields) [
    | err e ↦ err e
    | ok body ↦ elim (unresolved_reason [] url headers (text_or_empty body)) [
      | some reason ↦ ok none
      | none ↦ elim (lib.check_request (method_or (lit "POST") call.method) url) [
        | err e ↦ err (wrap internal (lit "failed to create on_failure request: " ++ e.text))
        | ok _ ↦ ok (
            some (record {
              method = method_or (lit "POST") call.method;
              url = url;
              headers = content_type_or_json body (set_headers lib.canonical headers []);
              body = body;
            }))
      ]
    ]
  ]

  module _ {W : Type 0} (r : Random W) (client : HttpClient W) (sleep : Duration → W → W) where
    unfoldable pub replace_fields : Option Fields → Vars → W → Option Fields × Vars × W
    replace_fields none vars w = (none, vars, w)
    replace_fields (some fields) vars w =
        let (fields', vars', w') = replace_map r fields vars w in (some fields', vars', w')

    unfoldable pub send_notice :
        CallAction → Result (Option HttpRequest) → W → Result (Unit {0}) × W
    send_notice call (err e) w = (err e, w)
    send_notice call (ok none) w = (ok tt, w)
    send_notice call (ok (some req)) w =
        let (answer, w') = client.send req (some (timeout_of call)) w in
        elim answer [
          | err e ↦ (err (wrap internal (lit "on_failure HTTP request failed: " ++ e.text)), w')
          | ok resp ↦ (check_notice call resp, w')
        ]

    -- The request of a call with its placeholders replaced, after the delay before it.
    unfoldable pub prepare_call : CallAction → Vars → W → Result (Option HttpRequest) × Vars × W
    prepare_call call vars w =
        let w0 = if ltb_ℤ (pos 0) call.delay_before then sleep call.delay_before w else w in
        let (url, vars1, w1) = replace_string r call.url vars w0 in
        let (headers, vars2, w2) = replace_headers r call.headers vars1 w1 in
        let (fields, vars3, w3) = replace_fields call.body vars2 w2 in
        (notice_request call url headers fields, vars3, w3)

    -- `executeCall`
    unfoldable pub execute_call : CallAction → Vars → W → Result (Unit {0}) × Vars × W
    execute_call call vars w =
        let (req, vars', w') = prepare_call call vars w in
        let (sent, w'') = send_notice call req w' in (sent, vars', w'')

    -- The loop of `Notify`: the errors of the calls, and the variables and the world after them.
    unfoldable pub execute_calls : List CallAction → Vars → W → List Error × Vars × W
    execute_calls [] vars w = ([], vars, w)
    execute_calls (call ∷ calls) vars w =
        let (sent, vars', w') = execute_call call vars w in
        let (errs, vars'', w'') = execute_calls calls vars' w' in (add_error sent errs, vars'', w'')

    -- `Notify`; without calls the loop does nothing.
    unfoldable pub notify_http : OnFailureConfig → TestResult → W → Result (Unit {0}) × W
    notify_http cfg result w =
        if needs_no_notice result.status
        then (ok tt, w)
        else (let (errs, vars', w') = execute_calls cfg.calls (notice_vars result) w in
            (join_errors errs, w'))
