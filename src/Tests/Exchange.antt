-- ===== src/Tests/Exchange.antt =====
-- Requests of a trigger and of the notifier.
use e2e_framework.Prelude.{
  ℕ, ◌+◌, ◌≡◌, refl, inl, Text, lit, ◌==◌, insert, strip_prefix, pos, copy_into, none, some, [],
  ◌∷◌,
}
use e2e_framework.Domain.{
  Vars, Fields, field, string, end, TriggerConfig, CallAction, OnFailureConfig, failed,
  failure_kind, trigger_failed, ok,
}
use e2e_framework.Template.{
  has_unresolved, replace_string, replace_headers, replace_vars, replace_all, replace_all_func,
  replace_increments, resolve_generators, resolve_increments, match_group, match_text,
  generator_regex, until_paren, count,
}
use e2e_framework.Http.{
  HttpRequest, HttpResponse, HttpLib, HttpClient, prepare, prepare_body, assemble, trigger_request,
  execute_http, send_and_judge, judge, status_problem, unresolved_reason, unresolved_header,
  text_or_empty, method_or,
}
use e2e_framework.Http.Unresolved.{execute_http-unresolved}
use e2e_framework.Http.Outcome.{execute_http-ok, Answers}
use e2e_framework.Notifier.{
  notify_http, notice_vars, join_errors, execute_calls, add_error, execute_call, send_notice,
  prepare_call, notice_request, notice_body, replace_fields, check_notice,
}
use e2e_framework.Notifier.Laws.{AllSettled, notify_http-ok}
use e2e_framework.Tests.World.{random, waiting_step, result_of}

-- Every request is fine, and every body is an empty object.
abbrev pub http_lib : HttpLib
http_lib = record {
  check_request = λ method url. ok tt;
  canonical = λ k. k;
  encode_form = λ form. [];
  marshal = λ fields. ok (lit "{}");
  unmarshal = λ t. ok end;
}

abbrev pub answering : ℕ → HttpClient ℕ
answering status = record {
  send = λ req limit w.
      (ok (record { status = status; headers = []; body = lit "{}"; read_error = none }), w + 1);
}

abbrev asking : Text → TriggerConfig
asking url = record waiting_step { url = url }

execute_http-unresolved_example :
    (failure_kind
        (execute_http http_lib random [] (answering 200) (asking (lit "a{{b}}")) (lit "r") [] 3).0
      ≡ some trigger_failed)
    × ((execute_http http_lib random [] (answering 200) (asking (lit "a{{b}}")) (lit "r") [] 3).2
        ≡ (prepare http_lib random (lit "a{{b}}") [] none (insert (lit "run_id") (lit "r") []) 3).2)
unfolding prepare has_unresolved replace_string resolve_generators replace_all_func replace_vars
    resolve_increments match_group strip_prefix insert replace_all match_text generator_regex
execute_http-unresolved_example =
    execute_http-unresolved http_lib random [] (answering 200) (asking (lit "a{{b}}")) (lit "r") []
      3 (inl refl)

-- A form with a placeholder in its value.
abbrev form_headers : Vars
form_headers = (lit "Content-Type", lit "application/x-www-form-urlencoded") ∷ []

abbrev form_values : Fields
form_values = field (lit "a") (string (lit "{{b}}")) end

execute_http-ok_example :
    let (p, vars', w') =
      prepare http_lib random (lit "a") [] none (insert (lit "run_id") (lit "r") []) 3 in
    (req : HttpRequest) × (resp : HttpResponse) × (trigger_request http_lib (asking (lit "a")) p
      ≡ ok req)
    × (((answering 200).send req none w').0 ≡ ok resp)
    × Answers http_lib random []
        (asking (lit "a"))
        resp
        vars'
        ((answering 200).send req none w').1
        []
unfolding prepare execute_http send_and_judge trigger_request assemble prepare_body
    unresolved_reason unresolved_header text_or_empty method_or judge status_problem replace_headers
    replace_increments until_paren count has_unresolved replace_string resolve_generators
    replace_all_func replace_vars resolve_increments match_group strip_prefix insert replace_all
    match_text generator_regex ◌==◌
execute_http-ok_example =
    execute_http-ok http_lib random [] (answering 200) (asking (lit "a")) (lit "r") [] 3 [] refl

abbrev alert : CallAction
alert = record {
  method = [];
  url = lit "u";
  timeout = pos 0;
  delay_before = pos 0;
  headers = [];
  body = none;
  expected_status = pos 201;
}

abbrev alerts : OnFailureConfig
alerts = record { calls = alert ∷ [] }

notify_http-ok_example :
    AllSettled http_lib random
      (answering 201)
      (λ d w. w)
      (alert ∷ [])
      (notice_vars (result_of failed))
      3
unfolding notify_http join_errors execute_calls add_error execute_call send_notice prepare_call
    notice_request notice_body replace_fields unresolved_reason unresolved_header text_or_empty
    method_or check_notice notice_vars copy_into replace_headers replace_increments has_unresolved
    replace_string resolve_generators replace_all_func replace_vars resolve_increments match_group
    strip_prefix insert replace_all match_text generator_regex ◌==◌
notify_http-ok_example =
    notify_http-ok http_lib random (answering 201) (λ d w. w) alerts (result_of failed) 3 refl refl
