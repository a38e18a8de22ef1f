-- ===== src/Receivers/Api.antt =====
-- internal/adapters/secondary/receiver/api/receiver.go
use e2e_framework.Prelude.{
  ℕ, zero, suc, Text, lit, ◌++◌, ◌==◌, ◌*◌, ◌^◌, pos, ltb_ℤ, trim_space, Dict, insert, none, some,
  List, [], ◌∷◌, if◌then◌else◌,
}
use e2e_framework.Domain.{
  Duration, Time, Vars, Message, ReceiverConfig, AssertionConfig, api_receiver_type, Error, wrap,
  plain, configuration, trigger_failed, timeout, Result, ok, err,
}
use e2e_framework.Template.Generators.{Random}
use e2e_framework.Assertion.Registry.{Registry, run_assertions}
use e2e_framework.Webhook.{flatten_json}
use e2e_framework.Http.{
  HttpRequest, HttpResponse, HttpLib, HttpClient, Prepared, prepare, assemble, method_or,
  status_problem,
}
use e2e_framework.Receivers.Poll.{Waiting}
use e2e_framework.Receivers.Webhook.{not_started}

-- The configuration, and what `Start` sets; the variables are those of the run.
pub record ApiReceiver : Type 0 where
  pub cfg : ReceiverConfig
  pub run_id : Text

-- `NewAPIPollingReceiver`, with a registry and a client that are not nil.
unfoldable pub new_api_receiver : ReceiverConfig → Result ApiReceiver
new_api_receiver cfg =
    if cfg.url == []
    then err (wrap configuration (lit "api receiver requires 'url'"))
    else ok (record { cfg = cfg; run_id = [] })

-- `Start`
unfoldable pub start_api : Text → ApiReceiver → ApiReceiver
start_api run_id r = record r { run_id = run_id }

abbrev pub default_interval : Duration
default_interval = pos (5 * 10 ^ 9)

unfoldable pub interval_of : ReceiverConfig → Duration
interval_of cfg = if ltb_ℤ (pos 0) cfg.interval then cfg.interval else default_interval

unfoldable pub first_values : Dict (List Text) → Vars → Vars
first_values [] headers = headers
first_values ((k, []) ∷ rest) headers = first_values rest headers
first_values ((k, v ∷ vs) ∷ rest) headers = first_values rest (insert k v headers)

unfoldable pub api_timeout : Text → Error → Error
api_timeout done last =
    wrap timeout
      (lit "timeout waiting for API condition (last error: " ++ (last.text ++ (lit "): " ++ done)))

module _ (lib : HttpLib) where
  unfoldable pub api_request : ReceiverConfig → Prepared → Result HttpRequest
  api_request cfg p =
      assemble lib (lit "api receiver") (λ e. plain (lit "failed to serialize request body: " ++ e))
        (λ e. wrap trigger_failed (lit "failed to create polling request: " ++ e))
        (method_or (lit "GET") cfg.method) p

  -- The fields without assertions: none if the body is no JSON object.
  unfoldable pub fields_or_none : HttpResponse → Vars
  fields_or_none resp =
      if trim_space resp.body == []
      then []
      else (elim (lib.unmarshal resp.body) [ err e ↦ [] | ok payload ↦ flatten_json payload ])

  module _ {W : Type 0} (r : Random W) (registry : Registry) where
    -- The fields of a response whose assertions hold.
    unfoldable pub check_response :
        List AssertionConfig → HttpResponse → Vars → W → Result Vars × Vars × W
    check_response [] resp vars w = (ok (fields_or_none resp), vars, w)
    check_response (cfg ∷ cfgs) resp vars w =
        if trim_space resp.body == []
        then (
          err (plain (lit "response_assertions configured but API response body is empty")),
          vars,
          w,
        )
        else (elim (lib.unmarshal resp.body) [
          | err e ↦ (err (plain (lit "failed to parse API response as JSON: " ++ e.text)), vars, w)
          | ok payload ↦
              let flat = flatten_json payload in
              let (checked, vars', w') =
                run_assertions r registry (cfg ∷ cfgs) flat resp.body vars w in
              (elim checked [ err e ↦ (err e, vars', w') | ok _ ↦ (ok flat, vars', w') ])
        ])

    module _ (client : HttpClient W) (now : W → Time × W) where
      unfoldable pub api_message : Text → HttpResponse → Vars → Time → Message
      api_message run_id resp flat t = record {
        run_id = run_id;
        receiver_type = api_receiver_type;
        received_at = t;
        headers = first_values resp.headers [];
        fields = flat;
        raw = resp.body;
      }

      -- What `attempt` makes of the response.
      unfoldable pub take_response :
          ApiReceiver → HttpResponse → Vars → W → Result Message × Vars × W
      take_response a resp vars w = elim resp.read_error [
        | some e ↦
            (err (wrap trigger_failed (lit "failed to read response body: " ++ e.text)), vars, w)
        | none ↦ elim (status_problem a.cfg.expected_status resp) [
          | some text ↦ (err (plain text), vars, w)
          | none ↦
              let (checked, vars', w') = check_response a.cfg.response_asserts resp vars w in
              (elim checked [
                | err e ↦ (err e, vars', w')
                | ok flat ↦
                    let (t, w'') = now w' in (ok (api_message a.run_id resp flat t), vars', w'')
              ])
        ]
      ]

      -- The request runs in the context of the collection, whose timeout is `limit`.
      unfoldable pub exchange :
          ApiReceiver → Duration → Result HttpRequest → Vars → W → Result Message × Vars × W
      exchange a limit (err e) vars w = (err e, vars, w)
      exchange a limit (ok req) vars w =
          let (answer, w') = client.send req (some limit) w in
          elim answer [
            | err e ↦ (err (wrap trigger_failed (lit "HTTP request failed: " ++ e.text)), vars, w')
            | ok resp ↦ take_response a resp vars w'
          ]

      -- `attempt`
      unfoldable pub attempt_api : ApiReceiver → Duration → Vars → W → Result Message × Vars × W
      attempt_api a limit vars w =
          let (p, vars', w') =
            prepare lib r a.cfg.url a.cfg.headers a.cfg.body (insert (lit "run_id") a.run_id vars)
              w in
          exchange a limit (api_request a.cfg p) vars' w'

      module _ (env : Waiting W) where
        -- The loop of `Collect`: the waits that are left before the context is done.
        unfoldable pub poll_api : ApiReceiver → Duration → ℕ → Vars → W → Result Message × Vars × W
        poll_api a limit zero vars w =
            let (result, vars', w') = attempt_api a limit vars w in
            elim result [
              | ok msg ↦ (ok msg, vars', w')
              | err e ↦ (err (api_timeout env.done e), vars', w')
            ]
        poll_api a limit (suc n) vars w =
            let (result, vars', w') = attempt_api a limit vars w in
            elim result [
              | ok msg ↦ (ok msg, vars', w')
              | err e ↦ poll_api a limit n vars' (env.tick (interval_of a.cfg) w')
            ]

        -- `Collect`
        unfoldable pub collect_api : ApiReceiver → Duration → Vars → W → Result Message × Vars × W
        collect_api a limit vars w =
            if a.run_id == []
            then (err not_started, vars, w)
            else poll_api a limit (env.ticks limit w) vars w
