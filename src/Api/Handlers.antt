-- ===== src/Api/Handlers.antt =====
-- The handlers, over a world `W` in which tests run. `encoding/json` on a list of ids and
-- `time.ParseDuration` are parameters. An asynchronous run leaves its result in `pending` until
-- its goroutine stores it.
use e2e_framework.Prelude.{
  ℕ, Text, lit, ◌==◌, ◌++◌, quote, trim_space, trim_prefix, Dict, lookup, pos, Option, none, some,
  Bool, true, false, not, List, [], ◌∷◌, if◌then◌else◌, ◌⊎◌, inl, inr,
}
use e2e_framework.Domain.{Duration, TestDefinition, TestResult, running, Result, ok, err}
use e2e_framework.Ports.{Ports}
use e2e_framework.Groups.{TestGroup}
use e2e_framework.Orchestrator.{new_result, run_test, run_sequence}
use e2e_framework.Api.Cache.{ResultCache, store_result, list_results}

-- What the handlers read of a request. `body` is what `io.ReadAll` gives.
pub record Request : Type 0 where
  pub method : Text
  pub path : Text
  pub query : Dict Text
  pub authorization : Text
  pub body : Result Text

pub data Payload : Type 0 where
  message : Text → Payload
  run_started : Text → Payload
  health : Payload
  one_result : TestResult → Payload
  results : List TestResult → Payload
  stored_results : List (Option TestResult) → Payload
  swagger_page : Payload

-- `http.Error`, `respondJSON` with its status, or what httpSwagger writes.
pub record Response : Type 0 where
  pub status : ℕ
  pub payload : Payload

pub record Decoders : Type 0 where
  pub string_list : Text → Option (List Text)
  pub parse_duration : Text → Result Duration

pub record Config : Type 0 where
  pub auth_enable : Bool
  pub resolver : Option (Text → Option TestGroup)

-- The server, the runs whose goroutines have still to store their results, and the world.
pub record Server (W : Type 0) : Type 0 where
  pub cache : ResultCache
  pub pending : List TestResult
  pub world : W

abbrev pub http_error : ℕ → Text → Response
http_error status text = record { status = status; payload = message text }

-- `r.URL.Query().Get(name)`
abbrev pub query_get : Text → Request → Text
query_get name r = elim (lookup name r.query) [ none ↦ [] | some v ↦ v ]

unfoldable pub not_found : Text → Text → Response
not_found what name = http_error 404 (what ++ (lit " " ++ (quote name ++ lit " not found")))

-- `handleHealth`
abbrev pub handle_health : Response
handle_health = record { status = 200; payload = health }

-- `handleResults`
unfoldable pub handle_results : ResultCache → Response
handle_results c = record { status = 200; payload = stored_results (list_results c) }

-- `handleResultByID`
unfoldable pub handle_result_by_id : ResultCache → Request → Response
handle_result_by_id c r =
    let run_id = trim_prefix r.path (lit "/results/") in
    if run_id == []
    then http_error 400 (lit "run_id required")
    else (elim (lookup run_id c.results) [
      | none ↦ not_found (lit "run") run_id
      | some res ↦ record { status = 200; payload = one_result res }
    ])

-- The ids of `rules` as definitions, or the first one that is unknown.
unfoldable pub find_tests : Dict TestDefinition → List Text → List TestDefinition ⊎ Text
find_tests tests [] = inl []
find_tests tests (id ∷ ids) = elim (lookup id tests) [
  | none ↦ inr id
  | some def ↦ elim (find_tests tests ids) [ inl defs ↦ inl (def ∷ defs) | inr bad ↦ inr bad ]
]

-- `test_group`: no group, a group, or its refusal.
unfoldable pub find_group : Config → Text → Option TestGroup ⊎ Response
find_group cfg name = if name == [] then inl none else (elim cfg.resolver [
  | none ↦ inr (not_found (lit "test group") name)
  | some resolve ↦ elim (resolve name) [
    | none ↦ inr (not_found (lit "test group") name)
    | some g ↦ inl (some g)
  ]
])

unfoldable pub group_rules : Option TestGroup → List Text
group_rules none = []
group_rules (some g) = g.tests

unfoldable pub group_or {ℓ} : {A : Type ℓ} → Option TestGroup → (TestGroup → A) → A → A
group_or none f a = a
group_or (some g) f a = f g

module _ (d : Decoders) where
  -- The list of ids, from the group or from the body.
  unfoldable pub find_rules : Option TestGroup → Result Text → List Text ⊎ Response
  find_rules group (err e) = inr (http_error 400 (lit "invalid request body"))
  find_rules group (ok body) =
      if trim_space body == [] then inl (group_rules group) else (elim group [
        | some g ↦ inr (http_error 400 (lit "test_group and body test list are mutually exclusive"))
        | none ↦ elim (d.string_list (trim_space body)) [
          | none ↦ inr (http_error 400 (lit "invalid request body"))
          | some ids ↦ inl ids
        ]
      ])

  -- `test_delay`, else the delay of the group.
  unfoldable pub find_delay : Option TestGroup → Text → Duration ⊎ Response
  find_delay group raw =
      if raw == []
      then inl (group_or group (λ g. g.test_delay) (pos 0))
      else (elim (d.parse_duration raw) [
        | err e ↦ inr (http_error 400 (lit "invalid test_delay: " ++ e.text))
        | ok delay ↦ inl delay
      ])

  -- `skip_fail_test`, else the setting of the group.
  unfoldable pub find_skip : Option TestGroup → Text → Bool
  find_skip group raw =
      if raw == [] then group_or group (λ g. g.skip_fail_test) false else raw == lit "true"

module _ {W : Type 0} (p : Ports W) (tests : Dict TestDefinition) where
  -- `handleRun` once the test is known: asynchronously, the placeholder is stored before the
  -- goroutine can store the result.
  unfoldable pub run_definition : Bool → TestDefinition → Server W → Response × Server W
  run_definition true def s =
      let (run_id, res, w) = run_test p def s.world in
      let (started, w') = p.now w in
      let placeholder = record (new_result def run_id started) { status = running } in
      (
        record { status = 202; payload = run_started run_id },
        record { cache = store_result placeholder s.cache; pending = res ∷ s.pending; world = w' },
      )
  run_definition false def s =
      let (run_id, res, w) = run_test p def s.world in
      (
        record { status = 200; payload = one_result res },
        record s { cache = store_result res s.cache; world = w },
      )

  unfoldable pub run_found : Text → Option TestDefinition → Server W → Response × Server W
  run_found id none s = (not_found (lit "test") id, s)
  run_found id (some def) s = run_definition def.async def s

  -- `handleRun`
  unfoldable pub handle_run : Request → Server W → Response × Server W
  handle_run r s =
      if not (r.method == lit "POST")
      then (http_error 405 (lit "method not allowed"), s)
      else run_found (query_get (lit "id") r) (lookup (query_get (lit "id") r) tests) s

  unfoldable pub store_all : List TestResult → ResultCache → ResultCache
  store_all [] c = c
  store_all (res ∷ rest) c = store_all rest (store_result res c)

  -- The end of `handleRunSequence`: the definitions are known, or an id is not.
  unfoldable pub sequence_found :
      Duration → Bool → List TestDefinition ⊎ Text → Server W → Response × Server W
  sequence_found delay skip (inr bad) s = (not_found (lit "test") bad, s)
  sequence_found delay skip (inl defs) s =
      let (rs, w) = run_sequence p defs (record { delay = delay; skip_fail_test = skip }) s.world in
      (
        record { status = 200; payload = results rs },
        record s { cache = store_all rs s.cache; world = w },
      )

  unfoldable pub sequence_delayed :
      List Text → Bool → Duration ⊎ Response → Server W → Response × Server W
  sequence_delayed rules skip (inr refusal) s = (refusal, s)
  sequence_delayed rules skip (inl delay) s = sequence_found delay skip (find_tests tests rules) s

  module _ (d : Decoders) (r : Request) where
    unfoldable pub sequence_rules :
        Option TestGroup → List Text ⊎ Response → Server W → Response × Server W
    sequence_rules group (inr refusal) s = (refusal, s)
    sequence_rules group (inl []) s = (http_error 400 (lit "rules must not be empty"), s)
    sequence_rules group (inl (id ∷ ids)) s =
        sequence_delayed (id ∷ ids) (find_skip d group (query_get (lit "skip_fail_test") r))
          (find_delay d group (query_get (lit "test_delay") r)) s

    unfoldable pub sequence_group : Option TestGroup ⊎ Response → Server W → Response × Server W
    sequence_group (inr refusal) s = (refusal, s)
    sequence_group (inl group) s = sequence_rules group (find_rules d group r.body) s

    -- `handleRunSequence`
    unfoldable pub handle_run_sequence : Config → Server W → Response × Server W
    handle_run_sequence cfg s =
        if not (r.method == lit "POST")
        then (http_error 405 (lit "method not allowed"), s)
        else sequence_group (find_group cfg (query_get (lit "test_group") r)) s

  -- `authMiddleware`: any token that is not empty is let through.
  unfoldable pub auth_middleware :
      Config → (Request → Server W → Response × Server W) → Request → Server W → Response × Server W
  auth_middleware cfg next r s =
      if not cfg.auth_enable
      then next r s
      else if trim_prefix r.authorization (lit "Bearer ") == []
      then (http_error 401 (lit "unauthorized"), s)
      else next r s
