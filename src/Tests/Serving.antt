-- ===== src/Tests/Serving.antt =====
-- The server of the service over a mux.
use e2e_framework.Prelude.{
  ◌≡◌, refl, ◌⊎◌, inl, inr, Text, lit, ◌==◌, ==_iff, strip_prefix, contains_text, Option,
  Option-cases, none, some, Bool-cases, true, false, ◌&&◌, List, [], ◌∷◌, ℕ, trim_prefix, lookup,
  eqb, arith, if◌then◌else◌,
}
use e2e_framework.HttpServer.{
  Mux, by_api, by_mux, serve, logging_middleware, serve_mux, register_routes, api_routes, guarded,
  request_of,
}
use e2e_framework.HttpServer.Reach.{request, finish, scheduled, here, next, Reach-IsValid}
use e2e_framework.Scheduler.{scheduled_run}
use e2e_framework.Api.Invariant.{IsValid}
use e2e_framework.HttpServer.Laws.{answer, serve-unauthorized, serve-swagger}
use e2e_framework.HttpServer.Patterns.{fixed_part, is_literal, IsServeMux}
use e2e_framework.Domain.{Time}
use e2e_framework.Store.{Store}
use e2e_framework.Api.{
  Server, store_result, Config, http_error, auth_middleware, handle_run, run_found, run_definition,
}
use e2e_framework.Webhook.{Callback, first_value}
use e2e_framework.Tests.World.{ports, signup}
use e2e_framework.Tests.Requests.{decoders, config, tests, started, outcome, no_results-IsValid}
use e2e_framework.Tests.Callbacks.{callback}

-- The first pattern that is no literal and whose fixed part begins the path.
first_open : List Text → Text → Option Text
first_open [] path = none
first_open (p ∷ ps) path =
    if is_literal p then first_open ps path else (elim (strip_prefix (fixed_part p) path) [
      | none ↦ first_open ps path
      | some rest ↦ some p
    ])

first_open_lem :
    (ps : List Text) (path p : Text)
    → first_open ps path ≡ some p
    → (contains_text ps p ≡ true)
      × (is_literal p ≡ false)
      × ((rest : Text) × (strip_prefix (fixed_part p) path ≡ some rest))
unfolding first_open contains_text
first_open_lem [] path p h = absurd (ground arith)
first_open_lem (q ∷ ps) path p h = elim (Bool-cases (is_literal q)) [
  | inl l ↦
      let (a, b, c) = first_open_lem ps path p (ground (arith, l)) in (ground (arith, a), b, c)
  | inr l ↦ elim (Option-cases (strip_prefix (fixed_part q) path)) [
    | inl e ↦
        let (a, b, c) = first_open_lem ps path p (ground (arith, l, e)) in (ground (arith, a), b, c)
    | inr (rest, e) ↦
        let same : q ≡ p = ground (arith, l, e) in
        (ground (arith, ==_iff q p, same), rw (← same) l, (rest, rw (← same) e))
  ]
]

fixed_part_prefix : (s : Text) → (rest : Text) × (strip_prefix (fixed_part s) s ≡ some rest)
unfolding fixed_part strip_prefix
fixed_part_prefix [] = ([], refl)
fixed_part_prefix (c ∷ s) = elim (Bool-cases (eqb c b'{')) [
  | inl e ↦ (c ∷ s, rw e refl)
  | inr e ↦ let (rest, q) = fixed_part_prefix s in (rest, rw e (ground (arith, q)))
]

abbrev mux : Mux
mux = record {
  choose =
      λ ps path. if contains_text ps path && is_literal path then some path else first_open ps path;
  answer = λ r. 404;
}

mux-IsServeMux : IsServeMux mux
mux-IsServeMux = record {
  chosen = λ ps path p h. elim (Bool-cases (contains_text ps path && is_literal path)) [
    | inl e ↦ ground (arith, e, h)
    | inr e ↦ (first_open_lem ps path p (ground (arith, e))).0
  ];
  fixed = λ ps path p h. elim (Bool-cases (contains_text ps path && is_literal path)) [
    | inl e ↦ let same : path ≡ p = ground (arith, e) in rw (← same) (fixed_part_prefix path)
    | inr e ↦ (first_open_lem ps path p (ground (arith, e))).2
  ];
  literal = λ ps path p h l. elim (Bool-cases (contains_text ps path && is_literal path)) [
    | inl e ↦ ground (arith, e)
    | inr e ↦ absurd (ground (arith, l, (first_open_lem ps path p (ground (arith, e))).1))
  ];
  exact = λ ps path h l. rw (h, l) refl;
}

abbrev locked : Config
locked = record config { auth_enable = true }

abbrev visit : Callback
visit = record callback { method = lit "GET"; path = lit "/results" }

abbrev swagger : Callback
swagger = record callback {
  path = lit "/swagger/index.html";
  headers = (lit "Authorization", lit "Bearer secret" ∷ []) ∷ [];
}

abbrev no_store : Store ℕ
no_store = (ports (lit "hi")).store

abbrev clock : ℕ → Time × ℕ
clock = (ports (lit "hi")).now

serve-unauthorized_example :
    (answer
        (ports (lit "hi"))
        tests
        decoders
        locked
        (λ r. 200)
        no_store
        clock
        []
        mux
        mux-IsServeMux
        visit
        started
      ≡ (by_api (http_error 401 (lit "unauthorized")), started))
    ⊎ (answer
          (ports (lit "hi"))
          tests
          decoders
          locked
          (λ r. 200)
          no_store
          clock
          []
          mux
          mux-IsServeMux
          visit
          started
        ≡ (by_mux 404, started))
    ⊎ (visit.path ≡ lit "/health")
    ⊎ ((provider : Text) × (strip_prefix (lit "/webhook/") visit.path ≡ some provider))
unfolding trim_prefix first_value lookup ◌==◌
serve-unauthorized_example =
    serve-unauthorized (ports (lit "hi")) tests decoders locked (λ r. 200) no_store clock [] mux
      mux-IsServeMux visit started refl refl

serve-swagger_example :
    answer
      (ports (lit "hi"))
      tests
      decoders
      locked
      (λ r. 200)
      no_store
      clock
      []
      mux
      mux-IsServeMux
      swagger
      started
    ≡ (by_mux 404, started)
unfolding strip_prefix
serve-swagger_example =
    serve-swagger (ports (lit "hi")) tests decoders locked (λ r. 200) no_store clock [] mux
      mux-IsServeMux swagger started (lit "index.html", refl) (λ e. ground arith)

abbrev order : Callback
order = record callback { path = lit "/run"; query = (lit "id", lit "signup" ∷ []) ∷ [] }

-- The server answers a request without authentication.
abbrev served : Callback → Server ℕ → Server ℕ
served r s = (serve (ports (lit "hi")) tests decoders config (λ q. 200) no_store clock [] mux r s).2

-- An asynchronous run is ordered, cron starts another one, and the first one finishes.
Reach-IsValid_example : IsValid (
    store_result outcome
      (record (served order started) {
        world = scheduled_run (ports (lit "hi")) signup (served order started).world;
      }).cache)
unfolding serve scheduled_run logging_middleware serve_mux contains_text register_routes api_routes
    ◌==◌ is_literal lookup guarded auth_middleware handle_run request_of run_found first_value
    run_definition
Reach-IsValid_example =
    Reach-IsValid (ports (lit "hi")) tests decoders config (λ q. 200) no_store clock [] mux
      {s = started} no_results-IsValid
      (next (next (next here (request order started)) (scheduled signup (served order started)))
        (finish _ [] [] outcome refl))
