-- ===== src/HttpServer.antt =====
-- The HTTP server of the service: `NewServer`, its routes and its middleware in
-- internal/adapters/primary/api/server.go, `RegisterRoutes` in internal/adapters/primary/webhook/server.go,
-- and how cmd/server/main.go puts both on one `http.ServeMux`, which is a parameter.
pub mod Patterns
pub mod Laws
pub mod Reach
use e2e_framework.Prelude.{
  ℕ, ℤ, format_int, Text, lit, ◌==◌, ◌++◌, Dict, lookup, Option, none, some, List, [], ◌∷◌, map,
  if◌then◌else◌,
}
use e2e_framework.Domain.{Time, TestDefinition}
use e2e_framework.Store.{Store}
use e2e_framework.Ports.{Ports}
use e2e_framework.Logger.{Level, debug, info}
use e2e_framework.Webhook.{Callback, first_value, header}
use e2e_framework.Webhook.{Answer, Extractor, handle_webhook}
use e2e_framework.Api.{
  Request, Response, Server, Decoders, Config, handle_health, handle_results, handle_result_by_id,
  handle_run, handle_run_sequence, auth_middleware, swagger_page,
}

-- `mux.ServeHTTP`: the pattern, of those that are registered, that is chosen for a path, and the
-- status with which the mux answers a request without one.
pub record Mux : Type 0 where
  pub choose : List Text → Text → Option Text
  pub answer : Callback → ℕ

-- Who answers: a handler of the API, that of the webhooks, or the mux.
pub data Reply : Type 0 where
  by_api : Response → Reply
  by_webhook : Answer → Reply
  by_mux : ℕ → Reply

-- What `statusRecorder` keeps: each handler writes one status.
unfoldable pub recorded_status : Reply → ℕ
recorded_status (by_api r) = r.status
recorded_status (by_webhook a) = a.status
recorded_status (by_mux n) = n

abbrev pub Handler : Type 0 → Type 0
Handler W = Callback → Server W → Reply × Server W

-- What the handlers of the API read of a request.
unfoldable pub request_of : Callback → Request
request_of r = record {
  method = r.method;
  path = r.path;
  query = first_values r.query;
  authorization = header (lit "Authorization") r;
  body = r.body;
}
  where
    first_values : Dict (List Text) → Dict Text
    first_values [] = []
    first_values ((k, vs) ∷ rest) = (k, first_value (some vs)) ∷ first_values rest

abbrev pub api_handler : {W : Type 0} → (Request → Server W → Response × Server W) → Handler W
api_handler next r s = let (answer, s') = next (request_of r) s in (by_api answer, s')

-- `registerRoute`: the method is only logged.
unfoldable pub register_route {ℓ} : {H : Type ℓ} → Text → Text → H → Dict H → Dict H
register_route method pattern handler mux = mux ++ ((pattern, handler) ∷ [])

-- The line of `loggingMiddleware`, less the duration.
pub record RequestLine : Type 0 where
  pub level : Level
  pub method : Text
  pub path : Text
  pub status : ℕ

-- `loggingMiddleware` around the mux, with the line that it logs.
unfoldable pub logging_middleware :
    {W : Type 0} → Handler W → Callback → Server W → Reply × RequestLine × Server W
logging_middleware next r s =
    let (reply, s') = next r s in
    (
      reply,
      record {
        level = if r.path == lit "/health" then debug else info;
        method = r.method;
        path = r.path;
        status = recorded_status reply;
      },
      s',
    )

-- `fmt.Sprintf(":%d", cfg.Port)`
unfoldable pub listen_address : ℤ → Text
listen_address port = lit ":" ++ format_int port

-- `mux.ServeHTTP`
unfoldable pub serve_mux : {W : Type 0} → Mux → Dict (Handler W) → Handler W
serve_mux mux routes r s = elim (mux.choose (map (λ e. e.0) routes) r.path) [
  | none ↦ (by_mux (mux.answer r), s)
  | some pattern ↦ elim (lookup pattern routes) [
    | none ↦ (by_mux (mux.answer r), s)
    | some handler ↦ handler r s
  ]
]

-- `swagger` is the status of `httpSwagger.WrapHandler`.
module _ {W : Type 0} (p : Ports W) (tests : Dict TestDefinition) (d : Decoders) (cfg : Config)
    (swagger : Request → ℕ) where
  unfoldable pub guarded : (Request → Server W → Response × Server W) → Handler W
  guarded next = api_handler (auth_middleware p tests cfg next)

  -- The routes of `NewServer`, in order.
  unfoldable pub api_routes : Dict (Handler W)
  unfolding register_route
  api_routes =
      register_route (lit "GET") (lit "/swagger/*")
        (guarded λ r s. (record { status = swagger r; payload = swagger_page }, s))
        (register_route (lit "GET") (lit "/results/{run_id}")
          (guarded λ r s. (handle_result_by_id s.cache r, s))
          (register_route (lit "GET") (lit "/results") (guarded λ r s. (handle_results s.cache, s))
            (register_route (lit "POST") (lit "/run-sequence")
              (guarded λ r s. handle_run_sequence p tests d r cfg s)
              (register_route (lit "POST") (lit "/run") (guarded (handle_run p tests)) (
                register_route (lit "GET") (lit "/health") (api_handler λ r s. (handle_health, s))
                  [])))))

  module _ (store : Store W) (now : W → Time × W) (extractors : Dict (Extractor W)) where
    unfoldable pub webhook_handler : Handler W
    webhook_handler r s =
        let (answer, w) = handle_webhook store now extractors r s.world in
        (by_webhook answer, record s { world = w })

    -- `RegisterRoutes`, on the mux of the API.
    unfoldable pub register_routes : Dict (Handler W) → Dict (Handler W)
    register_routes mux = mux ++ ((lit "/webhook/", webhook_handler) ∷ [])

    -- What the server of the service does with a request.
    unfoldable pub serve : Mux → Callback → Server W → Reply × RequestLine × Server W
    serve mux = logging_middleware (serve_mux mux (register_routes api_routes))
