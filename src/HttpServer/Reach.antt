-- ===== src/HttpServer/Reach.antt =====
-- The service as a transition system: requests of all routes, asynchronous runs that finish, and runs
-- that cron starts, in any order.
use e2e_framework.Prelude.{
  ℕ, ◌≡◌, inl, inr, lit, ◌==◌, trim_prefix, Dict, lookup, Option-cases, Bool-cases, List, [], ◌∷◌,
  ◌++◌, map, All,
}
use e2e_framework.Domain.{Time, TestDefinition, TestResult}
use e2e_framework.Store.{Store}
use e2e_framework.Ports.{Ports}
use e2e_framework.Scheduler.{scheduled_run}
use e2e_framework.Webhook.{Callback, Extractor}
use e2e_framework.Api.{Request, Response, Server, Decoders, Config, store_result, auth_middleware}
use e2e_framework.Api.Invariant.{IsValid, store_result-IsValid}
use e2e_framework.Api.Validity.{handle_run-IsValid, handle_run_sequence-IsValid}
use e2e_framework.HttpServer.{
  Mux, Handler, request_of, register_route, logging_middleware, serve_mux, guarded, api_routes,
  webhook_handler, register_routes, serve,
}
use e2e_framework.HttpServer.Patterns.{lookup-All}

module _ {W : Type 0} (p : Ports W) (tests : Dict TestDefinition) (d : Decoders) (cfg : Config)
    (swagger : Request → ℕ) (store : Store W) (now : W → Time × W) (extractors : Dict (Extractor W))
    (mux : Mux) where
  pub data Step : Server W → Server W → Type 0 where
    request :
        (r : Callback) (s : Server W)
        → Step s (serve p tests d cfg swagger store now extractors mux r s).2
    finish :
        (s : Server W) (before after : List TestResult) (res : TestResult)
        → s.pending ≡ before ++ (res ∷ after)
        → Step s (record s { cache = store_result res s.cache; pending = before ++ after })
    scheduled :
        (def : TestDefinition) (s : Server W)
        → Step s (record s { world = scheduled_run p def s.world })

  pub data Reach (s : Server W) : Server W → Type 0 where
    here : Reach s s
    next : {t u : Server W} → Reach s t → Step t u → Reach s u

  -- A handler keeps a valid cache valid.
  KeepsValid : Handler W → Type 0
  KeepsValid h = (r : Callback) (s : Server W) → IsValid s.cache → IsValid (h r s).1.cache

  guarded-KeepsValid :
      (handle : Request → Server W → Response × Server W)
      → ((r : Request) (s : Server W) → IsValid s.cache → IsValid (handle r s).1.cache)
      → KeepsValid (guarded p tests d cfg swagger handle)
  unfolding KeepsValid guarded auth_middleware
  guarded-KeepsValid handle k r s v = elim (Bool-cases cfg.auth_enable) [
    | inr e ↦ rw (e, auth_middleware) (k (request_of r) s v)
    | inl e ↦ elim (Bool-cases (trim_prefix (request_of r).authorization (lit "Bearer ") == [])) [
      | inl q ↦ rw (e, q, auth_middleware) v
      | inr q ↦ rw (e, q, auth_middleware) (k (request_of r) s v)
    ]
  ]

  routes-KeepsValid :
      All
        (λ e. KeepsValid e.1)
        (register_routes p tests d cfg swagger store now extractors
          (api_routes p tests d cfg swagger))
  unfolding register_routes api_routes register_route KeepsValid webhook_handler
  routes-KeepsValid = (
    (λ r s v. v),
    (
      guarded-KeepsValid _ (handle_run-IsValid p tests),
      (
        guarded-KeepsValid _ (λ r. handle_run_sequence-IsValid p tests d r cfg),
        (
          guarded-KeepsValid _ (λ r s v. v),
          (
            guarded-KeepsValid _ (λ r s v. v),
            (guarded-KeepsValid _ (λ r s v. v), ((λ r s v. v), tt)),
          ),
        ),
      ),
    ),
  )

  serve-IsValid :
      (r : Callback) (s : Server W)
      → IsValid s.cache
      → IsValid (serve p tests d cfg swagger store now extractors mux r s).2.cache
  unfolding serve logging_middleware serve_mux KeepsValid
  serve-IsValid r s v =
      let routes =
        register_routes p tests d cfg swagger store now extractors
          (api_routes p tests d cfg swagger) in
      elim (Option-cases (mux.choose (map (λ e. e.0) routes) r.path)) [
        | inl e ↦ rw (e, serve_mux) v
        | inr (pattern, e) ↦ elim (Option-cases (lookup pattern routes)) [
          | inl q ↦ rw (e, q, serve_mux) v
          | inr (h, q) ↦
              rw (e, q, serve_mux)
                (lookup-All (λ k f. KeepsValid f) routes pattern h routes-KeepsValid q r s v)
        ]
      ]

  Step-IsValid : {s t : Server W} → Step s t → IsValid s.cache → IsValid t.cache
  Step-IsValid (request r s) v = serve-IsValid r s v
  Step-IsValid (finish s before after res e) v = store_result-IsValid res s.cache v
  Step-IsValid (scheduled def s) v = v

  -- From a server with a valid cache, every interleaving of requests of any routes, runs that finish
  -- and runs that cron starts keeps it valid: at most a hundred runs, none twice, and an entry for
  -- each of them. This holds for any mux.
  pub Reach-IsValid : {s t : Server W} → IsValid s.cache → Reach s t → IsValid t.cache
  Reach-IsValid v here = v
  Reach-IsValid v (next r st) = Step-IsValid st (Reach-IsValid v r)
