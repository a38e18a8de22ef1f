-- ===== src/HttpServer/Laws.antt =====
-- Which requests reach which handler of the service, and which need a token.
use e2e_framework.Prelude.{
  ◌≡◌, ◌≢◌, refl, sym, ap, ◌∙◌, ◌⊎◌, inl, inr, ℕ, eqb, Text, lit, ◌==◌, strip_prefix, trim_prefix,
  Dict, lookup, Option-cases, none, some, true, false, [], ◌∷◌, map, All, arith,
}
use e2e_framework.Domain.{Time, TestDefinition}
use e2e_framework.Store.{Store}
use e2e_framework.Ports.{Ports}
use e2e_framework.Webhook.{Callback, header}
use e2e_framework.Webhook.{Extractor}
use e2e_framework.Api.{Request, Response, Server, Decoders, Config, http_error, auth_middleware}
use e2e_framework.HttpServer.{
  Mux, Reply, by_api, by_mux, Handler, request_of, register_route, logging_middleware, serve_mux,
  guarded, api_routes, register_routes, serve,
}
use e2e_framework.HttpServer.Patterns.{
  fixed_part, is_literal, IsServeMux, lookup-All, contains_text-All,
}

-- Begins with "/swagger/".
abbrev pub IsSwaggerPath : Text → Type 0
IsSwaggerPath path = (rest : Text) × (strip_prefix (lit "/swagger/") path ≡ some rest)

-- No path begins both with "/swagger/" and with another second letter.
clash :
    (path : Text) {a b : Text} (c : ℕ) (p : Text)
    → eqb c b's' ≡ false
    → strip_prefix (lit "/swagger/") path ≡ some a
    → strip_prefix (b'/' ∷ c ∷ p) path ≡ some b
    → ⊥
unfolding strip_prefix
clash [] c p n h k = cc
clash (x ∷ []) c p n h k = ground arith
clash (x ∷ y ∷ path) c p n h k = ground arith

module _ {W : Type 0} (p : Ports W) (tests : Dict TestDefinition) (d : Decoders) (cfg : Config)
    (swagger : Request → ℕ) (store : Store W) (now : W → Time × W) (extractors : Dict (Extractor W))
    (mux : Mux) (laws : IsServeMux mux) where
  -- The routes of the service, those of the webhooks last.
  abbrev pub routes : Dict (Handler W)
  routes =
      register_routes p tests d cfg swagger store now extractors (api_routes p tests d cfg swagger)

  abbrev pub unauthorized : Reply
  unauthorized = by_api (http_error 401 (lit "unauthorized"))

  -- Without a token the handler refuses, or its route is one of two.
  NeedsToken : Text → Handler W → Type 0
  NeedsToken pattern h =
      ((r : Callback) (s : Server W)
        → trim_prefix (header (lit "Authorization") r) (lit "Bearer ") ≡ []
        → h r s ≡ (unauthorized, s))
      ⊎ (pattern ≡ lit "/health")
      ⊎ (pattern ≡ lit "/webhook/")

  module _ (on : cfg.auth_enable ≡ true) where
    guarded-NeedsToken :
        (pattern : Text) (next : Request → Server W → Response × Server W)
        → NeedsToken pattern (guarded p tests d cfg swagger next)
    unfolding NeedsToken guarded auth_middleware request_of ◌==◌
    guarded-NeedsToken pattern next = inl λ r s e. rw (on, e) refl

    routes-NeedsToken : All (λ e. NeedsToken e.0 e.1) routes
    unfolding register_routes api_routes register_route NeedsToken
    routes-NeedsToken = (
      inr (inl refl),
      (
        guarded-NeedsToken _ _,
        (
          guarded-NeedsToken _ _,
          (
            guarded-NeedsToken _ _,
            (guarded-NeedsToken _ _, (guarded-NeedsToken _ _, (inr (inr refl), tt))),
          ),
        ),
      ),
    )

  -- What the server does with a request, less the line that it logs.
  abbrev pub answer : Callback → Server W → Reply × Server W
  answer r s =
      let (reply, line, s') = serve p tests d cfg swagger store now extractors mux r s in
      (reply, s')

  -- What the mux may do with a request: it answers, or a handler does whose pattern it has chosen.
  serve-cases :
      (r : Callback) (s : Server W)
      → (answer r s ≡ (by_mux (mux.answer r), s))
        ⊎ ((pattern : Text) × (h : Handler W) × (mux.choose (map (λ e. e.0) routes) r.path
              ≡ some pattern)
            × (lookup pattern routes ≡ some h)
            × (answer r s ≡ h r s))
  unfolding serve logging_middleware serve_mux
  serve-cases r s = elim (Option-cases (mux.choose (map (λ e. e.0) routes) r.path)) [
    | inl e ↦ inl (rw (e, serve_mux) refl)
    | inr (pattern, e) ↦ elim (Option-cases (lookup pattern routes)) [
      | inl q ↦ inl (rw (e, q, serve_mux) refl)
      | inr (h, q) ↦ inr (pattern, h, e, q, rw (e, q, serve_mux) refl)
    ]
  ]

  -- With authentication on, a request without a token is answered 401, or by the mux itself, and
  -- changes nothing, unless its path is "/health" or begins with "/webhook/".
  pub serve-unauthorized :
      (r : Callback) (s : Server W)
      → cfg.auth_enable ≡ true
      → trim_prefix (header (lit "Authorization") r) (lit "Bearer ") ≡ []
      → (answer r s ≡ (unauthorized, s))
        ⊎ (answer r s ≡ (by_mux (mux.answer r), s))
        ⊎ (r.path ≡ lit "/health")
        ⊎ ((provider : Text) × (strip_prefix (lit "/webhook/") r.path ≡ some provider))
  unfolding NeedsToken is_literal fixed_part
  serve-unauthorized r s on e = elim (serve-cases r s) [
    | inl a ↦ inr (inl a)
    | inr (pattern, h, c, l, a) ↦
        elim (lookup-All NeedsToken routes pattern h (routes-NeedsToken on) l) [
          | inl refuses ↦ inl (a ∙ refuses r s e)
          | inr (inl q) ↦
              inr (inr (inl (sym (laws.literal _ r.path (lit "/health") (c ∙ ap some q) refl))))
          | inr (inr q) ↦ inr (inr (inr (laws.fixed _ r.path (lit "/webhook/") (c ∙ ap some q))))
        ]
  ]

  module _ (path : Text) (sub : IsSwaggerPath path) where
    -- The pattern is not chosen for the path.
    Misses : Text → Type 0
    Misses pattern = mux.choose (map (λ e. e.0) routes) path ≢ some pattern

    literal-Misses :
        (pattern : Text)
        → is_literal pattern ≡ true
        → strip_prefix (lit "/swagger/") pattern ≡ none
        → Misses pattern
    unfolding Misses
    literal-Misses pattern l m c = absurd (
        ground
          (arith, m, sub.1, ap (strip_prefix (lit "/swagger/")) (laws.literal _ path pattern c l)))

    routes-Misses : path ≢ lit "/swagger/*" → All Misses (map (λ e. e.0) routes)
    unfolding Misses register_routes api_routes register_route strip_prefix fixed_part is_literal
    routes-Misses n = (
      literal-Misses _ refl refl,
      (
        literal-Misses _ refl refl,
        (
          literal-Misses _ refl refl,
          (
            literal-Misses _ refl refl,
            (
              (λ c. clash path b'r' (lit "esults/") refl sub.1 (laws.fixed _ path _ c).1),
              (
                (λ c. n (sym (laws.literal _ path _ c refl))),
                ((λ c. clash path b'w' (lit "ebhook/") refl sub.1 (laws.fixed _ path _ c).1), tt),
              ),
            ),
          ),
        ),
      ),
    )

  -- The route that is registered as "/swagger/*" is for that path alone: a request for any other
  -- path that begins with "/swagger/", as "/swagger/index.html", is answered by the mux itself,
  -- with a token or without.
  pub serve-swagger :
      (r : Callback) (s : Server W)
      → IsSwaggerPath r.path
      → r.path ≢ lit "/swagger/*"
      → answer r s ≡ (by_mux (mux.answer r), s)
  unfolding Misses
  serve-swagger r s sub n = elim (serve-cases r s) [
    | inl a ↦ a
    | inr (pattern, h, c, l, a) ↦ absurd (
        contains_text-All (Misses r.path sub) (map (λ e. e.0) routes) pattern
          (routes-Misses r.path sub n) (laws.chosen _ r.path pattern c) c)
  ]
