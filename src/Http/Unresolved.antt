-- ===== src/Http/Unresolved.antt =====
-- Requests with placeholders that could not be replaced.
use e2e_framework.Prelude.{
  ◌≡◌, ◌≢◌, refl, subst, ◌⊎◌, inl, inr, Text, lit, Option, Option-cases, none, some, true, [], ◌∷◌,
  insert, arith,
}
use e2e_framework.Domain.{
  Vars, TriggerConfig, Error, failure_kind, wrap, trigger_failed, Result, ok, err, Result-cases,
}
use e2e_framework.Template.{has_unresolved}
use e2e_framework.Template.Generators.{Random}
use e2e_framework.Assertion.Registry.{Registry}
use e2e_framework.Http.Request.{
  HttpLib, HttpClient, Prepared, prepare, assemble, unresolved_header, unresolved_reason,
  text_or_empty, method_or,
}
use e2e_framework.Http.Trigger.{trigger_request, send_and_judge, execute_http, failed_because}

-- A placeholder is left in the URL, in the value of a header, or in the text of the body as it would
-- be sent; that of a form is its encoding.
abbrev pub AnyUnresolved : Vars → Type 0
AnyUnresolved [] = ⊥
AnyUnresolved ((k, v) ∷ headers) = (has_unresolved v ≡ true) ⊎ AnyUnresolved headers

abbrev pub BodyUnresolved : Result (Option Text) → Type 0
BodyUnresolved (ok body) = has_unresolved (text_or_empty body) ≡ true
BodyUnresolved (err e) = ⊥

abbrev pub HasPlaceholder : Prepared → Type 0
HasPlaceholder p = (has_unresolved p.url ≡ true) ⊎ AnyUnresolved p.headers ⊎ BodyUnresolved p.body

unresolved_header-ne-none :
    (headers : Vars) → AnyUnresolved headers → unresolved_header headers ≢ none
unfolding unresolved_header
unresolved_header-ne-none [] h = elim h [ ]
unresolved_header-ne-none ((k, v) ∷ headers) (inl e) = rw e (λ q. ground arith)
unresolved_header-ne-none ((k, v) ∷ headers) (inr m) =
    ground (arith, unresolved_header-ne-none headers m)

unresolved_reason-ne-none :
    (what url : Text) (headers : Vars) (body : Text)
    → (has_unresolved url ≡ true) ⊎ AnyUnresolved headers ⊎ (has_unresolved body ≡ true)
    → unresolved_reason what url headers body ≢ none
unfolding unresolved_reason
unresolved_reason-ne-none what url headers body (inl e) =
    rw (e, unresolved_reason) (λ q. ground arith)
unresolved_reason-ne-none what url headers body (inr (inl m)) =
    ground (arith, unresolved_header-ne-none headers m)
unresolved_reason-ne-none what url headers body (inr (inr b)) = ground arith

-- A request with a placeholder is not assembled, and the error is that of a failed trigger if the
-- error of a serialization is.
pub assemble-unresolved :
    (lib : HttpLib) (what : Text) (f g : Text → Error) (method : Text) (p : Prepared)
    → ((t : Text) → (f t).kind ≡ some trigger_failed)
    → HasPlaceholder p
    → failure_kind (assemble lib what f g method p) ≡ some trigger_failed
unfolding assemble wrap
assemble-unresolved lib what f g method p k h = elim (Result-cases p.body) [
  | inr (e, q) ↦ rw (q, assemble) (k e.text)
  | inl (body, q) ↦
      elim (Option-cases (unresolved_reason what p.url p.headers (text_or_empty body))) [
        | inr (reason, z) ↦ rw (q, z, assemble) refl
        | inl z ↦ absurd (
            unresolved_reason-ne-none what p.url p.headers (text_or_empty body)
              (place h (subst BodyUnresolved q)) z)
      ]
]
  where
    place : {A B C D : Type 0} → A ⊎ B ⊎ C → (C → D) → A ⊎ B ⊎ D
    place (inl a) f = inl a
    place (inr (inl b)) f = inr (inl b)
    place (inr (inr c)) f = inr (inr (f c))

module _ {W : Type 0} (lib : HttpLib) (r : Random W) (registry : Registry)
    (client : HttpClient W) where
  -- If a placeholder is left in the URL, in a header or in the text of the body of a trigger,
  -- `Execute` fails with the error of a failed trigger and sends nothing: the world is the one that
  -- the replacement of the placeholders leaves. The text of the body is JSON, or the encoded form,
  -- in which the braces of a placeholder are percent-encoded, so that it is not seen there.
  pub execute_http-unresolved :
      (def : TriggerConfig) (run_id : Text) (vars : Vars) (w : W)
      → HasPlaceholder
          (prepare lib r def.url def.headers def.body (insert (lit "run_id") run_id vars) w).0
      → (failure_kind (execute_http lib r registry client def run_id vars w).0
          ≡ some trigger_failed)
        × ((execute_http lib r registry client def run_id vars w).2
            ≡ (prepare lib r def.url def.headers def.body (insert (lit "run_id") run_id vars) w).2)
  unfolding execute_http send_and_judge trigger_request failed_because wrap
  execute_http-unresolved def run_id vars w h =
      let (p, vars', w') =
        prepare lib r def.url def.headers def.body (insert (lit "run_id") run_id vars) w in
      let k : failure_kind (trigger_request lib def p) ≡ some trigger_failed =
        assemble-unresolved lib (lit "trigger")
          (failed_because (lit "failed to serialize trigger body: "))
          (failed_because (lit "failed to create trigger request: "))
          (method_or (lit "GET") def.method) p (λ t. refl) h in
      elim (Result-cases (trigger_request lib def p)) [
        | inl (req, q) ↦ absurd (ground (arith, k))
        | inr (e, q) ↦
            rw (q, send_and_judge) (subst (λ x. failure_kind x ≡ some trigger_failed) q k, refl)
      ]
