-- ===== src/Http/Request.antt =====
-- How a request is put together from a URL, headers and a body with placeholders:
-- internal/adapters/secondary/trigger/http.go, and the same code in receiver/api/receiver.go. What
-- it uses of net/http, net/url and encoding/json is a parameter.
use e2e_framework.Prelude.{
  ℕ, Text, lit, ◌++◌, ◌==◌, ◌||◌, ◌&&◌, to_lower, contains, insert, quote, leb, ℤ, pos, eqb_ℤ,
  decimal, format_int, Dict, Option, none, some, Bool, true, false, List, [], ◌∷◌, if◌then◌else◌,
}
use e2e_framework.Domain.{
  Duration, Vars, Fields, put_printed, Error, wrap, trigger_failed, Result, ok, err,
}
use e2e_framework.Template.{replace_string, replace_headers, replace_map, has_unresolved}
use e2e_framework.Template.Generators.{Random}

pub record HttpRequest : Type 0 where
  pub method : Text
  pub url : Text
  pub headers : Vars
  pub body : Option Text

-- `body` is what could be read of it, and `read_error` why no more.
pub record HttpResponse : Type 0 where
  pub status : ℕ
  pub headers : Dict (List Text)
  pub body : Text
  pub read_error : Option Error

-- The errors of `http.NewRequest`, the canonical names of headers, `url.Values.Encode`, and
-- `encoding/json` on a `map[string]any`.
pub record HttpLib : Type 0 where
  pub check_request : Text → Text → Result (Unit {0})
  pub canonical : Text → Text
  pub encode_form : Vars → Text
  pub marshal : Fields → Result Text
  pub unmarshal : Text → Result Fields

-- internal/core/ports/http_client.go, with the timeout of the request's context, if it has one.
pub record HttpClient (W : Type 0) : Type 0 where
  pub send : HttpRequest → Option Duration → W → Result HttpResponse × W

-- A header "Content-Type", in any spelling, that names a form.
unfoldable pub is_form : Vars → Bool
is_form [] = false
is_form ((k, v) ∷ headers) =
    (to_lower k == lit "content-type"
      && contains (to_lower v) (lit "application/x-www-form-urlencoded"))
    || is_form headers

-- The first header whose value has a placeholder.
unfoldable pub unresolved_header : Vars → Option Text
unresolved_header [] = none
unresolved_header ((k, v) ∷ headers) =
    if has_unresolved v then some k else unresolved_header headers

unfoldable pub placeholder_left : Text → Text → Text → Text
placeholder_left what part value =
    what
    ++ (lit " "
        ++ (part
            ++ (lit " " ++ (quote value ++ lit " contains an unresolved template placeholder"))))

-- `unresolvedTriggerReason` and `unresolvedReason`; `none` is the empty string.
unfoldable pub unresolved_reason : Text → Text → Vars → Text → Option Text
unresolved_reason what url headers body =
    if has_unresolved url
    then some (placeholder_left what (lit "url") url)
    else (elim (unresolved_header headers) [
      | some k ↦ some (placeholder_left what (lit "header") k)
      | none ↦ if has_unresolved body then some (placeholder_left what (lit "body") body) else none
    ])

-- `req.Header.Set(k, v)` for each header.
unfoldable pub set_headers : (Text → Text) → Vars → Vars → Vars
set_headers canonical [] set = set
set_headers canonical ((k, v) ∷ headers) set =
    set_headers canonical headers (insert (canonical k) v set)

unfoldable pub text_or_empty : Option Text → Text
text_or_empty none = []
text_or_empty (some t) = t

unfoldable pub method_or : Text → Text → Text
method_or default method = if method == [] then default else method

-- The status rule: what is wrong with the status of a response, if anything.
unfoldable pub status_problem : ℤ → HttpResponse → Option Text
status_problem expected resp =
    if eqb_ℤ expected (pos 0)
    then (if leb 400 resp.status
        then some (lit "returned status " ++ (decimal resp.status ++ (lit ": " ++ resp.body)))
        else none)
    else if eqb_ℤ (pos resp.status) expected
    then none
    else some (
        lit "expected status "
        ++ (format_int expected
            ++ (lit ", got " ++ (decimal resp.status ++ (lit ": " ++ resp.body)))))

-- The parts of a request after the placeholders have been replaced. A body that cannot be
-- serialized is an error.
pub record Prepared : Type 0 where
  pub url : Text
  pub headers : Vars
  pub body : Result (Option Text)

module _ (lib : HttpLib) where
  -- `if isForm { … } else { … }`; `form.Set` puts the printed values of the body.
  unfoldable pub encode_body : Vars → Fields → Result (Option Text)
  encode_body headers body = elim (is_form headers) [
    | true ↦ ok (some (lib.encode_form (put_printed body [])))
    | false ↦ elim (lib.marshal body) [ err e ↦ err e | ok t ↦ ok (some t) ]
  ]

  module _ {W : Type 0} (r : Random W) where
    unfoldable pub prepare_body : Vars → Option Fields → Vars → W → Result (Option Text) × Vars × W
    prepare_body headers none vars w = (ok none, vars, w)
    prepare_body headers (some body) vars w =
        let (body', vars', w') = replace_map r body vars w in (encode_body headers body', vars', w')

    unfoldable pub prepare : Text → Vars → Option Fields → Vars → W → Prepared × Vars × W
    prepare url headers body vars w =
        let (url', vars1, w1) = replace_string r url vars w in
        let (headers', vars2, w2) = replace_headers r headers vars1 w1 in
        let (body', vars3, w3) = prepare_body headers' body vars2 w2 in
        (record { url = url'; headers = headers'; body = body' }, vars3, w3)

  -- The request, or why there is none. `what` names the sender in the texts of placeholders, and
  -- the two functions make the errors of the serialization and of `http.NewRequest`.
  unfoldable pub assemble :
      Text → (Text → Error) → (Text → Error) → Text → Prepared → Result HttpRequest
  assemble what not_serialized not_created method p = elim p.body [
    | err e ↦ err (not_serialized e.text)
    | ok body ↦ elim (unresolved_reason what p.url p.headers (text_or_empty body)) [
      | some reason ↦ err (wrap trigger_failed reason)
      | none ↦ elim (lib.check_request method p.url) [
        | err e ↦ err (not_created e.text)
        | ok _ ↦ ok (record {
          method = method;
          url = p.url;
          headers = set_headers lib.canonical p.headers [];
          body = body;
        })
      ]
    ]
  ]
