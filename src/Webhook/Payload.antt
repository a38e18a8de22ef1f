-- ===== src/Webhook/Payload.antt =====
-- internal/pkg/httputil/payload.go: the fields of a request's body.
use e2e_framework.Prelude.{
  ℕ, ◌+◌, Text, lit, ◌++◌, ◌==◌, to_lower, contains, join, decimal, Dict, insert, copy_into, lookup,
  Option, none, some, List, [], ◌∷◌, if◌then◌else◌,
}
use e2e_framework.Domain.{
  Value, array, object, Items, nil, item, Fields, end, field, sprint, Error, wrap, internal,
  validation, Result, ok, err,
}

unfoldable pub size : Items → ℕ
size nil = 0
size (item x xs) = size xs + 1

-- The key of an entry under a prefix.
unfoldable pub prefixed : Text → Text → Text
prefixed prefix k = if prefix == [] then to_lower k else prefix ++ (lit "." ++ to_lower k)

-- `flattenMap`, with the map that it fills as an accumulator.
unfoldable mutual
  unfolding sprint size prefixed

  pub flatten_map : Text → Fields → Dict Text → Dict Text
  flatten_map prefix end result = result
  flatten_map prefix (field k v fs) result =
      flatten_map prefix fs (flatten_value (prefixed prefix k) v result)

  pub flatten_value : Text → Value → Dict Text → Dict Text
  flatten_value key (object fs) result = copy_into result (flatten_map key fs [])
  flatten_value key (array xs) result =
      flatten_items key 0 xs (insert (key ++ lit ".__len__") (decimal (size xs)) result)
  flatten_value key v result = insert key (sprint v) result

  pub flatten_items : Text → ℕ → Items → Dict Text → Dict Text
  flatten_items key i nil result = result
  flatten_items key i (item x xs) result =
      flatten_items key (i + 1) xs (flatten_item (key ++ (lit "." ++ decimal i)) x result)

  pub flatten_item : Text → Value → Dict Text → Dict Text
  flatten_item key (object fs) result = copy_into result (flatten_map key fs [])
  flatten_item key v result = insert key (sprint v) result

-- `FlattenJSON`
unfoldable pub flatten_json : Fields → Dict Text
flatten_json fs = flatten_map [] fs []

-- A request, with its headers under their canonical names. `body` is what `io.ReadAll` gives, and
-- `form` what `ParseForm` leaves in `req.Form`. net/http gives every request that a server gets a
-- body.
pub record Callback : Type 0 where
  pub method : Text
  pub path : Text
  pub query : Dict (List Text)
  pub headers : Dict (List Text)
  pub body : Result Text
  pub form : Result (Dict (List Text))

-- `encoding/json`: into a `map[string]any`, and from a `map[string]string`.
pub record Codec : Type 0 where
  pub unmarshal : Text → Result Fields
  pub marshal : Dict Text → Text

-- The first value of a key, as `Get` of `http.Header` and `url.Values`.
unfoldable pub first_value : Option (List Text) → Text
first_value (some (v ∷ vs)) = v
first_value _ = []

abbrev pub header : Text → Callback → Text
header name req = first_value (lookup name req.headers)

-- What `ExtractFields` returns: the fields, the raw body, which may be nil, and the error.
pub record Extraction : Type 0 where
  pub fields : Dict Text
  pub raw : Option Text
  pub failure : Option Error

unfoldable pub joined : Dict (List Text) → Dict Text → Dict Text
joined [] fields = fields
joined ((k, vs) ∷ m) fields = joined m (insert (to_lower k) (join vs (lit ",")) fields)

module _ (codec : Codec) where
  -- `extractJSON`
  unfoldable pub extract_json : Callback → Extraction
  extract_json req = elim req.body [
    | err e ↦ record {
      fields = [];
      raw = none;
      failure = some (wrap internal (lit "failed to read request body: " ++ e.text));
    }
    | ok raw ↦ elim (codec.unmarshal raw) [
      | err e ↦ record {
        fields = [];
        raw = some raw;
        failure = some (wrap validation (lit "failed to parse JSON payload: " ++ e.text));
      }
      | ok payload ↦ record { fields = flatten_json payload; raw = some raw; failure = none }
    ]
  ]

  -- `extractForm`
  unfoldable pub extract_form : Callback → Extraction
  extract_form req = elim req.form [
    | err e ↦ record {
      fields = [];
      raw = none;
      failure = some (wrap validation (lit "failed to parse form payload: " ++ e.text));
    }
    | ok form ↦
        let fields = joined form [] in
        record { fields = fields; raw = some (codec.marshal fields); failure = none }
  ]

  -- `ExtractFields`
  unfoldable pub extract_fields : Callback → Extraction
  extract_fields req =
      if contains (to_lower (header (lit "Content-Type") req)) (lit "application/json")
      then extract_json req
      else extract_form req
