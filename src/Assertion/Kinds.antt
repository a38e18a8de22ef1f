-- ===== src/Assertion/Kinds.antt =====
-- internal/pkg/assertion/assertion_*.go. gjson, and the regular expressions that a definition
-- brings, are parameters.
use e2e_framework.Prelude.{
  Text, lit, ◌==◌, ◌++◌, to_lower, contains, lookup, quote, ℤ, format_int, Option, none, some, Bool,
  true, false, [], not,
}
use e2e_framework.Domain.{
  AssertionConfig, Message, Error, wrap, validation, configuration, Result, ok, err,
}
use e2e_framework.Ports.{Assertion}
use e2e_framework.Assertion.Util.{Gjson, parse_int, compare_ints, walk_find}

-- github.com/tidwall/gjson: `gjson.Get(raw, path)`.
pub record GjsonLib : Type 0 where
  pub get : Text → Text → Gjson

-- `regexp.Compile` and `MatchString`.
pub record RegexpLib (P : Type 0) : Type 0 where
  pub compile : Text → Result P
  pub match_string : P → Text → Bool

abbrev value_or_empty : Option Text → Text
value_or_empty none = []
value_or_empty (some v) = v

-- `msg.Fields[strings.ToLower(field)]`
unfoldable pub actual_of : Text → Message → Text
actual_of field msg = value_or_empty (lookup (to_lower field) msg.fields)

unfoldable pub field_error : Text → Text → Error
field_error field detail = wrap validation (lit "field " ++ (quote field ++ (lit ": " ++ detail)))

-- `nil` if the test passed, else the error.
abbrev pub require : Bool → Error → Result (Unit {0})
require true e = ok tt
require false e = err e

-- `equalsAssertion.Assert`
unfoldable pub assert_equals : Text → Text → Message → Result (Unit {0})
assert_equals field value msg = require (actual_of field msg == value) (
    field_error field
      (lit "expected " ++ (quote value ++ (lit ", got " ++ quote (actual_of field msg)))))

-- `containsAssertion.Assert`
unfoldable pub assert_contains : Text → Text → Message → Result (Unit {0})
assert_contains field value msg = require (contains (actual_of field msg) value) (
    field_error field (
      lit "expected to contain " ++ (quote value ++ (lit ", got " ++ quote (actual_of field msg)))))

-- `notContainsAssertion.Assert`
unfoldable pub assert_not_contains : Text → Text → Message → Result (Unit {0})
assert_not_contains field value msg = require (not (contains (actual_of field msg) value)) (
    field_error field (
      lit "expected not to contain "
      ++ (quote value ++ (lit ", got " ++ quote (actual_of field msg)))))

-- `presentAssertion.Assert`
unfoldable pub assert_present : Text → Message → Result (Unit {0})
assert_present field msg = elim (lookup (to_lower field) msg.fields) [
  | none ↦ err (field_error field (lit "expected to be present, but was empty or missing"))
  | some actual ↦
      require (not (actual == []))
        (field_error field (lit "expected to be present, but was empty or missing"))
]

-- `lengthAssertion.Assert`
unfoldable pub assert_length : Text → Text → Message → Result (Unit {0})
assert_length field value msg = elim (lookup (to_lower field ++ lit ".__len__") msg.fields) [
  | none ↦ err (field_error field (lit "field is not an array or does not exist"))
  | some actual ↦
      require (actual == value)
        (field_error field (lit "expected length " ++ (value ++ (lit ", got " ++ actual))))
]

unfoldable pub compare_error : Text → Text → ℤ → Text → ℤ → Error
compare_error field typ a symbol b = field_error field (
    typ
    ++ (lit " failed: got "
        ++ (format_int a ++ (lit ", want " ++ (symbol ++ (lit " " ++ format_int b))))))

unfoldable pub not_integer : Text → Text → Text → Text → Error
not_integer field typ what got =
    field_error field
      (typ ++ (lit " requires an integer " ++ (what ++ (lit " value, got " ++ quote got))))

-- `intAssertion.Assert`
unfoldable pub assert_int : Text → Text → Text → Message → Result (Unit {0})
assert_int typ field value msg = elim (parse_int (actual_of field msg)) [
  | none ↦ err (not_integer field typ (lit "field") (actual_of field msg))
  | some a ↦ elim (parse_int value) [
    | none ↦ err (not_integer field typ (lit "expected") value)
    | some b ↦
        let (passes, symbol) = compare_ints typ a b in
        require passes (compare_error field typ a symbol b)
  ]
]

module _ (gjson : GjsonLib) where
  -- `arrayContainsAssertion.Assert` and `mapContainsAssertion.Assert`
  unfoldable pub assert_walk : Text → Text → Message → Result (Unit {0})
  assert_walk field value msg =
      require (walk_find (gjson.get msg.raw field) value)
        (field_error field (lit "no element with value " ++ (quote value ++ lit " found")))

module _ {P : Type 0} (regexp : RegexpLib P) where
  -- `matchesAssertion.Assert`
  unfoldable pub assert_matches : Text → P → Text → Message → Result (Unit {0})
  assert_matches field pattern_ raw msg =
      require (regexp.match_string pattern_ (actual_of field msg)) (
        field_error field (
          lit "expected to match pattern "
          ++ (quote raw ++ (lit ", got " ++ quote (actual_of field msg)))))

  -- `NewMatchesAssertion`
  unfoldable pub new_matches : AssertionConfig → Result Assertion
  new_matches cfg = elim (regexp.compile cfg.value) [
    | err e ↦ err (
        wrap configuration
          (lit "invalid regex pattern " ++ (quote cfg.value ++ (lit ": " ++ e.text))))
    | ok pattern_ ↦ ok (record { assert = assert_matches cfg.field pattern_ cfg.value })
  ]
