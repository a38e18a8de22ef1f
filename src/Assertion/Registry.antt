-- ===== src/Assertion/Registry.antt =====
-- internal/pkg/assertion/registry.go: factories by type name, the default registry, and `Run`.
use e2e_framework.Prelude.{Text, lit, ◌++◌, quote, Dict, lookup, insert, none, some, List, [], ◌∷◌}
use e2e_framework.Domain.{
  Vars, AssertionConfig, Message, Error, wrap, configuration, trigger_failed, Result, ok, err,
}
use e2e_framework.Ports.{Assertion}
use e2e_framework.Template.Generators.{Random}
use e2e_framework.Template.{replace_string}
use e2e_framework.Assertion.Kinds.{
  GjsonLib, RegexpLib, assert_equals, assert_contains, assert_not_contains, assert_present,
  assert_length, assert_int, assert_walk, new_matches,
}

abbrev pub Factory : Type 0
Factory = AssertionConfig → Result Assertion

abbrev pub Registry : Type 0
Registry = Dict Factory

-- `Register`
unfoldable pub register : Text → Factory → Registry → Registry
register name factory r = insert name factory r

-- A row of calls of `Register`.
register_each : List (Text × Factory) → Registry → Registry
unfolding register
register_each [] r = r
register_each ((name, factory) ∷ rest) r = register_each rest (register name factory r)

unfoldable pub unknown_type : Text → Error
unknown_type type = wrap configuration (lit "unknown assertion type: " ++ quote type)

-- `Create`
unfoldable pub create : Registry → AssertionConfig → Result Assertion
create r cfg = elim (lookup cfg.type r) [
  | none ↦ err (unknown_type cfg.type)
  | some factory ↦ factory cfg
]

module _ (gjson : GjsonLib) {P : Type 0} (regexp : RegexpLib P) where
  new_int : Text → Factory
  new_int typ cfg = ok (record { assert = assert_int typ cfg.field cfg.value })

  new_walk : Factory
  new_walk cfg = ok (record { assert = assert_walk gjson cfg.field cfg.value })

  -- `NewDefaultRegistry`
  unfoldable pub new_default_registry : Registry
  unfolding register_each register new_int new_walk
  new_default_registry =
      register_each
        ((lit "equals", λ cfg. ok (record { assert = assert_equals cfg.field cfg.value }))
          ∷ (lit "contains", λ cfg. ok (record { assert = assert_contains cfg.field cfg.value }))
          ∷ (
            lit "not_contains",
            λ cfg. ok (record { assert = assert_not_contains cfg.field cfg.value }),
          )
          ∷ (lit "present", λ cfg. ok (record { assert = assert_present cfg.field }))
          ∷ (lit "matches", new_matches regexp)
          ∷ (lit "array_contains", new_walk)
          ∷ (lit "map_contains", new_walk)
          ∷ (lit "length", λ cfg. ok (record { assert = assert_length cfg.field cfg.value }))
          ∷ (lit "int_eq", new_int (lit "int_eq"))
          ∷ (lit "int_gt", new_int (lit "int_gt"))
          ∷ (lit "int_gte", new_int (lit "int_gte"))
          ∷ (lit "int_lt", new_int (lit "int_lt"))
          ∷ (lit "int_lte", new_int (lit "int_lte"))
          ∷ [])
        []

unfoldable pub assertion_failed : Error → Text → Error
assertion_failed e raw_body =
    wrap trigger_failed
      (lit "assertion failed: " ++ (e.text ++ (lit " | response body: " ++ raw_body)))

-- The message that `Run` builds for an assertion: only `Fields` and `Raw` are set.
unfoldable pub synthetic : Vars → Text → Message
synthetic flat_resp raw_body = record {
  run_id = [];
  receiver_type = [];
  received_at = 0;
  headers = [];
  fields = flat_resp;
  raw = raw_body;
}

module _ {W : Type 0} (random : Random W) (r : Registry) where
  -- `Run`
  unfoldable pub run_assertions :
      List AssertionConfig → Vars → Text → Vars → W → Result (Unit {0}) × Vars × W
  run_assertions [] flat_resp raw_body vars w = (ok tt, vars, w)
  run_assertions (cfg ∷ cfgs) flat_resp raw_body vars w =
      let (field', vars1, w1) = replace_string random cfg.field vars w in
      let (value', vars2, w2) = replace_string random cfg.value vars1 w1 in
      elim (create r (record cfg { field = field'; value = value' })) [
        | err e ↦ (err (assertion_failed e raw_body), vars2, w2)
        | ok a ↦ elim (a.assert (synthetic flat_resp raw_body)) [
          | err e ↦ (err (assertion_failed e raw_body), vars2, w2)
          | ok _ ↦ run_assertions cfgs flat_resp raw_body vars2 w2
        ]
      ]
