-- ===== src/Groups.antt =====
-- internal/core/services/group_resolver.go, and the validation of internal/pkg/config/config.go.
pub mod Laws
use e2e_framework.Prelude.{
  Text, lit, ◌==◌, ◌++◌, quote, Dict, lookup, contains_text, Option, none, some, Bool, true, false,
  List, [], ◌∷◌, if◌then◌else◌,
}
use e2e_framework.Domain.{Duration, TestDefinition, Error, wrap, configuration, Result, ok, err}

-- `config.TestGroupConfig`
pub record TestGroupConfig : Type 0 where
  pub description : Text
  pub tests : List Text
  pub test_delay : Duration
  pub skip_fail_test : Bool

-- `ports.TestGroup`
pub record TestGroup : Type 0 where
  pub tests : List Text
  pub test_delay : Duration
  pub skip_fail_test : Bool

-- `Resolve`
unfoldable pub resolve_group : Dict TestGroupConfig → Text → Option TestGroup
resolve_group groups name = elim (lookup name groups) [
  | none ↦ none
  | some g ↦
      some
        (record { tests = g.tests; test_delay = g.test_delay; skip_fail_test = g.skip_fail_test })
]

pub record LoggingConfig : Type 0 where
  pub level : Text
  pub format : Text

-- `validateLogging`
unfoldable pub validate_logging : LoggingConfig → Result (Unit {0})
validate_logging l =
    if contains_text (lit "debug" ∷ lit "info" ∷ lit "warn" ∷ lit "error" ∷ []) l.level
    then (if contains_text (lit "json" ∷ lit "text" ∷ []) l.format
        then ok tt
        else err (
            wrap configuration (
              lit "unknown logging.format " ++ (quote l.format ++ lit " (supported: json, text)"))))
    else err (
        wrap configuration (
          lit "unknown logging.level "
          ++ (quote l.level ++ lit " (supported: debug, info, warn, error)")))

unfoldable pub unknown_test : Text → Text → Error
unknown_test name id =
    wrap configuration
      (lit "test group " ++ (quote name ++ (lit " references unknown test " ++ quote id)))

unfoldable pub validate_members : Text → List Text → Dict TestDefinition → Result (Unit {0})
validate_members name [] tests = ok tt
validate_members name (id ∷ ids) tests = elim (lookup id tests) [
  | none ↦ err (unknown_test name id)
  | some _ ↦ validate_members name ids tests
]

-- The checks of one group.
unfoldable pub validate_group : Text → List Text → Dict TestDefinition → Result (Unit {0})
validate_group name [] tests =
    err (wrap configuration (lit "test group " ++ (quote name ++ lit " has no tests")))
validate_group name (id ∷ ids) tests = validate_members name (id ∷ ids) tests

-- `ValidateTestGroups`
unfoldable pub validate_test_groups : Dict TestGroupConfig → Dict TestDefinition → Result (Unit {0})
validate_test_groups [] tests = ok tt
validate_test_groups ((name, g) ∷ groups) tests = elim (validate_group name g.tests tests) [
  | err e ↦ err e
  | ok _ ↦ validate_test_groups groups tests
]
