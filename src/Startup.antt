-- ===== src/Startup.antt =====
-- cmd/server/main.go, as far as it can stop before the server starts: the configuration, the
-- tests, the store, the checks of the groups, and the schedules. A fatal log entry ends the process,
-- which is an error here.
pub mod Laws
use e2e_framework.Prelude.{
  Text, lit, ◌==◌, Dict, Bool, Option, none, some, List, [], ◌∷◌, map, if◌then◌else◌,
}
use e2e_framework.Domain.{Duration, TestDefinition, Error, Result, ok, err}
use e2e_framework.Config.{
  StoreConfig, Config, WalkStep, load_config, load_test_definitions, text_or,
}
use e2e_framework.Groups.{validate_test_groups}
use e2e_framework.Logger.{LogConfig, configure}
use e2e_framework.Registries.{register_store, create_store}
use e2e_framework.Scheduler.{Scheduler, register_tests}

-- How a store of each type is made, whatever a store is.
pub record StoreFactories (A : Type 0) : Type 0 where
  pub new_redis : StoreConfig → Result A
  pub new_postgres : StoreConfig → Result A
  pub new_memory : StoreConfig → Result A
  pub new_disabled : StoreConfig → Result A

unfoldable pub store_registry : {A : Type 0} → StoreFactories A → Dict (StoreConfig → Result A)
store_registry f = register_store (lit "disabled") f.new_disabled (
    register_store (lit "memory") f.new_memory (
      register_store (lit "postgres") f.new_postgres (register_store (lit "redis") f.new_redis [])))

-- `net/url`'s `Parse`: the host with its port, and without; and the answer of
-- `net.SplitHostPort`.
pub record UrlLib : Type 0 where
  pub parse : Text → Option (Text × Text)
  pub has_port : Text → Bool

-- `hostFromURL`
unfoldable pub host_from_url : UrlLib → Text → Text
host_from_url lib raw = if raw == [] then [] else (elim (lib.parse raw) [
  | none ↦ []
  | some (host, name) ↦ if host == [] then [] else if lib.has_port host then host else name
])

-- What the service runs with.
pub record Service (A : Type 0) : Type 0 where
  pub cfg : Config
  pub log : LogConfig
  pub tests : Dict TestDefinition
  pub store : A
  pub scheduler : Scheduler

unfoldable pub tests_of : Dict TestDefinition → List TestDefinition
tests_of [] = []
tests_of ((id, def) ∷ tests) = def ∷ tests_of tests

-- The files, the variables of the environment, and the parsers.
pub record Environment : Type 0 where
  pub read : Text → Result Text
  pub getenv : Text → Text
  pub yaml_config : Text → Result Config
  pub yaml_test : Text → Result TestDefinition
  pub walk_dir : Text → List WalkStep
  pub parse_schedule : Text → Option Error

module _ {A : Type 0} (env : Environment) (f : StoreFactories A) where
  unfoldable pub with_store : LogConfig → Config → Dict TestDefinition → A → Result (Service A)
  with_store log cfg tests store = elim (validate_test_groups cfg.test_groups tests) [
    | err e ↦ err e
    | ok _ ↦ ok (record {
      cfg = cfg;
      log = log;
      tests = tests;
      store = store;
      scheduler = register_tests env.parse_schedule (tests_of tests) (record { entries = [] });
    })
  ]

  unfoldable pub with_config : LogConfig → Config → Result (Service A)
  with_config log cfg =
      elim (load_test_definitions env.read env.getenv env.yaml_test env.walk_dir
        (text_or (lit "tests") cfg.tests_path)) [
          | err e ↦ err e
          | ok tests ↦ elim (create_store (store_registry f) cfg.store) [
            | err e ↦ err e
            | ok store ↦ with_store log cfg tests store
          ]
        ]

  -- `main`
  unfoldable pub start_service : Result (Service A)
  start_service =
      elim (load_config env.read env.getenv env.yaml_config
        (text_or (lit "configs/config.yaml") (env.getenv (lit "CONFIG_PATH")))) [
          | err e ↦ err e
          | ok cfg ↦ elim (configure cfg.logging.level cfg.logging.format) [
            | err e ↦ err e
            | ok log ↦ with_config log cfg
          ]
        ]
