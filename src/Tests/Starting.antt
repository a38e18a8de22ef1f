-- ===== src/Tests/Starting.antt =====
-- A service that starts, and the tests that it schedules.
use e2e_framework.Prelude.{
  ℕ, ◌≡◌, ◌⊎◌, inl, All, true, refl, Text, lit, ◌==◌, strip_prefix, lookup, insert, contains_text,
  pos, Option, none, some, false, [], ◌∷◌,
}
use e2e_framework.Domain.{TestDefinition, Error, plain, ok}
use e2e_framework.Template.{replace_all_func}
use e2e_framework.Groups.{
  TestGroup, TestGroupConfig, resolve_group, validate_logging, validate_test_groups, validate_group,
  validate_members,
}
use e2e_framework.Groups.Laws.{IsRunnable}
use e2e_framework.Config.{
  Config, entry, env_regex, resolve_env, text_or, default_ttl, ttl_or_default, store_type_of,
  default_store, default_logging, with_defaults, ext, load_config, load_test, walk,
  load_test_definitions,
}
use e2e_framework.Logger.{debug, configure, parse_level, parse_format}
use e2e_framework.Registries.{register_store, create_store}
use e2e_framework.Scheduler.{Scheduler, register_test, register_tests}
use e2e_framework.Scheduler.Laws.{is_scheduled}
use e2e_framework.Scheduler.Cron.{
  Cron, start, stop, done, started, stopped, fired, History-scheduled,
}
use e2e_framework.Startup.{
  Environment, StoreFactories, Service, store_registry, tests_of, with_store, with_config,
  start_service,
}
use e2e_framework.Startup.Laws.{IsReady, start_service-IsReady}
use e2e_framework.Tests.World.{signup, ports}

abbrev nightly : TestDefinition
nightly = record signup { schedule = lit "0 3 * * *" }

abbrev broken : TestDefinition
broken = record signup { schedule = lit "often" }

-- Only the schedule "often" cannot be read.
abbrev parse : Text → Option Error
parse t = elim (strip_prefix (lit "often") t) [ none ↦ none | some _ ↦ some (plain t) ]

abbrev idle : Scheduler
idle = record { entries = [] }

abbrev smoke : TestGroupConfig
smoke = record {
  description = [];
  tests = lit "signup" ∷ [];
  test_delay = pos 0;
  skip_fail_test = false;
}

abbrev file : Config
file = record {
  port = pos 8080;
  auth_enabled = false;
  jwt_secret = [];
  store = record {
    type = [];
    redis = record { url = []; ttl = pos 0; username = []; password = []; cluster_mode = false };
    postgres = record { dsn = []; ttl = pos 0 };
    memory = record { ttl = pos 5 };
  };
  logging = record { level = lit "debug"; format = [] };
  test_groups = (lit "smoke", smoke) ∷ [];
  tests_path = [];
}

abbrev env : Environment
env = record {
  read = λ path. ok (lit "x");
  getenv =
      λ name. elim (strip_prefix (lit "STORE_TYPE") name) [ none ↦ [] | some _ ↦ lit "memory" ];
  yaml_config = λ t. ok file;
  yaml_test = λ t. ok nightly;
  walk_dir = λ dir. entry (lit "tests/a.yaml") (lit "a.yaml") false ∷ [];
  parse_schedule = λ t. none;
}

abbrev factories : StoreFactories ℕ
factories = record {
  new_redis = λ cfg. ok 1;
  new_postgres = λ cfg. ok 2;
  new_memory = λ cfg. ok 3;
  new_disabled = λ cfg. ok 4;
}

abbrev service : Service ℕ
service = record {
  cfg = record file {
    store = record {
      type = lit "memory";
      redis = record {
        url = [];
        ttl = default_ttl;
        username = [];
        password = [];
        cluster_mode = false;
      };
      postgres = record { dsn = []; ttl = default_ttl };
      memory = record { ttl = pos 5 };
    };
    logging = record { level = lit "debug"; format = lit "json" };
  };
  log = record { level = debug; format = lit "json" };
  tests = (lit "signup", nightly) ∷ [];
  store = 3;
  scheduler = record { entries = nightly ∷ [] };
}

start_service-IsReady_example :
    IsReady env factories service
    × ((resolve_group service.cfg.test_groups (lit "smoke") ≡ none)
        ⊎ ((g : TestGroup) × (resolve_group service.cfg.test_groups (lit "smoke") ≡ some g)
            × IsRunnable service.tests g.tests))
unfolding start_service with_config with_store load_config resolve_env replace_all_func env_regex
    strip_prefix with_defaults default_store default_logging store_type_of text_or ttl_or_default
    validate_logging contains_text ◌==◌ configure parse_level parse_format load_test_definitions
    walk load_test ext create_store store_registry register_store lookup insert validate_test_groups
    validate_group validate_members tests_of register_tests register_test resolve_group
start_service-IsReady_example = start_service-IsReady env factories service (lit "smoke") refl

-- The scheduler with the two tests, started.
abbrev ready : Cron
ready = record {
  scheduler = register_tests parse (broken ∷ nightly ∷ []) (record { entries = [] });
  started = true;
}

-- The nightly test is run, and after a stop and a start once more.
History-scheduled_example : All (λ d. is_scheduled parse d ≡ true) (nightly ∷ nightly ∷ [])
unfolding register_tests register_test ◌==◌ strip_prefix start stop
History-scheduled_example =
    History-scheduled (ports (lit "hi")) parse (broken ∷ nightly ∷ []) (nightly ∷ nightly ∷ []) true
      0 (ready, _)
      (fired nightly refl (inl refl) (stopped (started (fired nightly refl (inl refl) done))))
