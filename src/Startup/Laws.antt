-- ===== src/Startup/Laws.antt =====
-- What a service that starts has.
use e2e_framework.Prelude.{
  ◌≡◌, refl, sym, ap, ◌∙◌, subst, ◌⊎◌, inl, inr, Text, lit, Dict, Option-cases, none, some, [],
  arith,
}
use e2e_framework.Domain.{TestDefinition, Result, ok, err, Result-cases}
use e2e_framework.Groups.{TestGroup, validate_test_groups, resolve_group}
use e2e_framework.Groups.Laws.{IsRunnable, validate-resolve}
use e2e_framework.Config.{Config, load_config, load_test_definitions, text_or}
use e2e_framework.Config.Laws.{
  IsUsable, IsKeyed, load_config-IsUsable, load_test_definitions-IsKeyed,
}
use e2e_framework.Logger.{LogConfig, configure}
use e2e_framework.Registries.{create_store}
use e2e_framework.Scheduler.{register_tests}
use e2e_framework.Scheduler.Laws.{scheduled, register_tests_lem}
use e2e_framework.Startup.{
  Environment, StoreFactories, Service, store_registry, tests_of, with_store, with_config,
  start_service,
}

module _ {A : Type 0} (env : Environment) (f : StoreFactories A) where
  -- The configuration is usable, every test stands under its id, the store is of the type that
  -- the configuration names, and cron calls the tests that can be scheduled.
  pub record IsReady (s : Service A) : Type 0 where
    pub usable : IsUsable s.cfg
    pub keyed : IsKeyed s.tests
    pub stored : create_store (store_registry f) s.cfg.store ≡ ok s.store
    pub validated : validate_test_groups s.cfg.test_groups s.tests ≡ ok tt
    pub calls : s.scheduler.entries ≡ scheduled env.parse_schedule (tests_of s.tests)

  with_store-IsReady :
      (log : LogConfig) (cfg : Config) (tests : Dict TestDefinition) (store : A) (s : Service A)
      → IsUsable cfg
      → IsKeyed tests
      → create_store (store_registry f) cfg.store ≡ ok store
      → with_store env f log cfg tests store ≡ ok s
      → IsReady s
  unfolding with_store
  with_store-IsReady log cfg tests store s u k c h =
      elim (Result-cases (validate_test_groups cfg.test_groups tests)) [
        | inr (e, q) ↦ absurd (ground (arith, q))
        | inl (_, q) ↦
            let made : Service A = record {
              cfg = cfg;
              log = log;
              tests = tests;
              store = store;
              scheduler =
                  register_tests env.parse_schedule (tests_of tests) (record { entries = [] });
            } in
            let same : ok made ≡ ok s = sym (rw (q, with_store) refl) ∙ h in
            subst IsReady (ap (λ (r : Result (Service A)). elim r [ ok x ↦ x | err e ↦ made ]) same)
              (record {
                usable = u;
                keyed = k;
                stored = c;
                validated = q;
                calls =
                    register_tests_lem env.parse_schedule (tests_of tests)
                      (record { entries = [] });
              })
      ]

  with_config-IsReady :
      (log : LogConfig) (cfg : Config) (s : Service A)
      → IsUsable cfg
      → with_config env f log cfg ≡ ok s
      → IsReady s
  unfolding with_config
  with_config-IsReady log cfg s u h =
      let loading =
        load_test_definitions env.read env.getenv env.yaml_test env.walk_dir
          (text_or (lit "tests") cfg.tests_path) in
      elim (Result-cases loading) [
        | inr (e, q) ↦ absurd (ground (arith, q))
        | inl (tests, q) ↦ elim (Result-cases (create_store (store_registry f) cfg.store)) [
          | inr (e, c) ↦ absurd (ground (arith, q, c))
          | inl (store, c) ↦
              with_store-IsReady log cfg tests store s u
                (load_test_definitions-IsKeyed env.read env.getenv env.yaml_test env.walk_dir
                  (text_or (lit "tests") cfg.tests_path) tests q)
                c (sym (rw (q, c, with_config) refl) ∙ h)
        ]
      ]

  -- A service that starts has a configuration that is usable, tests that stand under their own
  -- ids, the store that the registry makes for the configured type, and a scheduler that calls
  -- exactly the tests that are enabled and have a schedule that can be read; and under any name,
  -- its resolver finds no test group or one that has tests, all of them loaded.
  pub start_service-IsReady :
      (s : Service A) (name : Text)
      → start_service env f ≡ ok s
      → IsReady s
        × ((resolve_group s.cfg.test_groups name ≡ none)
            ⊎ ((g : TestGroup) × (resolve_group s.cfg.test_groups name ≡ some g)
                × IsRunnable s.tests g.tests))
  unfolding start_service
  start_service-IsReady s name h =
      let path = text_or (lit "configs/config.yaml") (env.getenv (lit "CONFIG_PATH")) in
      let ready : IsReady s =
        elim (Result-cases (load_config env.read env.getenv env.yaml_config path)) [
          | inr (e, q) ↦ absurd (ground (arith, q))
          | inl (cfg, q) ↦ elim (Result-cases (configure cfg.logging.level cfg.logging.format)) [
            | inr (e, c) ↦ absurd (ground (arith, q, c))
            | inl (log, c) ↦
                with_config-IsReady log cfg s
                  (load_config-IsUsable env.read env.getenv env.yaml_config path cfg q)
                  (sym (rw (q, c, start_service) refl) ∙ h)
          ]
        ] in
      (
        ready,
        elim (Option-cases (resolve_group s.cfg.test_groups name)) [
          | inl q ↦ inl q
          | inr (g, q) ↦
              inr (g, q, validate-resolve s.cfg.test_groups s.tests name g ready.validated q)
        ],
      )
