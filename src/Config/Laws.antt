-- ===== src/Config/Laws.antt =====
-- What a configuration and tests that could be loaded are like.
use e2e_framework.Prelude.{
  ◌≡◌, ◌≢◌, refl, sym, ◌∙◌, subst, inl, inr, Text, lit, ◌==◌, ==_iff, contains_text, ◌||◌, not, pos,
  eqb_ℤ, Dict, lookup, insert, lookup-insert, some, Bool-cases, List, [], ◌∷◌, arith,
}
use e2e_framework.Domain.{Duration, TestDefinition, Result, ok, Result-cases}
use e2e_framework.Groups.{LoggingConfig, validate_logging}
use e2e_framework.Logger.{LogConfig, configure, parse_level, parse_format}
use e2e_framework.Config.Settings.{Config}
use e2e_framework.Config.Load.{
  resolve_env, store_type_default, text_or, ttl_or_default, store_type_of, default_store,
  with_defaults, WalkStep, entry, broken, ext, load_config, load_test, walk, load_test_definitions,
}

-- The logger takes every configuration that the check of `LoadConfig` lets pass.
configure-validate_logging :
    (l : LoggingConfig)
    → validate_logging l ≡ ok tt
    → (log : LogConfig) × (configure l.level l.format ≡ ok log)
unfolding validate_logging configure parse_level parse_format contains_text
configure-validate_logging l h = elim (Result-cases (parse_level l.level)) [
  | inr (e, p) ↦ absurd (ground (arith, p))
  | inl (level, p) ↦ elim (Result-cases (parse_format l.format)) [
    | inr (e, q) ↦ absurd (ground (arith, q))
    | inl (format, q) ↦ (record { level = level; format = format }, rw (p, q, configure) refl)
  ]
]

-- A type of store, times to live that are not zero, and a level and a format with which the logger
-- can be configured.
pub record IsUsable (cfg : Config) : Type 0 where
  pub typed : cfg.store.type ≢ []
  pub redis_lives : cfg.store.redis.ttl ≢ pos 0
  pub postgres_lives : cfg.store.postgres.ttl ≢ pos 0
  pub memory_lives : cfg.store.memory.ttl ≢ pos 0
  pub logs : (log : LogConfig) × (configure cfg.logging.level cfg.logging.format ≡ ok log)

text_or-ne : (default t : Text) → default ≢ [] → text_or default t ≢ []
unfolding text_or ◌==◌
text_or-ne default [] h = h
text_or-ne default (c ∷ t) h = λ e. ground arith

ttl_or_default-ne : (d : Duration) → ttl_or_default d ≢ pos 0
unfolding ttl_or_default
ttl_or_default-ne d e = elim (Bool-cases (eqb_ℤ d (pos 0))) [
  | inl q ↦ ground arith
  | inr q ↦ ground arith
]

with_defaults-IsUsable :
    (getenv : Text → Text) (parsed : Config)
    → validate_logging (with_defaults getenv parsed).logging ≡ ok tt
    → IsUsable (with_defaults getenv parsed)
unfolding with_defaults default_store store_type_of
with_defaults-IsUsable getenv parsed h = record {
  typed =
      text_or-ne _ (getenv (lit "STORE_TYPE"))
        (text_or-ne store_type_default parsed.store.type (λ e. ground arith));
  redis_lives = ttl_or_default-ne parsed.store.redis.ttl;
  postgres_lives = ttl_or_default-ne parsed.store.postgres.ttl;
  memory_lives = ttl_or_default-ne parsed.store.memory.ttl;
  logs = configure-validate_logging (with_defaults getenv parsed).logging h;
}

-- A configuration that `LoadConfig` returns names a type of store, no time to live in it is zero,
-- and the logger accepts its level and format.
pub load_config-IsUsable :
    (read : Text → Result Text) (getenv : Text → Text) (yaml : Text → Result Config) (path : Text)
    (cfg : Config)
    → load_config read getenv yaml path ≡ ok cfg
    → IsUsable cfg
unfolding load_config
load_config-IsUsable read getenv yaml path cfg h = elim (Result-cases (read path)) [
  | inr (e, q) ↦ absurd (ground (arith, q))
  | inl (b, q) ↦ elim (Result-cases (yaml (resolve_env getenv b))) [
    | inr (e, y) ↦ absurd (ground (arith, q, y))
    | inl (parsed, y) ↦
        let full = with_defaults getenv parsed in
        (elim (Result-cases (validate_logging full.logging)) [
          | inr (e, v) ↦ absurd (ground (arith, q, y, v))
          | inl (_, v) ↦
              subst IsUsable (ground (arith, q, y, v)) (with_defaults-IsUsable getenv parsed v)
        ])
  ]
]

-- Every test stands under its own id.
abbrev pub IsKeyed : Dict TestDefinition → Type 0
IsKeyed tests = (id : Text) (def : TestDefinition) → lookup id tests ≡ some def → def.id ≡ id

insert-IsKeyed :
    (def : TestDefinition) (tests : Dict TestDefinition)
    → IsKeyed tests
    → IsKeyed (insert def.id def tests)
insert-IsKeyed def tests k id d h =
    let found = sym (lookup-insert def.id id def tests) ∙ h in
    elim (Bool-cases (def.id == id)) [
      | inl e ↦ ground (arith, e, found, ==_iff def.id id)
      | inr e ↦ k id d (ground (arith, e, found))
    ]

module _ (read : Text → Result Text) (getenv : Text → Text)
    (yaml : Text → Result TestDefinition) where
  walk-IsKeyed :
      (steps : List WalkStep) (tests loaded : Dict TestDefinition)
      → IsKeyed tests
      → walk read getenv yaml steps tests ≡ ok loaded
      → IsKeyed loaded
  unfolding walk
  walk-IsKeyed [] tests loaded k h = subst IsKeyed (ground arith) k
  walk-IsKeyed (broken e ∷ steps) tests loaded k h = absurd (ground arith)
  walk-IsKeyed (entry path name is_dir ∷ steps) tests loaded k h =
      elim (Bool-cases (is_dir || not (ext name == lit ".yaml"))) [
        | inl q ↦ walk-IsKeyed steps tests loaded k (ground (arith, q))
        | inr q ↦ elim (Result-cases (load_test read getenv yaml path)) [
          | inr (e, l) ↦ absurd (ground (arith, q, l))
          | inl (def, l) ↦
              walk-IsKeyed steps (insert def.id def tests) loaded (insert-IsKeyed def tests k)
                (ground (arith, q, l))
        ]
      ]

  pub load_test_definitions-IsKeyed :
      (walk_dir : Text → List WalkStep) (dir : Text) (tests : Dict TestDefinition)
      → load_test_definitions read getenv yaml walk_dir dir ≡ ok tests
      → IsKeyed tests
  unfolding load_test_definitions lookup
  load_test_definitions-IsKeyed walk_dir dir tests h =
      elim (Result-cases (walk read getenv yaml (walk_dir dir) [])) [
        | inr (e, q) ↦ absurd (ground (arith, q))
        | inl (loaded, q) ↦
            walk-IsKeyed (walk_dir dir) [] tests (λ id def e. absurd (ground arith))
              (ground (arith, q))
      ]
