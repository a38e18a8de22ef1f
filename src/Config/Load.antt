-- ===== src/Config/Load.antt =====
-- `LoadConfig` of internal/pkg/config/config.go and `LoadTestDefinitions` of loader.go. Files, YAML
-- and the environment are parameters; a variable that is not set is empty, as `os.Getenv` has it.
use e2e_framework.Prelude.{
  zero, Text, lit, ◌++◌, ◌==◌, ◌*◌, ◌^◌, eqb, pos, eqb_ℤ, strip_prefix, Dict, insert, none, some,
  Bool, not, ◌||◌, List, [], ◌∷◌, if◌then◌else◌,
}
use e2e_framework.Domain.{Duration, TestDefinition, Error, wrap, configuration, Result, ok, err}
use e2e_framework.Template.{Matcher, replace_all_func}
use e2e_framework.Groups.{LoggingConfig, validate_logging}
use e2e_framework.Config.Settings.{StoreConfig, Config}

-- `[^}]*`: the group, and what follows.
unfoldable pub until_brace : Text → Text × Text
until_brace [] = ([], [])
until_brace (c ∷ s) =
    let (group, rest) = until_brace s in if eqb c b'}' then ([], c ∷ s) else (c ∷ group, rest)

-- `\{\{env\.([^}]+)\}\}`
unfoldable pub env_regex : Matcher Text
env_regex s = elim (strip_prefix (lit "{{env.") s) [
  | none ↦ none
  | some after ↦
      let (group, rest) = until_brace after in
      if group == [] then none else (elim (strip_prefix (lit "}}") rest) [
        | none ↦ none
        | some _ ↦ some (lit "{{env." ++ (group ++ lit "}}"), group)
      ])
]

unfoldable pub resolve_env : (Text → Text) → Text → Text
resolve_env getenv s = (replace_all_func env_regex (λ _ name u. (getenv name, u)) zero s (tt {0})).0

-- `StoreTypeDefault`
abbrev pub store_type_default : Text
store_type_default = lit "redis"

unfoldable pub text_or : Text → Text → Text
text_or default t = if t == [] then default else t

abbrev pub default_ttl : Duration
default_ttl = pos (300 * 10 ^ 9)

unfoldable pub ttl_or_default : Duration → Duration
ttl_or_default d = if eqb_ℤ d (pos 0) then default_ttl else d

-- The type of the store: the variable STORE_TYPE, then the file, then the default.
unfoldable pub store_type_of : (Text → Text) → Text → Text
store_type_of getenv type = text_or (text_or store_type_default type) (getenv (lit "STORE_TYPE"))

-- The defaults of `LoadConfig`.
unfoldable pub default_store : (Text → Text) → StoreConfig → StoreConfig
default_store getenv s = record {
  type = store_type_of getenv s.type;
  redis = record (s.redis) { ttl = ttl_or_default s.redis.ttl };
  postgres = record (s.postgres) { ttl = ttl_or_default s.postgres.ttl };
  memory = record (s.memory) { ttl = ttl_or_default s.memory.ttl };
}

unfoldable pub default_logging : LoggingConfig → LoggingConfig
default_logging l = record {
  level = text_or (lit "info") l.level;
  format = text_or (lit "json") l.format;
}

unfoldable pub with_defaults : (Text → Text) → Config → Config
with_defaults getenv cfg = record cfg {
  store = default_store getenv cfg.store;
  logging = default_logging cfg.logging;
}

-- A step of `filepath.WalkDir`: an entry, with its path, its name and whether it is a directory, or
-- an error.
pub data WalkStep : Type 0 where
  entry : Text → Text → Bool → WalkStep
  broken : Error → WalkStep

-- `filepath.Ext` of a name: from the last dot on.
unfoldable pub ext : Text → Text
ext [] = []
ext (c ∷ s) = let rest = ext s in if rest == [] then (if eqb c b'.' then c ∷ s else []) else rest

unfoldable pub about_file : Text → Text → Error → Error
about_file what path e =
    wrap configuration
      (lit "failed to " ++ (what ++ (lit " test file " ++ (path ++ (lit ": " ++ e.text)))))

module _ (read : Text → Result Text) (getenv : Text → Text) where
  -- `LoadConfig`
  unfoldable pub load_config : (Text → Result Config) → Text → Result Config
  load_config yaml path = elim (read path) [
    | err e ↦ err (wrap configuration (lit "failed to read config file: " ++ e.text))
    | ok b ↦ elim (yaml (resolve_env getenv b)) [
      | err e ↦ err (wrap configuration (lit "failed to parse config yaml: " ++ e.text))
      | ok parsed ↦
          let cfg = with_defaults getenv parsed in
          (elim (validate_logging cfg.logging) [ err e ↦ err e | ok _ ↦ ok cfg ])
    ]
  ]

  module _ (yaml : Text → Result TestDefinition) where
    unfoldable pub load_test : Text → Result TestDefinition
    load_test path = elim (read path) [
      | err e ↦ err (about_file (lit "read") path e)
      | ok b ↦ elim (yaml (resolve_env getenv b)) [
        | err e ↦ err (about_file (lit "parse") path e)
        | ok def ↦ ok def
      ]
    ]

    -- The callback of the walk, over its steps; the first error ends it.
    unfoldable pub walk : List WalkStep → Dict TestDefinition → Result (Dict TestDefinition)
    walk [] tests = ok tests
    walk (broken e ∷ steps) tests = err e
    walk (entry path name is_dir ∷ steps) tests =
        if is_dir || not (ext name == lit ".yaml")
        then walk steps tests
        else (elim (load_test path) [
          | err e ↦ err e
          | ok def ↦ walk steps (insert def.id def tests)
        ])

    -- `LoadTestDefinitions`
    unfoldable pub load_test_definitions :
        (Text → List WalkStep) → Text → Result (Dict TestDefinition)
    load_test_definitions walk_dir dir = elim (walk (walk_dir dir) []) [
      | err e ↦ err (wrap configuration (lit "failed to walk test directory: " ++ e.text))
      | ok tests ↦ ok tests
    ]
