-- ===== src/Logger.antt =====
-- internal/pkg/logger/logger.go: the configuration of the loggers.
pub mod Events
pub mod Laws
use e2e_framework.Prelude.{
  Text, lit, ◌++◌, ◌==◌, quote, contains_text, [], ◌∷◌, ◌||◌, if◌then◌else◌,
}
use e2e_framework.Domain.{plain, Result, ok, err}

pub data Level : Type 0 where
  debug info warn error : Level

-- `config`
pub record LogConfig : Type 0 where
  pub level : Level
  pub format : Text

-- `parseLevel`
unfoldable pub parse_level : Text → Result Level
parse_level t =
    if [] == t || lit "info" == t
    then ok info
    else if lit "debug" == t
    then ok debug
    else if lit "warn" == t
    then ok warn
    else if lit "error" == t
    then ok error
    else err (
        plain
          (lit "unknown log level " ++ (quote t ++ lit " (supported: debug, info, warn, error)")))

unfoldable pub parse_format : Text → Result Text
parse_format t =
    if [] == t
    then ok (lit "json")
    else if contains_text (lit "json" ∷ lit "text" ∷ []) t
    then ok t
    else err (plain (lit "unknown log format " ++ (quote t ++ lit " (supported: json, text)")))

-- `Configure`: the configuration that the next loggers use.
unfoldable pub configure : Text → Text → Result LogConfig
configure level format = elim (parse_level level) [
  | err e ↦ err e
  | ok l ↦ elim (parse_format format) [
    | err e ↦ err e
    | ok f ↦ ok (record { level = l; format = f })
  ]
]
