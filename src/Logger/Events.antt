-- ===== src/Logger/Events.antt =====
-- internal/pkg/logger/logger.go: loggers and the events that they write. `log/slog` is a parameter. A
-- `*Logger` or `*Event` is an `Option`; a chain of methods gives the event it ends with.
use e2e_framework.Prelude.{
  ℕ, ◌/◌, ◌^◌, suc, ℤ, pos, negsuc, sub_ℕ, Text, lit, ◌==◌, ◌++◌, Option, none, some, Bool, true,
  false, not, List, [], ◌∷◌, if◌then◌else◌,
}
use e2e_framework.Domain.{Duration, Error}
use e2e_framework.Logger.{Level, info, error, LogConfig}

-- The value of an attribute; `any_value` has some rendering of a value of another type.
pub data Value : Type 0 where
  str_value : Text → Value
  int_value : ℤ → Value
  bool_value : Bool → Value
  any_value : Text → Value

abbrev pub Attr : Type 0
Attr = Text × Value

-- The `*slog.Logger`s over `os.Stdout`: their handlers, `With`, `Enabled` and `Log`.
pub record Slog (L W : Type 0) : Type 0 where
  pub new_text : Level → L
  pub new_json : Level → L
  pub with_attr : Text → Text → L → L
  pub enabled : L → Level → Bool
  pub log : L → Level → Text → List Attr → W → W

-- `Logger`
pub record Logger (L : Type 0) : Type 0 where
  pub inner : Option L

-- `Event`
pub record Event (L : Type 0) : Type 0 where
  pub l : Option (Logger L)
  pub level : Level
  pub fatal : Bool
  pub args : List Attr

-- Where a call leaves the process: it goes on, or has exited with a code.
pub data Process (W : Type 0) : Type 0 where
  continues : W → Process W
  exits : ℕ → W → Process W

-- The zero configuration that `active` begins with.
abbrev pub default_config : LogConfig
default_config = record { level = info; format = lit "json" }

-- `Milliseconds`, which rounds towards zero.
unfoldable pub milliseconds : Duration → ℤ
milliseconds (pos n) = pos (n / 10 ^ 6)
milliseconds (negsuc n) = sub_ℕ 0 (suc n / 10 ^ 6)

module _ {L W : Type 0} (slog : Slog L W) where
  -- `newHandler` and `slog.New`
  unfoldable pub new_handler : LogConfig → L
  new_handler cfg =
      if cfg.format == lit "text" then slog.new_text cfg.level else slog.new_json cfg.level

  -- `l.inner` of a pointer, if neither is nil.
  unfoldable pub inner_of : Option (Logger L) → Option L
  inner_of none = none
  inner_of (some l) = l.inner

  -- `Enabled`
  unfoldable pub enabled : Option (Logger L) → Level → Bool
  unfolding inner_of
  enabled l level = elim (inner_of l) [ none ↦ false | some i ↦ slog.enabled i level ]

  -- `With` of one attribute that is a text, as all calls have it.
  unfoldable pub with_attr : Text → Text → Option (Logger L) → Option (Logger L)
  unfolding inner_of
  with_attr key value l = elim (inner_of l) [
    | none ↦ l
    | some i ↦ some (record { inner = some (slog.with_attr key value i) })
  ]

  -- `newWith`, and `New`, which reads the active configuration.
  unfoldable pub new_logger : LogConfig → Text → Option (Logger L)
  unfolding new_handler
  new_logger cfg name =
      let l = some (record { inner = some (new_handler cfg) }) in
      if not (name == []) then with_attr (lit "component") name l else l

  -- `Event`, which `Debug`, `Info`, `Warn` and `Error` call with their level.
  unfoldable pub event : Level → Option (Logger L) → Option (Event L)
  event level l = some (record { l = l; level = level; fatal = false; args = [] })

  -- `Fatal`
  unfoldable pub fatal : Option (Logger L) → Option (Event L)
  fatal l = some (record { l = l; level = error; fatal = true; args = [] })

  -- `append`
  unfoldable pub append : Text → Value → Option (Event L) → Option (Event L)
  append key value none = none
  append key value (some e) = some (record e { args = e.args ++ ((key, value) ∷ []) })

  -- `Str`, `Int`, `Bool`, `Any`
  abbrev pub str : Text → Text → Option (Event L) → Option (Event L)
  str key value = append key (str_value value)

  abbrev pub int : Text → ℤ → Option (Event L) → Option (Event L)
  int key value = append key (int_value value)

  abbrev pub bool : Text → Bool → Option (Event L) → Option (Event L)
  bool key value = append key (bool_value value)

  abbrev pub any : Text → Text → Option (Event L) → Option (Event L)
  any key value = append key (any_value value)

  -- `Duration`
  abbrev pub duration : Text → Duration → Option (Event L) → Option (Event L)
  duration key value = append key (int_value (milliseconds value))

  -- `Err`; a nil error is no attribute.
  unfoldable pub err_attr : Option Error → Option (Event L) → Option (Event L)
  err_attr none e = e
  err_attr (some f) e = append (lit "error") (str_value f.text) e

  -- The calls of `append` in a chain, one for each field.
  unfoldable pub chain : List Attr → Option (Event L) → Option (Event L)
  chain [] e = e
  chain ((key, value) ∷ attrs) e = chain attrs (append key value e)

  -- `Msg` of an event that has a logger.
  unfoldable pub msg_of : Event L → Option L → Text → W → Process W
  msg_of e none text w = continues w
  msg_of e (some i) text w =
      let w' = slog.log i e.level text e.args w in if e.fatal then exits 1 w' else continues w'

  -- `Msg`
  unfoldable pub msg : Option (Event L) → Text → W → Process W
  unfolding msg_of inner_of
  msg none text w = continues w
  msg (some e) text w = msg_of e (inner_of e.l) text w
