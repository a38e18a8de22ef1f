-- ===== src/Logger/Laws.antt =====
-- What the loggers write, and when a message ends the process.
use mathlib.Core.List.{append-nil, append_assoc}
use e2e_framework.Prelude.{
  ℕ, ◌≡◌, refl, sym, ap, ◌∙◌, inl, inr, Text, lit, ◌==◌, Option, none, some, Bool, Bool-cases, true,
  false, leb, List, [], ◌∷◌, ◌++◌, if◌then◌else◌,
}
use e2e_framework.Logger.{Level, debug, info, warn, error, LogConfig}
use e2e_framework.Logger.Events.{
  str_value, Attr, Slog, Event, Process, continues, exits, new_handler, inner_of, with_attr,
  new_logger, event, fatal, append, chain, msg_of, msg,
}

-- The order of slog's levels.
abbrev pub rank : Level → ℕ
rank debug = 0
rank info = 1
rank warn = 2
rank error = 3

pub record Line : Type 0 where
  pub level : Level
  pub text : Text
  pub attrs : List Attr

-- The documented behaviour of slog: a handler takes the records at its level and above, `With` puts
-- its attribute before those of each record, and `Log` writes a record that is enabled, and nothing
-- else. `lines` is what has been written, `threshold` and `common` the level and the attributes of a
-- logger.
pub record IsSlog {L W : Type 0} (slog : Slog L W) (lines : W → List Line) (threshold : L → Level)
    (common : L → List Attr) : Type 0 where
  pub text_threshold : (l : Level) → threshold (slog.new_text l) ≡ l
  pub json_threshold : (l : Level) → threshold (slog.new_json l) ≡ l
  pub text_common : (l : Level) → common (slog.new_text l) ≡ []
  pub json_common : (l : Level) → common (slog.new_json l) ≡ []
  pub with_threshold :
      (key value : Text) (i : L) → threshold (slog.with_attr key value i) ≡ threshold i
  pub with_common :
      (key value : Text) (i : L)
      → common (slog.with_attr key value i) ≡ common i ++ ((key, str_value value) ∷ [])
  pub enabled_at : (i : L) (l : Level) → slog.enabled i l ≡ leb (rank (threshold i)) (rank l)
  pub log_lines :
      (i : L) (l : Level) (text : Text) (attrs : List Attr) (w : W)
      → lines (slog.log i l text attrs w) ≡ (
          if slog.enabled i l
          then lines w ++ (record { level = l; text = text; attrs = common i ++ attrs } ∷ [])
          else lines w)

-- The component that a logger's name tells.
abbrev pub component : Text → List Attr
component name = if name == [] then [] else (lit "component", str_value name) ∷ []

abbrev pub world : {W : Type 0} → Process W → W
world (continues w) = w
world (exits code w) = w

abbrev pub exit_code : {W : Type 0} → Process W → Option ℕ
exit_code (continues w) = none
exit_code (exits code w) = some code

error_enabled : (l : Level) → leb (rank l) (rank error) ≡ true
error_enabled debug = refl
error_enabled info = refl
error_enabled warn = refl
error_enabled error = refl

module _ {L W : Type 0} (slog : Slog L W) where
  chain_lem :
      (attrs : List Attr) (e : Event L)
      → chain slog attrs (some e) ≡ some (record e { args = e.args ++ attrs })
  unfolding chain append
  chain_lem [] e = ap (λ y. some (record e { args = y })) (sym (append-nil e.args))
  chain_lem ((key, value) ∷ attrs) e =
      chain_lem attrs (record e { args = e.args ++ ((key, value) ∷ []) })
      ∙ ap (λ y. some (record e { args = y })) (append_assoc e.args ((key, value) ∷ []) attrs)

  msg-chain :
      (i : L) (l : Level) (b : Bool) (attrs : List Attr) (text : Text) (w : W)
      → msg slog
          (chain slog attrs (
            some
              (record { l = some (record { inner = some i }); level = l; fatal = b; args = [] })))
          text
          w
        ≡ (if b then exits 1 (slog.log i l text attrs w) else continues (slog.log i l text attrs w))
  unfolding msg msg_of inner_of
  msg-chain i l b attrs text w = rw (chain_lem attrs _) refl

  module _ (lines : W → List Line) (threshold : L → Level) (common : L → List Attr)
      (laws : IsSlog slog lines threshold common) where
    new_handler_lem :
        (cfg : LogConfig)
        → (threshold (new_handler slog cfg) ≡ cfg.level) × (common (new_handler slog cfg) ≡ [])
    unfolding new_handler
    new_handler_lem cfg = elim (Bool-cases (cfg.format == lit "text")) [
      | inl e ↦ rw e (laws.text_threshold cfg.level, laws.text_common cfg.level)
      | inr e ↦ rw e (laws.json_threshold cfg.level, laws.json_common cfg.level)
    ]

    new_logger_lem :
        (cfg : LogConfig) (name : Text)
        → (i : L) × (new_logger slog cfg name ≡ some (record { inner = some i }))
          × (threshold i ≡ cfg.level)
          × (common i ≡ component name)
    unfolding new_logger with_attr inner_of
    new_logger_lem cfg name =
        let i = new_handler slog cfg in
        let (level, attrs) = new_handler_lem cfg in
        elim (Bool-cases (name == [])) [
          | inl e ↦ (i, rw e refl, level, rw e attrs)
          | inr e ↦ (
            slog.with_attr (lit "component") name i,
            rw e refl,
            laws.with_threshold (lit "component") name i ∙ level,
            rw e (
                laws.with_common (lit "component") name i
                ∙ ap (λ y. y ++ ((lit "component", str_value name) ∷ [])) attrs),
          )
        ]

    log_lem :
        (cfg : LogConfig) (name : Text) (i : L) (l : Level) (text : Text) (attrs : List Attr)
        (w : W)
        → threshold i ≡ cfg.level
        → common i ≡ component name
        → lines (slog.log i l text attrs w) ≡ (
            if leb (rank cfg.level) (rank l)
            then lines w
              ++ (record { level = l; text = text; attrs = component name ++ attrs } ∷ [])
            else lines w)
    log_lem cfg name i l text attrs w t c =
        laws.log_lines i l text attrs w ∙ rw (laws.enabled_at i l, t, c) refl

    -- The logger of a component under any configuration, over a slog that behaves as documented,
    -- writes an event with its level, its message, the component and the fields of the chain in
    -- order exactly if the configured level admits it, and lets the process go on. A fatal event is
    -- written at level error whatever the configuration, and the process exits with code 1.
    pub msg-new_logger :
        (cfg : LogConfig) (name : Text) (l : Level) (attrs : List Attr) (text : Text) (w : W)
        → (exit_code (msg slog (chain slog attrs (event slog l (new_logger slog cfg name))) text w)
            ≡ none)
          × (lines (
                world
                  (msg slog (chain slog attrs (event slog l (new_logger slog cfg name))) text w))
              ≡ (if leb (rank cfg.level) (rank l)
                  then lines w
                    ++ (record { level = l; text = text; attrs = component name ++ attrs } ∷ [])
                  else lines w))
          × (exit_code (msg slog (chain slog attrs (fatal slog (new_logger slog cfg name))) text w)
              ≡ some 1)
          × (lines
                (world (msg slog (chain slog attrs (fatal slog (new_logger slog cfg name))) text w))
              ≡ lines w
                ++ (record { level = error; text = text; attrs = component name ++ attrs } ∷ []))
    unfolding event fatal
    msg-new_logger cfg name l attrs text w =
        let (i, e, t, c) = new_logger_lem cfg name in
        rw (e, msg-chain i l false attrs text w, msg-chain i error true attrs text w)
          (
            refl,
            log_lem cfg name i l text attrs w t c,
            refl,
            log_lem cfg name i error text attrs w t c ∙ rw (error_enabled cfg.level) refl,
          )
