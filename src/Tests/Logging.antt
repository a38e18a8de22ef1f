-- ===== src/Tests/Logging.antt =====
-- A logger over a list of lines.
use e2e_framework.Prelude.{
  ◌≡◌, refl, lit, ◌==◌, none, some, leb, List, [], ◌∷◌, ◌++◌, if◌then◌else◌,
}
use e2e_framework.Logger.{Level, warn, error, LogConfig}
use e2e_framework.Logger.Events.{str_value, Attr, Slog, event, fatal, new_logger, chain, msg}
use e2e_framework.Logger.Laws.{rank, Line, IsSlog, world, exit_code, msg-new_logger}

-- A logger of slog: its level, and its attributes.
record Lines : Type 0 where
  level : Level
  attrs : List Attr

abbrev slog : Slog Lines (List Line)
slog = record {
  new_text = λ l. record { level = l; attrs = [] };
  new_json = λ l. record { level = l; attrs = [] };
  with_attr = λ k v i. record i { attrs = i.attrs ++ ((k, str_value v) ∷ []) };
  enabled = λ i l. leb (rank i.level) (rank l);
  log = λ i l text attrs w.
      if leb (rank i.level) (rank l)
      then w ++ (record { level = l; text = text; attrs = i.attrs ++ attrs } ∷ [])
      else w;
}

slog-IsSlog : IsSlog slog (λ w. w) (λ i. i.level) (λ i. i.attrs)
slog-IsSlog = record {
  text_threshold = λ l. refl;
  json_threshold = λ l. refl;
  text_common = λ l. refl;
  json_common = λ l. refl;
  with_threshold = λ k v i. refl;
  with_common = λ k v i. refl;
  enabled_at = λ i l. refl;
  log_lines = λ i l text attrs w. refl;
}

abbrev quiet : LogConfig
quiet = record { level = error; format = lit "text" }

abbrev test_id : List Attr
test_id = (lit "test_id", str_value (lit "signup")) ∷ []

-- A warning is left out, and a fatal event is not.
msg-new_logger_example :
    (exit_code (
        msg slog
          (chain slog test_id (event slog warn (new_logger slog quiet (lit "cron"))))
          (lit "late")
          [])
      ≡ none)
    × (world (
          msg slog
            (chain slog test_id (event slog warn (new_logger slog quiet (lit "cron"))))
            (lit "late")
            [])
        ≡ [])
    × (exit_code (
          msg slog
            (chain slog test_id (fatal slog (new_logger slog quiet (lit "cron"))))
            (lit "late")
            [])
        ≡ some 1)
    × (world (
          msg slog
            (chain slog test_id (fatal slog (new_logger slog quiet (lit "cron"))))
            (lit "late")
            [])
        ≡ record {
          level = error;
          text = lit "late";
          attrs = (lit "component", str_value (lit "cron")) ∷ test_id;
        }
          ∷ [])
unfolding ◌==◌
msg-new_logger_example =
    msg-new_logger slog (λ w. w) (λ i. i.level) (λ i. i.attrs) slog-IsSlog quiet (lit "cron") warn
      test_id (lit "late") []
