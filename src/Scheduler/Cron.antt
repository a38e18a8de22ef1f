-- ===== src/Scheduler/Cron.antt =====
-- `Start` and `Stop` of internal/adapters/primary/cron/scheduler.go, and the function of an entry. Which
-- entry robfig/cron calls, and when, is left open; it calls entries only between `Start` and `Stop`.
use e2e_framework.Prelude.{
  ◌≡◌, subst, sym, ◌⊎◌, inl, inr, Text, Option, Bool, Bool-cases, true, false, List, [], ◌∷◌, All,
}
use e2e_framework.Domain.{TestDefinition, RunStatus, failed, error, skipped, Error}
use e2e_framework.Ports.{Ports}
use e2e_framework.Logger
use e2e_framework.Logger.{Level}
use e2e_framework.Scheduler.{Scheduler, register_tests, scheduled_run}
use e2e_framework.Scheduler.Laws.{is_scheduled, scheduled, register_tests_lem}

pub record Cron : Type 0 where
  pub scheduler : Scheduler
  pub started : Bool

-- `NewScheduler`
abbrev pub new_scheduler : Cron
new_scheduler = record { scheduler = record { entries = [] }; started = false }

-- `Start`
unfoldable pub start : Cron → Cron
start c = record c { started = true }

-- `Stop`
unfoldable pub stop : Cron → Cron
stop c = record c { started = false }

-- The level of the line at the end of a scheduled run.
unfoldable pub finished_level : RunStatus → Level
finished_level failed = Logger.error
finished_level error = Logger.error
finished_level skipped = Logger.warn
finished_level _ = Logger.info

abbrev pub IsEntry : TestDefinition → List TestDefinition → Type 0
IsEntry def [] = ⊥
IsEntry def (d ∷ ds) = (def ≡ d) ⊎ IsEntry def ds

module _ {W : Type 0} (p : Ports W) where
  -- A history of the scheduler with the tests that it has run, the first one at the head.
  pub data History : List TestDefinition → Cron × W → Cron × W → Type 0 where
    done : {s : Cron × W} → History [] s s
    started :
        {c : Cron} {w : W} {u : Cron × W} {runs : List TestDefinition}
        → History runs (start c, w) u
        → History runs (c, w) u
    stopped :
        {c : Cron} {w : W} {u : Cron × W} {runs : List TestDefinition}
        → History runs (stop c, w) u
        → History runs (c, w) u
    fired :
        {c : Cron} {w : W} {u : Cron × W} {runs : List TestDefinition} (def : TestDefinition)
        → c.started ≡ true
        → IsEntry def c.scheduler.entries
        → History runs (c, scheduled_run p def w) u
        → History (def ∷ runs) (c, w) u
    moved :
        {c : Cron} {w : W} {u : Cron × W} {runs : List TestDefinition} (v : W)
        → History runs (c, v) u
        → History runs (c, w) u

  IsEntry-All :
      (P : TestDefinition → Type 0) (def : TestDefinition) (defs : List TestDefinition)
      → All P defs
      → IsEntry def defs
      → P def
  IsEntry-All P def [] h m = absurd m
  IsEntry-All P def (d ∷ ds) (h, hs) (inl e) = subst P (sym e) h
  IsEntry-All P def (d ∷ ds) (h, hs) (inr m) = IsEntry-All P def ds hs m

  History-All :
      (P : TestDefinition → Type 0) {runs : List TestDefinition} {c : Cron} {w : W} {u : Cron × W}
      → All P c.scheduler.entries
      → History runs (c, w) u
      → All P runs
  unfolding start stop
  History-All P h done = tt
  History-All P h (started t) = History-All P h t
  History-All P h (stopped t) = History-All P h t
  History-All P h (fired {c} def on m t) =
      (IsEntry-All P def c.scheduler.entries h m, History-All P h t)
  History-All P h (moved v t) = History-All P h t

  module _ (parse : Text → Option Error) where
    scheduled-All :
        (defs : List TestDefinition) → All (λ d. is_scheduled parse d ≡ true) (scheduled parse defs)
    unfolding scheduled
    scheduled-All [] = tt
    scheduled-All (def ∷ defs) = elim (Bool-cases (is_scheduled parse def)) [
      | inl q ↦ rw (q, scheduled) (q, scheduled-All defs)
      | inr q ↦ rw (q, scheduled) (scheduled-All defs)
    ]

    -- Whatever the scheduler of the service does after the tests have been registered, it runs only
    -- tests that are enabled and have a schedule that the parser reads.
    pub History-scheduled :
        (defs runs : List TestDefinition) (on : Bool) (w : W) (u : Cron × W)
        → History runs
            (
              record {
                scheduler = register_tests parse defs (record { entries = [] });
                started = on;
              },
              w,
            )
            u
        → All (λ d. is_scheduled parse d ≡ true) runs
    History-scheduled defs runs on w u t =
        History-All _
          (subst (All (λ d. is_scheduled parse d ≡ true))
            (sym (register_tests_lem parse defs (record { entries = [] }))) (scheduled-All defs))
          t
