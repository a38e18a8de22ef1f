-- ===== src/Lifecycle.antt =====
-- The end of `main` in cmd/server/main.go, with `Start` and `Stop` of the API server and of the
-- scheduler: three goroutines of an errgroup, until all of them have returned. What net/http, errgroup
-- and the signals of the system do is the choice of the steps: `ListenAndServe` returns an error, and
-- `http.ErrServerClosed` once `Shutdown` has been called; `Shutdown` returns in its own time; the first
-- error of the group is kept and cancels its context.
pub mod Laws
pub mod Ends
use e2e_framework.Prelude.{◌≡◌, Option, none, some, Bool, true, false}
use e2e_framework.Domain.{Error}

pub data StopError : Type 0 where
  server_closed : StopError
  failure : Error → StopError

-- `served` is what `ListenAndServe` has returned and `stopped` what `apiServer.Stop` has, when they
-- have; `first` is the error that the group keeps.
pub record Lifetime : Type 0 where
  pub cancelled : Bool
  pub served : Option StopError
  pub shutting_down : Bool
  pub stopped : Option (Option Error)
  pub scheduler_on : Bool
  pub first : Option StopError

-- The goroutines have been started, and the scheduler.
abbrev pub all_running : Lifetime
all_running = record {
  cancelled = false;
  served = none;
  shutting_down = false;
  stopped = none;
  scheduler_on = true;
  first = none;
}

-- `errOnce` of the group: the first error is kept.
unfoldable pub kept : Option StopError → StopError → Option StopError
kept none e = some e
kept (some old) e = some old

-- A goroutine returns an error.
unfoldable pub fail : StopError → Lifetime → Lifetime
fail e s = record s { cancelled = true; first = kept s.first e }

-- `apiServer.Stop` returns.
unfoldable pub stop_returned : Option Error → Lifetime → Lifetime
stop_returned none s = record s { stopped = some none }
stop_returned (some e) s = fail (failure e) (record s { stopped = some (some e) })

pub data Step : Lifetime → Lifetime → Type 0 where
  signal : {s : Lifetime} → Step s (record s { cancelled = true })
  serve_failed :
      {s : Lifetime} (e : Error)
      → s.served ≡ none
      → Step s (fail (failure e) (record s { served = some (failure e) }))
  shut_down :
      {s : Lifetime}
      → s.cancelled ≡ true
      → s.shutting_down ≡ false
      → Step s (record s { shutting_down = true })
  serve_closed :
      {s : Lifetime}
      → s.served ≡ none
      → s.shutting_down ≡ true
      → Step s (fail server_closed (record s { served = some server_closed }))
  stop_done :
      {s : Lifetime} (r : Option Error)
      → s.shutting_down ≡ true
      → s.stopped ≡ none
      → Step s (stop_returned r s)
  scheduler_stopped :
      {s : Lifetime}
      → s.cancelled ≡ true
      → s.scheduler_on ≡ true
      → Step s (record s { scheduler_on = false })

pub data Reach (s : Lifetime) : Lifetime → Type 0 where
  here : Reach s s
  next : {t u : Lifetime} → Reach s t → Step t u → Reach s u

-- The three goroutines have returned, and so does `g.Wait`, with the error that is kept.
pub record IsOver (s : Lifetime) : Type 0 where
  pub served : (e : StopError) × (s.served ≡ some e)
  pub stopped : (r : Option Error) × (s.stopped ≡ some r)
  pub scheduler : s.scheduler_on ≡ false

-- `err != nil && !errors.Is(err, http.ErrServerClosed)`: whether the end is logged as an error.
unfoldable pub reports_error : Option StopError → Bool
reports_error none = false
reports_error (some server_closed) = false
reports_error (some (failure e)) = true
