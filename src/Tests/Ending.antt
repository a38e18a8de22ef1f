-- ===== src/Tests/Ending.antt =====
-- The end of the process after a signal.
use e2e_framework.Prelude.{◌≡◌, refl, ◌⊎◌, lit, some, none, true, false}
use e2e_framework.Domain.{Error, plain}
use e2e_framework.Lifecycle.{
  server_closed, Lifetime, all_running, kept, fail, stop_returned, signal, shut_down, serve_closed,
  stop_done, scheduler_stopped, Reach, here, next, IsOver, reports_error,
}
use e2e_framework.Lifecycle.Laws.{Reach-IsOver}
use e2e_framework.Lifecycle.Ends.{lost_error}

abbrev ended : Lifetime
ended = record {
  cancelled = true;
  served = some server_closed;
  shutting_down = true;
  stopped = some none;
  scheduler_on = false;
  first = some server_closed;
}

ended-Reach : Reach all_running ended
unfolding fail stop_returned kept
ended-Reach =
    next
      (next (next (next (next here signal) (scheduler_stopped refl refl)) (shut_down refl refl))
        (serve_closed refl refl))
      (stop_done none refl refl)

Reach-IsOver_example :
    (ended.cancelled ≡ true)
    × (ended.shutting_down ≡ true)
    × (ended.scheduler_on ≡ false)
    × ((reports_error ended.first ≡ true)
        ⊎ ((ended.first ≡ some server_closed) × (ended.served ≡ some server_closed)))
Reach-IsOver_example =
    Reach-IsOver ended ended-Reach
      (record { served = (server_closed, refl); stopped = (none, refl); scheduler = refl })

abbrev late : Error
late = plain (lit "context deadline exceeded")

lost_error_example :
    (u : Lifetime) × Reach all_running u
    × IsOver u
    × (u.stopped ≡ some (some late))
    × (reports_error u.first ≡ false)
lost_error_example = lost_error late
