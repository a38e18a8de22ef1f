-- ===== src/Lifecycle/Laws.antt =====
-- How the process ends.
use e2e_framework.Prelude.{
  ◌≡◌, ◌≢◌, refl, ◌⊎◌, inl, inr, Option, Option-cases, none, some, true, false, arith,
}
use e2e_framework.Domain.{Error}
use e2e_framework.Lifecycle.{
  StopError, server_closed, failure, Lifetime, all_running, kept, fail, stop_returned, Step, signal,
  serve_failed, shut_down, serve_closed, stop_done, scheduler_stopped, Reach, here, next, IsOver,
  reports_error,
}

-- What every state of the process has: `Shutdown` is called, and the scheduler stopped, only after
-- the cancellation; `apiServer.Stop` has returned only if `Shutdown` was called; `ListenAndServe` has
-- returned `ErrServerClosed` only then too; and what it returned is kept, or an error that came first.
pub record Inv (s : Lifetime) : Type 0 where
  pub shutting_down : s.shutting_down ≡ true → s.cancelled ≡ true
  pub stopped : (r : Option Error) → s.stopped ≡ some r → s.shutting_down ≡ true
  pub scheduler : s.scheduler_on ≡ false → s.cancelled ≡ true
  pub closed : s.served ≡ some server_closed → s.shutting_down ≡ true
  pub served : (e : StopError) → s.served ≡ some e → s.first ≢ none
  pub first : s.first ≡ some server_closed → s.served ≡ some server_closed

all_running-Inv : Inv all_running
all_running-Inv = record {
  shutting_down = λ h. cc;
  stopped = λ r h. cc;
  scheduler = λ h. cc;
  closed = λ h. cc;
  served = λ e h. cc;
  first = λ h. cc;
}

kept-ne-none : (o : Option StopError) (e : StopError) → kept o e ≢ none
unfolding kept
kept-ne-none none e h = cc
kept-ne-none (some old) e h = cc

kept-failure :
    (o : Option StopError) (e : Error)
    → kept o (failure e) ≡ some server_closed
    → o ≡ some server_closed
unfolding kept
kept-failure none e h = absurd (ground arith)
kept-failure (some old) e h = h

Step-Inv : {s u : Lifetime} → Step s u → Inv s → Inv u
unfolding fail stop_returned
Step-Inv signal v = record {
  shutting_down = λ h. refl;
  stopped = v.stopped;
  scheduler = λ h. refl;
  closed = v.closed;
  served = v.served;
  first = v.first;
}
Step-Inv (serve_failed {s} e h) v = record {
  shutting_down = λ h. refl;
  stopped = v.stopped;
  scheduler = λ h. refl;
  closed = λ q. cc;
  served = λ f q. kept-ne-none s.first _;
  first = λ q. absurd (ground (arith, h, v.first (kept-failure s.first e q)));
}
Step-Inv (shut_down c d) v = record {
  shutting_down = λ h. c;
  stopped = λ r h. refl;
  scheduler = v.scheduler;
  closed = λ h. refl;
  served = v.served;
  first = v.first;
}
Step-Inv (serve_closed {s} h d) v = record {
  shutting_down = λ h. refl;
  stopped = v.stopped;
  scheduler = λ h. refl;
  closed = λ q. d;
  served = λ f q. kept-ne-none s.first _;
  first = λ q. refl;
}
Step-Inv (stop_done none d h) v = record {
  shutting_down = v.shutting_down;
  stopped = λ r q. d;
  scheduler = v.scheduler;
  closed = v.closed;
  served = v.served;
  first = v.first;
}
Step-Inv (stop_done {s} (some e) d h) v = record {
  shutting_down = λ q. refl;
  stopped = λ r q. d;
  scheduler = λ q. refl;
  closed = v.closed;
  served = λ f q. kept-ne-none s.first _;
  first = λ q. v.first (kept-failure s.first e q);
}
Step-Inv (scheduler_stopped c d) v = record {
  shutting_down = v.shutting_down;
  stopped = v.stopped;
  scheduler = λ h. c;
  closed = v.closed;
  served = v.served;
  first = v.first;
}

Reach-Inv : {s u : Lifetime} → Inv s → Reach s u → Inv u
Reach-Inv v here = v
Reach-Inv v (next r st) = Step-Inv st (Reach-Inv v r)

first-cases :
    (s : Lifetime)
    → Inv s
    → (e : StopError) → s.served ≡ some e
    → (reports_error s.first ≡ true)
      ⊎ ((s.first ≡ some server_closed) × (s.served ≡ some server_closed))
unfolding reports_error
first-cases s v e h = elim (Option-cases s.first) [
  | inl q ↦ absurd (v.served e h q)
  | inr (server_closed, q) ↦ inr (q, v.first q)
  | inr (failure f, q) ↦ inl (rw q refl)
]

-- The process ends only after a signal or a failure, with the server shut down and the scheduler
-- stopped. It is logged as an error, or the error that is kept is the `http.ErrServerClosed` of
-- `ListenAndServe`.
pub Reach-IsOver :
    (s : Lifetime)
    → Reach all_running s
    → IsOver s
    → (s.cancelled ≡ true)
      × (s.shutting_down ≡ true)
      × (s.scheduler_on ≡ false)
      × ((reports_error s.first ≡ true)
          ⊎ ((s.first ≡ some server_closed) × (s.served ≡ some server_closed)))
Reach-IsOver s r over =
    let v = Reach-Inv all_running-Inv r in
    let (e, h) = over.served in
    let (x, g) = over.stopped in
    (v.scheduler over.scheduler, v.stopped x g, over.scheduler, first-cases s v e h)
