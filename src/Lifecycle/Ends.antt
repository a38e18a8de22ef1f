-- ===== src/Lifecycle/Ends.antt =====
-- The process can end, and may lose an error on the way.
use e2e_framework.Prelude.{
  ◌≡◌, refl, ◌∙◌, inl, inr, Option, Option-cases, none, some, Bool-cases, true, false,
}
use e2e_framework.Domain.{Error}
use e2e_framework.Lifecycle.{
  StopError, server_closed, Lifetime, all_running, kept, fail, stop_returned, Step, signal,
  shut_down, serve_closed, stop_done, scheduler_stopped, Reach, here, next, IsOver, reports_error,
}

pub Reach-trans : {s t u : Lifetime} → Reach s t → Reach t u → Reach s u
Reach-trans r here = r
Reach-trans r (next q st) = next (Reach-trans r q) st

-- The end can be reached.
abbrev Ends : Lifetime → Type 0
Ends s = (u : Lifetime) × Reach s u × IsOver u

Step-Ends : {s t : Lifetime} → Step s t → Ends t → Ends s
Step-Ends st (u, r, over) = (u, Reach-trans (next here st) r, over)

scheduler-Ends :
    (s : Lifetime) (e : StopError) (y : Option Error)
    → s.cancelled ≡ true
    → s.served ≡ some e
    → s.stopped ≡ some y
    → Ends s
scheduler-Ends s e y c h g = elim (Bool-cases s.scheduler_on) [
  | inl on ↦ (
    _,
    next here (scheduler_stopped c on),
    record { served = (e, h); stopped = (y, g); scheduler = refl },
  )
  | inr off ↦ (s, here, record { served = (e, h); stopped = (y, g); scheduler = off })
]

-- What `Shutdown` answers where it has not done so yet.
module _ (x : Option Error) where
  stop_returned_lem :
      (s : Lifetime)
      → s.cancelled ≡ true
      → ((stop_returned x s).cancelled ≡ true)
        × ((stop_returned x s).served ≡ s.served)
        × ((stop_returned x s).stopped ≡ some x)
  unfolding stop_returned fail
  stop_returned_lem s c =
      elim x
        as (λ y.
          ((stop_returned y s).cancelled ≡ true)
          × ((stop_returned y s).served ≡ s.served)
          × ((stop_returned y s).stopped ≡ some y)) [
            | none ↦ (c, refl, refl)
            | some e ↦ (refl, refl, refl)
          ]

  stop-Ends :
      (s : Lifetime) (e : StopError)
      → s.cancelled ≡ true
      → s.served ≡ some e
      → s.shutting_down ≡ true
      → Ends s
  stop-Ends s e c h d = elim (Option-cases s.stopped) [
    | inr (y, g) ↦ scheduler-Ends s e y c h g
    | inl g ↦
        let (c', h', g') = stop_returned_lem s c in
        Step-Ends (stop_done x d g) (scheduler-Ends (stop_returned x s) e x c' (h' ∙ h) g')
  ]

  serve-Ends : (s : Lifetime) → s.cancelled ≡ true → s.shutting_down ≡ true → Ends s
  serve-Ends s c d = elim (Option-cases s.served) [
    | inr (e, h) ↦ stop-Ends s e c h d
    | inl h ↦ Step-Ends (serve_closed h d) (unfold fail in stop-Ends _ server_closed refl refl d)
  ]

  -- Once the context is cancelled, by a signal or by a failure, the process can come to its end,
  -- whatever `Shutdown` answers.
  pub cancelled-Ends : (s : Lifetime) → s.cancelled ≡ true → (u : Lifetime) × Reach s u × IsOver u
  cancelled-Ends s c = elim (Bool-cases s.shutting_down) [
    | inl d ↦ serve-Ends s c d
    | inr d ↦ Step-Ends (shut_down c d) (serve-Ends (record s { shutting_down = true }) c refl)
  ]

-- After a signal, an error of `Shutdown`, as when its five seconds are over, need not be logged:
-- there is an end in which it has been returned, and that is logged as a clean one.
pub lost_error :
    (e : Error)
    → (u : Lifetime) × Reach all_running u
      × IsOver u
      × (u.stopped ≡ some (some e))
      × (reports_error u.first ≡ false)
unfolding fail stop_returned kept reports_error
lost_error e = (
  _,
  next
      (next (next (next (next here signal) (shut_down refl refl)) (serve_closed refl refl))
        (stop_done (some e) refl refl))
      (scheduler_stopped refl refl),
  record { served = (server_closed, refl); stopped = (some e, refl); scheduler = refl },
  refl,
  refl,
)
