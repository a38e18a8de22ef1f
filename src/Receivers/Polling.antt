-- ===== src/Receivers/Polling.antt =====
-- What the loops of the receivers return: Receivers.Poll, and that of receiver/api/receiver.go.
use e2e_framework.Prelude.{
  ℕ, zero, suc, ◌<◌, ◌≡◌, refl, ap, ◌∙◌, ◌⊎◌, inl, inr, ◌==◌, Option, Option-cases, none, some, [],
  false, arith,
}
use e2e_framework.Domain.{
  Duration, Vars, Time, Message, Error, wrap, failure_kind, timeout, Result, ok, err, Result-cases,
}
use e2e_framework.Template.Generators.{Random}
use e2e_framework.Assertion.Registry.{Registry}
use e2e_framework.Http.{HttpLib, HttpClient}
use e2e_framework.Receivers.Poll.{Waiting, poll}
use e2e_framework.Receivers.Api.{
  ApiReceiver, attempt_api, poll_api, collect_api, api_timeout, interval_of,
}

module _ {W A : Type 0} (look : W → Result (Option A) × W) (tick : W → W) where
  -- The looks at the ticks before the k-th, each of which finds nothing.
  abbrev pub IsEmptyUntil : ℕ → W → Type 0
  IsEmptyUntil zero w = Unit
  IsEmptyUntil (suc k) w = ((look (tick w)).0 ≡ ok none) × IsEmptyUntil k (look (tick w)).1

  -- The world after k looks, and the look at the next tick.
  abbrev pub world_at : ℕ → W → W
  world_at zero w = w
  world_at (suc k) w = world_at k (look (tick w)).1

  abbrev pub look_at : ℕ → W → Result (Option A) × W
  look_at k w = look (tick (world_at k w))

  -- What the look at a tick before the end finds is returned, in the world that this look leaves,
  -- if the looks before it have found nothing.
  pub poll-finds :
      (timed_out : Error) (n k : ℕ) (w w' : W) (a : A)
      → k < n
      → IsEmptyUntil k w
      → look_at k w ≡ (ok (some a), w')
      → poll look tick timed_out n w ≡ (ok a, w')
  unfolding poll
  poll-finds timed_out zero k w w' a h e f = absurd (omega arith)
  poll-finds timed_out (suc n) zero w w' a h e f = rw (ap (λ y. y.0) f, ap (λ y. y.1) f, poll) refl
  poll-finds timed_out (suc n) (suc k) w w' a h (none_, e) f =
      rw (none_, poll) (poll-finds timed_out n k (look (tick w)).1 w' a (omega arith) e f)

  -- The wait ends with nothing found at any tick and the error of the timeout, or at some tick
  -- before the end, after looks that found nothing, with what is found or with the error of the
  -- look at that tick.
  pub poll-outcomes :
      (timed_out : Error) (n : ℕ) (w : W)
      → (IsEmptyUntil n w × ((poll look tick timed_out n w).0 ≡ err timed_out))
        ⊎ ((k : ℕ) × (k < n)
            × IsEmptyUntil k w
            × (((a : A) × ((look_at k w).0 ≡ ok (some a))
                  × ((poll look tick timed_out n w).0 ≡ ok a))
                ⊎ ((e : Error) × ((look_at k w).0 ≡ err e)
                    × ((poll look tick timed_out n w).0 ≡ err e))))
  unfolding poll
  poll-outcomes timed_out zero w = inl (tt, refl)
  poll-outcomes timed_out (suc n) w = elim (Result-cases (look (tick w)).0) [
    | inr (e, q) ↦ inr (0, omega arith, tt, inr (e, q, rw (q, poll) refl))
    | inl (found, q) ↦ elim (Option-cases found) [
      | inr (a, z) ↦ inr (0, omega arith, tt, inl (a, q ∙ ap ok z, rw (q, z, poll) refl))
      | inl z ↦
          let none_ = q ∙ ap ok z in
          (elim (poll-outcomes timed_out n (look (tick w)).1) [
            | inl (e, r) ↦ inl ((none_, e), rw (none_, poll) r)
            | inr (k, h, e, rest) ↦ inr (suc k, omega arith, (none_, e), rw (none_, poll) rest)
          ])
    ]
  ]

module _ {W : Type 0} (lib : HttpLib) (r : Random W) (registry : Registry) (client : HttpClient W)
    (now : W → Time × W) (env : Waiting W) (a : ApiReceiver) (limit : Duration) where
  -- The k-th attempt, counted from 0, when the ones before it fail: the wait after a failure is
  -- the interval of the receiver.
  abbrev pub attempt_at : ℕ → Vars → W → Result Message × Vars × W
  attempt_at zero vars w = attempt_api lib r registry client now a limit vars w
  attempt_at (suc k) vars w =
      let (_, vars', w') = attempt_api lib r registry client now a limit vars w in
      attempt_at k vars' (env.tick (interval_of a.cfg) w')

  abbrev pub FailsUntil : ℕ → Vars → W → Type 0
  FailsUntil zero vars w = Unit
  FailsUntil (suc k) vars w =
      let (result, vars', w') = attempt_api lib r registry client now a limit vars w in
      ((e : Error) × (result ≡ err e)) × FailsUntil k vars' (env.tick (interval_of a.cfg) w')

  FailsUntil-suc :
      (n : ℕ) (vars : Vars) (w : W) (e : Error)
      → FailsUntil n vars w
      → (attempt_at n vars w).0 ≡ err e
      → FailsUntil (suc n) vars w
  FailsUntil-suc zero vars w e fails q = ((e, q), tt)
  FailsUntil-suc (suc n) vars w e (first, fails) q = (first, FailsUntil-suc n _ _ e fails q)

  poll_api-outcomes :
      (n : ℕ) (vars : Vars) (w : W)
      → ((k : ℕ) × (msg : Message) × (k < suc n)
          × FailsUntil k vars w
          × ((attempt_at k vars w).0 ≡ ok msg)
          × ((poll_api lib r registry client now env a limit n vars w).0 ≡ ok msg))
        ⊎ ((e : Error) × FailsUntil n vars w
            × ((attempt_at n vars w).0 ≡ err e)
            × ((poll_api lib r registry client now env a limit n vars w).0
                ≡ err (api_timeout env.done e)))
  unfolding poll_api
  poll_api-outcomes zero vars w =
      elim (Result-cases (attempt_api lib r registry client now a limit vars w).0) [
        | inl (msg, q) ↦ inl (0, msg, omega arith, tt, q, rw (q, poll_api) refl)
        | inr (e, q) ↦ inr (e, tt, q, rw (q, poll_api) refl)
      ]
  poll_api-outcomes (suc n) vars w =
      let (result, vars', w') = attempt_api lib r registry client now a limit vars w in
      elim (Result-cases result) [
        | inl (msg, q) ↦ inl (0, msg, omega arith, tt, q, rw (q, poll_api) refl)
        | inr (e, q) ↦ elim (poll_api-outcomes n vars' (env.tick (interval_of a.cfg) w')) [
          | inl (k, msg, h, fails, at, out) ↦
              inl (suc k, msg, omega arith, ((e, q), fails), at, rw (q, poll_api) out)
          | inr (last, fails, at, out) ↦ inr (last, ((e, q), fails), at, rw (q, poll_api) out)
        ]
      ]

  -- A receiver that has been started returns the message of the first attempt that succeeds, if
  -- that is one of those which the waits until the end leave room for. Otherwise all of these
  -- attempts fail, and so does the collection, with an error of the kind of a timeout, whatever
  -- the errors of the attempts are.
  pub collect_api-outcomes :
      (vars : Vars) (w : W)
      → (a.run_id == []) ≡ false
      → ((k : ℕ) × (msg : Message) × (k < suc (env.ticks limit w))
          × FailsUntil k vars w
          × ((attempt_at k vars w).0 ≡ ok msg)
          × ((collect_api lib r registry client now env a limit vars w).0 ≡ ok msg))
        ⊎ (FailsUntil (suc (env.ticks limit w)) vars w
            × (failure_kind (collect_api lib r registry client now env a limit vars w).0
                ≡ some timeout))
  unfolding collect_api api_timeout wrap
  collect_api-outcomes vars w started = elim (poll_api-outcomes (env.ticks limit w) vars w) [
    | inl (k, msg, h, fails, at, out) ↦ inl (k, msg, h, fails, at, rw (started, collect_api) out)
    | inr (e, fails, at, out) ↦
        inr (
          FailsUntil-suc (env.ticks limit w) vars w e fails at,
          rw (started, out, collect_api) refl,
        )
  ]
