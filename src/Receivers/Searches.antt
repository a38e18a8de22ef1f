-- ===== src/Receivers/Searches.antt =====
-- What the IMAP receiver collects: receiver/imap/receiver.go, with the loop of Receivers.Poll.
use e2e_framework.Prelude.{
  ℕ, zero, suc, ◌<◌, ◌≡◌, refl, ap, ◌∙◌, subst, ◌⊎◌, inl, inr, Text, ◌==◌, Option, none, some, [],
  false, arith,
}
use e2e_framework.Domain.{
  Duration, Message, Error, wrap, failure_kind, timeout, internal, Result, ok, err, Result-cases,
}
use e2e_framework.Receivers.Poll.{Waiting}
use e2e_framework.Receivers.Imap.{
  ImapClient, imap_interval, imap_timeout, search_inbox, collect_imap,
}
use e2e_framework.Receivers.Polling.{IsEmptyUntil, world_at, poll-outcomes}

module _ {W : Type 0} (client : ImapClient W) (env : Waiting W) (run_id : Text) where
  -- The answer of the client to the search at the next tick, and the world after it.
  abbrev searched : W → Result (Option Message) × W
  searched w = client.search_by_run_id run_id (env.tick imap_interval w)

  abbrev world_after : ℕ → W → W
  world_after zero w = w
  world_after (suc k) w = world_after k (searched w).1

  -- What the client answers to the search at the k-th tick.
  abbrev pub answer_at : ℕ → W → Result (Option Message)
  answer_at k w = (searched (world_after k w)).0

  -- The client answers to the searches at the ticks before the k-th that there is no mail.
  abbrev pub FoundNothing : ℕ → W → Type 0
  FoundNothing zero w = Unit
  FoundNothing (suc k) w = ((searched w).0 ≡ ok none) × FoundNothing k (searched w).1

  abbrev look : W → Result (Option Message) × W
  look = search_inbox client env run_id

  abbrev next : W → W
  next = env.tick imap_interval

  search_inbox-world : (v : W) → (look v).1 ≡ (client.search_by_run_id run_id v).1
  unfolding search_inbox
  search_inbox-world v = elim (Result-cases (client.search_by_run_id run_id v).0) [
    | inr (e, q) ↦ rw (q, search_inbox) refl
    | inl (found, q) ↦ rw (q, search_inbox) refl
  ]

  search_inbox-ok :
      (v : W) (found : Option Message)
      → (look v).0 ≡ ok found
      → (client.search_by_run_id run_id v).0 ≡ ok found
  unfolding search_inbox
  search_inbox-ok v found h = elim (Result-cases (client.search_by_run_id run_id v).0) [
    | inr (e, q) ↦ absurd (ground (arith, q))
    | inl (found', q) ↦ ground (arith, q)
  ]

  world_at-world_after : (k : ℕ) (w : W) → world_at look next k w ≡ world_after k w
  world_at-world_after zero w = refl
  world_at-world_after (suc k) w =
      ap (world_at look next k) (search_inbox-world (next w))
      ∙ world_at-world_after k (searched w).1

  IsEmptyUntil-FoundNothing : (k : ℕ) (w : W) → IsEmptyUntil look next k w → FoundNothing k w
  IsEmptyUntil-FoundNothing zero w h = tt
  IsEmptyUntil-FoundNothing (suc k) w (e, h) = (
    search_inbox-ok (next w) none e,
    subst (FoundNothing k) (search_inbox-world (next w))
        (IsEmptyUntil-FoundNothing k (look (next w)).1 h),
  )

  search_inbox-failed :
      (v : W) (e : Error)
      → (search_inbox client env run_id v).0 ≡ err e
      → ((f : Error) × ((client.search_by_run_id run_id v).0 ≡ err f)) × (e.kind ≡ some internal)
  unfolding search_inbox wrap
  search_inbox-failed v e h = elim (Result-cases (client.search_by_run_id run_id v).0) [
    | inr (f, q) ↦ ((f, q), ground (arith, q))
    | inl (found, q) ↦ absurd (ground (arith, q))
  ]

  -- A receiver that has been started, whose context has a deadline, searches at every tick before
  -- it until a search finds a mail or fails. It returns the first mail that is found. If a search
  -- fails, it returns an internal error at once. If all the searches find nothing, it returns an
  -- error of the kind of a timeout.
  pub collect_imap-outcomes :
      (limit : Duration) (w : W)
      → (run_id == []) ≡ false
      → (FoundNothing (env.ticks limit w) w
          × (failure_kind (collect_imap client env run_id limit w).0 ≡ some timeout))
        ⊎ ((k : ℕ) × (k < env.ticks limit w)
            × FoundNothing k w
            × (((msg : Message) × (answer_at k w ≡ ok (some msg))
                  × ((collect_imap client env run_id limit w).0 ≡ ok msg))
                ⊎ (((e : Error) × (answer_at k w ≡ err e))
                    × (failure_kind (collect_imap client env run_id limit w).0 ≡ some internal))))
  unfolding collect_imap imap_timeout wrap
  collect_imap-outcomes limit w started =
      elim (poll-outcomes look next (imap_timeout run_id env.done) (env.ticks limit w) w) [
        | inl (nothing, out) ↦ inl (
          IsEmptyUntil-FoundNothing (env.ticks limit w) w nothing,
          rw (started, out, collect_imap) refl,
        )
        | inr (k, h, nothing, inl (msg, at, out)) ↦ inr (
          k,
          h,
          IsEmptyUntil-FoundNothing k w nothing,
          inl (
            msg,
            subst (λ v. (searched v).0 ≡ ok (some msg)) (world_at-world_after k w)
                (search_inbox-ok _ (some msg) at),
            rw (started, out, collect_imap) refl,
          ),
        )
        | inr (k, h, nothing, inr (e, at, out)) ↦
            let ((f, failed), kind) = search_inbox-failed _ e at in
            inr (
              k,
              h,
              IsEmptyUntil-FoundNothing k w nothing,
              inr (
                (f, subst (λ v. (searched v).0 ≡ err f) (world_at-world_after k w) failed),
                rw (started, out, collect_imap) kind,
              ),
            )
      ]
