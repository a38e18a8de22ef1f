-- ===== src/Wiring/Laws.antt =====
-- The receivers of the service do not get in each other's way.
use e2e_framework.Prelude.{
  ℕ, ◌<◌, ◌≡◌, refl, ap, sym, subst, eqb, eqb_iff, Text, insert, lookup, ◌==◌, false, arith,
}
use e2e_framework.Domain.{Duration, Vars, ReceiverConfig, webhook_receiver_type, ok, err}
use e2e_framework.Ports.{Receiver}
use e2e_framework.Registries
use e2e_framework.Receivers.{
  ApiReceiver, GoImapClient, WebhookReceiver, collect_webhook, start_webhook,
}
use e2e_framework.Wiring.{
  World, Adapters, set_cell, webhook_receiver, api_receiver, imap_receiver, receiver_registry,
  allocate, new_orchestrator,
}

module _ {V : Type 0} (a : Adapters V) where
  -- The receivers that the service makes, by their cells.
  pub data Made (n : ℕ) : Receiver (World V) → Type 0 where
    webhook : Made n (webhook_receiver a n)
    api : (r : ApiReceiver) → Made n (api_receiver a r n)
    imap : (c : GoImapClient) → Made n (imap_receiver a c n)

  -- What happens to the receivers of the service, in any order, while one of them is not started
  -- again: receivers are made, started, asked to collect, and stopped, and the world moves on.
  pub data Meanwhile (n : ℕ) : World V → World V → Type 0 where
    done : {w : World V} → Meanwhile n w w
    moved : {w u : World V} (v : V) → Meanwhile n (record w { base = v }) u → Meanwhile n w u
    created :
        {w u : World V} (cfg : ReceiverConfig)
        → Meanwhile n ((new_orchestrator a).create_receiver cfg w).1 u
        → Meanwhile n w u
    started :
        {w u : World V} {m : ℕ} {r : Receiver (World V)}
        → Made m r
        → eqb m n ≡ false
        → (run_id : Text) (vars : Vars) → Meanwhile n (r.start run_id vars w).2 u
        → Meanwhile n w u
    collected :
        {w u : World V} {m : ℕ} {r : Receiver (World V)}
        → Made m r
        → (limit : Duration) (vars : Vars) → Meanwhile n (r.collect limit vars w).2 u
        → Meanwhile n w u
    stopped :
        {w u : World V} {m : ℕ} {r : Receiver (World V)}
        → Made m r
        → Meanwhile n (r.stop w).1 u
        → Meanwhile n w u

  -- The receiver exists, and has these fields.
  abbrev Has : ℕ → WebhookReceiver → World V → Type 0
  Has n x w = (n < w.next) × (w.cells n ≡ x)

  module _ (n : ℕ) (x : WebhookReceiver) where
    create-Has :
        (cfg : ReceiverConfig) (w : World V)
        → Has n x w
        → Has n x ((new_orchestrator a).create_receiver cfg w).1
    unfolding new_orchestrator set_cell
    create-Has cfg w h =
        elim (Registries.create_receiver (receiver_registry a) cfg)
          as (λ made. Has n x (allocate a made w).1) [
            | err e ↦ h
            | ok make ↦
                let apart : eqb w.next n ≡ false = ground (arith, h.0) in
                (omega (arith, h.0), rw apart h.1)
          ]

    start-Has :
        {m : ℕ} {r : Receiver (World V)} (w : World V)
        → Made m r
        → eqb m n ≡ false
        → (run_id : Text) (vars : Vars) → Has n x w
        → Has n x (r.start run_id vars w).2
    unfolding webhook_receiver api_receiver imap_receiver set_cell
    start-Has w webhook e run_id vars (l, h) = (l, rw e h)
    start-Has w (api r) e run_id vars (l, h) = (l, rw e h)
    start-Has w (imap c) e run_id vars (l, h) = (l, rw e h)

    collect-Has :
        {m : ℕ} {r : Receiver (World V)} (w : World V)
        → Made m r
        → (limit : Duration) (vars : Vars) → Has n x w
        → Has n x (r.collect limit vars w).2
    unfolding webhook_receiver api_receiver imap_receiver
    collect-Has w webhook limit vars h = h
    collect-Has w (api r) limit vars h = h
    collect-Has w (imap c) limit vars h = h

    stop-Has :
        {m : ℕ} {r : Receiver (World V)} (w : World V) → Made m r → Has n x w → Has n x (r.stop w).1
    unfolding webhook_receiver api_receiver imap_receiver
    stop-Has w webhook h = h
    stop-Has w (api r) h = h
    stop-Has w (imap c) h = h

    Meanwhile-Has : {w u : World V} → Meanwhile n w u → Has n x w → Has n x u
    Meanwhile-Has done h = h
    Meanwhile-Has (moved v c) h = Meanwhile-Has c h
    Meanwhile-Has (created {w} cfg c) h = Meanwhile-Has c (create-Has cfg w h)
    Meanwhile-Has (started {w} r e run_id vars c) h =
        Meanwhile-Has c (start-Has w r e run_id vars h)
    Meanwhile-Has (collected {w} r limit vars c) h = Meanwhile-Has c (collect-Has w r limit vars h)
    Meanwhile-Has (stopped {w} r c) h = Meanwhile-Has c (stop-Has w r h)

  webhook-made :
      (cfg : ReceiverConfig)
      → cfg.type ≡ webhook_receiver_type
      → Registries.create_receiver (receiver_registry a) cfg ≡ ok (webhook_receiver a)
  unfolding receiver_registry Registries.register_receiver Registries.create_receiver insert lookup
      ◌==◌
  webhook-made cfg e = rw (e, Registries.create_receiver) refl

  created_lem :
      (cfg : ReceiverConfig) (w : World V)
      → cfg.type ≡ webhook_receiver_type
      → (new_orchestrator a).create_receiver cfg w ≡ allocate a (ok (webhook_receiver a)) w
  unfolding new_orchestrator
  created_lem cfg w e = ap (λ made. allocate a made w) (webhook-made cfg e)

  start_webhook-Has :
      (w : World V) (run_id : Text) (vars : Vars)
      → Has w.next
          (record { run_id = run_id; started_at = (a.now w.base).0 })
          ((webhook_receiver a w.next).start run_id vars
            (allocate a (ok (webhook_receiver a)) w).1).2
  unfolding webhook_receiver start_webhook set_cell allocate
  start_webhook-Has w run_id vars = (omega arith, rw ((eqb_iff w.next w.next).1 refl) refl)

  -- A receiver configuration of type webhook makes a webhook receiver. Once this is started for a
  -- run, it collects for that run, whatever other receivers the service makes, starts, asks to
  -- collect or stops in between, and as often as it has collected or been stopped itself.
  pub collect-start :
      (cfg : ReceiverConfig) (w u : World V) (run_id : Text) (vars vars' : Vars) (limit : Duration)
      → cfg.type ≡ webhook_receiver_type
      → Meanwhile w.next
          ((webhook_receiver a w.next).start run_id vars
            ((new_orchestrator a).create_receiver cfg w).1).2
          u
      → (((new_orchestrator a).create_receiver cfg w).0 ≡ ok (webhook_receiver a w.next))
        × (((webhook_receiver a w.next).collect limit vars' u).0
            ≡ (collect_webhook a.store a.now a.waiting
                (record { run_id = run_id; started_at = (a.now w.base).0 })
                limit
                u.base).0)
  unfolding webhook_receiver allocate
  collect-start cfg w u run_id vars vars' limit e m =
      let made = created_lem cfg w e in
      let n = w.next in
      let x : WebhookReceiver = record { run_id = run_id; started_at = (a.now w.base).0 } in
      let before =
        subst (λ y. Has n x ((webhook_receiver a n).start run_id vars y.1).2) (sym made)
          (start_webhook-Has w run_id vars) in
      (
        ap (λ y. y.0) made,
        ap (λ y. (collect_webhook a.store a.now a.waiting y limit u.base).0)
            (Meanwhile-Has n x m before).1,
      )
