-- ===== src/Wiring.antt =====
-- cmd/server/main.go, as far as it puts the adapters together: the registries of triggers and
-- receivers, and what the orchestrator is given. The receivers that are made keep the fields that
-- `Start` sets in cells of their own.
pub mod Laws
pub mod Stores
use e2e_framework.Prelude.{ℕ, ◌+◌, Text, lit, eqb, Dict, Option, some, List, [], if◌then◌else◌}
use e2e_framework.Domain.{
  Duration, Time, Vars, ReceiverConfig, Result, ok, err, http_trigger_type, webhook_receiver_type,
  imap_receiver_type, api_receiver_type,
}
use e2e_framework.Store.{Store}
use e2e_framework.Ports.{Trigger, Receiver, ActiveReceiver, Ports}
use e2e_framework.Template.Generators.{Random}
use e2e_framework.Assertion.Registry.{Registry}
use e2e_framework.Assertion
use e2e_framework.Http.{HttpLib, HttpClient, new_http_trigger}
use e2e_framework.Notifier.{notify_http}
use e2e_framework.Registries
use e2e_framework.Receivers.{
  Waiting, WebhookReceiver, new_webhook_receiver, start_webhook, collect_webhook, ApiReceiver,
  new_api_receiver, start_api, collect_api, GoImapClient, ImapClient, new_imap_client, start_imap,
  collect_imap, stop_imap,
}

-- What is outside the receivers, the fields of the receivers, and how many have been made.
pub record World (V : Type 0) : Type 0 where
  pub base : V
  pub cells : ℕ → WebhookReceiver
  pub next : ℕ

-- The adapters of the service. `imap` is the client of a receiver with its connection.
pub record Adapters (V : Type 0) : Type 0 where
  pub store : Store V
  pub client : HttpClient V
  pub imap : ℕ → GoImapClient → ImapClient V
  pub random : Random V
  pub now : V → Time × V
  pub sleep : Duration → V → V
  pub go : (V → V) → V → V
  pub waiting : Waiting V
  pub lib : HttpLib
  pub assertions : Registry
  pub atoi_error : Text → Text
  pub finish_order : V → List (ActiveReceiver (World V)) → List (ActiveReceiver (World V))

unfoldable pub set_cell : {V : Type 0} → ℕ → WebhookReceiver → World V → World V
set_cell n r w = record w { cells = λ k. if eqb n k then r else w.cells k }

-- An operation on what is outside.
abbrev pub outside : {A V : Type 0} → (V → A × V) → World V → A × World V
outside f w = let (a, v) = f w.base in (a, record w { base = v })

abbrev pub outside_vars : {A V : Type 0} → (V → A × Vars × V) → World V → A × Vars × World V
outside_vars f w = let (a, vars, v) = f w.base in (a, vars, record w { base = v })

module _ {V : Type 0} (a : Adapters V) where
  unfoldable pub lifted_store : Store (World V)
  lifted_store = record {
    deposit = λ m. outside (a.store.deposit m);
    claim = λ run_id type. outside (a.store.claim run_id type);
    reserve = λ channel recipient run_id. outside (a.store.reserve channel recipient run_id);
    release = λ channel recipient. outside (a.store.release channel recipient);
    delete = λ run_id type. outside (a.store.delete run_id type);
    close = outside a.store.close;
  }

  -- `receiverwebhook.NewWebhookReceiver(s)` as a `Receiver`; its `Stop` does nothing.
  unfoldable pub webhook_receiver : ℕ → Receiver (World V)
  webhook_receiver n = record {
    start = λ run_id vars w.
        let (r, v) = start_webhook a.store a.now a.waiting run_id (w.cells n) w.base in
        (ok tt, vars, set_cell n r (record w { base = v }));
    collect = λ limit vars w.
        let (r, v) = collect_webhook a.store a.now a.waiting (w.cells n) limit w.base in
        (r, vars, record w { base = v });
    stop = λ w. (ok tt, w);
  }

  -- `receiverapi.NewAPIPollingReceiver` as a `Receiver`; its `Stop` does nothing.
  unfoldable pub api_receiver : ApiReceiver → ℕ → Receiver (World V)
  api_receiver r n = record {
    start = λ run_id vars w.
        (ok tt, vars, set_cell n (record (w.cells n) { run_id = (start_api run_id r).run_id }) w);
    collect = λ limit vars. λ w.
        outside_vars
          (collect_api a.lib a.random a.assertions a.client a.now a.waiting
            (record r { run_id = (w.cells n).run_id }) limit vars)
          w;
    stop = λ w. (ok tt, w);
  }

  -- `imap.NewIMAPReceiver` as a `Receiver`.
  unfoldable pub imap_receiver : GoImapClient → ℕ → Receiver (World V)
  imap_receiver c n = record {
    start = λ run_id vars w.
        let (r, id, v) = start_imap (a.imap n c) a.waiting run_id (w.cells n).run_id w.base in
        (r, vars, set_cell n (record (w.cells n) { run_id = id }) (record w { base = v }));
    collect = λ limit vars w.
        let (r, v) = collect_imap (a.imap n c) a.waiting (w.cells n).run_id limit w.base in
        (r, vars, record w { base = v });
    stop = outside (stop_imap (a.imap n c) a.waiting);
  }

  made : {A B : Type 0} → (A → B) → Result A → Result B
  made f (err e) = err e
  made f (ok x) = ok (f x)

  -- `receiverRegistry`
  unfoldable pub receiver_registry : Dict (ReceiverConfig → Result (ℕ → Receiver (World V)))
  unfolding made
  receiver_registry =
      Registries.register_receiver api_receiver_type
        (λ cfg. made api_receiver (new_api_receiver cfg))
        (Registries.register_receiver imap_receiver_type
          (λ cfg. made imap_receiver (new_imap_client a.atoi_error cfg.options))
          (Registries.register_receiver webhook_receiver_type (λ cfg. ok webhook_receiver) []))

  -- A receiver that is made has a cell of its own, as Go's zero values leave it.
  unfoldable pub allocate :
      Result (ℕ → Receiver (World V)) → World V → Result (Receiver (World V)) × World V
  allocate (err e) w = (err e, w)
  allocate (ok make) w =
      (ok (make w.next), record (set_cell w.next new_webhook_receiver w) { next = w.next + 1 })

  lifted_trigger : Trigger V → Trigger (World V)
  lifted_trigger t = record {
    execute = λ cfg run_id vars. outside_vars (t.execute cfg run_id vars);
  }

  -- `triggerRegistry`
  unfoldable pub trigger_registry : Dict (Vars → Result (Trigger (World V)))
  unfolding made lifted_trigger
  trigger_registry =
      Registries.register_trigger http_trigger_type
        (λ options.
          made lifted_trigger (new_http_trigger a.lib a.random (some a.assertions) (some a.client)))
        []

  -- `services.NewOrchestrator`, with the clock and the scheduler of the process.
  unfoldable pub new_orchestrator : Ports (World V)
  unfolding lifted_store receiver_registry trigger_registry allocate
  new_orchestrator = record {
    random = record {
      new_uuid = outside a.random.new_uuid;
      int_n = λ n. outside (a.random.int_n n);
    };
    store = lifted_store;
    create_trigger = λ type options w. (Registries.create_trigger trigger_registry type options, w);
    create_receiver = λ cfg. allocate (Registries.create_receiver receiver_registry cfg);
    create_assertion = Assertion.create a.assertions;
    notify = λ cfg result. outside (notify_http a.lib a.random a.client a.sleep cfg result);
    now = outside a.now;
    sleep = λ d w. record w { base = a.sleep d w.base };
    go = λ f w. record w { base = a.go (λ v. (f (record w { base = v })).base) w.base };
    finish_order = λ w. a.finish_order w.base;
  }
