-- ===== src/Receivers/Webhook.antt =====
-- internal/adapters/secondary/receiver/webhook/receiver.go
use e2e_framework.Prelude.{Text, lit, ◌++◌, ◌==◌, ◌^◌, pos, Option, [], if◌then◌else◌}
use e2e_framework.Domain.{
  Duration, Time, Message, webhook_receiver_type, Error, wrap, configuration, internal, timeout,
  Result, ok, err,
}
use e2e_framework.Store.{Store}
use e2e_framework.Receivers.Poll.{Waiting, poll}

-- The fields that `Start` sets; `run_id` is empty before.
pub record WebhookReceiver : Type 0 where
  pub run_id : Text
  pub started_at : Time

abbrev pub new_webhook_receiver : WebhookReceiver
new_webhook_receiver = record { run_id = []; started_at = 0 }

unfoldable pub not_started : Error
not_started = wrap configuration (lit "receiver not started")

unfoldable pub webhook_timeout : Text → Error
webhook_timeout done = wrap timeout (lit "timeout waiting for webhook message: " ++ done)

-- `time.NewTicker(1 * time.Second)`
abbrev pub webhook_interval : Duration
webhook_interval = pos (10 ^ 9)

module _ {W : Type 0} (store : Store W) (now : W → Time × W) (env : Waiting W) where
  -- `Start`
  unfoldable pub start_webhook : Text → WebhookReceiver → W → WebhookReceiver × W
  start_webhook run_id r w = let (t, w') = now w in (record { run_id = run_id; started_at = t }, w')

  unfoldable pub claim_webhook : Text → W → Result (Option Message) × W
  claim_webhook run_id w =
      let (r, w') = store.claim run_id webhook_receiver_type w in
      elim r [
        | err e ↦ (err (wrap internal (lit "failed to claim message from store: " ++ e.text)), w')
        | ok found ↦ (ok found, w')
      ]

  -- `Collect`
  unfoldable pub collect_webhook : WebhookReceiver → Duration → W → Result Message × W
  collect_webhook r limit w =
      if r.run_id == []
      then (err not_started, w)
      else poll (claim_webhook r.run_id) (env.tick webhook_interval) (webhook_timeout env.done)
          (env.ticks limit w) w
