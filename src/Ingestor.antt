-- ===== src/Ingestor.antt =====
-- internal/core/services/ingestor.go: a message from a webhook is checked and put into the store.
pub mod Laws
use e2e_framework.Prelude.{
  ℕ, Text, lit, ◌==◌, ◌++◌, ◌||◌, eqb, trim_space, Option, none, some, [], if◌then◌else◌, true,
  false, Bool,
}
use e2e_framework.Domain.{
  Time, Message, Error, wrap, validation, internal, configuration, Result, ok, err,
}
use e2e_framework.Store.{Store}

-- `NewIngestor`; a store that is not given is `none`.
unfoldable pub new_ingestor : {W : Type 0} → Option (Store W) → Result (Store W)
new_ingestor none = err (wrap configuration (lit "store is required"))
new_ingestor (some store) = ok store

-- `strings.TrimSpace(msg.RunID) == "" || msg.RunID == "unknown"`
unfoldable pub lacks_run_id : Message → Bool
lacks_run_id msg = trim_space msg.run_id == [] || msg.run_id == lit "unknown"

-- A message without a time gets the present one.
unfoldable pub dated : Time → Message → Message
dated now msg = if eqb msg.received_at 0 then record msg { received_at = now } else msg

module _ {W : Type 0} (store : Store W) (now : W → Time × W) where
  stored : Result (Unit {0}) × W → Result (Unit {0}) × W
  stored (ok _, w) = (ok tt, w)
  stored (err e, w) = (err (wrap internal e.text), w)

  -- `if msg.ReceivedAt.IsZero() { msg.ReceivedAt = time.Now() }`
  unfoldable pub date_message : Message → W → Message × W
  date_message msg w = elim (eqb msg.received_at 0) [
    | true ↦ let (t, w') = now w in (dated t msg, w')
    | false ↦ (msg, w)
  ]

  -- `Ingest`
  unfoldable pub ingest : Option Message → W → Result (Unit {0}) × W
  unfolding stored date_message
  ingest none w = (err (wrap validation (lit "message is required")), w)
  ingest (some msg) w = elim (lacks_run_id msg) [
    | true ↦ (err (wrap validation (lit "run_id missing")), w)
    | false ↦ let (msg', w') = date_message msg w in stored (store.deposit msg' w')
  ]
