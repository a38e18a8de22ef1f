-- ===== src/Ingestor/Laws.antt =====
-- What the ingestor does with a message, on every branch.
use e2e_framework.Prelude.{◌≡◌, refl, eqb, Option, none, some, true, false, arith, if◌then◌else◌}
use e2e_framework.Domain.{Time, Message, ErrorKind, validation, internal, wrap, Result, ok, err}
use e2e_framework.Store.{Store}
use e2e_framework.Ingestor.{lacks_run_id, dated, date_message, ingest}

abbrev pub error_kind : Result (Unit {0}) → Option ErrorKind
error_kind (ok _) = none
error_kind (err e) = e.kind

-- What the caller gets for an answer of the store.
abbrev pub as_internal : Result (Unit {0}) → Result (Unit {0})
as_internal (ok _) = ok tt
as_internal (err e) = err (wrap internal e.text)

module _ {W : Type 0} (store : Store W) (now : W → Time × W) where
  -- A missing message, and one whose run id is blank or "unknown", is a validation error and
  -- leaves the world as it is.
  pub ingest_rejects :
      (o : Option Message) (w : W)
      → ((msg : Message) → o ≡ some msg → lacks_run_id msg ≡ true)
      → (error_kind (ingest store now o w).0 ≡ some validation) × ((ingest store now o w).1 ≡ w)
  unfolding ingest wrap
  ingest_rejects none w h = (refl, refl)
  ingest_rejects (some msg) w h = rw (h msg refl, ingest) (refl, refl)

  -- Any other message reaches the store once, with the present time if it had none; the store's
  -- refusal becomes an internal error, and the world is the one that the store leaves.
  pub ingest_deposits :
      (msg : Message) (w : W)
      → lacks_run_id msg ≡ false
      → let (sent, w') = date_message store now msg w in
        let (answer, w'') = store.deposit sent w' in
        (ingest store now (some msg) w ≡ (as_internal answer, w''))
        × (sent ≡ (if eqb msg.received_at 0 then record msg { received_at = (now w).0 } else msg))
  unfolding ingest
  ingest_deposits msg w h =
      let (sent, w') = date_message store now msg w in
      let (answer, w'') = store.deposit sent w' in
      rw (h, ingest) (ground arith, (unfold date_message dated in ground arith))
