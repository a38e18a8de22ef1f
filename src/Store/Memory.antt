-- ===== src/Store/Memory.antt =====
-- internal/adapters/secondary/store/memory.go. A method is one critical section of the mutex; it
-- takes the readings of the clock that it makes. `encoding/json` is a parameter.
pub mod Messages
pub mod Reservations
pub mod Port
pub mod Refines
pub mod Answers
use e2e_framework.Prelude.{
  ℕ, suc, ◌+◌, ◌-◌, ◌*◌, ◌^◌, Text, lit, Dict, lookup, insert, delete, ℤ, pos, negsuc, ltb,
  if◌then◌else◌, Option, none, some, [], ◌++◌,
}
use e2e_framework.Domain.{Duration, Time, Message, Error, wrap, Result, ok, err, internal}

-- `encoding/json` on messages.
pub record Json : Type 0 where
  pub marshal : Message → Result Text
  pub unmarshal : Text → Result Message

pub record MemEntry : Type 0 where
  pub payload : Text
  pub expires_at : Time

pub record MemReservation : Type 0 where
  pub run_id : Text
  pub expires_at : Time

pub record MemoryStore : Type 0 where
  pub messages : Dict MemEntry
  pub reservations : Dict MemReservation
  pub ttl : Duration

abbrev pub new_memory_store : Duration → MemoryStore
new_memory_store ttl = record { messages = []; reservations = []; ttl = ttl }

-- `t.Add(d)`, of a time far from Go's zero time.
abbrev pub add_duration : Time → Duration → Time
add_duration t (pos d) = t + d
add_duration t (negsuc d) = t - suc d

-- redis.go declares it: one hour.
abbrev pub reservation_ttl : Duration
reservation_ttl = pos (3600 * 10 ^ 9)

-- `fmt.Sprintf("%s:%s", a, b)`
unfoldable pub pair_key : Text → Text → Text
pair_key a b = a ++ (lit ":" ++ b)

unfoldable pub already_reserved : Text → Text → Text → Error
already_reserved channel recipient holder = wrap internal (
    lit "recipient "
    ++ (channel ++ (lit ":" ++ (recipient ++ (lit " already reserved by run " ++ holder)))))

unfoldable pub serialize_error : Error → Error
serialize_error e = wrap internal (lit "failed to serialize message: " ++ e.text)

unfoldable pub deserialize_error : Error → Error
deserialize_error e = wrap internal (lit "failed to deserialize message: " ++ e.text)

module _ (json : Json) where
  -- `Deposit`
  unfoldable pub deposit : Message → Time → MemoryStore → Result (Unit {0}) × MemoryStore
  deposit msg now s = elim (json.marshal msg) [
    | err e ↦ (err (serialize_error e), s)
    | ok payload ↦ (
      ok tt,
      record s {
        messages =
            insert (pair_key msg.run_id msg.receiver_type)
              (record { payload = payload; expires_at = add_duration now s.ttl }) s.messages;
      },
    )
  ]

  decoded : Result Message → Result (Option Message)
  decoded (ok m) = ok (some m)
  decoded (err e) = err (deserialize_error e)

  -- An entry is gone once `expiresAt.Before(now)`.
  unfoldable pub claimed : Option MemEntry → Time → Result (Option Message)
  unfolding decoded
  claimed none now = ok none
  claimed (some e) now =
      if ltb e.expires_at now then ok none else decoded (json.unmarshal e.payload)

  -- `Claim`, which leaves the message where it is.
  unfoldable pub claim : Text → Text → Time → MemoryStore → Result (Option Message) × MemoryStore
  unfolding claimed
  claim run_id receiver_type now s =
      (claimed (lookup (pair_key run_id receiver_type) s.messages) now, s)

-- The run that holds the recipient, if `expiresAt.After(now)`.
unfoldable pub holder : Option MemReservation → Time → Option Text
holder none now = none
holder (some r) now = if ltb now r.expires_at then some r.run_id else none

-- `Reserve`: it reads the clock once for the test, and once more for the expiry.
unfoldable pub reserve :
    Text → Text → Text → Time → Time → MemoryStore → Result (Unit {0}) × MemoryStore
unfolding holder
reserve channel recipient run_id now later s =
    let key = pair_key channel recipient in
    elim (holder (lookup key s.reservations) now) [
      | some other ↦ (err (already_reserved channel recipient other), s)
      | none ↦ (
        ok tt,
        record s {
          reservations =
              insert key
                (record { run_id = run_id; expires_at = add_duration later reservation_ttl })
                s.reservations;
        },
      )
    ]

-- `Release`, whoever holds the recipient.
unfoldable pub release : Text → Text → MemoryStore → Result (Unit {0}) × MemoryStore
release channel recipient s =
    (ok tt, record s { reservations = delete (pair_key channel recipient) s.reservations })

-- `Delete`
unfoldable pub delete_message : Text → Text → MemoryStore → Result (Unit {0}) × MemoryStore
delete_message run_id receiver_type s =
    (ok tt, record s { messages = delete (pair_key run_id receiver_type) s.messages })

-- `Close`
unfoldable pub close : MemoryStore → Result (Unit {0}) × MemoryStore
close s = (ok tt, s)
