-- ===== src/Store/Redis/Views.antt =====
-- The messages and the reservations in the values of the keys of Redis.
use e2e_framework.Prelude.{
  ◌≡◌, refl, ap, ◌∙◌, inl, inr, Text, lit, ◌++◌, ◌==◌, Option, none, some, false, Bool-cases, arith,
}
use e2e_framework.Domain.{Message, ok, err, Result-cases}
use e2e_framework.Store.Contract.{updated}
use e2e_framework.Store.Memory.{Json}
use e2e_framework.Store.Redis.{decode_found}

-- The keys of messages and those of reservations differ, and each tells its pair.
abbrev pub message_prefix : Text → Text
message_prefix k = lit "e2e-test:" ++ k

abbrev pub reservation_prefix : Text → Text
reservation_prefix k = lit "store:reservations:" ++ k

module _ (key k : Text) where
  message_prefix-== : (message_prefix key == message_prefix k) ≡ (key == k)
  unfolding ◌==◌
  message_prefix-== = refl

  reservation_prefix-== : (reservation_prefix key == reservation_prefix k) ≡ (key == k)
  unfolding ◌==◌
  reservation_prefix-== = refl

  message-reservation : (message_prefix key == reservation_prefix k) ≡ false
  unfolding ◌==◌
  message-reservation = refl

  reservation-message : (reservation_prefix key == message_prefix k) ≡ false
  unfolding ◌==◌
  reservation-message = refl

module _ (json : Json) where
  -- The messages and the reservations in the values of the keys.
  abbrev pub decoded_value : Option Text → Option Message
  decoded_value none = none
  decoded_value (some data_) = elim (json.unmarshal data_) [ err e ↦ none | ok m ↦ some m ]

  pub decode_found-ok :
      (found : Option Text) (m : Option Message)
      → decode_found json (ok found) ≡ ok m
      → m ≡ decoded_value found
  unfolding decode_found
  decode_found-ok none m h = ground arith
  decode_found-ok (some data_) m h = elim (Result-cases (json.unmarshal data_)) [
    | inr (e, q) ↦ absurd (ground (arith, q))
    | inl (n, q) ↦ rw (q, decoded_value) (ground (arith, q))
  ]

  -- What a change of the value of a key is in the two views.
  module _ (before after : Text → Option Text) (key : Text) (new : Option Text) where
    pub message-updated :
        ((j : Text) → after j ≡ updated ◌==◌ before (message_prefix key) new j)
        → (k : Text)
        → (decoded_value (after (message_prefix k))
            ≡ updated ◌==◌
                (λ j. decoded_value (before (message_prefix j)))
                key
                (decoded_value new)
                k)
          × (after (reservation_prefix k) ≡ before (reservation_prefix k))
    message-updated h k = (
      ap decoded_value (h (message_prefix k)) ∙ (elim (Bool-cases (key == k)) [
        | inl e ↦ rw (message_prefix-== key k, e) refl
        | inr e ↦ rw (message_prefix-== key k, e) refl
      ]),
      h (reservation_prefix k) ∙ rw (message-reservation key k) refl,
    )

    pub run-updated :
        ((j : Text) → after j ≡ updated ◌==◌ before (reservation_prefix key) new j)
        → (k : Text)
        → (after (reservation_prefix k)
            ≡ updated ◌==◌ (λ j. before (reservation_prefix j)) key new k)
          × (decoded_value (after (message_prefix k)) ≡ decoded_value (before (message_prefix k)))
    run-updated h k = (
      h (reservation_prefix k) ∙ rw (reservation_prefix-== key k) refl,
      ap decoded_value (h (message_prefix k) ∙ rw (reservation-message key k) refl),
    )
