-- ===== src/Store/Memory/Refines.antt =====
-- The memory store keeps the contract of a store while its clock stands still.
use e2e_framework.Prelude.{
  ℕ, ◌≡◌, refl, sym, ap, ◌∙◌, subst, inl, inr, Text, ◌==◌, ==_iff, ==_refl, lookup, lookup-insert,
  lookup-delete, pos, Option, Option-cases, none, some, Bool-cases, arith,
}
use e2e_framework.Domain.{Time, Duration, Message, Result, ok, err, Result-cases}
use e2e_framework.Store.Contract.{Keeps, IsStorable, updated}
use e2e_framework.Store.Memory.{
  Json, MemEntry, MemReservation, MemoryStore, pair_key, add_duration, reservation_ttl, deposit,
  claim, claimed, holder, reserve, release, delete_message,
}
use e2e_framework.Store.Memory.Port.{memory_store}

-- A time to live that is not negative.
abbrev pub Lives : Duration → Type 0
Lives ttl = (d : ℕ) × (ttl ≡ pos d)

abbrev pub found_or_none : Result (Option Message) → Option Message
found_or_none (ok found) = found
found_or_none (err e) = none

module _ (json : Json) (t : Time) where
  -- The messages and the reservations that are valid at the time.
  abbrev pub message_at : MemoryStore → Text → Option Message
  message_at s k = found_or_none (claimed json (lookup k s.messages) t)

  abbrev pub run_at : MemoryStore → Text → Option Text
  run_at s k = holder (lookup k s.reservations) t

  deposit-message_at :
      (m : Message) (s : MemoryStore)
      → Lives s.ttl
      → IsStorable json m
      → (k : Text)
      → message_at (deposit json m t s).1 k
        ≡ updated ◌==◌ (message_at s) (pair_key m.run_id m.receiver_type) (some m) k
  unfolding deposit claimed
  deposit-message_at m s (d, l) (data_, e, u) k =
      let key = pair_key m.run_id m.receiver_type in
      let entry : MemEntry = record { payload = data_; expires_at = add_duration t s.ttl } in
      rw (e, deposit)
        (elim (Bool-cases (key == k)) [
          | inl q ↦ rw (lookup-insert key k entry s.messages, q, l) (ground (arith, u))
          | inr q ↦ rw (lookup-insert key k entry s.messages, q) refl
        ])

  deposit_lem :
      (m : Message) (s : MemoryStore)
      → ((deposit json m t s).1.ttl ≡ s.ttl)
        × ((deposit json m t s).1.reservations ≡ s.reservations)
  unfolding deposit
  deposit_lem m s = elim (Result-cases (json.marshal m)) [
    | inl (data_, e) ↦ rw (e, deposit) (refl, refl)
    | inr (f, e) ↦ rw (e, deposit) (refl, refl)
  ]

  module _ (channel recipient run_id : Text) (s : MemoryStore) where
    reserve-ttl : (reserve channel recipient run_id t t s).1.ttl ≡ s.ttl
    unfolding reserve
    reserve-ttl = elim (Option-cases (run_at s (pair_key channel recipient))) [
      | inl e ↦ rw (e, reserve) refl
      | inr (other, e) ↦ rw (e, reserve) refl
    ]

    abbrev taken : MemReservation
    taken = record { run_id = run_id; expires_at = add_duration t reservation_ttl }

    reserve_lem :
        (reserve channel recipient run_id t t s).0 ≡ ok tt
        → (run_at s (pair_key channel recipient) ≡ none)
          × ((k : Text)
              → run_at (reserve channel recipient run_id t t s).1 k
                ≡ updated ◌==◌ (run_at s) (pair_key channel recipient) (some run_id) k)
          × ((reserve channel recipient run_id t t s).1.messages ≡ s.messages)
    unfolding reserve
    reserve_lem h =
        let key = pair_key channel recipient in
        elim (Option-cases (run_at s key)) [
          | inr (other, e) ↦ absurd (ground (arith, e))
          | inl e ↦ (
            e,
            λ k.
                rw (e, reserve)
                  (unfold holder in ground (arith, lookup-insert key k taken s.reservations)),
            rw (e, reserve) refl,
          )
        ]

    reserve-run_at :
        (k old : Text)
        → run_at s k ≡ some old
        → run_at (reserve channel recipient run_id t t s).1 k ≡ some old
    unfolding reserve
    reserve-run_at k old h =
        let key = pair_key channel recipient in
        elim (Option-cases (run_at s key)) [
          | inr (other, e) ↦ rw (e, reserve) h
          | inl e ↦ elim (Bool-cases (key == k)) [
            | inl q ↦ absurd (ground (arith, e, h, ==_iff key k))
            | inr q ↦ rw (e, reserve) (rw (lookup-insert key k taken s.reservations, q) h)
          ]
        ]

  module _ {C : Type 0} (now : C → Time × C) (still : (c : C) → (now c).0 ≡ t) where
    at_once :
        (channel recipient run_id : Text) (s : MemoryStore) (c : C)
        → ((memory_store json now).reserve channel recipient run_id (s, c)).0 ≡ ok tt
        → (reserve channel recipient run_id t t s).0 ≡ ok tt
    unfolding memory_store
    at_once channel recipient run_id s c h =
        ap (λ y. (reserve channel recipient run_id y t s).0) (sym (still c))
        ∙ ap (λ y. (reserve channel recipient run_id (now c).0 y s).0) (sym (still (now c).1))
        ∙ h

    -- While the clock stands still and the time to live is not negative, the memory store keeps
    -- the contract of a store: a message that is deposited is claimed unchanged, a recipient is
    -- reserved for one run at a time until it is released, and messages and reservations do not
    -- disturb each other. The observations are the messages and the runs that have not expired.
    pub memory_store-Keeps :
        Keeps
          (memory_store json now)
          pair_key
          ◌==◌
          (IsStorable json)
          (λ (s, c). Lives s.ttl)
          (λ (s, c). message_at s)
          (λ (s, c). run_at s)
    unfolding memory_store
    memory_store-Keeps = record {
      same_refl = ==_refl;
      deposit_ready = λ m (s, c) (d, l). (d, rw (still c) ((deposit_lem m s).0 ∙ l));
      claim_ready = λ run_id type (s, c) h. unfold claim in h;
      reserve_ready = λ channel recipient run_id (s, c) (d, l).
          (d, rw (still c, still (now c).1) (reserve-ttl channel recipient run_id s ∙ l));
      release_ready = λ channel recipient (s, c) h. unfold release in h;
      delete_ready = λ run_id type (s, c) h. unfold delete_message in h;
      deposit_message = λ m (s, c) r e q k. rw (still c) (deposit-message_at m s r e k);
      deposit_held =
          λ m (s, c) q k. rw (still c) (ap (λ y. holder (lookup k y) t) (deposit_lem m s).1);
      claim_message = λ run_id type (s, c) found h. sym (
          ap found_or_none (
            subst (λ y. claimed json (lookup (pair_key run_id type) s.messages) y ≡ ok found)
              (still c) (unfold claim in h)));
      claim_same = λ run_id type (s, c) k. unfold claim in (refl, refl);
      reserve_free = λ channel recipient run_id (s, c) h.
          (reserve_lem channel recipient run_id s (at_once channel recipient run_id s c h)).0;
      reserve_held = λ channel recipient run_id (s, c) h k.
          let (_, held, same) =
            reserve_lem channel recipient run_id s (at_once channel recipient run_id s c h) in
          rw (still c, still (now c).1)
            (held k, ap (λ y. found_or_none (claimed json (lookup k y) t)) same);
      reserve_keeps = λ channel recipient run_id (s, c) k old h.
          rw (still c, still (now c).1) (reserve-run_at channel recipient run_id s k old h);
      release_held = λ channel recipient (s, c) h k.
          unfold release in
          (
            unfold holder in
                ground (arith, lookup-delete (pair_key channel recipient) k s.reservations),
            refl,
          );
      delete_message = λ run_id type (s, c) h k.
          unfold delete_message in
          (
            unfold claimed in ground (arith, lookup-delete (pair_key run_id type) k s.messages),
            refl,
          );
    }
