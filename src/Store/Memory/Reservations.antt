-- ===== src/Store/Memory/Reservations.antt =====
-- Reservations of the memory store: exclusion, release, expiry.
use e2e_framework.Prelude.{
  ◌≡◌, refl, Text, ◌==◌, ==_refl, lookup, lookup-insert, lookup-delete, Option, none, some,
  Option-cases, Bool, false, arith, if◌then◌else◌, ltb, inl, inr, [], ◌∷◌, eqb, ◌||◌,
}
use e2e_framework.Domain.{Time, Result, ok, err}
use e2e_framework.Store.Memory.{
  MemoryStore, MemReservation, holder, pair_key, reserve, release, already_reserved,
  reservation_ttl, add_duration,
}

-- Who holds a recipient at a time.
abbrev pub held_by : Text → Text → Time → MemoryStore → Option Text
held_by channel recipient now s = holder (lookup (pair_key channel recipient) s.reservations) now

-- What `Reserve` answers, and who holds any recipient afterwards, by who held the one asked for.
abbrev pub Answers :
    Option Text
    → Text
    → Text
    → Text
    → Time
    → MemoryStore
    → Text
    → Text
    → Time
    → Result (Unit {0}) × MemoryStore
    → Type 0
Answers (some other) channel recipient run_id later s c r t out =
    out ≡ (err (already_reserved channel recipient other), s)
Answers none channel recipient run_id later s c r t out =
    (out.0 ≡ ok tt)
    × (held_by c r t out.1 ≡ (
        if pair_key channel recipient == pair_key c r
        then (if ltb t (add_duration later reservation_ttl) then some run_id else none)
        else held_by c r t s))
    × (out.1.messages ≡ s.messages)

module _ (channel recipient run_id : Text) (now later : Time) (s : MemoryStore) (c r : Text)
    (t : Time) where
  -- A recipient that some run holds is refused, with that run in the error, and nothing changes.
  -- A free one is taken for an hour from the second reading of the clock; no other recipient and
  -- no message is touched.
  pub reserve_exclusive :
      Answers
        (held_by channel recipient now s)
        channel
        recipient
        run_id
        later
        s
        c
        r
        t
        (reserve channel recipient run_id now later s)
  unfolding reserve
  reserve_exclusive =
      let key = pair_key channel recipient in
      let taken : MemReservation = record {
        run_id = run_id;
        expires_at = add_duration later reservation_ttl;
      } in
      elim (Option-cases (held_by channel recipient now s)) [
        | inr (other, e) ↦ rw (e, reserve) refl
        | inl e ↦
            rw (e, reserve)
              (
                refl,
                (unfold holder in
                    ground (arith, lookup-insert key (pair_key c r) taken s.reservations)),
                refl,
              )
      ]

-- Does the text hold a colon?
unfoldable pub has_colon : Text → Bool
has_colon [] = false
has_colon (c ∷ s) = eqb c b':' || has_colon s

-- Where no channel holds a colon, as no receiver type of the program does, the key of a
-- reservation tells its channel and its recipient.
pub pair_key-injective :
    (c d r q : Text)
    → has_colon c ≡ false
    → has_colon d ≡ false
    → pair_key c r ≡ pair_key d q
    → (c ≡ d) × (r ≡ q)
unfolding pair_key has_colon
pair_key-injective [] [] r q h k e = ground arith
pair_key-injective [] (y ∷ d) r q h k e = absurd (ground arith)
pair_key-injective (x ∷ c) [] r q h k e = absurd (ground arith)
pair_key-injective (x ∷ c) (y ∷ d) r q h k e =
    let ih = pair_key-injective c d r q (ground arith) (ground arith) (ground arith) in
    ground (arith, ih)

-- After `Release` the recipient is free at every time, whoever held it, so that the next `Reserve`
-- succeeds.
pub release-reserve :
    (channel recipient run_id : Text) (now later : Time) (s : MemoryStore)
    → ((release channel recipient s).0 ≡ ok tt)
      × (held_by channel recipient now (release channel recipient s).1 ≡ none)
      × ((reserve channel recipient run_id now later (release channel recipient s).1).0 ≡ ok tt)
unfolding release
release-reserve channel recipient run_id now later s =
    let s' = (release channel recipient s).1 in
    let key = pair_key channel recipient in
    let free : held_by channel recipient now s' ≡ none =
      unfold holder in ground (arith, lookup-delete key key s.reservations, ==_refl key) in
    (refl, free, unfold reserve in rw (free, reserve))
