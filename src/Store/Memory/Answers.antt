-- ===== src/Store/Memory/Answers.antt =====
-- The memory store always answers.
use e2e_framework.Prelude.{◌≡◌, refl, Option, some}
use e2e_framework.Domain.{Time, Message, Result, ok, err}
use e2e_framework.Store.Contract.{Serves, IsStorable}
use e2e_framework.Store.Memory.{Json, pair_key, deposit, claim, reserve, release, delete_message}
use e2e_framework.Store.Memory.Port.{memory_store}
use e2e_framework.Store.Memory.Refines.{Lives, message_at, run_at, found_or_none}

found_or_none-eq-some :
    (r : Result (Option Message)) (m : Message) → found_or_none r ≡ some m → r ≡ ok (some m)
found_or_none-eq-some (ok found) m h = rw h refl
found_or_none-eq-some (err e) m h = cc

module _ (json : Json) (t : Time) {C : Type 0} (now : C → Time × C)
    (still : (c : C) → (now c).0 ≡ t) where
  -- While the clock stands still, the memory store stores every message that its encoding gives
  -- back, finds what it has, and reserves every recipient that no run holds.
  pub memory_store-Serves :
      Serves
        (memory_store json now)
        pair_key
        (IsStorable json)
        (λ (s, c). Lives s.ttl)
        (λ (s, c). message_at json t s)
        (λ (s, c). run_at json t s)
  unfolding memory_store deposit reserve
  memory_store-Serves = record {
    deposit_serves = λ m (s, c) r (data_, e, u). rw (e, deposit) refl;
    claim_serves =
        λ run_id type (s, c) m r h. unfold claim in rw (still c) (found_or_none-eq-some _ m h);
    reserve_serves = λ channel recipient run_id (s, c) r h. rw (still c) (rw (h, reserve) refl);
    release_serves = λ channel recipient (s, c) r. unfold release in refl;
    delete_serves = λ run_id type (s, c) r. unfold delete_message in refl;
  }
