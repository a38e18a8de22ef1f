-- ===== src/Tests/Storage.antt =====
-- The memory store and the ingestor.
use e2e_framework.Prelude.{ℕ, ◌≡◌, refl, lit, pos, ltb, none, some, [], if◌then◌else◌}
use e2e_framework.Domain.{Message, ok}
use e2e_framework.Store.Memory.{
  Json, MemoryStore, new_memory_store, deposit, claim, reserve, add_duration,
}
use e2e_framework.Store.Memory.Messages.{claim-deposit}
use e2e_framework.Store.Memory.Reservations.{held_by, Answers, reserve_exclusive}
use e2e_framework.Tests.World.{mail}

abbrev json : Json
json = record {
  marshal = λ m. ok m.raw;
  unmarshal = λ s. ok (record (mail (lit "hi")) { raw = s });
}

abbrev empty : MemoryStore
empty = new_memory_store (pos 10)

abbrev letter : Message
letter = mail (lit "hi")

claim-deposit_example :
    ((deposit json letter 5 empty).0 ≡ ok tt)
    × ((claim json letter.run_id letter.receiver_type 9 (deposit json letter 5 empty).1).0
        ≡ (if ltb (add_duration 5 (pos 10)) 9 then ok none else ok (some letter)))
    × ((claim json letter.run_id letter.receiver_type 9 (deposit json letter 5 empty).1).1
        ≡ (deposit json letter 5 empty).1)
claim-deposit_example = claim-deposit json letter [] 5 9 empty refl refl

abbrev taken : MemoryStore
taken = (reserve (lit "imap") (lit "a@b") (lit "signup-1") 5 6 empty).1

reserve_exclusive_example :
    Answers
      (held_by (lit "imap") (lit "a@b") 7 taken)
      (lit "imap")
      (lit "a@b")
      (lit "signup-2")
      8
      taken
      (lit "imap")
      (lit "a@b")
      9
      (reserve (lit "imap") (lit "a@b") (lit "signup-2") 7 8 taken)
reserve_exclusive_example =
    reserve_exclusive (lit "imap") (lit "a@b") (lit "signup-2") 7 8 taken (lit "imap") (lit "a@b") 9

abbrev clock : ℕ → ℕ × ℕ
clock w = (w, w)
