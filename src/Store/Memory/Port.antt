-- ===== src/Store/Memory/Port.antt =====
-- The memory store as a `Store`, over a clock. The clock is read for each deposit, claim and
-- reservation, also where the code finds out before that it needs no reading.
use e2e_framework.Domain.{Time}
use e2e_framework.Store.{Store}
use e2e_framework.Store.Memory.{
  Json, MemoryStore, deposit, claim, reserve, release, delete_message, close,
}

module _ {C : Type 0} (json : Json) (now : C → Time × C) where
  -- `time.Now()` in this world.
  abbrev pub clock : MemoryStore × C → Time × (MemoryStore × C)
  clock (s, c) = let (t, c') = now c in (t, (s, c'))

  unfoldable pub memory_store : Store (MemoryStore × C)
  memory_store = record {
    deposit =
        λ msg (s, c). let (t, c') = now c in let (r, s') = deposit json msg t s in (r, (s', c'));
    claim = λ run_id receiver_type (s, c).
        let (t, c') = now c in let (r, s') = claim json run_id receiver_type t s in (r, (s', c'));
    reserve = λ channel recipient run_id (s, c).
        let (t, c') = now c in
        let (u, c'') = now c' in
        let (r, s') = reserve channel recipient run_id t u s in (r, (s', c''));
    release = λ channel recipient (s, c). let (r, s') = release channel recipient s in (r, (s', c));
    delete = λ run_id receiver_type (s, c).
        let (r, s') = delete_message run_id receiver_type s in (r, (s', c));
    close = λ (s, c). let (r, s') = close s in (r, (s', c));
  }
