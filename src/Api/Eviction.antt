-- ===== src/Api/Eviction.antt =====
-- `storeResult` against a description of the cache as the list of the last runs.
use e2e_framework.Prelude.{
  ◌≡◌, refl, ◌∙◌, ap, Text, ◌==◌, ==_iff, lookup, contains_text, IsDistinct, lookup-insert,
  lookup-delete, ltb, length, Option, none, some, Bool-cases, List, [], ◌∷◌, ◌++◌, arith, inl, inr,
  if◌then◌else◌,
}
use e2e_framework.Domain.{TestResult}
use e2e_framework.Api.Cache.{
  ResultCache, max_stored_results, record_result, evict_oldest, evict, store_result,
}
use e2e_framework.Api.Invariant.{has, IsIndexed, IsValid, record_result-IsIndexed}

abbrev tail : List Text → List Text
tail [] = []
tail (x ∷ l) = l

-- The first of more than a hundred runs goes.
abbrev pub newest : List Text → List Text
newest order = if ltb max_stored_results (length order) then tail order else order

-- A run that is not there yet comes last.
abbrev pub with_run : Text → List Text → List Text
with_run id order = if contains_text order id then order else order ++ (id ∷ [])

record Holds (c : ResultCache) (order : List Text) (id : Text) (found : Option TestResult)
    : Type 0 where
  order_is : c.result_order ≡ order
  found_is : lookup id c.results ≡ (if contains_text order id then found else none)

evict_oldest-Holds :
    (order : List Text) (c : ResultCache) (id : Text)
    → c.result_order ≡ order
    → IsDistinct order
    → contains_text order id ≡ has (lookup id c.results)
    → Holds (evict_oldest order c) (tail order) id (lookup id c.results)
unfolding evict_oldest contains_text
evict_oldest-Holds [] c id e d i = record { order_is = e; found_is = ground arith }
evict_oldest-Holds (x ∷ l) c id e d i = record {
  order_is = refl;
  found_is = ground (arith, lookup-delete x id c.results, ==_iff x id, d.0, i);
}

evict-Holds :
    (c : ResultCache) (id : Text)
    → IsIndexed c
    → Holds (evict c) (newest c.result_order) id (lookup id c.results)
unfolding evict
evict-Holds c id v = elim (Bool-cases (ltb max_stored_results (length c.result_order))) [
  | inl e ↦ rw (e, evict) (evict_oldest-Holds c.result_order c id refl v.distinct (v.indexed id))
  | inr e ↦ rw (e, evict) (record { order_is = refl; found_is = ground (arith, v.indexed id) })
]

module _ (res : TestResult) (c : ResultCache) (v : IsValid c) where
  order-record_result : (record_result res c).result_order ≡ with_run res.run_id c.result_order
  unfolding record_result
  order-record_result = ground (arith, v.index.indexed res.run_id)

  -- `storeResult` on a valid cache: the stored run comes last in the order unless it was there
  -- already, the first run goes if there are more than a hundred, and a run is found exactly if
  -- it is still in the order, with the stored result for the stored run and the result from before
  -- for any other one.
  pub store_result_lem :
      (id : Text)
      → let order = newest (with_run res.run_id c.result_order) in
        ((store_result res c).result_order ≡ order)
        × (lookup id (store_result res c).results ≡ (
            if contains_text order id
            then (if res.run_id == id then some res else lookup id c.results)
            else none))
  unfolding store_result
  store_result_lem id =
      let k = evict-Holds (record_result res c) id (record_result-IsIndexed res c v.index) in
      let same : lookup id (record_result res c).results
          ≡ (if res.run_id == id then some res else lookup id c.results) =
        unfold record_result in lookup-insert res.run_id id res c.results in
      (k.order_is ∙ ap newest order-record_result, k.found_is ∙ rw (order-record_result, same) refl)
