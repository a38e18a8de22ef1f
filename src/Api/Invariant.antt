-- ===== src/Api/Invariant.antt =====
-- When a result cache is valid, and the operations on valid ones.
use e2e_framework.Prelude.{
  ◌+◌, ◌-◌, ◌≤◌, ◌<◌, ◌≡◌, refl, ◌∙◌, subst, Text, Dict, ◌==◌, ==_iff, ==_refl, lookup,
  contains_text, IsDistinct, lookup-insert, lookup-delete, ltb, length, length-append, Option, none,
  some, Option-cases, Bool-cases, Bool, true, false, ◌||◌, List, [], ◌∷◌, ◌++◌, All, arith, inl,
  inr,
}
use e2e_framework.Domain.{TestResult}
use e2e_framework.Api.Cache.{
  ResultCache, max_stored_results, record_result, evict_oldest, evict, store_result, results_of,
  list_results,
}

abbrev pub has {ℓ} : {A : Type ℓ} → Option A → Bool
has none = false
has (some a) = true

pub record IsIndexed (c : ResultCache) : Type 0 where
  pub distinct : IsDistinct c.result_order
  pub indexed : (id : Text) → contains_text c.result_order id ≡ has (lookup id c.results)

pub record IsValid (c : ResultCache) : Type 0 where
  pub index : IsIndexed c
  pub bounded : length c.result_order ≤ max_stored_results

contains-append :
    (l : List Text) (k j : Text) → contains_text (l ++ (k ∷ [])) j ≡ (contains_text l j || k == j)
unfolding contains_text
contains-append [] k j = ground arith
contains-append (i ∷ l) k j = ground (arith, contains-append l k j)

IsDistinct-append :
    (l : List Text) (k : Text)
    → contains_text l k ≡ false
    → IsDistinct l
    → IsDistinct (l ++ (k ∷ []))
unfolding contains_text
IsDistinct-append [] k h d = (refl, tt)
IsDistinct-append (i ∷ l) k h d = (
  ground (arith, contains-append l k i, ==_iff i k, ==_iff k i),
  IsDistinct-append l k (ground arith) d.1,
)

module _ (res : TestResult) (c : ResultCache) where
  pub record_result-IsIndexed : IsIndexed c → IsIndexed (record_result res c)
  record_result-IsIndexed v = elim (Option-cases (lookup res.run_id c.results)) [
    | inl e ↦
        unfold record_result in
        rw e (record {
          distinct =
              IsDistinct-append c.result_order res.run_id (ground (arith, v.indexed res.run_id))
                v.distinct;
          indexed = λ id. ground (
            arith,
            contains-append c.result_order res.run_id id,
            lookup-insert res.run_id id res c.results,
            v.indexed id,
          );
        })
    | inr (old, e) ↦
        unfold record_result in
        rw e (record {
          distinct = v.distinct;
          indexed = λ id. ground (
            arith,
            lookup-insert res.run_id id res c.results,
            v.indexed id,
            ==_iff res.run_id id,
          );
        })
  ]

evict_oldest-IsIndexed :
    (order : List Text) (c : ResultCache)
    → c.result_order ≡ order
    → IsIndexed c
    → IsIndexed (evict_oldest order c)
unfolding evict_oldest contains_text
evict_oldest-IsIndexed [] c e v = v
evict_oldest-IsIndexed (oldest ∷ rest) c e v =
    let d : IsDistinct (oldest ∷ rest) = subst IsDistinct e v.distinct in
    record {
      distinct = d.1;
      indexed = λ id.
          let i : contains_text (oldest ∷ rest) id ≡ has (lookup id c.results) =
            subst (λ l. contains_text l id ≡ has (lookup id c.results)) e (v.indexed id) in
          ground (arith, lookup-delete oldest id c.results, ==_iff oldest id, d.0, i);
    }

length-record_result-le :
    (res : TestResult) (c : ResultCache)
    → length (record_result res c).result_order ≤ length c.result_order + 1
unfolding record_result
length-record_result-le res c = ground (arith, length-append c.result_order (res.run_id ∷ []))

length-evict_oldest-le :
    (order : List Text) (c : ResultCache)
    → c.result_order ≡ order
    → length (evict_oldest order c).result_order ≤ length c.result_order - 1
unfolding evict_oldest
length-evict_oldest-le [] c e = rw e (omega arith)
length-evict_oldest-le (oldest ∷ rest) c e = rw e (omega arith)

evict-IsValid : (c : ResultCache) → IsIndexed c → length c.result_order ≤ 101 → IsValid (evict c)
unfolding evict
evict-IsValid c v h = elim (Bool-cases (ltb max_stored_results (length c.result_order))) [
  | inl e ↦
      rw (e, evict)
        (record {
          index = evict_oldest-IsIndexed c.result_order c refl v;
          bounded = omega (arith, length-evict_oldest-le c.result_order c refl);
        })
  | inr e ↦ rw (e, evict) (record { index = v; bounded = ground arith })
]

-- `storeResult` keeps the cache valid.
pub store_result-IsValid :
    (res : TestResult) (c : ResultCache) → IsValid c → IsValid (store_result res c)
unfolding store_result
store_result-IsValid res c v =
    evict-IsValid _ (record_result-IsIndexed res c v.index)
      (omega (arith, v.bounded, length-record_result-le res c))

-- The text at the head of the list, if any, is another one.
HeadIsOther : Text → List Text → Type 0
HeadIsOther id [] = Unit
HeadIsOther id (x ∷ xs) = (x == id) ≡ false

lookup-evict_oldest :
    (order : List Text) (c : ResultCache) (id : Text)
    → HeadIsOther id order
    → lookup id (evict_oldest order c).results ≡ lookup id c.results
unfolding evict_oldest HeadIsOther
lookup-evict_oldest [] c id h = refl
lookup-evict_oldest (x ∷ xs) c id h = ground (arith, lookup-delete x id c.results)

lookup-evict :
    (c : ResultCache) (id : Text)
    → (max_stored_results < length c.result_order → HeadIsOther id c.result_order)
    → lookup id (evict c).results ≡ lookup id c.results
unfolding evict
lookup-evict c id h = elim (Bool-cases (ltb max_stored_results (length c.result_order))) [
  | inl e ↦ rw (e, evict) (lookup-evict_oldest c.result_order c id (h (ground arith)))
  | inr e ↦ rw (e, evict)
]

HeadIsOther-append :
    (l : List Text) (id : Text)
    → contains_text l id ≡ false
    → 0 < length l
    → HeadIsOther id (l ++ (id ∷ []))
unfolding HeadIsOther contains_text
HeadIsOther-append [] id h n = absurd (omega arith)
HeadIsOther-append (x ∷ l) id h n = ground arith

record_result-head :
    (res : TestResult) (c : ResultCache)
    → IsValid c
    → max_stored_results < length (record_result res c).result_order
    → HeadIsOther res.run_id (record_result res c).result_order
unfolding record_result
record_result-head res c v = elim (Option-cases (lookup res.run_id c.results)) [
  | inr (old, e) ↦ rw (e, record_result) (λ h. absurd (omega (arith, v.bounded)))
  | inl e ↦
      rw (e, record_result)
        λ h.
          HeadIsOther-append c.result_order res.run_id (ground (arith, v.index.indexed res.run_id))
            (omega (arith, length-append c.result_order (res.run_id ∷ [])))
]

-- After a result has been stored, its run id finds it, also when the cache was full.
pub lookup-store_result_self :
    (res : TestResult) (c : ResultCache)
    → IsValid c
    → lookup res.run_id (store_result res c).results ≡ some res
unfolding store_result
lookup-store_result_self res c v =
    lookup-evict (record_result res c) res.run_id (record_result-head res c v)
    ∙ (unfold record_result in
        ground (arith, lookup-insert res.run_id res.run_id res c.results, ==_refl res.run_id))

results_of-some :
    (results : Dict TestResult) (ids : List Text)
    → ((id : Text) → contains_text ids id ≡ true → has (lookup id results) ≡ true)
    → All (λ o. has o ≡ true) (results_of results ids)
unfolding results_of contains_text
results_of-some results [] h = tt
results_of-some results (id ∷ ids) h =
    (h id (ground (arith, ==_refl id)), results_of-some results ids (λ j q. h j (ground arith)))

-- `handleResults` meets no missing entry.
pub list_results-All : (c : ResultCache) → IsValid c → All (λ o. has o ≡ true) (list_results c)
unfolding list_results
list_results-All c v =
    results_of-some c.results c.result_order (λ id h. ground (arith, v.index.indexed id))
