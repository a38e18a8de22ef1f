-- ===== src/Api/Cache.antt =====
-- `Server.results`, `Server.resultOrder` and `storeResult`, which runs under the mutex.
use e2e_framework.Prelude.{
  ℕ, Text, Dict, lookup, insert, delete, ltb, length, Option, none, some, List, [], ◌∷◌, ◌++◌,
  if◌then◌else◌,
}
use e2e_framework.Domain.{TestResult}

abbrev pub max_stored_results : ℕ
max_stored_results = 100

pub record ResultCache : Type 0 where
  pub results : Dict TestResult
  pub result_order : List Text

abbrev pub no_results : ResultCache
no_results = record { results = []; result_order = [] }

-- The first half of `storeResult`: the entry, and its place in the order if it is new.
unfoldable pub record_result : TestResult → ResultCache → ResultCache
record_result res c = record {
  results = insert res.run_id res c.results;
  result_order = elim (lookup res.run_id c.results) [
    | none ↦ c.result_order ++ (res.run_id ∷ [])
    | some _ ↦ c.result_order
  ];
}

-- The second half: the oldest entry goes.
unfoldable pub evict_oldest : List Text → ResultCache → ResultCache
evict_oldest [] c = c
evict_oldest (oldest ∷ rest) c = record { results = delete oldest c.results; result_order = rest }

unfoldable pub evict : ResultCache → ResultCache
unfolding evict_oldest
evict c =
    if ltb max_stored_results (length c.result_order) then evict_oldest c.result_order c else c

-- `storeResult`
unfoldable pub store_result : TestResult → ResultCache → ResultCache
store_result res c = evict (record_result res c)

unfoldable pub results_of : Dict TestResult → List Text → List (Option TestResult)
results_of results [] = []
results_of results (id ∷ ids) = lookup id results ∷ results_of results ids

-- The loop of `handleResults`; a missing entry would be a nil pointer, which is `none`.
unfoldable pub list_results : ResultCache → List (Option TestResult)
list_results c = results_of c.results c.result_order
