-- ===== src/Api/Validity.antt =====
-- The handlers of runs keep a valid cache valid.
use e2e_framework.Prelude.{
  Text, Dict, Option, none, some, Bool, true, false, List, [], ◌∷◌, if◌then◌else◌, ◌⊎◌, inl, inr,
  lit,
}
use e2e_framework.Domain.{Duration, TestDefinition, TestResult}
use e2e_framework.Groups.{TestGroup}
use e2e_framework.Ports.{Ports}
use e2e_framework.Api.Cache.{ResultCache, store_result}
use e2e_framework.Api.Handlers.{
  Request, Response, Server, Decoders, Config, query_get, find_delay, find_skip, handle_run,
  handle_run_sequence, run_definition, run_found, sequence_found, sequence_delayed, sequence_rules,
  sequence_group, store_all,
}
use e2e_framework.Api.Invariant.{IsValid, store_result-IsValid}

module _ {W : Type 0} (p : Ports W) (tests : Dict TestDefinition) where
  store_all-IsValid :
      (rs : List TestResult) (c : ResultCache) → IsValid c → IsValid (store_all p tests rs c)
  unfolding store_all
  store_all-IsValid [] c v = v
  store_all-IsValid (res ∷ rs) c v =
      store_all-IsValid rs (store_result res c) (store_result-IsValid res c v)

  run_definition-IsValid :
      (async : Bool) (def : TestDefinition) (s : Server W)
      → IsValid s.cache
      → IsValid (run_definition p tests async def s).1.cache
  unfolding run_definition
  run_definition-IsValid true def s v = store_result-IsValid _ s.cache v
  run_definition-IsValid false def s v = store_result-IsValid _ s.cache v

  run_found-IsValid :
      (id : Text) (o : Option TestDefinition) (s : Server W)
      → IsValid s.cache
      → IsValid (run_found p tests id o s).1.cache
  unfolding run_found
  run_found-IsValid id none s v = v
  run_found-IsValid id (some def) s v = run_definition-IsValid def.async def s v

  if-IsValid :
      (b : Bool) (refusal : Response) (s : Server W) (x : Response × Server W)
      → IsValid s.cache
      → IsValid x.1.cache
      → IsValid (if b then (refusal, s) else x).1.cache
  if-IsValid true refusal s x v q = v
  if-IsValid false refusal s x v q = q

  pub handle_run-IsValid :
      (r : Request) (s : Server W) → IsValid s.cache → IsValid (handle_run p tests r s).1.cache
  unfolding handle_run
  handle_run-IsValid r s v = if-IsValid _ _ s _ v (run_found-IsValid _ _ s v)

  sequence_found-IsValid :
      (delay : Duration) (skip : Bool) (o : List TestDefinition ⊎ Text) (s : Server W)
      → IsValid s.cache
      → IsValid (sequence_found p tests delay skip o s).1.cache
  unfolding sequence_found
  sequence_found-IsValid delay skip (inr bad) s v = v
  sequence_found-IsValid delay skip (inl defs) s v = store_all-IsValid _ s.cache v

  module _ (d : Decoders) (r : Request) where
    sequence_rules-IsValid :
        (group : Option TestGroup) (o : List Text ⊎ Response) (s : Server W)
        → IsValid s.cache
        → IsValid (sequence_rules p tests d r group o s).1.cache
    unfolding sequence_rules
    sequence_rules-IsValid group (inr refusal) s v = v
    sequence_rules-IsValid group (inl []) s v = v
    sequence_rules-IsValid group (inl (id ∷ ids)) s v =
        delayed (find_delay d group (query_get (lit "test_delay") r))
      where
        delayed :
            (o : Duration ⊎ Response)
            → IsValid
                (sequence_delayed p tests
                  (id ∷ ids)
                  (find_skip d group (query_get (lit "skip_fail_test") r))
                  o
                  s).1.cache
        delayed (inr refusal) = unfold sequence_delayed in v
        delayed (inl delay) = unfold sequence_delayed in sequence_found-IsValid delay _ _ s v

    sequence_group-IsValid :
        (o : Option TestGroup ⊎ Response) (s : Server W)
        → IsValid s.cache
        → IsValid (sequence_group p tests d r o s).1.cache
    unfolding sequence_group
    sequence_group-IsValid (inr refusal) s v = v
    sequence_group-IsValid (inl group) s v = sequence_rules-IsValid group _ s v

    pub handle_run_sequence-IsValid :
        (cfg : Config) (s : Server W)
        → IsValid s.cache
        → IsValid (handle_run_sequence p tests d r cfg s).1.cache
    unfolding handle_run_sequence
    handle_run_sequence-IsValid cfg s v = if-IsValid _ _ s _ v (sequence_group-IsValid _ s v)
