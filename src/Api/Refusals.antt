-- ===== src/Api/Refusals.antt =====
-- What the answers of `handleRun` and `handleRunSequence` that refuse a request leave behind.
use e2e_framework.Prelude.{
  ◌<◌, ◌≡◌, refl, ◌⊎◌, inl, inr, Text, Dict, Option, none, some, Bool, Bool-cases, true, false,
  List, [], ◌∷◌, arith, if◌then◌else◌,
}
use e2e_framework.Domain.{Duration, TestDefinition}
use e2e_framework.Groups.{TestGroup}
use e2e_framework.Ports.{Ports}
use e2e_framework.Api.Handlers.{
  Request, Response, Server, Decoders, Config, handle_run, handle_run_sequence, auth_middleware,
  run_definition, run_found, sequence_found, sequence_delayed, sequence_rules, sequence_group,
}

-- An answer is below 400, or comes with the state that was there before.
abbrev pub Spares : {W : Type 0} → Server W → Response × Server W → Type 0
Spares s x = (x.0.status < 400) ⊎ (x.1 ≡ s)

module _ {W : Type 0} (p : Ports W) (tests : Dict TestDefinition) where
  if-Spares :
      (b : Bool) (refusal : Response) (s : Server W) (x : Response × Server W)
      → Spares s x
      → Spares s (if b then (refusal, s) else x)
  if-Spares true refusal s x h = inr refl
  if-Spares false refusal s x h = h

  run_definition-Spares :
      (async : Bool) (def : TestDefinition) (s : Server W)
      → Spares s (run_definition p tests async def s)
  unfolding run_definition
  run_definition-Spares true def s = inl (omega arith)
  run_definition-Spares false def s = inl (omega arith)

  run_found-Spares :
      (id : Text) (o : Option TestDefinition) (s : Server W) → Spares s (run_found p tests id o s)
  unfolding run_found
  run_found-Spares id none s = inr refl
  run_found-Spares id (some def) s = run_definition-Spares def.async def s

  handle_run-Spares : (r : Request) (s : Server W) → Spares s (handle_run p tests r s)
  unfolding handle_run
  handle_run-Spares r s = if-Spares _ _ s _ (run_found-Spares _ _ s)

  sequence_found-Spares :
      (delay : Duration) (skip : Bool) (o : List TestDefinition ⊎ Text) (s : Server W)
      → Spares s (sequence_found p tests delay skip o s)
  unfolding sequence_found
  sequence_found-Spares delay skip (inr bad) s = inr refl
  sequence_found-Spares delay skip (inl defs) s = inl (omega arith)

  sequence_delayed-Spares :
      (rules : List Text) (skip : Bool) (o : Duration ⊎ Response) (s : Server W)
      → Spares s (sequence_delayed p tests rules skip o s)
  unfolding sequence_delayed
  sequence_delayed-Spares rules skip (inr refusal) s = inr refl
  sequence_delayed-Spares rules skip (inl delay) s = sequence_found-Spares delay skip _ s

  module _ (d : Decoders) (r : Request) where
    sequence_rules-Spares :
        (group : Option TestGroup) (o : List Text ⊎ Response) (s : Server W)
        → Spares s (sequence_rules p tests d r group o s)
    unfolding sequence_rules
    sequence_rules-Spares group (inr refusal) s = inr refl
    sequence_rules-Spares group (inl []) s = inr refl
    sequence_rules-Spares group (inl (id ∷ ids)) s = sequence_delayed-Spares (id ∷ ids) _ _ s

    sequence_group-Spares :
        (o : Option TestGroup ⊎ Response) (s : Server W) → Spares s (sequence_group p tests d r o s)
    unfolding sequence_group
    sequence_group-Spares (inr refusal) s = inr refl
    sequence_group-Spares (inl group) s = sequence_rules-Spares group _ s

    handle_run_sequence-Spares :
        (cfg : Config) (s : Server W) → Spares s (handle_run_sequence p tests d r cfg s)
    unfolding handle_run_sequence
    handle_run_sequence-Spares cfg s = if-Spares _ _ s _ (sequence_group-Spares _ s)

    auth-Spares :
        (cfg : Config) (next : Request → Server W → Response × Server W) (s : Server W)
        → Spares s (next r s)
        → Spares s (auth_middleware p tests cfg next r s)
    unfolding auth_middleware
    auth-Spares cfg next s h = elim (Bool-cases cfg.auth_enable) [
      | inr e ↦ rw (e, auth_middleware) h
      | inl e ↦ rw (e, auth_middleware) (if-Spares _ _ s _ h)
    ]

    -- A request to run a test or a sequence, with or without authentication, is answered by a
    -- status below 400, or it changes neither the results nor the pending runs nor the world, so
    -- that no test has been started.
    pub refusal_changes_nothing :
        (cfg : Config) (s : Server W)
        → Spares s (auth_middleware p tests cfg (handle_run p tests) r s)
          × Spares s (auth_middleware p tests cfg (λ q. handle_run_sequence p tests d q cfg) r s)
    refusal_changes_nothing cfg s = (
      auth-Spares cfg _ s (handle_run-Spares r s),
      auth-Spares cfg _ s (handle_run_sequence-Spares cfg s),
    )
