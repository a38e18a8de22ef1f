-- ===== src/Orchestrator/Released.antt =====
-- The recipients of the steps that passed, after the run.
use e2e_framework.Prelude.{
  ℕ, ◌+◌, ◌≡◌, subst, inl, inr, Text, lit, Option, none, Option-cases, Bool-cases, true, false,
  List, [], ◌∷◌, All, arith,
}
use e2e_framework.Domain.{
  Time, RetryConfig, ReceiverConfig, TriggerConfig, TestDefinition, TestResult, Error, Result-cases,
  effective_type,
}
use e2e_framework.Ports.{Ports}
use e2e_framework.Store.Memory.{Json, MemoryStore}
use e2e_framework.Store.Memory.Port.{memory_store}
use e2e_framework.Orchestrator.Run.{Run, reserve_recipients, resolve_variables}
use e2e_framework.Orchestrator.Steps.{wait_before, run_step, run_steps, execute_sequential}
use e2e_framework.Orchestrator.Reservations.{
  with_recipient, Attempted, reserve_recipients_lem, IsFree, run_deferred-IsFree,
}

module _ {W : Type 0} (p : Ports W) (retry : RetryConfig) (run_id : Text) where
  run_step-reserved :
      (index : ℕ) (step : TriggerConfig) (s : Run W)
      → (run_step p retry index run_id step s).0 ≡ true
      → (run_step p retry index run_id step s).2 ≡ with_recipient step.receivers
  run_step-reserved index step s =
      let (created, w1) =
        p.create_trigger (effective_type step) step.options (wait_before p step s.world) in
      elim (Result-cases created) [
        | inr (e, q) ↦ unfold run_step in rw (q, run_step) (λ h. absurd (ground arith))
        | inl (trigger, q) ↦
            let (failure, reserved, w2) = reserve_recipients p run_id step.receivers [] w1 in
            elim (Option-cases failure) [
              | inr (e, f) ↦ unfold run_step in rw (q, f, run_step) (λ h. absurd (ground arith))
              | inl f ↦
                  unfold run_step in
                  rw (q, f, run_step)
                    (λ h. all w1 w2 f (reserve_recipients_lem p run_id step.receivers w1))
            ]
      ]
    where
      all :
          {cfgs done : List ReceiverConfig} {failure : Option Error} (w w' : W)
          → failure ≡ none
          → Attempted p run_id cfgs w failure done w'
          → done ≡ cfgs
      all w w' f (inl (_, r, _)) = r
      all w w' f (inr (_, _, e, _, _, _, _, g)) = absurd (ground arith)

  -- The property holds of the receivers with a recipient of every step that passes.
  abbrev pub EachPassed : (ReceiverConfig → Type 0) → ℕ → List TriggerConfig → Run W → Type 0
  EachPassed P index [] s = Unit
  EachPassed P index (step ∷ steps) s =
      let (on, s', reserved) = run_step p retry index run_id step s in
      elim on [
        | true ↦ All P (with_recipient step.receivers) × EachPassed P (index + 1) steps s'
        | false ↦ Unit
      ]

  run_steps-deferred :
      (P : List ReceiverConfig → Type 0) (index : ℕ) (steps : List TriggerConfig) (s : Run W)
      (deferred : List (List ReceiverConfig))
      → All P (run_steps p retry index run_id steps s deferred).1
      → All P deferred
  unfolding run_steps
  run_steps-deferred P index [] s deferred = λ h. h
  run_steps-deferred P index (step ∷ steps) s deferred =
      let (on, s', reserved) = run_step p retry index run_id step s in
      elim (Bool-cases on) [
        | inl q ↦
            rw (q, run_steps)
              (λ h. (run_steps-deferred P (index + 1) steps s' (reserved ∷ deferred) h).1)
        | inr q ↦ rw (q, run_steps) (λ h. h.1)
      ]

  run_steps-EachPassed :
      (P : ReceiverConfig → Type 0) (index : ℕ) (steps : List TriggerConfig) (s : Run W)
      (deferred : List (List ReceiverConfig))
      → All (All P) (run_steps p retry index run_id steps s deferred).1
      → EachPassed P index steps s
  unfolding run_steps
  run_steps-EachPassed P index [] s deferred = λ h. tt
  run_steps-EachPassed P index (step ∷ steps) s deferred =
      let (on, s', reserved) = run_step p retry index run_id step s in
      elim (Bool-cases on) [
        | inr q ↦ rw (q, run_steps, EachPassed) (λ h. tt)
        | inl q ↦
            rw (q, run_steps, EachPassed)
              (λ h. (
                subst (All P) (run_step-reserved index step s q)
                    (run_steps-deferred (All P) (index + 1) steps s' (reserved ∷ deferred) h).0,
                run_steps-EachPassed P (index + 1) steps s' (reserved ∷ deferred) h,
              ))
      ]

module _ {C : Type 0} (json : Json) (now : C → Time × C) (q : Ports (MemoryStore × C)) where
  abbrev p : Ports (MemoryStore × C)
  p = record q { store = memory_store json now }

  -- On the memory store, when the steps of a run have ended and the deferred calls have been made,
  -- the recipients of every step that passed are free, whatever triggers and receivers did to the
  -- store.
  pub execute_sequential-EachPassed :
      (def : TestDefinition) (run_id : Text) (r : TestResult) (t : Time) (w : MemoryStore × C)
      → let (vars, w1) = resolve_variables p def.variables ((lit "run_id", run_id) ∷ []) w in
        EachPassed p def.retry run_id
          (IsFree json now q t (execute_sequential p def run_id r w).1)
          0
          def.triggers
          (record { vars = vars; world = w1; result = r })
  unfolding execute_sequential
  execute_sequential-EachPassed def run_id r t w =
      let (vars, w1) = resolve_variables p def.variables ((lit "run_id", run_id) ∷ []) w in
      let s : Run (MemoryStore × C) = record { vars = vars; world = w1; result = r } in
      let (s', deferred) = run_steps p def.retry 0 run_id def.triggers s [] in
      run_steps-EachPassed p def.retry run_id _ 0 def.triggers s []
        (run_deferred-IsFree json now q deferred t s'.world)
