-- ===== src/Orchestrator/Status.antt =====
-- The status of a run as its receivers' results are merged into it.
use e2e_framework.Prelude.{
  ℕ, ◌≡◌, ◌≢◌, inl, inr, Text, List, [], ◌∷◌, All, All-append, arith, Bool-cases, ◌==◌, ◌&&◌, not,
}
use e2e_framework.Domain.{
  Vars, AssertionConfig, ReceiverConfig, Message, ReceiverResult, TestResult, RunStatus, passed,
  failed, error, skipped, running, is_passed, Result-cases,
}
use e2e_framework.Template.{replace_string}
use e2e_framework.Ports.{Ports, Receiver, ActiveReceiver}
use e2e_framework.Orchestrator.Run.{Run}
use e2e_framework.Orchestrator.Collect.{
  merge_status, merge, summarize, assert_all, collect_and_assert, run_receiver, run_receivers,
  collect_and_assert_all,
}

-- The statuses that a receiver's result can have.
abbrev pub IsOutcome : RunStatus → Type 0
IsOutcome passed = Unit
IsOutcome failed = Unit
IsOutcome error = Unit
IsOutcome _ = ⊥

merge_status-passed :
    (a s : RunStatus) → IsOutcome a → merge_status a s ≡ passed → (a ≡ passed) × (s ≡ passed)
unfolding merge_status
merge_status-passed passed s o h = ground arith
merge_status-passed failed s o h = ground arith
merge_status-passed error s o h = ground arith
merge_status-passed skipped s o h = elim o [ ]
merge_status-passed running s o h = elim o [ ]

merge_status-IsOutcome :
    (a s : RunStatus) → IsOutcome a → IsOutcome s → IsOutcome (merge_status a s)
unfolding merge_status
merge_status-IsOutcome a s o q = ground arith

pub merge_status-ne-passed : (a s : RunStatus) → s ≢ passed → merge_status a s ≢ passed
unfolding merge_status
merge_status-ne-passed a s h e = ground arith

module _ {W : Type 0} (p : Ports W) where
  assert_all-IsOutcome :
      (cfgs : List AssertionConfig) (msg : Message) (vars : Vars) (w : W)
      → IsOutcome (assert_all p cfgs msg vars w).0.0
  unfolding assert_all
  assert_all-IsOutcome [] msg vars w = tt
  assert_all-IsOutcome (cfg ∷ cfgs) msg vars w =
      let (f, vars1, w1) = replace_string p.random cfg.field vars w in
      let (v, vars2, w2) = replace_string p.random cfg.value vars1 w1 in
      ground (arith, assert_all-IsOutcome cfgs msg vars2 w2)

  collect_and_assert-IsOutcome :
      (run_id : Text) (cfg : ReceiverConfig) (rcv : Receiver W) (vars : Vars) (w : W)
      → IsOutcome (collect_and_assert p run_id cfg rcv vars w).0.status
  unfolding collect_and_assert
  collect_and_assert-IsOutcome run_id cfg rcv vars w =
      let (r, vars1, w1) = rcv.collect cfg.timeout vars w in
      elim (Result-cases r) [
        | inl (m, e) ↦
            rw (e, collect_and_assert)
              (assert_all-IsOutcome cfg.assertions m vars1 (p.store.delete run_id cfg.type w1).1)
        | inr (x, e) ↦ rw (e, collect_and_assert) tt
      ]

-- If the status is passed, there is no error and all receivers passed.
pub record IsClean (r : TestResult) : Type 0 where
  pub outcome : IsOutcome r.status
  pub no_error : r.status ≡ passed → r.error ≡ []
  pub receivers_passed : r.status ≡ passed → All (λ x. x.status ≡ passed) r.receivers

merge-IsClean :
    (x : ReceiverResult) (r : TestResult) → IsOutcome x.status → IsClean r → IsClean (merge x r)
unfolding merge
merge-IsClean x r o c = record {
  outcome = merge_status-IsOutcome x.status r.status o c.outcome;
  no_error = λ e. c.no_error (merge_status-passed x.status r.status o e).1;
  receivers_passed = λ e.
      let q = merge_status-passed x.status r.status o e in
      All-append (λ y. y.status ≡ passed) r.receivers (x ∷ []) (c.receivers_passed q.1) (q.0, tt);
}

pub failed-IsClean : (r : TestResult) → r.status ≡ error → IsClean r
failed-IsClean r e = record {
  outcome = rw e tt;
  no_error = λ q. absurd (ground arith);
  receivers_passed = λ q. absurd (ground arith);
}

summarize-IsClean : (r : TestResult) → IsClean r → IsClean (summarize r)
unfolding summarize
summarize-IsClean r c = elim (Bool-cases (r.error == [] && not (is_passed r.status))) [
  | inl open_error ↦
      rw (open_error, summarize)
        (record {
          outcome = c.outcome;
          no_error = λ e. absurd (ground arith);
          receivers_passed = c.receivers_passed;
        })
  | inr closed ↦ rw (closed, summarize) c
]

module _ {W : Type 0} (p : Ports W) where
  run_receiver-IsClean :
      (run_id : Text) (index : ℕ) (a : ActiveReceiver W) (s : Run W)
      → IsClean s.result
      → IsClean (run_receiver p run_id index a s).result
  unfolding run_receiver
  run_receiver-IsClean run_id index a s c =
      merge-IsClean _ s.result
        (collect_and_assert-IsOutcome p run_id a.cfg a.instance_ s.vars (p.now s.world).1) c

  run_receivers-IsClean :
      (run_id : Text) (index : ℕ) (l : List (ActiveReceiver W)) (s : Run W)
      → IsClean s.result
      → IsClean (run_receivers p run_id index l s).result
  unfolding run_receivers
  run_receivers-IsClean run_id index [] s c = c
  run_receivers-IsClean run_id index (a ∷ l) s c =
      run_receivers-IsClean run_id index l (run_receiver p run_id index a s)
        (run_receiver-IsClean run_id index a s c)

  pub collect_and_assert_all-IsClean :
      (run_id : Text) (index : ℕ) (l : List (ActiveReceiver W)) (s : Run W)
      → IsClean s.result
      → IsClean (collect_and_assert_all p run_id index l s).result
  unfolding collect_and_assert_all
  collect_and_assert_all-IsClean run_id index l s c =
      summarize-IsClean _ (run_receivers-IsClean run_id index (p.finish_order s.world l) s c)
