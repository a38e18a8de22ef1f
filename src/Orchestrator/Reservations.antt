-- ===== src/Orchestrator/Reservations.antt =====
-- The recipients of a step: what is reserved before it, and what is released after the run.
use e2e_framework.Prelude.{
  ◌≡◌, refl, sym, ap, ◌∙◌, subst, ◌⊎◌, inl, inr, Text, ◌==◌, ==_refl, lookup-delete, Option, none,
  some, Bool-cases, List, [], ◌∷◌, ◌++◌, All, arith, if◌then◌else◌,
}
use mathlib.Core.List.{append-nil, append_assoc}
use e2e_framework.Domain.{Time, ReceiverConfig, Error, ok, err, Result-cases}
use e2e_framework.Ports.{Ports}
use e2e_framework.Store.Memory.{Json, MemoryStore, pair_key, holder, release}
use e2e_framework.Store.Memory.Reservations.{held_by}
use e2e_framework.Store.Memory.Port.{memory_store}
use e2e_framework.Orchestrator.Run.{
  reservation_failed, reserve_recipients, release_recipients, run_deferred,
}

-- The receivers that name a recipient.
abbrev pub with_recipient : List ReceiverConfig → List ReceiverConfig
with_recipient [] = []
with_recipient (cfg ∷ cfgs) =
    if cfg.recipient == [] then with_recipient cfgs else cfg ∷ with_recipient cfgs

module _ {W : Type 0} (p : Ports W) (run_id : Text) where
  -- The calls of `Reserve` in these two worlds are one for each of the receivers, in order, and
  -- every one succeeds.
  abbrev pub Accepted : List ReceiverConfig → W → W → Type 0
  Accepted [] w w' = w ≡ w'
  Accepted (cfg ∷ cfgs) w w' =
      ((p.store.reserve cfg.type cfg.recipient run_id w).0 ≡ ok tt)
      × Accepted cfgs (p.store.reserve cfg.type cfg.recipient run_id w).1 w'

  -- How reserving these receivers ends, from one world in another.
  abbrev pub Attempted : List ReceiverConfig → W → Option Error → List ReceiverConfig → W → Type 0
  Attempted wanted w failure reserved w' =
      ((failure ≡ none) × (reserved ≡ wanted) × Accepted wanted w w')
      ⊎ ((cfg : ReceiverConfig) × (rest : List ReceiverConfig) × (e : Error) × (v : W) × (wanted
            ≡ reserved ++ (cfg ∷ rest))
          × Accepted reserved w v
          × (p.store.reserve cfg.type cfg.recipient run_id v ≡ (err e, w'))
          × (failure ≡ some (reservation_failed cfg.type e)))

  -- Those reserved are `before` and then `reserved`.
  abbrev AttemptedAfter :
      List ReceiverConfig
      → List ReceiverConfig
      → W
      → Option Error
      → List ReceiverConfig
      → W
      → Type 0
  AttemptedAfter before wanted w failure reserved w' =
      (more : List ReceiverConfig) × (reserved ≡ before ++ more)
      × Attempted wanted w failure more w'

  Attempted-cons :
      (cfg : ReceiverConfig) (wanted : List ReceiverConfig) (w : W) (failure : Option Error)
      (reserved : List ReceiverConfig) (w' : W)
      → (p.store.reserve cfg.type cfg.recipient run_id w).0 ≡ ok tt
      → Attempted wanted (p.store.reserve cfg.type cfg.recipient run_id w).1 failure reserved w'
      → Attempted (cfg ∷ wanted) w failure (cfg ∷ reserved) w'
  Attempted-cons cfg wanted w failure reserved w' q (inl (f, r, a)) =
      inl (f, ap (λ l. cfg ∷ l) r, (q, a))
  Attempted-cons cfg wanted w failure reserved w' q (inr (c, rest, e, v, s, a, z, f)) =
      inr (c, rest, e, v, ap (λ l. cfg ∷ l) s, (q, a), z, f)

  reserve_recipients-AttemptedAfter :
      (cfgs before : List ReceiverConfig) (w : W)
      → let (failure, reserved, w') = reserve_recipients p run_id cfgs before w in
        AttemptedAfter before (with_recipient cfgs) w failure reserved w'
  unfolding reserve_recipients
  reserve_recipients-AttemptedAfter [] before w =
      ([], sym (append-nil before), inl (refl, refl, refl))
  reserve_recipients-AttemptedAfter (cfg ∷ cfgs) before w =
      elim (Bool-cases (cfg.recipient == [])) [
        | inl h ↦ rw (h, reserve_recipients) (reserve_recipients-AttemptedAfter cfgs before w)
        | inr h ↦
            let (r, w') = p.store.reserve cfg.type cfg.recipient run_id w in
            let first : with_recipient (cfg ∷ cfgs) ≡ cfg ∷ with_recipient cfgs = rw h refl in
            elim (Result-cases r) [
              | inr (e, q) ↦
                  let refused : reserve_recipients p run_id (cfg ∷ cfgs) before w
                      ≡ (some (reservation_failed cfg.type e), before, w') =
                    rw (h, q, reserve_recipients) refl in
                  ended before _ _ w _ _ first refused (
                    [],
                    sym (append-nil before),
                    inr (cfg, with_recipient cfgs, e, w, refl, refl, (λ i. (q i, w')), refl),
                  )
              | inl (_, q) ↦
                  let accepted : reserve_recipients p run_id (cfg ∷ cfgs) before w
                      ≡ reserve_recipients p run_id cfgs (before ++ (cfg ∷ [])) w' =
                    rw (h, q, reserve_recipients) refl in
                  let (more, same, rest) =
                    reserve_recipients-AttemptedAfter cfgs (before ++ (cfg ∷ [])) w' in
                  ended before _ _ w _ _ first accepted (
                    cfg ∷ more,
                    same ∙ append_assoc before (cfg ∷ []) more,
                    Attempted-cons cfg (with_recipient cfgs) w _ more _ q rest,
                  )
            ]
      ]
    where
      ended :
          (before wanted wanted' : List ReceiverConfig) (w : W)
          (end end' : Option Error × List ReceiverConfig × W)
          → wanted ≡ wanted'
          → end ≡ end'
          → AttemptedAfter before wanted' w end'.0 end'.1 end'.2
          → AttemptedAfter before wanted w end.0 end.1 end.2
      ended before wanted wanted' w end end' e f a =
          subst (λ y. AttemptedAfter before y w end.0 end.1 end.2) (sym e)
            (subst (λ y. AttemptedAfter before wanted' w y.0 y.1 y.2) (sym f) a)

  -- Before a step, the store is asked to reserve the recipients of the receivers that name one, in
  -- order. Either all these calls succeed, and all the receivers are listed as reserved; or the
  -- error is the one that the store has refused a receiver with, under the type of that receiver,
  -- the calls for the receivers before it have succeeded, those are the ones listed, and the world
  -- is the one that the refusal leaves: nothing of them is released.
  pub reserve_recipients_lem :
      (cfgs : List ReceiverConfig) (w : W)
      → Attempted
          (with_recipient cfgs)
          w
          (reserve_recipients p run_id cfgs [] w).0
          (reserve_recipients p run_id cfgs [] w).1
          (reserve_recipients p run_id cfgs [] w).2
  reserve_recipients_lem cfgs w =
      let (failure, reserved, w') = reserve_recipients p run_id cfgs [] w in
      let (more, same, attempted) = reserve_recipients-AttemptedAfter cfgs [] w in
      subst (λ y. Attempted (with_recipient cfgs) w failure y w') (sym same) attempted

module _ {C : Type 0} (json : Json) (now : C → Time × C) (q : Ports (MemoryStore × C)) where
  abbrev p : Ports (MemoryStore × C)
  p = record q { store = memory_store json now }

  release-keeps :
      (channel recipient c r : Text) (t : Time) (s : MemoryStore)
      → held_by c r t s ≡ none
      → held_by c r t (release channel recipient s).1 ≡ none
  unfolding release holder
  release-keeps channel recipient c r t s h =
      ground (arith, lookup-delete (pair_key channel recipient) (pair_key c r) s.reservations)

  release_frees :
      (channel recipient : Text) (t : Time) (s : MemoryStore)
      → held_by channel recipient t (release channel recipient s).1 ≡ none
  unfolding release holder
  release_frees channel recipient t s =
      let key = pair_key channel recipient in
      ground (arith, lookup-delete key key s.reservations, ==_refl key)

  release_recipients-keeps :
      (reserved : List ReceiverConfig) (c r : Text) (t : Time) (w : MemoryStore × C)
      → held_by c r t w.0 ≡ none
      → held_by c r t (release_recipients p reserved w).0 ≡ none
  unfolding release_recipients memory_store
  release_recipients-keeps [] c r t w h = h
  release_recipients-keeps (cfg ∷ reserved) c r t w h =
      release_recipients-keeps reserved c r t _ (release-keeps cfg.type cfg.recipient c r t w.0 h)

  run_deferred-keeps :
      (deferred : List (List ReceiverConfig)) (c r : Text) (t : Time) (w : MemoryStore × C)
      → held_by c r t w.0 ≡ none
      → held_by c r t (run_deferred p deferred w).0 ≡ none
  unfolding run_deferred
  run_deferred-keeps [] c r t w h = h
  run_deferred-keeps (reserved ∷ deferred) c r t w h =
      run_deferred-keeps deferred c r t _ (release_recipients-keeps reserved c r t w h)

  abbrev pub IsFree : Time → MemoryStore × C → ReceiverConfig → Type 0
  IsFree t w cfg = held_by cfg.type cfg.recipient t w.0 ≡ none

  release_recipients-IsFree :
      (reserved : List ReceiverConfig) (deferred : List (List ReceiverConfig)) (t : Time)
      (w : MemoryStore × C)
      → All (IsFree t (run_deferred p deferred (release_recipients p reserved w))) reserved
  unfolding release_recipients memory_store
  release_recipients-IsFree [] deferred t w = tt
  release_recipients-IsFree (cfg ∷ reserved) deferred t w = (
    run_deferred-keeps deferred cfg.type cfg.recipient t _ (
        release_recipients-keeps reserved cfg.type cfg.recipient t _
          (release_frees cfg.type cfg.recipient t w.0)),
    release_recipients-IsFree reserved deferred t _,
  )

  -- On the memory store, the deferred calls at the end of a run leave every recipient that they
  -- release free, at every time and whoever held it.
  pub run_deferred-IsFree :
      (deferred : List (List ReceiverConfig)) (t : Time) (w : MemoryStore × C)
      → All (All (IsFree t (run_deferred p deferred w))) deferred
  unfolding run_deferred
  run_deferred-IsFree [] t w = tt
  run_deferred-IsFree (reserved ∷ deferred) t w =
      (release_recipients-IsFree reserved deferred t w, run_deferred-IsFree deferred t _)
