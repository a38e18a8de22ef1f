-- ===== src/Registries/Laws.antt =====
-- What a registration changes.
use e2e_framework.Prelude.{
  ◌≡◌, refl, ◌==◌, ==_iff, Text, Dict, lookup-insert, Bool-cases, false, inl, inr, [], arith,
  if◌then◌else◌,
}
use e2e_framework.Domain.{Vars, ReceiverConfig, Result}
use e2e_framework.Config.{StoreConfig}
use e2e_framework.Registries.{
  register_trigger, create_trigger, register_receiver, create_receiver, register_store,
  create_store,
}

module _ {A : Type 0} (name : Text) where
  create_trigger-register :
      (f : Vars → Result A) (m : Dict (Vars → Result A)) (type : Text) (options : Vars)
      → create_trigger (register_trigger name f m) type options
        ≡ (if name == type then f options else create_trigger m type options)
  unfolding create_trigger register_trigger
  create_trigger-register f m type options = elim (Bool-cases (name == type)) [
    | inl e ↦ rw (lookup-insert name type f m, e, create_trigger) refl
    | inr e ↦ rw (lookup-insert name type f m, e, create_trigger) refl
  ]

  create_receiver-register :
      (f : ReceiverConfig → Result A) (m : Dict (ReceiverConfig → Result A)) (cfg : ReceiverConfig)
      → create_receiver (register_receiver name f m) cfg
        ≡ (if name == cfg.type then f cfg else create_receiver m cfg)
  unfolding create_receiver register_receiver
  create_receiver-register f m cfg = elim (Bool-cases (name == cfg.type)) [
    | inl e ↦ rw (lookup-insert name cfg.type f m, e, create_receiver) refl
    | inr e ↦ rw (lookup-insert name cfg.type f m, e, create_receiver) refl
  ]

  create_store-register :
      (f : StoreConfig → Result A) (m : Dict (StoreConfig → Result A)) (cfg : StoreConfig)
      → (name == []) ≡ false
      → create_store (register_store name f m) cfg
        ≡ (if name == cfg.type then f cfg else create_store m cfg)
  unfolding create_store register_store
  create_store-register f m cfg h = elim (Bool-cases (name == cfg.type)) [
    | inl e ↦
        let q : (cfg.type == []) ≡ false = ground (arith, ==_iff name cfg.type) in
        rw (lookup-insert name cfg.type f m, e, q, create_store) refl
    | inr e ↦ rw (lookup-insert name cfg.type f m, e) refl
  ]

  -- After a factory has been registered under a name that is not empty, the triggers, receivers and
  -- stores of this type are made by it, in place of any other, and all others as before.
  pub create-register :
      (f : Vars → Result A) (g : ReceiverConfig → Result A) (h : StoreConfig → Result A)
      (m : Dict (Vars → Result A)) (n : Dict (ReceiverConfig → Result A))
      (l : Dict (StoreConfig → Result A)) (type : Text) (options : Vars) (cfg : ReceiverConfig)
      (store : StoreConfig)
      → (name == []) ≡ false
      → (create_trigger (register_trigger name f m) type options
          ≡ (if name == type then f options else create_trigger m type options))
        × (create_receiver (register_receiver name g n) cfg
            ≡ (if name == cfg.type then g cfg else create_receiver n cfg))
        × (create_store (register_store name h l) store
            ≡ (if name == store.type then h store else create_store l store))
  create-register f g h m n l type options cfg store filled = (
    create_trigger-register f m type options,
    create_receiver-register g n cfg,
    create_store-register h l store filled,
  )
