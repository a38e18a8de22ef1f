-- ===== src/Registries.antt =====
-- registry.go of internal/adapters/secondary/trigger, receiver and store: factories by type name.
pub mod Laws
use e2e_framework.Prelude.{
  Text, lit, ◌==◌, ◌++◌, quote, Dict, lookup, insert, Option, none, some, Bool, true, false, [],
  if◌then◌else◌,
}
use e2e_framework.Domain.{Vars, ReceiverConfig, Error, wrap, configuration, Result, ok, err}
use e2e_framework.Config.{StoreConfig}

-- What is made is a trigger, a receiver or a store.
module _ {A : Type 0} where
  unfoldable pub register_trigger :
      Text → (Vars → Result A) → Dict (Vars → Result A) → Dict (Vars → Result A)
  register_trigger name factory factories = insert name factory factories

  unfoldable pub create_trigger : Dict (Vars → Result A) → Text → Vars → Result A
  create_trigger factories name options = elim (lookup name factories) [
    | some factory ↦ factory options
    | none ↦ err (wrap configuration (lit "unknown trigger type: " ++ quote name))
  ]

  unfoldable pub register_receiver :
      Text
      → (ReceiverConfig → Result A)
      → Dict (ReceiverConfig → Result A)
      → Dict (ReceiverConfig → Result A)
  register_receiver name factory factories = insert name factory factories

  unfoldable pub create_receiver : Dict (ReceiverConfig → Result A) → ReceiverConfig → Result A
  create_receiver factories cfg = elim (lookup cfg.type factories) [
    | some factory ↦ factory cfg
    | none ↦ err (wrap configuration (lit "unknown receiver type: " ++ quote cfg.type))
  ]

  unfoldable pub register_store :
      Text
      → (StoreConfig → Result A)
      → Dict (StoreConfig → Result A)
      → Dict (StoreConfig → Result A)
  register_store name factory factories = insert name factory factories

  unfoldable pub create_store : Dict (StoreConfig → Result A) → StoreConfig → Result A
  create_store factories cfg =
      if cfg.type == []
      then err (wrap configuration (lit "store type not configured"))
      else (elim (lookup cfg.type factories) [
        | none ↦ err (wrap configuration (lit "unknown store type: " ++ quote cfg.type))
        | some factory ↦ factory cfg
      ])
