-- ===== src/Store/Disabled.antt =====
-- internal/adapters/secondary/store/disabled.go: a store that keeps nothing.
use e2e_framework.Prelude.{none}
use e2e_framework.Domain.{ok}
use e2e_framework.Store.{Store}

unfoldable pub disabled_store : {W : Type 0} → Store W
disabled_store = record {
  deposit = λ _ w. (ok tt, w);
  claim = λ _ _ w. (ok none, w);
  reserve = λ _ _ _ w. (ok tt, w);
  release = λ _ _ w. (ok tt, w);
  delete = λ _ _ w. (ok tt, w);
  close = λ w. (ok tt, w);
}
