-- ===== src/Orchestrator/Order.antt =====
-- The critical sections of `collectAndAssertAll` in different orders.
use mathlib.Core.List.{Perm, Permᴰ, map, append-nil, append_assoc}
use mathlib.Core.List.Perm
use mathlib.Core.Logic.{∥∥₁_elim}
use mathlib.Core.Path.{ap₂}
use e2e_framework.Prelude.{◌≡◌, refl, ◌∙◌, sym, ap, ◌++◌, List, [], ◌∷◌, arith}
use e2e_framework.Domain.{ReceiverResult, TestResult, RunStatus}
use e2e_framework.Orchestrator.Collect.{merge_status, merge}

merge_status_swap :
    (a b s : RunStatus) → merge_status a (merge_status b s) ≡ merge_status b (merge_status a s)
unfolding merge_status
merge_status_swap a b s = ground arith

-- The critical sections of the goroutines, in the order in which they are entered.
unfoldable pub merge_all : List ReceiverResult → TestResult → TestResult
merge_all [] t = t
merge_all (r ∷ rs) t = merge_all rs (merge r t)

abbrev statuses : List RunStatus → RunStatus → RunStatus
statuses [] s = s
statuses (a ∷ l) s = statuses l (merge_status a s)

abbrev status_of : ReceiverResult → RunStatus
status_of r = r.status

status-merge_all :
    (rs : List ReceiverResult) (t : TestResult)
    → (merge_all rs t).status ≡ statuses (map status_of rs) t.status
unfolding merge_all merge
status-merge_all [] t = refl
status-merge_all (r ∷ rs) t = status-merge_all rs (merge r t)

receivers-merge_all :
    (rs : List ReceiverResult) (t : TestResult) → (merge_all rs t).receivers ≡ t.receivers ++ rs
unfolding merge_all merge
receivers-merge_all [] t = sym (append-nil t.receivers)
receivers-merge_all (r ∷ rs) t =
    receivers-merge_all rs (merge r t) ∙ append_assoc t.receivers (r ∷ []) rs

statuses-perm : {l m : List RunStatus} → Permᴰ l m → (s : RunStatus) → statuses l s ≡ statuses m s
statuses-perm Permᴰ.nil s = refl
statuses-perm (Permᴰ.cons {a = a} {l₂ = m} e q) s =
    statuses-perm q (merge_status a s) ∙ ap (λ b. statuses m (merge_status b s)) e
statuses-perm (Permᴰ.swap {a = a} {b = b} {l = l} e f) s =
    ap (statuses l) (merge_status_swap b a s)
    ∙ ap₂ (λ x y. statuses l (merge_status y (merge_status x s))) f e
statuses-perm (Permᴰ.trans q r) s = statuses-perm q s ∙ statuses-perm r s

RunStatus-set : IsSet RunStatus
RunStatus-set = hlevel

-- Whatever the order in which the goroutines of a step enter the critical section, the merged
-- status is the same, and so are the collected results up to their order.
pub merge_all-perm :
    (rs qs : List ReceiverResult) (t : TestResult)
    → Perm rs qs
    → ((merge_all rs t).status ≡ (merge_all qs t).status)
      × Perm (merge_all rs t).receivers (merge_all qs t).receivers
merge_all-perm rs qs t h = (
  status-merge_all rs t
      ∙ ∥∥₁_elim (Perm.map status_of h) (RunStatus-set _ _) (λ q. statuses-perm q t.status)
      ∙ sym (status-merge_all qs t),
  rw (receivers-merge_all rs t, receivers-merge_all qs t) (Perm.append (Perm.refl t.receivers) h),
)
