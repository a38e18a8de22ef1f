-- ===== src/Receivers/Poll.antt =====
-- The loop that the webhook and the IMAP receiver share: on every tick of a timer they look once,
-- until the context of the collection is done. When that is, the environment decides, which is
-- given by the number of ticks that come first; so contexts that are never done are left out.
use e2e_framework.Prelude.{ℕ, zero, suc, Text, Option, none, some}
use e2e_framework.Domain.{Duration, Error, Result, ok, err}

-- `ticks` is how often the timer comes before the end of a context with this timeout, `tick` what
-- happens in the world until the next tick, and `done` the text of `ctx.Err()`.
pub record Waiting (W : Type 0) : Type 0 where
  pub ticks : Duration → W → ℕ
  pub tick : Duration → W → W
  pub done : Text

module _ {W A : Type 0} (look : W → Result (Option A) × W) (tick : W → W) (timed_out : Error) where
  unfoldable pub poll : ℕ → W → Result A × W
  poll zero w = (err timed_out, w)
  poll (suc n) w =
      let (r, w') = look (tick w) in
      elim r [
        | err e ↦ (err e, w')
        | ok found ↦ elim found [ none ↦ poll n w' | some a ↦ (ok a, w') ]
      ]
