-- ===== src/Template/Generators/Bounds.antt =====
-- The bound that `randomInt` draws below, as a 64-bit integer.
use native.Mathlib.Nat.{pow-suc, add-suc}
use e2e_framework.Prelude.{
  ℕ, zero, suc, ◌+◌, ◌*◌, ◌^◌, ◌%◌, ◌<◌, ◌≡◌, refl, ap, ◌∙◌, pos, wrap64, arith,
}
use e2e_framework.Template.Generators.{power_bits, max_of}

power_bits-exact : (n : ℕ) → 10 ^ n < 2 ^ 64 → power_bits n ≡ 10 ^ n
unfolding power_bits
power_bits-exact zero h = refl
power_bits-exact (suc n) h =
    let s : 10 ^ suc n ≡ 10 ^ n * 10 = pow-suc 10 n in
    let ih = power_bits-exact n (omega (arith, s)) in omega (arith, s, ih)

wrap64-small : (x : ℕ) → x < 2 ^ 63 → wrap64 (pos x) ≡ pos x
unfolding wrap64
wrap64-small x h = ground arith

power_bits-zero : (n : ℕ) → power_bits (64 + n) ≡ 0
unfolding power_bits
power_bits-zero zero = refl
power_bits-zero (suc n) =
    ap power_bits (add-suc 64 n) ∙ ap (λ b. (b * 10) % 2 ^ 64) (power_bits-zero n)

-- As long as it is below 2^63, which it is up to 18 digits, the bound is the power of ten; from 64
-- digits on it has wrapped around to zero, at which `rand.IntN` panics.
pub max_of_lem : (n m : ℕ) → 10 ^ n < 2 ^ 63 → (max_of n ≡ pos (10 ^ n)) × (max_of (64 + m) ≡ pos 0)
unfolding max_of
max_of_lem n m h = (
  ap (λ x. wrap64 (pos x)) (power_bits-exact n (omega arith)) ∙ wrap64-small (10 ^ n) h,
  ap (λ x. wrap64 (pos x)) (power_bits-zero m) ∙ wrap64-small 0 (omega arith),
)
