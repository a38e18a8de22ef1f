-- ===== src/Template/Generators.antt =====
-- internal/pkg/template/generators: the registry, `uuid` and `randomInt`.
pub mod Bounds
use e2e_framework.Prelude.{
  ℕ, zero, suc, ◌*◌, Text, lit, Dict, lookup, insert, ℤ, pos, negsuc, wrap64, parse_int64,
  format_int, trim_space, ◌==◌, if◌then◌else◌, Option, none, some, [], ◌∷◌,
}
use e2e_framework.Prelude.{◌%◌, ◌^◌}

-- github.com/google/uuid and math/rand/v2, which draw from a state. Go's `IntN` panics at an
-- argument that is not positive.
pub record Random (W : Type 0) : Type 0 where
  pub new_uuid : W → Text × W
  pub int_n : ℤ → W → ℤ × W

pub data Generator : Type 0 where
  random_int uuid : Generator

-- `Name`
unfoldable pub name : Generator → Text
name random_int = lit "randomInt"
name uuid = lit "uuid"

-- `Register`, of a generator that is not nil.
unfoldable pub register : Generator → Dict Generator → Dict Generator
register g registry = insert (name g) g registry

-- What the two `init` functions leave behind.
abbrev pub registry : Dict Generator
registry = (lit "randomInt", random_int) ∷ (lit "uuid", uuid) ∷ []

-- `max := 1; for range n { max *= 10 }` on an `int` of 64 bits, as its bit pattern.
unfoldable power_bits : ℕ → ℕ
power_bits zero = 1
power_bits (suc n) = (power_bits n * 10) % 2 ^ 64

unfoldable pub max_of : ℕ → ℤ
unfolding power_bits
max_of n = wrap64 (pos (power_bits n))

module _ {W : Type 0} (r : Random W) where
  random_int_of : Option ℤ → W → Option Text × W
  unfolding max_of
  random_int_of none w = (none, w)
  random_int_of (some (negsuc n)) w = (none, w)
  random_int_of (some (pos zero)) w = (none, w)
  random_int_of (some (pos (suc n))) w =
      let (v, w') = r.int_n (max_of (suc n)) w in (some (format_int v), w')

  -- `Generate`; `none` where the arguments are rejected.
  unfoldable pub generate : Generator → Text → W → Option Text × W
  unfolding random_int_of
  generate random_int args w = random_int_of (parse_int64 (trim_space args)) w
  generate uuid args w =
      if args == [] then (let (u, w') = r.new_uuid w in (some u, w')) else (none, w)

  -- `Resolve`
  unfoldable pub resolve : Text → Text → W → Option Text × W
  unfolding generate
  resolve n args w = elim (lookup n registry) [ none ↦ (none, w) | some g ↦ generate g args w ]
