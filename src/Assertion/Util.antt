-- ===== src/Assertion/Util.antt =====
-- internal/pkg/assertion/util.go. The results of gjson, a third-party library, enter as what the
-- code reads of them: an array with its items, or anything else with its text.
use e2e_framework.Prelude.{
  Text, lit, ◌==◌, ℤ, parse_int64, trim_space, eqb_ℤ, ltb_ℤ, Option, Bool, false, ◌||◌, not,
  if◌then◌else◌,
}

mutual
  pub data Gjson : Type 0 where
    leaf : Text → Gjson
    array : Elements → Gjson

  pub data Elements : Type 0 where
    nil : Elements
    element : Gjson → Elements → Elements

-- `ParseInt`
unfoldable pub parse_int : Text → Option ℤ
parse_int s = parse_int64 (trim_space s)

-- `CompareInts`: does the comparison hold, and the symbol for it.
unfoldable pub compare_ints : Text → ℤ → ℤ → Bool × Text
compare_ints typ a b =
    if typ == lit "int_eq"
    then (eqb_ℤ a b, lit "=")
    else if typ == lit "int_gt"
    then (ltb_ℤ b a, lit ">")
    else if typ == lit "int_gte"
    then (not (ltb_ℤ a b), lit ">=")
    else if typ == lit "int_lt"
    then (ltb_ℤ a b, lit "<")
    else if typ == lit "int_lte"
    then (not (ltb_ℤ b a), lit "<=")
    else (false, typ)

-- `WalkFind`; `ForEach` stops at the first item in which the target is found.
unfoldable mutual
  pub walk_find : Gjson → Text → Bool
  walk_find (leaf s) target = s == target
  walk_find (array xs) target = walk_each xs target

  pub walk_each : Elements → Text → Bool
  walk_each nil target = false
  walk_each (element x xs) target = walk_find x target || walk_each xs target
