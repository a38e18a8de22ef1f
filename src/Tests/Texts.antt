-- ===== src/Tests/Texts.antt =====
-- Placeholders, counters, assertions and groups.
use e2e_framework.Prelude.{
  ◌≡◌, refl, ◌↔◌, ◌==◌, ◌+ℤ◌, lit, pos, ℤ, lookup, insert, trim_space, parse_int64, wrap64,
  format_int, some, true, [], ◌∷◌,
}
use e2e_framework.Domain.{ok}
use e2e_framework.Template.{replace_increments, increment_regex}
use e2e_framework.Template.Laws.{has_paren, increment_known}
use e2e_framework.Assertion.{
  Gjson, leaf, array, nil, element, walk_find, actual_of, assert_int, parse_int,
}
use e2e_framework.Assertion.Laws.{Found, walk_find_iff, int_gt, type_name, Holds, assert_int_iff}
use e2e_framework.Groups.{TestGroupConfig, TestGroup}
use e2e_framework.Tests.World.{mail}

increment_known_example :
    replace_increments increment_regex (pos 1) (lit "{{++(n)}}") ((lit "n", lit "9") ∷ []) ≡ (
      format_int (wrap64 (pos 9 +ℤ pos 1)),
      insert
          (trim_space (lit "n"))
          (format_int (wrap64 (pos 9 +ℤ pos 1)))
          ((lit "n", lit "9") ∷ []),
    )
unfolding has_paren lookup trim_space parse_int64 ◌==◌
increment_known_example =
    increment_known (lit "n") ((lit "n", lit "9") ∷ []) refl (lit "9") (pos 9) refl refl

abbrev nested : Gjson
nested = array (element (leaf (lit "a")) (element (array (element (leaf (lit "b")) nil)) nil))

walk_find_iff_example : (walk_find nested (lit "b") ≡ true) ↔ Found (lit "b") nested
walk_find_iff_example = walk_find_iff nested (lit "b")

assert_int_iff_example :
    (assert_int (type_name int_gt) (lit "subject") (lit "7") (mail (lit "10")) ≡ ok tt) ↔ (
      (a : ℤ) × (b : ℤ) × (parse_int (actual_of (lit "subject") (mail (lit "10"))) ≡ some a)
      × (parse_int (lit "7") ≡ some b)
      × Holds int_gt a b)
assert_int_iff_example = assert_int_iff int_gt (lit "subject") (lit "7") (mail (lit "10"))

abbrev smoke : TestGroupConfig
smoke = record {
  description = [];
  tests = lit "signup" ∷ [];
  test_delay = pos 0;
  skip_fail_test = true;
}

abbrev smoke_group : TestGroup
smoke_group = record { tests = lit "signup" ∷ []; test_delay = pos 0; skip_fail_test = true }
