-- ===== src/Assertion/Laws.antt =====
-- What the assertions decide, against independent descriptions.
use e2e_framework.Prelude.{
  ◌+◌, ◌≤◌, ◌≡◌, refl, ◌↔◌, inl, inr, Text, lit, ◌==◌, ==_iff, contains, ℤ, pos_part, neg_part,
  some, Option-cases, Bool-cases, Bool, true, false, arith,
}
use e2e_framework.Domain.{Message, ok, err, Error}
use e2e_framework.Assertion.Util.{
  Gjson, leaf, array, Elements, nil, element, parse_int, compare_ints, walk_find,
}
use e2e_framework.Assertion.Kinds.{
  actual_of, assert_contains, assert_not_contains, assert_int, require,
}

-- The target stands somewhere under the arrays of the value.
mutual
  pub data Found (target : Text) : Gjson → Type 0 where
    here : {s : Text} → s ≡ target → Found target (leaf s)
    inside : {xs : Elements} → FoundIn target xs → Found target (array xs)

  pub data FoundIn (target : Text) : Elements → Type 0 where
    first : {x : Gjson} {xs : Elements} → Found target x → FoundIn target (element x xs)
    later : {x : Gjson} {xs : Elements} → FoundIn target xs → FoundIn target (element x xs)

mutual
  unfolding walk_find

  walk_sound : (g : Gjson) (t : Text) → walk_find g t ≡ true → Found t g
  walk_sound (leaf s) t h = here ((==_iff s t).0 h)
  walk_sound (array xs) t h = inside (walk_each_sound xs t h)

  walk_each_sound : (xs : Elements) (t : Text) → walk_find (array xs) t ≡ true → FoundIn t xs
  walk_each_sound nil t h = absurd (ground arith)
  walk_each_sound (element x xs) t h = elim (Bool-cases (walk_find x t)) [
    | inl e ↦ first (walk_sound x t e)
    | inr e ↦ later (walk_each_sound xs t (ground arith))
  ]

mutual
  unfolding walk_find

  walk_complete : {g : Gjson} {t : Text} → Found t g → walk_find g t ≡ true
  walk_complete {t = t} (here {s = s} e) = (==_iff s t).1 e
  walk_complete (inside f) = walk_each_complete f

  walk_each_complete : {xs : Elements} {t : Text} → FoundIn t xs → walk_find (array xs) t ≡ true
  walk_each_complete (first f) = ground (arith, walk_complete f)
  walk_each_complete {t = t} (later {x = x} f) = ground (arith, walk_each_complete f)

-- `WalkFind` finds the target exactly if it is a leaf under the nested arrays.
pub walk_find_iff : (g : Gjson) (t : Text) → (walk_find g t ≡ true) ↔ Found t g
walk_find_iff g t = (walk_sound g t, walk_complete)

-- Exactly one of `contains` and `not_contains` passes, on every field, value and message.
pub contains_complement :
    (field value : Text) (msg : Message)
    → (assert_contains field value msg ≡ ok tt)
      ↔ ((e : Error) × (assert_not_contains field value msg ≡ err e))
unfolding assert_contains assert_not_contains
contains_complement field value msg = elim (Bool-cases (contains (actual_of field msg) value)) [
  | inl e ↦ rw e (λ _. (_, refl), λ _. refl)
  | inr e ↦ rw e (λ h. absurd (ground arith), λ (x, h). absurd (ground arith))
]

-- The five comparisons of integers, their type names, and the orders that they stand for.
pub data Comparison : Type 0 where
  int_eq int_gt int_gte int_lt int_lte : Comparison

abbrev pub type_name : Comparison → Text
type_name int_eq = lit "int_eq"
type_name int_gt = lit "int_gt"
type_name int_gte = lit "int_gte"
type_name int_lt = lit "int_lt"
type_name int_lte = lit "int_lte"

infix 50 ◌≤ℤ◌
abbrev pub ◌≤ℤ◌ : ℤ → ℤ → Type 0
a ≤ℤ b = pos_part a + neg_part b ≤ pos_part b + neg_part a

abbrev pub Holds : Comparison → ℤ → ℤ → Type 0
Holds int_eq a b = a ≡ b
Holds int_gt a b = ¬ (a ≤ℤ b)
Holds int_gte a b = b ≤ℤ a
Holds int_lt a b = ¬ (b ≤ℤ a)
Holds int_lte a b = a ≤ℤ b

compare_ints_iff :
    (k : Comparison) (a b : ℤ) → ((compare_ints (type_name k) a b).0 ≡ true) ↔ Holds k a b
unfolding compare_ints ◌==◌
compare_ints_iff int_eq a b = ground arith
compare_ints_iff int_gt a b = ground arith
compare_ints_iff int_gte a b = ground arith
compare_ints_iff int_lt a b = ground arith
compare_ints_iff int_lte a b = ground arith

require_iff : (b : Bool) (e : Error) → (require b e ≡ ok tt) ↔ (b ≡ true)
require_iff true e = (λ _. refl, λ _. refl)
require_iff false e = (λ h. absurd (ground arith), λ h. absurd (ground arith))

-- An integer assertion passes exactly if the field and the expected value are integers of 64 bits
-- that stand in the order of its type.
pub assert_int_iff :
    (k : Comparison) (field value : Text) (msg : Message)
    → (assert_int (type_name k) field value msg ≡ ok tt) ↔ (
        (a : ℤ) × (b : ℤ) × (parse_int (actual_of field msg) ≡ some a)
        × (parse_int value ≡ some b)
        × Holds k a b)
unfolding assert_int
assert_int_iff k field value msg = (passes, holds)
  where
    passes :
        assert_int (type_name k) field value msg ≡ ok tt
        → (a : ℤ) × (b : ℤ) × (parse_int (actual_of field msg) ≡ some a)
          × (parse_int value ≡ some b)
          × Holds k a b
    passes h = elim (Option-cases (parse_int (actual_of field msg))) [
      | inl e ↦ absurd (ground arith)
      | inr (a, e) ↦ elim (Option-cases (parse_int value)) [
        | inl f ↦ absurd (ground arith)
        | inr (b, f) ↦ (
          a,
          b,
          e,
          f,
          (compare_ints_iff k a b).0
              ((require_iff (compare_ints (type_name k) a b).0 _).0 (rw (e, f, assert_int) at h)),
        )
      ]
    ]

    holds :
        ((a : ℤ) × (b : ℤ) × (parse_int (actual_of field msg) ≡ some a)
          × (parse_int value ≡ some b)
          × Holds k a b)
        → assert_int (type_name k) field value msg ≡ ok tt
    holds (a, b, e, f, h) =
        rw (e, f, assert_int) ((require_iff _ _).1 ((compare_ints_iff k a b).1 h))
