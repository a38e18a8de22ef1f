-- ===== src/Template/Scan.antt =====
-- The four patterns of internal/pkg/template/template.go as matchers at a position, and
-- `ReplaceAllStringFunc`. A matcher returns the matched text and its groups.
use e2e_framework.Prelude.{
  ℕ, zero, suc, ◌-◌, Text, lit, Option, none, some, Bool, false, ◌||◌, ◌&&◌, [], ◌∷◌, ◌++◌,
  strip_prefix, length, eqb, leb, if◌then◌else◌,
}

abbrev pub Matcher : Type 0 → Type 0
Matcher G = Text → Option (Text × G)

-- `[^)]*` and the parenthesis that ends it: the group, and what follows.
unfoldable pub until_paren : Text → Option (Text × Text)
until_paren [] = none
until_paren (c ∷ s) =
    if eqb c b')'
    then some ([], s)
    else elim (until_paren s) [ none ↦ none | some (a, rest) ↦ some (c ∷ a, rest) ]

-- `([^)]*)\)\}\}` behind an opening that has been read.
unfoldable pub closed_group : Text → Option Text
unfolding until_paren
closed_group s = elim (until_paren s) [
  | none ↦ none
  | some (a, rest) ↦ elim (strip_prefix (lit "}}") rest) [ none ↦ none | some _ ↦ some a ]
]

-- `open([^)]*)\)\}\}`
unfoldable pub match_group : Text → Matcher Text
unfolding closed_group
match_group open_text s = elim (strip_prefix open_text s) [
  | none ↦ none
  | some rest ↦ elim (closed_group rest) [
    | none ↦ none
    | some a ↦ some (open_text ++ (a ++ lit ")}}"), a)
  ]
]

-- `\{\{\+\+\(([^)]*)\)\}\}`
abbrev pub increment_regex : Matcher Text
increment_regex = match_group (lit "{{++(")

-- `\{\{--\(([^)]*)\)\}\}`
abbrev pub decrement_regex : Matcher Text
decrement_regex = match_group (lit "{{--(")

is_word : ℕ → Bool
is_word c =
    (leb b'0' c && leb c b'9')
    || (leb b'A' c && leb c b'Z')
    || (leb b'a' c && leb c b'z')
    || eqb c b'_'

-- `(\w+)\(`: the word, which may still be empty here, and what follows the parenthesis.
until_open : Text → Option (Text × Text)
unfolding is_word
until_open [] = none
until_open (c ∷ s) =
    if eqb c b'('
    then some ([], s)
    else if is_word c
    then (elim (until_open s) [ none ↦ none | some (w, rest) ↦ some (c ∷ w, rest) ])
    else none

nonempty : Text × Text → Option (Text × Text)
nonempty ([], rest) = none
nonempty (c ∷ w, rest) = some (c ∷ w, rest)

-- `\{\{(\w+)\(([^)]*)\)\}\}`
unfoldable pub generator_regex : Matcher (Text × Text)
unfolding until_open nonempty closed_group
generator_regex s = elim (strip_prefix (lit "{{") s) [
  | none ↦ none
  | some rest ↦ elim (until_open rest) [
    | none ↦ none
    | some p ↦ elim (nonempty p) [
      | none ↦ none
      | some (name, more) ↦ elim (closed_group more) [
        | none ↦ none
        | some a ↦ some (lit "{{" ++ (name ++ (lit "(" ++ (a ++ lit ")}}"))), (name, a))
      ]
    ]
  ]
]

-- `[^{}]*\}\}`
closes : Text → Bool
closes [] = false
closes (c ∷ s) =
    if eqb c b'}'
    then (elim s [ [] ↦ false | d ∷ t ↦ eqb d b'}' ])
    else if eqb c b'{'
    then false
    else closes s

-- Does `\{\{[^{}]*\}\}` match at the head of the text?
placeholder_regex : Text → Bool
unfolding closes
placeholder_regex s = elim (strip_prefix (lit "{{") s) [ none ↦ false | some rest ↦ closes rest ]

-- `HasUnresolved`
unfoldable pub has_unresolved : Text → Bool
unfolding placeholder_regex
has_unresolved [] = false
has_unresolved (c ∷ s) = placeholder_regex (c ∷ s) || has_unresolved s

-- `ReplaceAllStringFunc`: leftmost matches, which do not overlap, are handed to `f` with a state.
-- The number is how many bytes of the last match are still to be skipped.
unfoldable pub replace_all_func {ℓ} :
    {G : Type 0} {S : Type ℓ} → Matcher G → (Text → G → S → Text × S) → ℕ → Text → S → Text × S
replace_all_func m f k [] s = ([], s)
replace_all_func m f (suc k) (c ∷ t) s = replace_all_func m f k t s
replace_all_func m f zero (c ∷ t) s = elim (m (c ∷ t)) [
  | none ↦ let (rest, s') = replace_all_func m f zero t s in (c ∷ rest, s')
  | some (whole, g) ↦
      let (new, s') = f whole g s in
      let (rest, s'') = replace_all_func m f (length whole - 1) t s' in (new ++ rest, s'')
]
