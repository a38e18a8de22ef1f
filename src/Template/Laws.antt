-- ===== src/Template/Laws.antt =====
-- `ReplaceString` on texts without placeholders, and counters.
use mathlib.Core.List.{append-nil}
use e2e_framework.Prelude.{
  ℕ, zero, ◌-◌, ◌≡◌, refl, ◌∙◌, ap, Text, lit, length, strip_prefix, contains, contains-cons,
  lookup, insert, trim_space, parse_int64, format_int, wrap64, ℤ, pos, negsuc, ◌+ℤ◌, eqb, none,
  some, Bool, false, ◌||◌, [], ◌∷◌, ◌++◌, arith,
}
use e2e_framework.Domain.{Vars}
use e2e_framework.Template.Scan.{
  Matcher, until_paren, closed_group, match_group, increment_regex, decrement_regex,
  generator_regex, replace_all_func,
}
use e2e_framework.Template.Replace.{
  replace_increments, resolve_increments, replace_all, replace_vars, resolve_generators,
  replace_string, count, parse_var_int, match_text,
}
use e2e_framework.Template.Generators.{Random}

-- The matcher fails at each position.
NoMatch : {G : Type 0} → Matcher G → Text → Type 0
NoMatch m [] = Unit
NoMatch m (c ∷ t) = (m (c ∷ t) ≡ none) × NoMatch m t

replace_all_func-NoMatch :
    {G : Type 0} {S : Type 0} (m : Matcher G) (f : Text → G → S → Text × S) (t : Text) (s : S)
    → NoMatch m t
    → replace_all_func m f zero t s ≡ (t, s)
unfolding NoMatch replace_all_func
replace_all_func-NoMatch m f [] s h = refl
replace_all_func-NoMatch m f (c ∷ t) s h =
    rw (h.0, replace_all_func, replace_all_func-NoMatch m f t s h.1)

-- A text that does not begin with "{{" begins with nothing longer either.
strip_longer :
    (more t : Text) → strip_prefix (lit "{{") t ≡ none → strip_prefix (lit "{{" ++ more) t ≡ none
unfolding strip_prefix
strip_longer more [] h = refl
strip_longer more (c ∷ []) h = ground arith
strip_longer more (c ∷ d ∷ t) h = ground arith

-- The matchers that begin by "{{" fail where the text has none.
no_match :
    {G : Type 0} (m : Matcher G)
    → ((t : Text) → strip_prefix (lit "{{") t ≡ none → m t ≡ none)
    → (t : Text) → contains t (lit "{{") ≡ false
    → NoMatch m t
unfolding NoMatch contains
no_match m h [] c = tt
no_match m h (x ∷ t) c =
    let q = contains-cons x t (lit "{{") c in (h (x ∷ t) q.0, no_match m h t q.1)

match_group-none :
    (more t : Text) → strip_prefix (lit "{{") t ≡ none → match_group (lit "{{" ++ more) t ≡ none
unfolding match_group
match_group-none more t h = rw (strip_longer more t h, match_group)

match_text-none :
    (more t : Text) → strip_prefix (lit "{{") t ≡ none → match_text (lit "{{" ++ more) t ≡ none
unfolding match_text
match_text-none more t h = rw (strip_longer more t h, match_text)

generator_none : (t : Text) → strip_prefix (lit "{{") t ≡ none → generator_regex t ≡ none
unfolding generator_regex
generator_none t h = rw (h, generator_regex)

module _ (s : Text) (plain : contains s (lit "{{") ≡ false) where
  replace_all_plain : (k v : Text) → replace_all s (lit "{{" ++ (k ++ lit "}}")) v ≡ s
  unfolding replace_all
  replace_all_plain k v =
      ap (λ x. x.0)
        (replace_all_func-NoMatch (match_text (lit "{{" ++ (k ++ lit "}}"))) (λ _ _ u. (v, u)) s
          (tt {0}) (no_match _ (match_text-none (k ++ lit "}}")) s plain))

  replace_vars_plain : (vars : Vars) → replace_vars s vars ≡ s
  unfolding replace_vars
  replace_vars_plain [] = refl
  replace_vars_plain ((k, v) ∷ vars) =
      ap (λ t. replace_vars t vars) (replace_all_plain k v) ∙ replace_vars_plain vars

  resolve_increments_plain : (vars : Vars) → resolve_increments s vars ≡ (s, vars)
  unfolding resolve_increments replace_increments
  resolve_increments_plain vars =
      rw
        (replace_all_func-NoMatch increment_regex (count (pos 1)) s vars
          (no_match _ (match_group-none (lit "++(")) s plain))
        (replace_all_func-NoMatch decrement_regex (count (negsuc 0)) s vars
          (no_match _ (match_group-none (lit "--(")) s plain))

  -- A text with no "{{" is left alone by `ReplaceString`, and so are the variables and the random
  -- state, whatever the variables are.
  pub replace_string_plain :
      {W : Type 0} (r : Random W) (vars : Vars) (w : W) → replace_string r s vars w ≡ (s, vars, w)
  unfolding replace_string resolve_generators
  replace_string_plain r vars w = rw (
    resolve_increments_plain vars,
    replace_vars_plain vars,
    replace_all_func-NoMatch generator_regex _ s w (no_match _ generator_none s plain),
  )

skip_all :
    {G : Type 0} {S : Type 0} (m : Matcher G) (f : Text → G → S → Text × S) (t : Text) (s : S)
    → replace_all_func m f (length t) t s ≡ ([], s)
unfolding replace_all_func
skip_all m f [] s = refl
skip_all m f (c ∷ t) s = skip_all m f t s

-- Does the text hold a closing parenthesis?
unfoldable pub has_paren : Text → Bool
has_paren [] = false
has_paren (c ∷ s) = eqb c b')' || has_paren s

until_paren-append :
    (name rest : Text)
    → has_paren name ≡ false
    → until_paren (name ++ (b')' ∷ rest)) ≡ some (name, rest)
unfolding until_paren has_paren
until_paren-append [] rest h = refl
until_paren-append (c ∷ name) rest h = ground (arith, until_paren-append name rest)

closed_group-append :
    (name : Text) → has_paren name ≡ false → closed_group (name ++ lit ")}}") ≡ some name
unfolding closed_group strip_prefix
closed_group-append name h = rw (until_paren-append name (lit "}}") h, closed_group)

match_group_whole :
    (name : Text)
    → has_paren name ≡ false
    → match_group (lit "{{++(") (lit "{{++(" ++ (name ++ lit ")}}"))
      ≡ some (lit "{{++(" ++ (name ++ lit ")}}"), name)
unfolding match_group strip_prefix
match_group_whole name h = rw (closed_group-append name h, match_group)

-- One match that is the whole text.
replace_whole :
    {G S : Type 0} (m : Matcher G) (f : Text → G → S → Text × S) (c : ℕ) (t : Text) (g : G) (s : S)
    → m (c ∷ t) ≡ some (c ∷ t, g)
    → replace_all_func m f zero (c ∷ t) s ≡ f (c ∷ t) g s
unfolding replace_all_func
replace_whole m f c t g s h =
    let e : length (c ∷ t) - 1 ≡ length t = omega arith in
    rw (h, replace_all_func)
      (rw (e, skip_all m f t (f (c ∷ t) g s).1)
        (ap (λ x. (x, (f (c ∷ t) g s).1)) (append-nil (f (c ∷ t) g s).0)))

count_whole :
    (name : Text) (vars : Vars)
    → has_paren name ≡ false
    → let text = lit "{{++(" ++ (name ++ lit ")}}") in
      replace_increments increment_regex (pos 1) text vars ≡ count (pos 1) text name vars
unfolding replace_increments
count_whole name vars h =
    replace_whole increment_regex (count (pos 1)) _ _ name vars (match_group_whole name h)

module _ (name : Text) (vars : Vars) (closed : has_paren name ≡ false) where
  abbrev pub increment_text : Text
  increment_text = lit "{{++(" ++ (name ++ lit ")}}")

  -- A text that is one increment of a variable that holds an integer becomes the next integer of
  -- 64 bits, which is also what the variable holds from then on.
  pub increment_known :
      (raw : Text) (cur : ℤ)
      → lookup (trim_space name) vars ≡ some raw
      → parse_int64 (trim_space raw) ≡ some cur
      → replace_increments increment_regex (pos 1) increment_text vars ≡ (
        format_int (wrap64 (cur +ℤ pos 1)),
        insert (trim_space name) (format_int (wrap64 (cur +ℤ pos 1))) vars,
      )
  increment_known raw cur l q =
      count_whole name vars closed ∙ (unfold count parse_var_int in rw (l, q, count))

  -- The increment of a variable that holds no integer stays in the text, and changes nothing.
  pub increment_refused :
      (raw : Text)
      → lookup (trim_space name) vars ≡ some raw
      → parse_int64 (trim_space raw) ≡ none
      → replace_increments increment_regex (pos 1) increment_text vars ≡ (increment_text, vars)
  increment_refused raw l q =
      count_whole name vars closed ∙ (unfold count parse_var_int in rw (l, q, count))
