-- ===== src/Template/Replace.antt =====
-- internal/pkg/template/template.go: `ReplaceString` and the walks over headers and bodies. The
-- variables are shared: a counter writes to them.
use e2e_framework.Prelude.{
  zero, Text, lit, lookup, insert, ℤ, pos, negsuc, ◌+ℤ◌, wrap64, parse_int64, format_int,
  trim_space, strip_prefix, Option, none, some, [], ◌∷◌, ◌++◌,
}
use e2e_framework.Domain.{
  Vars, Value, null, boolean, number, string, array, object, dynamic, Items, nil, item, Fields, end,
  field, Entries, done, entry,
}
use e2e_framework.Template.Generators.{Random, resolve}
use e2e_framework.Template.Scan.{
  Matcher, increment_regex, decrement_regex, generator_regex, replace_all_func,
}

-- `parseVarInt`
unfoldable pub parse_var_int : Text → Option ℤ
parse_var_int s = parse_int64 (trim_space s)

-- `vars[name] = strconv.FormatInt(cur+delta, 10)`
set_counter : Text → ℤ → Vars → Text × Vars
set_counter name n vars = let t = format_int (wrap64 n) in (t, insert name t vars)

-- The callback of `replaceIncrements`.
unfoldable pub count : ℤ → Text → Text → Vars → Text × Vars
unfolding set_counter parse_var_int
count delta whole group vars =
    let name = trim_space group in
    elim (lookup name vars) [
      | none ↦ set_counter name (pos 0 +ℤ delta) vars
      | some raw ↦ elim (parse_var_int raw) [
        | none ↦ (whole, vars)
        | some cur ↦ set_counter name (cur +ℤ delta) vars
      ]
    ]

unfoldable pub replace_increments : Matcher Text → ℤ → Text → Vars → Text × Vars
unfolding count
replace_increments re delta s vars = replace_all_func re (count delta) zero s vars

unfoldable pub resolve_increments : Text → Vars → Text × Vars
unfolding replace_increments
resolve_increments s vars =
    let (t, vars') = replace_increments increment_regex (pos 1) s vars in
    replace_increments decrement_regex (negsuc 0) t vars'

unfoldable pub match_text : Text → Matcher (Unit {0})
match_text old s = elim (strip_prefix old s) [ none ↦ none | some _ ↦ some (old, tt) ]

-- `strings.ReplaceAll(s, old, new)`, for an `old` that is not empty.
unfoldable pub replace_all : Text → Text → Text → Text
replace_all s old new = (replace_all_func (match_text old) (λ _ _ u. (new, u)) zero s (tt {0})).0

-- `for k, v := range vars { s = strings.ReplaceAll(s, "{{"+k+"}}", v) }`
unfoldable pub replace_vars : Text → Vars → Text
replace_vars s [] = s
replace_vars s ((k, v) ∷ vars) = replace_vars (replace_all s (lit "{{" ++ (k ++ lit "}}")) v) vars

module _ {W : Type 0} (r : Random W) where
  -- The callback of `resolveGenerators`.
  call_generator : Text → Text × Text → W → Text × W
  call_generator whole (name, args) w =
      let (result, w') = resolve r name args w in (elim result [ none ↦ whole | some t ↦ t ], w')

  unfoldable pub resolve_generators : Text → W → Text × W
  unfolding call_generator
  resolve_generators s w = replace_all_func generator_regex call_generator zero s w

  -- `ReplaceString`: the text, and the variables and the random state as it leaves them.
  unfoldable pub replace_string : Text → Vars → W → Text × Vars × W
  replace_string s vars w =
      let (t, vars') = resolve_increments s vars in
      let (u, w') = resolve_generators (replace_vars t vars') w in (u, vars', w')

  -- `ReplaceHeaders`
  unfoldable pub replace_headers : Vars → Vars → W → Vars × Vars × W
  unfolding replace_string
  replace_headers [] vars w = ([], vars, w)
  replace_headers ((k, v) ∷ headers) vars w =
      let (v', vars', w') = replace_string v vars w in
      let (rest, vars'', w'') = replace_headers headers vars' w' in ((k, v') ∷ rest, vars'', w'')

  -- `ReplaceMap` and `replaceAny`. An entry of a `map[any]any` whose key is no string is dropped.
  unfoldable mutual
    unfolding replace_string

    pub replace_any : Value → Vars → W → Value × Vars × W
    replace_any null vars w = (null, vars, w)
    replace_any (boolean b) vars w = (boolean b, vars, w)
    replace_any (number n) vars w = (number n, vars, w)
    replace_any (string s) vars w =
        let (s', vars', w') = replace_string s vars w in (string s', vars', w')
    replace_any (array xs) vars w =
        let (xs', vars', w') = replace_items xs vars w in (array xs', vars', w')
    replace_any (object fs) vars w =
        let (fs', vars', w') = replace_map fs vars w in (object fs', vars', w')
    replace_any (dynamic es) vars w =
        let (fs', vars', w') = replace_entries es vars w in (object fs', vars', w')

    pub replace_items : Items → Vars → W → Items × Vars × W
    replace_items nil vars w = (nil, vars, w)
    replace_items (item x xs) vars w =
        let (x', vars', w') = replace_any x vars w in
        let (xs', vars'', w'') = replace_items xs vars' w' in (item x' xs', vars'', w'')

    pub replace_map : Fields → Vars → W → Fields × Vars × W
    replace_map end vars w = (end, vars, w)
    replace_map (field k v fs) vars w =
        let (v', vars', w') = replace_any v vars w in
        let (fs', vars'', w'') = replace_map fs vars' w' in (field k v' fs', vars'', w'')

    pub replace_entries : Entries → Vars → W → Fields × Vars × W
    replace_entries done vars w = (end, vars, w)
    replace_entries (entry (string k) v es) vars w =
        let (v', vars', w') = replace_any v vars w in
        let (fs', vars'', w'') = replace_entries es vars' w' in (field k v' fs', vars'', w'')
    replace_entries (entry _ v es) vars w = replace_entries es vars w
