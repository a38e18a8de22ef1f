-- ===== src/Domain/Print.antt =====
-- How `fmt` prints the values of a `map[string]any`.
use e2e_framework.Prelude.{
  Text, lit, ◌++◌, join, leb, eqb, Dict, insert, Bool, true, false, List, [], ◌∷◌, if◌then◌else◌,
}
use e2e_framework.Domain.Errors.{Result, ok, err}
use e2e_framework.Domain.Definitions.{
  Value, null, boolean, number, string, array, object, dynamic, Items, nil, item, Fields, end,
  field, Entries, done, entry,
}

-- The order of Go strings.
unfoldable pub leb_text : Text → Text → Bool
leb_text [] t = true
leb_text (c ∷ s) [] = false
leb_text (c ∷ s) (d ∷ t) = if eqb c d then leb_text s t else leb c d

-- `fmt` prints a map in the order of its keys.
unfoldable pub insert_sorted : Text → Text → Dict Text → Dict Text
insert_sorted k v [] = (k, v) ∷ []
insert_sorted k v ((j, w) ∷ m) =
    let rest = insert_sorted k v m in if leb_text k j then (k, v) ∷ (j, w) ∷ m else (j, w) ∷ rest

unfoldable pub pairs : Dict Text → List Text
pairs [] = []
pairs ((k, v) ∷ m) = (k ++ (lit ":" ++ v)) ∷ pairs m

-- `fmt.Sprintf("%v", v)`; a map with keys of any type is sorted by its printed keys, which is what
-- `fmt` does where they are strings.
unfoldable mutual
  unfolding insert_sorted pairs

  pub sprint : Value → Text
  sprint null = lit "<nil>"
  sprint (boolean true) = lit "true"
  sprint (boolean false) = lit "false"
  sprint (number n) = n
  sprint (string s) = s
  sprint (array xs) = lit "[" ++ (join (sprint_items xs) (lit " ") ++ lit "]")
  sprint (object fs) = lit "map[" ++ (join (pairs (sprint_fields fs)) (lit " ") ++ lit "]")
  sprint (dynamic es) = lit "map[" ++ (join (pairs (sprint_entries es)) (lit " ") ++ lit "]")

  pub sprint_items : Items → List Text
  sprint_items nil = []
  sprint_items (item x xs) = sprint x ∷ sprint_items xs

  pub sprint_fields : Fields → Dict Text
  sprint_fields end = []
  sprint_fields (field k v fs) = insert_sorted k (sprint v) (sprint_fields fs)

  pub sprint_entries : Entries → Dict Text
  sprint_entries done = []
  sprint_entries (entry k v es) = insert_sorted (sprint k) (sprint v) (sprint_entries es)

-- `for k, v := range raw { result[k] = fmt.Sprintf("%v", v) }`
unfoldable pub put_printed : Fields → Dict Text → Dict Text
put_printed end result = result
put_printed (field k v fs) result = put_printed fs (insert k (sprint v) result)

-- `OptionsMap.UnmarshalYAML` of test.go, where `decode` is `value.Decode` to a map.
unfoldable pub unmarshal_options : {N : Type 0} → (N → Result Fields) → N → Result (Dict Text)
unmarshal_options decode node = elim (decode node) [
  | err e ↦ err e
  | ok raw ↦ ok (put_printed raw [])
]
