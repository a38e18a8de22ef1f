-- ===== src/HttpServer/Patterns.antt =====
-- The patterns of `http.ServeMux`, and tables of routes.
use e2e_framework.Prelude.{
  ◌≡◌, subst, inl, inr, eqb, Text, ◌==◌, ==_iff, strip_prefix, contains_text, Dict, lookup, some,
  Bool, Bool-cases, true, not, ◌&&◌, List, [], ◌∷◌, All, arith, if◌then◌else◌,
}
use e2e_framework.HttpServer.{Mux}

-- A pattern up to its first wildcard.
unfoldable pub fixed_part : Text → Text
fixed_part [] = []
fixed_part (c ∷ s) = let rest = fixed_part s in if eqb c b'{' then [] else c ∷ rest

-- A pattern without wildcard that does not end in a slash.
unfoldable pub is_literal : Text → Bool
is_literal [] = true
is_literal (c ∷ []) = not (eqb c b'{') && not (eqb c b'/')
is_literal (c ∷ d ∷ s) = not (eqb c b'{') && is_literal (d ∷ s)

-- The documented behaviour of `http.ServeMux`: it chooses a registered pattern, a path begins with
-- the fixed part of its pattern, and a literal pattern matches its own path alone, for which it is
-- chosen before all others.
pub record IsServeMux (mux : Mux) : Type 0 where
  pub chosen :
      (ps : List Text) (path p : Text) → mux.choose ps path ≡ some p → contains_text ps p ≡ true
  pub fixed :
      (ps : List Text) (path p : Text)
      → mux.choose ps path ≡ some p
      → (rest : Text) × (strip_prefix (fixed_part p) path ≡ some rest)
  pub literal :
      (ps : List Text) (path p : Text)
      → mux.choose ps path ≡ some p
      → is_literal p ≡ true
      → p ≡ path
  pub exact :
      (ps : List Text) (path : Text)
      → contains_text ps path ≡ true
      → is_literal path ≡ true
      → mux.choose ps path ≡ some path

pub lookup-All {κ} :
    {V : Type 0} (P : Text → V → Type κ) (m : Dict V) (k : Text) (v : V)
    → All (λ e. P e.0 e.1) m
    → lookup k m ≡ some v
    → P k v
unfolding lookup
lookup-All P [] k v h e = absurd (ground arith)
lookup-All P ((j, w) ∷ m) k v (h, hs) e = elim (Bool-cases (j == k)) [
  | inl q ↦
      let same : w ≡ v = ground (arith, q) in
      subst (λ y. P y v) ((==_iff j k).0 q) (subst (P j) same h)
  | inr q ↦ lookup-All P m k v hs (ground (arith, q))
]

pub contains_text-All {κ} :
    (P : Text → Type κ) (ps : List Text) (p : Text) → All P ps → contains_text ps p ≡ true → P p
unfolding contains_text
contains_text-All P [] p h e = absurd (ground arith)
contains_text-All P (j ∷ ps) p (h, hs) e = elim (Bool-cases (j == p)) [
  | inl q ↦ subst P ((==_iff j p).0 q) h
  | inr q ↦ contains_text-All P ps p hs (ground (arith, q))
]
