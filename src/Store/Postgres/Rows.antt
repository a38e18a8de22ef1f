-- ===== src/Store/Postgres/Rows.antt =====
-- The statements of the Postgres store on the valid rows of a table.
use e2e_framework.Prelude.{
  ◌≡◌, ◌↔◌, refl, ◌∙◌, ap, Text, ==_iff, ltb, Option, none, some, true, List, [], ◌∷◌, arith,
}
use e2e_framework.Domain.{Time}
use e2e_framework.Store.Contract.{updated}
use e2e_framework.Store.Postgres.{
  Row, Tables, same_key, purge_rows, delete_rows, select_valid, upsert_row, insert_row,
}

pub same_key_iff : (a b : Text × Text) → (same_key a b ≡ true) ↔ (a ≡ b)
unfolding same_key
same_key_iff (a, b) (c, d) = (
  λ h i. (((==_iff a c).0 (ground arith)) i, ((==_iff b d).0 (ground arith)) i),
  λ e. rw ((==_iff a c).1 (ap (λ y. y.0) e), (==_iff b d).1 (ap (λ y. y.1) e)) refl,
)

module _ (t : Time) where
  -- The values of the valid rows by their keys.
  abbrev pub valid : List Row → Text × Text → Option Text
  valid rows key = select_valid key t rows

  pub valid-purge_rows :
      (rows : List Row) (k : Text × Text) → valid (purge_rows t rows) k ≡ valid rows k
  unfolding select_valid purge_rows
  valid-purge_rows [] k = refl
  valid-purge_rows (r ∷ rows) k = ground (arith, valid-purge_rows rows k)

  pub valid-delete_rows :
      (key : Text × Text) (rows : List Row) (k : Text × Text)
      → valid (delete_rows key rows) k ≡ updated same_key (valid rows) key none k
  unfolding select_valid delete_rows
  valid-delete_rows key [] k = ground arith
  valid-delete_rows key (r ∷ rows) k = ground (
    arith,
    valid-delete_rows key rows k,
    same_key_iff key r.key,
    same_key_iff k r.key,
    same_key_iff key k,
  )

  -- The valid rows of the tables in two states are the same.
  abbrev pub Agree : Tables → Tables → Type 0
  Agree s s' =
      ((k : Text × Text) → valid s'.messages k ≡ valid s.messages k)
      × ((k : Text × Text) → valid s'.reservations k ≡ valid s.reservations k)

  pub Agree-trans : (s1 s2 s3 : Tables) → Agree s1 s2 → Agree s2 s3 → Agree s1 s3
  Agree-trans s1 s2 s3 (m, r) (m', r') = (λ k. m' k ∙ m k, λ k. r' k ∙ r k)

  -- Like that, but a reservation may be new.
  abbrev pub KeepsHeld : Tables → Tables → Type 0
  KeepsHeld s s' =
      ((k : Text × Text) → valid s'.messages k ≡ valid s.messages k)
      × ((k : Text × Text) (old : Text)
          → valid s.reservations k ≡ some old
          → valid s'.reservations k ≡ some old)

  module _ (new : Row) where
    pub valid-upsert_row :
        ltb t new.expires_at ≡ true
        → (rows : List Row) (k : Text × Text)
        → valid (upsert_row new rows) k ≡ updated same_key (valid rows) new.key (some new.value) k
    unfolding select_valid upsert_row
    valid-upsert_row h [] k = ground (arith, same_key_iff new.key k, same_key_iff k new.key)
    valid-upsert_row h (r ∷ rows) k = ground (
      arith,
      valid-upsert_row h rows k,
      same_key_iff new.key r.key,
      same_key_iff k r.key,
      same_key_iff new.key k,
      same_key_iff k new.key,
    )

    pub insert_row-free :
        (rows : List Row) → (insert_row new rows).0 ≡ true → valid rows new.key ≡ none
    unfolding select_valid insert_row
    insert_row-free [] h = refl
    insert_row-free (r ∷ rows) h = ground (arith, insert_row-free rows)

    pub valid-insert_row :
        ltb t new.expires_at ≡ true
        → (rows : List Row) → (insert_row new rows).0 ≡ true
        → (k : Text × Text)
        → valid (insert_row new rows).1 k ≡ updated same_key (valid rows) new.key (some new.value) k
    unfolding select_valid insert_row
    valid-insert_row h [] i k = ground (arith, same_key_iff new.key k, same_key_iff k new.key)
    valid-insert_row h (r ∷ rows) i k = ground (
      arith,
      (λ (j : (insert_row new rows).0 ≡ true). valid-insert_row h rows j k),
      same_key_iff new.key r.key,
      same_key_iff k r.key,
      same_key_iff new.key k,
      same_key_iff k new.key,
    )

    pub insert_row-keeps :
        (rows : List Row) (k : Text × Text) (old : Text)
        → valid rows k ≡ some old
        → valid (insert_row new rows).1 k ≡ some old
    unfolding select_valid insert_row
    insert_row-keeps [] k old h = absurd (ground arith)
    insert_row-keeps (r ∷ rows) k old h = ground (arith, insert_row-keeps rows k old)
