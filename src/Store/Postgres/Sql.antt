-- ===== src/Store/Postgres/Sql.antt =====
-- The two tables of internal/adapters/secondary/store/postgres.go, and its SQL statements.
use e2e_framework.Prelude.{
  Text, ◌==◌, ◌&&◌, ltb, Option, none, some, Bool, true, false, List, [], ◌∷◌, if◌then◌else◌,
}
use e2e_framework.Domain.{Time}
use e2e_framework.Store.Memory.{}

-- A row of either table: the key, the payload or the run, and the end of its validity.
pub record Row : Type 0 where
  pub key : Text × Text
  pub value : Text
  pub expires_at : Time

pub record Tables : Type 0 where
  pub messages : List Row
  pub reservations : List Row

-- `run_id = $1 AND receiver_type = $2`, and `channel = $1 AND recipient = $2`.
unfoldable pub same_key : Text × Text → Text × Text → Bool
same_key (a, b) (c, d) = (a == c) && (b == d)

-- `DELETE … WHERE expires_at <= now()`: the rows that stay.
unfoldable pub purge_rows : Time → List Row → List Row
purge_rows now [] = []
purge_rows now (r ∷ rows) =
    let rest = purge_rows now rows in if ltb now r.expires_at then r ∷ rest else rest

-- `DELETE … WHERE` the key is this one.
unfoldable pub delete_rows : Text × Text → List Row → List Row
delete_rows key [] = []
delete_rows key (r ∷ rows) =
    let rest = delete_rows key rows in if same_key key r.key then rest else r ∷ rest

-- `SELECT … WHERE` the key is this one: the value of the first row.
unfoldable pub select_row : Text × Text → List Row → Option Text
select_row key [] = none
select_row key (r ∷ rows) = if same_key key r.key then some r.value else select_row key rows

-- `SELECT … AND expires_at > now()`
unfoldable pub select_valid : Text × Text → Time → List Row → Option Text
select_valid key now [] = none
select_valid key now (r ∷ rows) =
    if same_key key r.key && ltb now r.expires_at then some r.value else select_valid key now rows

-- `INSERT … ON CONFLICT (…) DO UPDATE SET …`
unfoldable pub upsert_row : Row → List Row → List Row
upsert_row new [] = new ∷ []
upsert_row new (r ∷ rows) = if same_key new.key r.key then new ∷ rows else r ∷ upsert_row new rows

-- `INSERT … ON CONFLICT (…) DO NOTHING`: whether the row was inserted, and the rows.
unfoldable pub insert_row : Row → List Row → Bool × List Row
insert_row new [] = (true, new ∷ [])
insert_row new (r ∷ rows) =
    let (inserted, rest) = insert_row new rows in
    if same_key new.key r.key then (false, r ∷ rows) else (inserted, r ∷ rest)

-- The statements: what they answer at a time of the database, and the tables after them.
unfoldable pub purge_messages : Time → Tables → Unit {0} × Tables
purge_messages t s = (tt, record s { messages = purge_rows t s.messages })

unfoldable pub purge_reservations : Time → Tables → Unit {0} × Tables
purge_reservations t s = (tt, record s { reservations = purge_rows t s.reservations })

unfoldable pub upsert_message : Row → Time → Tables → Unit {0} × Tables
upsert_message row t s = (tt, record s { messages = upsert_row row s.messages })

unfoldable pub select_message : Text × Text → Time → Tables → Option Text × Tables
select_message key t s = (select_valid key t s.messages, s)

unfoldable pub insert_reservation : Row → Time → Tables → Bool × Tables
insert_reservation row t s =
    let (inserted, rows) = insert_row row s.reservations in
    (inserted, record s { reservations = rows })

unfoldable pub select_reservation : Text × Text → Time → Tables → Option Text × Tables
select_reservation key t s = (select_row key s.reservations, s)

unfoldable pub delete_reservation : Text × Text → Time → Tables → Unit {0} × Tables
delete_reservation key t s = (tt, record s { reservations = delete_rows key s.reservations })

unfoldable pub delete_message_row : Text × Text → Time → Tables → Unit {0} × Tables
delete_message_row key t s = (tt, record s { messages = delete_rows key s.messages })
