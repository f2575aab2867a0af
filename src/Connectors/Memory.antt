-- ===== src/Connectors/Memory.antt =====
-- A table in memory that has room for one row: it meets the laws of `Table`.
use memoflow_api.Prelude.{
  String, ◌≡◌, refl, ap, Bool, true, Option, none, some, ◌==◌, eq_iff, eq_refl, if◌then◌else◌,
  arith, Bool-cases, inl, inr,
}
use mathlib.Core.Option.{none-ne-some}
use memoflow_api.Connectors.{ConnectorConnection, UpsertInitiatedData, initiated}
use memoflow_api.Connectors.Table.{Table, has_id, changed}

abbrev pub Row : Type 0
Row = Option ConnectorConnection

abbrev pub find : (ConnectorConnection → Bool) → Row → Row
find p none = none
find p (some r) = if p r then some r else none

abbrev pub update : String → (ConnectorConnection → ConnectorConnection) → Row → Row
update id f none = none
update id f (some r) = if r.id == id then some (record (f r) { id = r.id }) else some r

abbrev pub insert : UpsertInitiatedData → Row → Option String × Row
insert d none = (
  some "c1",
  some (record {
    id = "c1";
    user_id = d.user_id;
    provider = d.provider;
    composio_account_id = some d.composio_account_id;
    status = initiated;
    connected_at = none;
  }),
)
insert d (some r) = (none, some r)

abbrev or_row : ConnectorConnection → Row → ConnectorConnection
or_row d none = d
or_row d (some r) = r

pub find-found :
    (p : ConnectorConnection → Bool) (s : Row) (r : ConnectorConnection)
    → find p s ≡ some r
    → (p r ≡ true) × (find (has_id r.id) s ≡ some r)
find-found p none r h = absurd (none-ne-some r h)
find-found p (some q) r h = elim (Bool-cases (p q)) [
  | inl hit ↦ by_row hit (rw hit at h)
  | inr missed ↦ absurd (none-ne-some r (rw missed at h))
]
  where
    by_row : p q ≡ true → some q ≡ some r → (p r ≡ true) × (find (has_id r.id) (some q) ≡ some r)
    by_row hit same = rw (← ap (or_row q) same, eq_refl q.id) (hit, refl)

pub find-update :
    (id : String) (f : ConnectorConnection → ConnectorConnection) (s : Row) (j : String)
    → find (has_id j) (update id f s)
      ≡ (if id == j then changed f (find (has_id id) s) else find (has_id j) s)
find-update id f none j = ground arith
find-update id f (some r) j = ground (arith, eq_iff r.id id, eq_iff id j, eq_iff r.id j)

abbrev pub memory : Table
memory = record {
  Store = Row;
  find_one = find;
  update = update;
  insert = insert;
  found = find-found;
  rows_updated = find-update;
}
