-- ===== src/Connectors/Table.antt =====
-- The table `connector_connections` as Postgres and TypeORM document it: queries, an update of one row
-- by its id, and an insert that the unique constraint on user and provider may refuse.
use memoflow_api.Prelude.{String, Bool, true, ◌≡◌, Option, none, some, ◌==◌, if◌then◌else◌}
use memoflow_api.Connectors.{ConnectorConnection, UpsertInitiatedData}

abbrev pub has_id : String → ConnectorConnection → Bool
has_id id r = r.id == id

-- The columns that an update may change.
abbrev pub changed :
    (ConnectorConnection → ConnectorConnection)
    → Option ConnectorConnection
    → Option ConnectorConnection
changed f none = none
changed f (some r) = some (record (f r) { id = r.id })

pub record Table : Type 1 where
  pub Store : Type 0
  pub find_one : (ConnectorConnection → Bool) → Store → Option ConnectorConnection
  pub update : String → (ConnectorConnection → ConnectorConnection) → Store → Store
  -- The id of the new row, `none` where the constraint refuses it.
  pub insert : UpsertInitiatedData → Store → Option String × Store
  -- A query finds a row that matches, under its id.
  pub found :
      (p : ConnectorConnection → Bool) (s : Store) (r : ConnectorConnection)
      → find_one p s ≡ some r
      → (p r ≡ true) × (find_one (has_id r.id) s ≡ some r)
  pub rows_updated :
      (id : String) (f : ConnectorConnection → ConnectorConnection) (s : Store) (j : String)
      → find_one (has_id j) (update id f s)
        ≡ (if id == j then changed f (find_one (has_id id) s) else find_one (has_id j) s)
