-- ===== src/Connectors/Repository.antt =====
-- infrastructure/persistence/connectors/connector-connection.typeorm.repository.ts. `toDomain` copies
-- every column. Every statement on the table may fail on its own.
use memoflow_api.Prelude.{String, ◌&&◌, Option, none, some, ◌==◌}
use memoflow_api.Exec.{pure, throw, ◌>>=◌}
use memoflow_api.Exec.Errors.{other}
use memoflow_api.Users.{is_named}
use memoflow_api.Connectors.{
  ConnectorProvider, initiated, same_provider, ConnectorConnection, UpsertInitiatedData,
  UpdateConnectorStatusData,
}
use memoflow_api.Connectors.Table.{Table, has_id}
use memoflow_api.Connectors.Database.{ConnectorPorts, C, query}

abbrev pub or_old {ℓ} : {A : Type ℓ} → Option A → A → A
or_old none old = old
or_old (some new) old = new

abbrev or_old_account : Option String → Option String → Option String
or_old_account none old = old
or_old_account (some new) old = some new

-- The row after `update` with the patch.
abbrev pub patched : UpdateConnectorStatusData → ConnectorConnection → ConnectorConnection
patched patch r = record r {
  status = patch.status;
  composio_account_id = or_old_account patch.composio_account_id r.composio_account_id;
  connected_at = or_old patch.connected_at r.connected_at;
}

-- The row that a fresh connect starts over with.
abbrev pub restarted : UpsertInitiatedData → ConnectorConnection → ConnectorConnection
restarted d r = record r {
  composio_account_id = some d.composio_account_id;
  status = initiated;
  connected_at = none;
}

module _ (t : Table) where
  open t use {Store}

  abbrev pub find_by_id : String → Store → Option ConnectorConnection
  find_by_id id s = t.find_one (has_id id) s

  abbrev pub find_by_user_and_provider :
      String → ConnectorProvider → Store → Option ConnectorConnection
  find_by_user_and_provider user_id provider s =
      t.find_one (λ r. r.user_id == user_id && same_provider r.provider provider) s

  abbrev pub find_by_composio_account_id : String → Store → Option ConnectorConnection
  find_by_composio_account_id account s = t.find_one (λ r. is_named r.composio_account_id account) s

  module _ (p : ConnectorPorts) where
    -- `update({ id }, ...)`, then `findById`.
    abbrev pub updated_row :
        String → (ConnectorConnection → ConnectorConnection) → C t p (Option ConnectorConnection)
    updated_row id f = do
      done ← query t p (λ s. (tt, t.update id f s))
      query t p (λ s. (find_by_id id s, s))

    abbrev pub if_there :
        UpdateConnectorStatusData
        → String
        → Option ConnectorConnection
        → C t p (Option ConnectorConnection)
    if_there patch id none = pure none
    if_there patch id (some existing) = updated_row id (patched patch)

    unfoldable pub update_status :
        String → UpdateConnectorStatusData → C t p (Option ConnectorConnection)
    update_status id patch = do
      existing ← query t p (λ s. (find_by_id id s, s))
      if_there patch id existing

    -- `findOneOrFail`
    abbrev pub restart_winner :
        UpsertInitiatedData → Option ConnectorConnection → C t p (Option ConnectorConnection)
    restart_winner d none = throw (other "EntityNotFoundError")
    restart_winner d (some winner) = updated_row winner.id (restarted d)

    -- The new row, or `none` where the unique constraint refused it.
    abbrev pub inserted : Option String × Store → Option (Option ConnectorConnection) × Store
    inserted (some id, s) = (some (find_by_id id s), s)
    inserted (none, s) = (none, s)

    -- Another call may have inserted the row of this user and provider first.
    abbrev pub saved :
        UpsertInitiatedData
        → Option (Option ConnectorConnection)
        → C t p (Option ConnectorConnection)
    saved d (some row) = pure row
    saved d none = do
      winner ← query t p (λ s. (find_by_user_and_provider d.user_id d.provider s, s))
      restart_winner d winner

    abbrev pub upserted :
        UpsertInitiatedData → Option ConnectorConnection → C t p (Option ConnectorConnection)
    upserted d (some existing) = updated_row existing.id (restarted d)
    upserted d none = do row ← query t p (λ s. inserted (t.insert d s)); saved d row

    unfoldable pub upsert_initiated : UpsertInitiatedData → C t p (Option ConnectorConnection)
    upsert_initiated d = do
      existing ← query t p (λ s. (find_by_user_and_provider d.user_id d.provider s, s))
      upserted d existing
