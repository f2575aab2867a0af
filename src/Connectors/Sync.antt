-- ===== src/Connectors/Sync.antt =====
-- application/connectors: `SyncConnectionStatusUseCase`, and the use cases that read, revoke and
-- initiate a connection.
use memoflow_api.Prelude.{ℕ, String, Bool, not, ◌||◌, Option, none, some, ◌∷◌, ◌==◌, if◌then◌else◌}
use memoflow_api.Exec.{Result, ok, err, pure, throw, attempt, ◌>>=◌, ◌>>◌}
use memoflow_api.Exec.Errors.{http, not_found, other}
use memoflow_api.Connectors.{
  ConnectorProvider, ConnectorStatus, initiated, active, revoked, same_status, is_terminal,
  ConnectorConnection, UpdateConnectorStatusData, ConnectorWebhookEvent, ConnectorWebhookHeaders,
}
use memoflow_api.Connectors.Table.{Table}
use memoflow_api.Connectors.Database.{
  ConnectorEvent, status_changed, connection_revoked, ConnectorPorts, C, gateway, query,
}
use memoflow_api.Connectors.Repository.{
  find_by_id, find_by_user_and_provider, find_by_composio_account_id, update_status,
  upsert_initiated,
}

pub record InitiateConnectionOutput : Type 0 where
  pub redirect_url : String
  pub connection_id : String
  pub status : ConnectorStatus

module _ (t : Table) (p : ConnectorPorts) where
  unfoldable pub emit : ConnectorEvent → C t p (Unit {0})
  emit event w = (ok tt, record w { events = event ∷ w.events })

  unfoldable pub time : C t p ℕ
  time w = let (now, env) = p.clock w.env in (ok now, record w { env = env })

  abbrev pub patch_of : ConnectorConnection → ConnectorStatus → C t p UpdateConnectorStatusData
  patch_of connection active = connected connection.connected_at
    where
      plain : UpdateConnectorStatusData
      plain = record { status = active; composio_account_id = none; connected_at = none }

      connected : Option ℕ → C t p UpdateConnectorStatusData
      connected (some at) = pure plain
      connected none = do now ← time; pure (record plain { connected_at = some (some now) })
  patch_of connection status =
      pure (record { status = status; composio_account_id = none; connected_at = none })

  -- The event follows a write only.
  abbrev pub announced :
      ConnectorConnection → Option ConnectorConnection → C t p ConnectorConnection
  announced connection none = pure connection
  announced connection (some updated) = emit (status_changed updated.user_id) >> pure updated

  unfoldable pub apply_status : ConnectorConnection → ConnectorStatus → C t p ConnectorConnection
  apply_status connection status =
      if same_status connection.status status
      then pure connection
      else if is_terminal connection.status
      then pure connection
      else (do
        patch ← patch_of connection status
        updated ← update_status t p connection.id patch
        announced connection updated)

  abbrev pub on_connection : ConnectorStatus → Option ConnectorConnection → C t p (Unit {0})
  on_connection status none = pure tt
  on_connection status (some connection) = apply_status connection status >> pure tt

  unfoldable pub apply_event : ConnectorWebhookEvent → C t p (Unit {0})
  apply_event event = do
    connection ← query t p (λ s. (find_by_composio_account_id t event.composio_account_id s, s))
    on_connection event.status connection

  abbrev pub on_verified : Result (Option ConnectorWebhookEvent) → C t p (Unit {0})
  on_verified (err e) = throw (http 401 "Invalid Composio webhook signature")
  on_verified (ok none) = pure tt
  on_verified (ok (some event)) = apply_event event

  unfoldable pub verify_and_apply : String → ConnectorWebhookHeaders → C t p (Unit {0})
  verify_and_apply raw_body headers = do
    verified ← attempt (gateway t p (p.verify_webhook raw_body headers))
    on_verified verified

  abbrev pub on_status : ConnectorConnection → Result ConnectorStatus → C t p ConnectorConnection
  on_status connection (err e) = pure connection
  on_status connection (ok status) =
      if same_status status connection.status
      then pure connection
      else apply_status connection status

  abbrev pub look_up : ConnectorConnection → Option String → C t p ConnectorConnection
  look_up connection none = pure connection
  look_up connection (some account) = if account == "" then pure connection else (do
    status ← attempt (gateway t p (p.get_connection_status account))
    on_status connection status)

  unfoldable pub reconcile : ConnectorConnection → C t p ConnectorConnection
  reconcile connection =
      if same_status connection.status initiated
      then look_up connection connection.composio_account_id
      else pure connection

  -- `GetConnectionUseCase.execute`
  abbrev pub owned : String → String → Option ConnectorConnection → C t p ConnectorConnection
  owned id user_id none = throw (not_found "Connector connection " id)
  owned id user_id (some connection) =
      if connection.user_id == user_id
      then reconcile connection
      else throw (not_found "Connector connection " id)

  unfoldable pub get_connection : String → String → C t p ConnectorConnection
  get_connection id user_id = do
    connection ← query t p (λ s. (find_by_id t id s, s))
    owned id user_id connection

  abbrev pub revoke_at_gateway : Option String → C t p (Unit {0})
  revoke_at_gateway none = pure tt
  revoke_at_gateway (some account) =
      if account == "" then pure tt else gateway t p (p.revoke_account account)

  abbrev pub or_else : Option ConnectorConnection → ConnectorConnection → ConnectorConnection
  or_else none connection = connection
  or_else (some updated) connection = updated

  unfoldable pub mark_revoked : String → ConnectorConnection → C t p ConnectorConnection
  mark_revoked user_id connection = do
    told ← revoke_at_gateway connection.composio_account_id
    updated ←
        update_status t p connection.id
          (record { status = revoked; composio_account_id = none; connected_at = none })
    done ← emit (
        connection_revoked user_id (or_else updated connection).id
          (or_else updated connection).provider)
    pure (or_else updated connection)

  abbrev pub revoke_read : String → ConnectorConnection → C t p ConnectorConnection
  revoke_read user_id connection =
      if same_status connection.status revoked
      then pure connection
      else mark_revoked user_id connection

  -- `RevokeConnectionUseCase.execute`
  unfoldable pub revoke_connection : String → String → C t p ConnectorConnection
  revoke_connection id user_id = do
    connection ← get_connection id user_id
    revoke_read user_id connection

  abbrev pub is_replaced : ConnectorConnection → String → String → Bool
  is_replaced previous old new =
      not (old == "" || (old == new || same_status previous.status revoked))

  -- Best effort: a failure is swallowed.
  abbrev pub revoke_old : ConnectorConnection → String → Option String → C t p (Unit {0})
  revoke_old previous new none = pure tt
  revoke_old previous new (some old) =
      if is_replaced previous old new
      then attempt (gateway t p (p.revoke_account old)) >> pure tt
      else pure tt

  unfoldable pub revoke_replaced_account : Option ConnectorConnection → String → C t p (Unit {0})
  revoke_replaced_account none new = pure tt
  revoke_replaced_account (some previous) new = revoke_old previous new previous.composio_account_id

  -- The row's id, which the code reads of a row that it takes to be there.
  abbrev pub id_of : Option ConnectorConnection → C t p String
  id_of none = throw (other "TypeError")
  id_of (some row) = pure row.id

  -- `InitiateConnectionUseCase.execute`
  unfoldable pub initiate_connection : String → ConnectorProvider → C t p InitiateConnectionOutput
  initiate_connection user_id provider = do
    previous ← query t p (λ s. (find_by_user_and_provider t user_id provider s, s))
    begun ← gateway t p (p.initiate_account user_id provider)
    row ← upsert_initiated t p (record {
      user_id = user_id;
      provider = provider;
      composio_account_id = begun.composio_account_id;
    })
    told ← emit (status_changed user_id)
    id ← id_of row
    done ← revoke_replaced_account previous begun.composio_account_id
    pure (record { redirect_url = begun.redirect_url; connection_id = id; status = begun.status })
