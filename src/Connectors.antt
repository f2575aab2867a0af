-- ===== src/Connectors.antt =====
-- The connections of users to providers: domain/connectors, application/connectors, and
-- infrastructure/persistence/connectors/connector-connection.typeorm.repository.ts. A connection's two
-- timestamps `createdAt` and `updatedAt`, which no code here reads, are left out.
pub mod Table
pub mod Database
pub mod Repository
pub mod Sync
pub mod Safely
pub mod Terminal
pub mod Stale
mod Memory
mod Examples
use memoflow_api.Prelude.{ℕ, String, Bool, true, false, Option}

pub data ConnectorProvider : Type 0 where
  trello notion github : ConnectorProvider

pub data ConnectorStatus : Type 0 where
  initiated active revoked failed : ConnectorStatus

abbrev pub same_status : ConnectorStatus → ConnectorStatus → Bool
same_status initiated initiated = true
same_status active active = true
same_status revoked revoked = true
same_status failed failed = true
same_status _ _ = false

abbrev pub same_provider : ConnectorProvider → ConnectorProvider → Bool
same_provider trello trello = true
same_provider notion notion = true
same_provider github github = true
same_provider _ _ = false

-- `TERMINAL_STATUSES.has(status)`
abbrev pub is_terminal : ConnectorStatus → Bool
is_terminal revoked = true
is_terminal failed = true
is_terminal _ = false

pub record ConnectorConnection : Type 0 where
  pub id : String
  pub user_id : String
  pub provider : ConnectorProvider
  pub composio_account_id : Option String
  pub status : ConnectorStatus
  pub connected_at : Option ℕ

pub record UpsertInitiatedData : Type 0 where
  pub user_id : String
  pub provider : ConnectorProvider
  pub composio_account_id : String

-- A field that is `none` is not in the patch.
pub record UpdateConnectorStatusData : Type 0 where
  pub status : ConnectorStatus
  pub composio_account_id : Option String
  pub connected_at : Option (Option ℕ)

-- domain/connectors/connector-gateway.port.ts
pub record ConnectorWebhookEvent : Type 0 where
  pub composio_account_id : String
  pub status : ConnectorStatus

pub record ConnectorWebhookHeaders : Type 0 where
  pub id : String
  pub timestamp : String
  pub signature : String
