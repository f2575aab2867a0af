-- ===== src/Connectors/Database.antt =====
-- What the use cases of application/connectors work with: the table, the gateway, the clock and the
-- events. The ports are functions of an environment and may throw; `driver` is a failure of the
-- database, met before a statement does anything.
use memoflow_api.Prelude.{ℕ, String, Option, List}
use memoflow_api.Exec.{Result, ok, err, Exec}
use memoflow_api.Connectors.{
  ConnectorProvider, ConnectorStatus, ConnectorWebhookEvent, ConnectorWebhookHeaders,
}
use memoflow_api.Connectors.Table.{Table}

pub record InitiateConnectionResult : Type 0 where
  pub redirect_url : String
  pub composio_account_id : String
  pub status : ConnectorStatus

pub data ConnectorEvent : Type 0 where
  status_changed : (user_id : String) → ConnectorEvent
  connection_revoked :
      (user_id connection_id : String) (provider : ConnectorProvider) → ConnectorEvent

pub record ConnectorPorts : Type 1 where
  pub Env : Type 0
  pub driver : Env → Result (Unit {0}) × Env
  pub clock : Env → ℕ × Env
  pub verify_webhook :
      String → ConnectorWebhookHeaders → Env → Result (Option ConnectorWebhookEvent) × Env
  pub get_connection_status : String → Env → Result ConnectorStatus × Env
  pub revoke_account : String → Env → Result (Unit {0}) × Env
  pub initiate_account : String → ConnectorProvider → Env → Result InitiateConnectionResult × Env

pub record ConnectorWorld (Store Env : Type 0) : Type 0 where
  pub store : Store
  pub env : Env
  -- The last one first.
  pub events : List ConnectorEvent

module _ (t : Table) (p : ConnectorPorts) where
  abbrev pub C : Type 0 → Type 0
  C A = Exec (ConnectorWorld t.Store p.Env) A

  module _ {A : Type 0} where
    unfoldable pub gateway : (p.Env → Result A × p.Env) → C A
    gateway f w = let (r, env) = f w.env in (r, record w { env = env })

    abbrev pub ran : (t.Store → A × t.Store) → Result (Unit {0}) × p.Env → C A
    ran f (ok u, env) w =
        let (a, store) = f w.store in (ok a, record w { store = store; env = env })
    ran f (err e, env) w = (err e, record w { env = env })

    unfoldable pub query : (t.Store → A × t.Store) → C A
    query f w = ran f (p.driver w.env) w
