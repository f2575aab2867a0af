-- ===== src/Connectors/Examples.antt =====
-- A connection that is revoked, over a table in memory, and a webhook that comes late.
use memoflow_api.Prelude.{ℕ, ◌+◌, ◌≡◌, refl, true, none, some, List, [], ◌∷◌}
use memoflow_api.Exec.{ok, err}
use memoflow_api.Exec.Errors.{other}
use memoflow_api.Connectors.{
  ConnectorConnection, ConnectorStatus, trello, active, revoked, initiated, is_terminal,
  ConnectorWebhookHeaders,
}
use memoflow_api.Connectors.Memory.{memory}
use memoflow_api.Connectors.Database.{ConnectorPorts, status_changed}
use memoflow_api.Connectors.Sync.{apply_status}
use memoflow_api.Connectors.Safely.{row_at, World}
use memoflow_api.Connectors.Terminal.{Request, webhook, read, revoke, served_all, terminal_is_final}
use memoflow_api.Connectors.Stale.{stale_read_revives}

-- A gateway at which every account is active.
abbrev ports : ConnectorPorts
ports = record {
  Env = ℕ;
  driver = λ e. (ok tt, e);
  clock = λ e. (e, e + 1);
  verify_webhook = λ raw_body headers e.
      (ok (some (record { composio_account_id = "acc"; status = active })), e);
  get_connection_status = λ account e. (ok active, e);
  revoke_account = λ account e. (ok tt, e);
  initiate_account = λ user_id provider e. (err (other "unused"), e);
}

abbrev row_in : ConnectorStatus → ConnectorConnection
row_in s = record {
  id = "c1";
  user_id = "alice";
  provider = trello;
  composio_account_id = some "acc";
  status = s;
  connected_at = none;
}

abbrev world_in : ConnectorStatus → World memory ports
world_in s = record { store = some (row_in s); env = 100; events = [] }

abbrev headers : ConnectorWebhookHeaders
headers = record { id = "m1"; timestamp = "100"; signature = "v1" }

abbrev requests : List Request
requests = webhook "body" headers ∷ read "c1" "alice" ∷ revoke "c1" "alice" ∷ []

terminal_is_final_example :
    (r' : ConnectorConnection) × (row_at memory
        (served_all memory ports requests (world_in revoked)).store
        "c1"
      ≡ some r')
    × (is_terminal r'.status ≡ true)
terminal_is_final_example =
    terminal_is_final memory ports requests (world_in revoked) "c1" (row_in revoked) refl refl

stale_read_revives_example :
    (r' : ConnectorConnection) × (row_at memory
        (apply_status memory ports (row_in initiated) active (world_in revoked)).1.store
        "c1"
      ≡ some r')
    × (r'.status ≡ active)
    × ((apply_status memory ports (row_in initiated) active (world_in revoked)).1.events
        ≡ status_changed "alice" ∷ [])
stale_read_revives_example =
    stale_read_revives memory ports (row_in initiated) (row_in revoked) active (world_in revoked)
      refl refl refl refl (λ e. refl)
