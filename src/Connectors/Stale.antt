-- ===== src/Connectors/Stale.antt =====
-- What becomes of a status that is applied to a connection as it was read before.
use memoflow_api.Prelude.{ℕ, ◌≡◌, refl, false, Option, none, some, ◌∷◌, arith, eq_refl}
use memoflow_api.Exec.{ok, pure, ◌>>=◌}
use memoflow_api.Connectors.{
  ConnectorConnection, ConnectorStatus, initiated, active, revoked, failed, same_status,
  is_terminal, UpdateConnectorStatusData,
}
use memoflow_api.Connectors.Table.{Table}
use memoflow_api.Connectors.Repository.{update_status, patched}
use memoflow_api.Connectors.Database.{ConnectorPorts, C, query, status_changed}
use memoflow_api.Connectors.Sync.{apply_status, announced, patch_of, emit, time}
use memoflow_api.Connectors.Safely.{row_at, World}

module _ (t : Table) (p : ConnectorPorts) where
  -- The write of `applyStatus` and its event.
  abbrev written : ConnectorConnection → UpdateConnectorStatusData → C t p ConnectorConnection
  written seen patch = do updated ← update_status t p seen.id patch; announced t p seen updated

  write_lands :
      (seen r : ConnectorConnection) (patch : UpdateConnectorStatusData) (w : World t p)
      → row_at t w.store seen.id ≡ some r
      → ((e : p.Env) → (p.driver e).0 ≡ ok tt)
      → (r' : ConnectorConnection) × (row_at t (written seen patch w).1.store seen.id ≡ some r')
        × (r'.status ≡ patch.status)
        × ((written seen patch w).1.events ≡ status_changed r.user_id ∷ w.events)
  unfolding update_status query ◌>>=◌ pure emit
  write_lands seen r patch w at_id up =
      let at_new : row_at t (t.update seen.id (patched patch) w.store) seen.id
          ≡ some (record (patched patch r) { id = r.id }) =
        rw (t.rows_updated seen.id (patched patch) w.store seen.id, eq_refl seen.id, at_id) refl in
      rw (up w.env, at_id, up (p.driver w.env).1, up (p.driver (p.driver w.env).1).1, at_new)
        (record (patched patch r) { id = r.id }, at_new, refl, refl)

  -- Applying a live status to a connection as it was read while it was live, when it has another status,
  -- on a database that answers: it is written over the status that the row has by then, revoked and
  -- failed included, and told as a change.
  pub stale_read_revives :
      (seen r : ConnectorConnection) (status : ConnectorStatus) (w : World t p)
      → is_terminal seen.status ≡ false
      → same_status seen.status status ≡ false
      → is_terminal status ≡ false
      → row_at t w.store seen.id ≡ some r
      → ((e : p.Env) → (p.driver e).0 ≡ ok tt)
      → (r' : ConnectorConnection) × (row_at t (apply_status t p seen status w).1.store seen.id
          ≡ some r')
        × (r'.status ≡ status)
        × ((apply_status t p seen status w).1.events ≡ status_changed r.user_id ∷ w.events)
  unfolding apply_status update_status query ◌>>=◌ pure time emit
  stale_read_revives seen r initiated w live new target at_id up =
      rw (new, live)
        (write_lands seen r
          (record { status = initiated; composio_account_id = none; connected_at = none }) w at_id
          up)
  stale_read_revives seen r active w live new target at_id up =
      rw (new, live) (by_date seen.connected_at)
    where
      by_date :
          (o : Option ℕ)
          → (r' : ConnectorConnection) × (row_at t
                ((patch_of t p (record seen { connected_at = o }) active >>= λ patch.
                    written seen patch)
                  w).1.store
                seen.id
              ≡ some r')
            × (r'.status ≡ active)
            × (((patch_of t p (record seen { connected_at = o }) active >>= λ patch.
                    written seen patch)
                  w).1.events
                ≡ status_changed r.user_id ∷ w.events)
      by_date none =
          write_lands seen r
            (record {
              status = active;
              composio_account_id = none;
              connected_at = some (some (p.clock w.env).0);
            })
            (record w { env = (p.clock w.env).1 }) at_id up
      by_date (some at) =
          write_lands seen r
            (record { status = active; composio_account_id = none; connected_at = none }) w at_id up
  stale_read_revives seen r revoked w live new target at_id up = ground arith
  stale_read_revives seen r failed w live new target at_id up = ground arith
