-- ===== src/Connectors/Terminal.antt =====
-- Revoked and failed connections.
use memoflow_api.Prelude.{
  ℕ, String, ◌≡◌, refl, sym, ap, ◌∙◌, Bool, true, false, Option, none, some, List, [], ◌∷◌, ◌==◌,
  Bool-cases, inl, inr,
}
use mathlib.Core.Bool.{false≢true}
use memoflow_api.Exec.{Result, ok, err, pure, ◌>>=◌}
use memoflow_api.Connectors.{
  ConnectorConnection, ConnectorStatus, initiated, active, revoked, failed, same_status,
  is_terminal, ConnectorWebhookHeaders, ConnectorWebhookEvent, UpdateConnectorStatusData,
}
use memoflow_api.Connectors.Table.{Table, has_id}
use memoflow_api.Connectors.Repository.{update_status, if_there, updated_row, patched}
use memoflow_api.Connectors.Database.{query, ConnectorPorts, ConnectorEvent, C}
use memoflow_api.Connectors.Sync.{
  apply_status, apply_event, verify_and_apply, reconcile, get_connection, revoke_connection,
  mark_revoked, revoke_at_gateway, on_connection, on_verified, on_status, look_up, owned, announced,
  patch_of, emit, time,
}
use memoflow_api.Connectors.Safely.{
  row_at, KeepsTerminal, KeepsTerminal-refl, update-KeepsTerminal, World, Safely, Safely-pure,
  Safely-throw, Safely-gateway, Safely-query, Safely-attempt-gateway, Safely-bind,
}

abbrev terminal_row : Option ConnectorConnection → Bool
terminal_row none = false
terminal_row (some r) = is_terminal r.status

-- What reaches the API: a webhook, a read of a connection, or its revocation, each by a user.
pub data Request : Type 0 where
  webhook : (raw_body : String) (headers : ConnectorWebhookHeaders) → Request
  read revoke : (id user_id : String) → Request

module _ (t : Table) where
  module _ (p : ConnectorPorts) where
    -- The action is safe, whatever it leaves.
    abbrev IsSafe : {A : Type 0} → C t p A → World t p → Type 0
    IsSafe m w = Safely t p m (λ a s. Unit {0}) w

    read-IsSafe :
        (q : ConnectorConnection → Bool) (w : World t p)
        → IsSafe (query t p (λ s. (t.find_one q s, s))) w
    read-IsSafe q w = Safely-query t p _ w (KeepsTerminal-refl t w.store) tt

    updated_row-IsSafe :
        (id : String) (f : ConnectorConnection → ConnectorConnection) (w : World t p)
        → KeepsTerminal t w.store (t.update id f w.store)
        → IsSafe (updated_row t p id f) w
    updated_row-IsSafe id f w kept =
        Safely-bind t p {Q = λ a s. Unit {0}} _ _ w (Safely-query t p _ w kept tt)
          (λ done v h. read-IsSafe (has_id id) v)

    -- An update of the status keeps what is terminal when the row is not, or the new status is.
    update_status-IsSafe :
        (id : String) (patch : UpdateConnectorStatusData) (w : World t p)
        → ((r : ConnectorConnection)
            → row_at t w.store id ≡ some r
            → is_terminal r.status ≡ true
            → is_terminal patch.status ≡ true)
        → IsSafe (update_status t p id patch) w
    unfolding update_status
    update_status-IsSafe id patch w good =
        Safely-bind t p {Q = λ o s. s ≡ w.store} _ _ w
          (Safely-query t p _ w (KeepsTerminal-refl t w.store) refl) by_row
      where
        by_row :
            (o : Option ConnectorConnection) (v : World t p)
            → v.store ≡ w.store
            → IsSafe (if_there t p patch id o) v
        by_row none v same = Safely-pure t p none v tt
        by_row (some existing) v same = updated_row-IsSafe id (patched patch) v (
            update-KeepsTerminal t id (patched patch) v.store
              (λ r at_r over. good r (ap (λ s. row_at t s id) (sym same) ∙ at_r) over))

    emit-IsSafe : (event : ConnectorEvent) (w : World t p) → IsSafe (emit t p event) w
    unfolding emit
    emit-IsSafe event w = record { keeps = KeepsTerminal-refl t w.store; then_ = λ a same. tt }

    announced-IsSafe :
        (connection : ConnectorConnection) (o : Option ConnectorConnection) (w : World t p)
        → IsSafe (announced t p connection o) w
    announced-IsSafe connection none w = Safely-pure t p connection w tt
    announced-IsSafe connection (some updated) w =
        Safely-bind t p _ _ w (emit-IsSafe _ w) (λ a v h. Safely-pure t p updated v tt)

    -- The patch is made without a change of the table.
    patch_of-Safely :
        (connection : ConnectorConnection) (status : ConnectorStatus) (w : World t p)
        → Safely t p (patch_of t p connection status) (λ patch s. s ≡ w.store) w
    unfolding pure time ◌>>=◌
    patch_of-Safely connection initiated w = Safely-pure t p _ w refl
    patch_of-Safely connection active w = by_date connection.connected_at
      where
        by_date :
            (o : Option ℕ)
            → Safely t p
                (patch_of t p (record connection { connected_at = o }) active)
                (λ patch s. s ≡ w.store)
                w
        by_date none = record { keeps = KeepsTerminal-refl t w.store; then_ = λ a same. refl }
        by_date (some at) = Safely-pure t p _ w refl
    patch_of-Safely connection revoked w = Safely-pure t p _ w refl
    patch_of-Safely connection failed w = Safely-pure t p _ w refl

    apply_status-IsSafe :
        (connection : ConnectorConnection) (status : ConnectorStatus) (w : World t p)
        → row_at t w.store connection.id ≡ some connection
        → IsSafe (apply_status t p connection status) w
    unfolding apply_status
    apply_status-IsSafe connection status w at_id =
        elim (Bool-cases (same_status connection.status status)) [
          | inl same ↦ rw same (Safely-pure t p connection w tt)
          | inr new ↦ elim (Bool-cases (is_terminal connection.status)) [
            | inl over ↦ rw (new, over) (Safely-pure t p connection w tt)
            | inr live ↦
                rw (new, live)
                  (Safely-bind t p _ _ w (patch_of-Safely connection status w)
                    (λ patch v same_store.
                      Safely-bind t p {Q = λ a s. Unit {0}} _ _ v
                        (update_status-IsSafe connection.id patch v (λ r at_r over. absurd (
                          false≢true (
                            sym live
                            ∙ ap terminal_row (sym at_id)
                            ∙ ap (λ s. terminal_row (row_at t s connection.id)) (sym same_store)
                            ∙ ap terminal_row at_r
                            ∙ over))))
                        (λ updated u h. announced-IsSafe connection updated u)))
          ]
        ]

    on_connection-IsSafe :
        (status : ConnectorStatus) (o : Option ConnectorConnection) (w : World t p)
        → ((r : ConnectorConnection) → o ≡ some r → row_at t w.store r.id ≡ some r)
        → IsSafe (on_connection t p status o) w
    on_connection-IsSafe status none w here = Safely-pure t p tt w tt
    on_connection-IsSafe status (some connection) w here =
        Safely-bind t p _ _ w (apply_status-IsSafe connection status w (here connection refl))
          (λ a v h. Safely-pure t p tt v tt)

    apply_event-IsSafe :
        (event : ConnectorWebhookEvent) (w : World t p) → IsSafe (apply_event t p event) w
    unfolding apply_event
    apply_event-IsSafe event w =
        Safely-bind t p
          {Q = λ o s. (r : ConnectorConnection) → o ≡ some r → row_at t s r.id ≡ some r} _ _ w
          (Safely-query t p _ w (KeepsTerminal-refl t w.store) (λ r is. (t.found _ w.store r is).1))
          (λ o v here. on_connection-IsSafe event.status o v here)

    verify_and_apply-IsSafe :
        (raw_body : String) (headers : ConnectorWebhookHeaders) (w : World t p)
        → IsSafe (verify_and_apply t p raw_body headers) w
    unfolding verify_and_apply
    verify_and_apply-IsSafe raw_body headers w =
        Safely-bind t p {Q = λ r s. Unit {0}} _ _ w (Safely-attempt-gateway t p _ w (λ r. tt))
          verified
      where
        verified :
            (r : Result (Option ConnectorWebhookEvent)) (v : World t p)
            → Unit {0}
            → IsSafe (on_verified t p r) v
        verified (err e) v h = Safely-throw t p _ v
        verified (ok none) v h = Safely-pure t p tt v tt
        verified (ok (some event)) v h = apply_event-IsSafe event v

    reconcile-IsSafe :
        (connection : ConnectorConnection) (w : World t p)
        → row_at t w.store connection.id ≡ some connection
        → IsSafe (reconcile t p connection) w
    unfolding reconcile
    reconcile-IsSafe connection w at_id =
        elim (Bool-cases (same_status connection.status initiated)) [
          | inr settled ↦ rw settled (Safely-pure t p connection w tt)
          | inl open_ ↦ rw open_ (by_account connection.composio_account_id)
        ]
      where
        answered :
            (r : Result ConnectorStatus) (v : World t p)
            → row_at t v.store connection.id ≡ some connection
            → IsSafe (on_status t p connection r) v
        answered (err e) v here = Safely-pure t p connection v tt
        answered (ok status) v here = elim (Bool-cases (same_status status connection.status)) [
          | inl same ↦ rw same (Safely-pure t p connection v tt)
          | inr new ↦ rw new (apply_status-IsSafe connection status v here)
        ]

        by_account : (o : Option String) → IsSafe (look_up t p connection o) w
        by_account none = Safely-pure t p connection w tt
        by_account (some account) = elim (Bool-cases (account == "")) [
          | inl empty ↦ rw empty (Safely-pure t p connection w tt)
          | inr named ↦ rw named (
              Safely-bind t p {Q = λ r s. row_at t s connection.id ≡ some connection} _ _ w
                (Safely-attempt-gateway t p _ w (λ r. at_id)) answered)
        ]

    get_connection-IsSafe :
        (id user_id : String) (w : World t p) → IsSafe (get_connection t p id user_id) w
    unfolding get_connection
    get_connection-IsSafe id user_id w =
        Safely-bind t p
          {Q = λ o s. (r : ConnectorConnection) → o ≡ some r → row_at t s r.id ≡ some r} _ _ w
          (Safely-query t p _ w (KeepsTerminal-refl t w.store) (λ r is. (t.found _ w.store r is).1))
          checked
      where
        checked :
            (o : Option ConnectorConnection) (v : World t p)
            → ((r : ConnectorConnection) → o ≡ some r → row_at t v.store r.id ≡ some r)
            → IsSafe (owned t p id user_id o) v
        checked none v here = Safely-throw t p _ v
        checked (some connection) v here = elim (Bool-cases (connection.user_id == user_id)) [
          | inl own ↦ rw own (reconcile-IsSafe connection v (here connection refl))
          | inr foreign ↦ rw foreign (Safely-throw t p _ v)
        ]

    revoke_at_gateway-IsSafe :
        (o : Option String) (w : World t p) → IsSafe (revoke_at_gateway t p o) w
    revoke_at_gateway-IsSafe none w = Safely-pure t p tt w tt
    revoke_at_gateway-IsSafe (some account) w = elim (Bool-cases (account == "")) [
      | inl empty ↦ rw empty (Safely-pure t p tt w tt)
      | inr named ↦ rw named (Safely-gateway t p _ w (λ a. tt))
    ]

    revoke_connection-IsSafe :
        (id user_id : String) (w : World t p) → IsSafe (revoke_connection t p id user_id) w
    unfolding revoke_connection mark_revoked
    revoke_connection-IsSafe id user_id w =
        Safely-bind t p _ _ w (get_connection-IsSafe id user_id w) (λ connection v h.
          elim (Bool-cases (same_status connection.status revoked)) [
            | inl done ↦ rw done (Safely-pure t p connection v tt)
            | inr not_yet ↦ rw not_yet (
                Safely-bind t p _ _ v (revoke_at_gateway-IsSafe connection.composio_account_id v)
                  (λ told u g.
                    Safely-bind t p {Q = λ a s. Unit {0}} _ _ u
                      (update_status-IsSafe connection.id _ u (λ r at_r over. refl))
                      (λ updated x k.
                        Safely-bind t p _ _ x (emit-IsSafe _ x) (λ a y l. Safely-pure t p _ y tt))))
          ])

    -- The table after a request, whether it is answered or fails.
    abbrev pub served : Request → World t p → World t p
    served (webhook raw_body headers) w = (verify_and_apply t p raw_body headers w).1
    served (read id user_id) w = (get_connection t p id user_id w).1
    served (revoke id user_id) w = (revoke_connection t p id user_id w).1

    unfoldable pub served_all : List Request → World t p → World t p
    served_all [] w = w
    served_all (q ∷ qs) w = served_all qs (served q w)

    served-KeepsTerminal :
        (q : Request) (w : World t p) → KeepsTerminal t w.store (served q w).store
    served-KeepsTerminal (webhook raw_body headers) w =
        (verify_and_apply-IsSafe raw_body headers w).keeps
    served-KeepsTerminal (read id user_id) w = (get_connection-IsSafe id user_id w).keeps
    served-KeepsTerminal (revoke id user_id) w = (revoke_connection-IsSafe id user_id w).keeps

    -- A connection that is revoked or failed is still there and revoked or failed after any webhooks, reads
    -- and revocations, served one after another, whatever the gateway and the database answer them.
    pub terminal_is_final :
        (qs : List Request) (w : World t p) (id : String) (r : ConnectorConnection)
        → row_at t w.store id ≡ some r
        → is_terminal r.status ≡ true
        → (r' : ConnectorConnection) × (row_at t (served_all qs w).store id ≡ some r')
          × (is_terminal r'.status ≡ true)
    unfolding served_all
    terminal_is_final [] w id r at_id over = (r, at_id, over)
    terminal_is_final (q ∷ qs) w id r at_id over =
        let (r', at_id', over') = served-KeepsTerminal q w id r at_id over in
        terminal_is_final qs (served q w) id r' at_id' over'
