-- ===== src/Connectors/Safely.antt =====
-- Actions that leave no terminal row for a live status, with what they have left when they return.
use memoflow_api.Prelude.{String, ◌≡◌, refl, true, Option, some, ◌==◌, eq_iff, Bool-cases, inl, inr}
use memoflow_api.Exec.{Result, ok, err, pure, throw, attempt, resume, ◌>>=◌}
use memoflow_api.Exec.Inversion.{err-ne-ok, ok-injective}
use memoflow_api.Exec.Errors.{Failure}
use memoflow_api.Connectors.{ConnectorConnection, is_terminal}
use memoflow_api.Connectors.Table.{Table, has_id}
use memoflow_api.Connectors.Database.{ConnectorPorts, ConnectorWorld, C, gateway, query, ran}

module _ (t : Table) where
  abbrev pub row_at : t.Store → String → Option ConnectorConnection
  row_at s id = t.find_one (has_id id) s

  -- Every terminal row is still there and terminal.
  abbrev pub KeepsTerminal : t.Store → t.Store → Type 0
  KeepsTerminal s s' =
      (j : String) (r : ConnectorConnection)
      → row_at s j ≡ some r
      → is_terminal r.status ≡ true
      → (r' : ConnectorConnection) × (row_at s' j ≡ some r') × (is_terminal r'.status ≡ true)

  pub KeepsTerminal-refl : (s : t.Store) → KeepsTerminal s s
  KeepsTerminal-refl s j r at_j over = (r, at_j, over)

  pub KeepsTerminal-trans :
      (s u v : t.Store) → KeepsTerminal s u → KeepsTerminal u v → KeepsTerminal s v
  KeepsTerminal-trans s u v h k j r at_j over =
      let (r', at_j', over') = h j r at_j over in k j r' at_j' over'

  -- An update of one row keeps what is terminal when it does so on that row.
  pub update-KeepsTerminal :
      (id : String) (f : ConnectorConnection → ConnectorConnection) (s : t.Store)
      → ((r : ConnectorConnection)
          → row_at s id ≡ some r
          → is_terminal r.status ≡ true
          → is_terminal (f r).status ≡ true)
      → KeepsTerminal s (t.update id f s)
  update-KeepsTerminal id f s good j r at_j over = elim (Bool-cases (id == j)) [
    | inr other ↦ (r, rw (t.rows_updated id f s j, other) at_j, over)
    | inl same ↦
        let at_id : row_at s id ≡ some r = rw ((eq_iff id j).0 same) at_j in
        (
          record (f r) { id = r.id },
          rw (t.rows_updated id f s j, same, at_id) refl,
          good r at_id over,
        )
  ]

  module _ (p : ConnectorPorts) where
    abbrev pub World : Type 0
    World = ConnectorWorld t.Store p.Env

    pub record Safely {A : Type 0} (m : C t p A) (Q : A → t.Store → Type 0) (w : World)
        : Type 0 where
      pub keeps : KeepsTerminal w.store (m w).1.store
      pub then_ : (a : A) → (m w).0 ≡ ok a → Q a (m w).1.store

    module _ {A : Type 0} {Q : A → t.Store → Type 0} where
      pub Safely-pure : (a : A) (w : World) → Q a w.store → Safely (pure a) Q w
      unfolding pure
      Safely-pure a w q = record {
        keeps = KeepsTerminal-refl w.store;
        then_ = λ b same. rw (← ok-injective same) q;
      }

      pub Safely-throw : (e : Failure) (w : World) → Safely (throw e) Q w
      unfolding throw
      Safely-throw e w = record {
        keeps = KeepsTerminal-refl w.store;
        then_ = λ b same. absurd (err-ne-ok same);
      }

      -- A call of the gateway, which leaves the table.
      pub Safely-gateway :
          (f : p.Env → Result A × p.Env) (w : World)
          → ((a : A) → Q a w.store)
          → Safely (gateway t p f) Q w
      unfolding gateway
      Safely-gateway f w q = record { keeps = KeepsTerminal-refl w.store; then_ = λ a same. q a }

      pub Safely-query :
          (f : t.Store → A × t.Store) (w : World)
          → KeepsTerminal w.store (f w.store).1
          → Q (f w.store).0 (f w.store).1
          → Safely (query t p f) Q w
      unfolding query
      Safely-query f w kept q =
          let (keeps, left) = by_driver (p.driver w.env) in record { keeps = keeps; then_ = left }
        where
          by_driver :
              (d : Result (Unit {0}) × p.Env)
              → (KeepsTerminal w.store (ran t p f d w).1.store)
                × ((a : A) → (ran t p f d w).0 ≡ ok a → Q a (ran t p f d w).1.store)
          by_driver (ok u, env) = (kept, λ a same. rw (← ok-injective same) q)
          by_driver (err e, env) = (KeepsTerminal-refl w.store, λ b same. absurd (err-ne-ok same))

    pub Safely-attempt-gateway :
        {A : Type 0} {Q : Result A → t.Store → Type 0} (f : p.Env → Result A × p.Env) (w : World)
        → ((r : Result A) → Q r w.store)
        → Safely (attempt (gateway t p f)) Q w
    unfolding gateway attempt
    Safely-attempt-gateway f w q = record {
      keeps = KeepsTerminal-refl w.store;
      then_ = λ r same. q r;
    }

    module _ {A B : Type 0} {R : B → t.Store → Type 0} where
      resumed :
          (r : Result A) (k : A → C t p B) (s : t.Store) (v : World)
          → KeepsTerminal s v.store
          → ((a : A) → r ≡ ok a → Safely (k a) R v)
          → (KeepsTerminal s (resume r k v).1.store)
            × ((b : B) → (resume r k v).0 ≡ ok b → R b (resume r k v).1.store)
      resumed (ok a) k s v kept h =
          (KeepsTerminal-trans s v.store _ kept (h a refl).keeps, (h a refl).then_)
      resumed (err e) k s v kept h = (kept, λ b same. absurd (err-ne-ok same))

      pub Safely-bind :
          {Q : A → t.Store → Type 0} (m : C t p A) (k : A → C t p B) (w : World)
          → Safely m Q w
          → ((a : A) (v : World) → Q a v.store → Safely (k a) R v)
          → Safely (m >>= k) R w
      unfolding ◌>>=◌
      Safely-bind m k w h g =
          let (kept, left) =
            resumed (m w).0 k w.store (m w).1 h.keeps (λ a same. g a (m w).1 (h.then_ a same)) in
          record { keeps = kept; then_ = left }
