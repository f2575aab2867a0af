-- ===== src/Context/Timeout/Exact.antt =====
-- A timeout acts exactly on a job that is still gathering.
use memoflow_api.Prelude.{
  ℕ, String, ◌≡◌, refl, sym, Bool, true, false, Option, none, some, Bool-cases, inl, inr, eq_refl,
}
use mathlib.Core.Bool.{false≢true}
use memoflow_api.Exec.{ok, pure, ◌>>=◌}
use memoflow_api.Context.Job.{PlanningJobDoc, is_gathering, failed}
use memoflow_api.Context.Collection.{Collection, left_row}
use memoflow_api.Context.Repository.{GatherFailure, fail_if_still_gathering, find_by_id, to_domain}
use memoflow_api.Context.Repository.Steps.{row_at}
use memoflow_api.Context.Repository.Races.{matches, update_answers, update_loses}
use memoflow_api.Context.Ports.{Ports, World, now, read}
use memoflow_api.Context.Claimed.Ends.{IsUp}
use memoflow_api.Context.ResultChunk.Refusals.{query_answers}
use memoflow_api.Context.Timeout.{
  HandleGatherTimeoutResult, handle_timeout, timeout_code, timeout_message,
}

-- The row of a job that timed out.
abbrev pub timed_out_row : ℕ → PlanningJobDoc → PlanningJobDoc
timed_out_row time d = record d {
  status = failed;
  error_code = some timeout_code;
  error_message = some timeout_message;
  finished_at = some time;
}

abbrev pub still_gathering : PlanningJobDoc → Bool
still_gathering d = is_gathering d.status

matching :
    (p : PlanningJobDoc → Bool) (o : Option PlanningJobDoc)
    → matches p o ≡ true
    → (d : PlanningJobDoc) × (o ≡ some d) × (p d ≡ true)
matching p none h = absurd (false≢true h)
matching p (some d) h = (d, refl, h)

module _ (c : Collection) (p : Ports) (up : IsUp p) where
  abbrev reason : GatherFailure
  reason = record { error_code = timeout_code; error_message = timeout_message }

  fail_if_still_gathering-row :
      (id : String) (time : ℕ) (s : c.Store)
      → row_at c (fail_if_still_gathering c id reason time s).1 id
        ≡ left_row still_gathering (timed_out_row time) (row_at c s id)
  unfolding fail_if_still_gathering
  fail_if_still_gathering-row id time s = rw (c.rows_after s id _ _ id, eq_refl id) refl

  fail_if_still_gathering-answers :
      (id : String) (time : ℕ) (s : c.Store) (d : PlanningJobDoc)
      → row_at c s id ≡ some d
      → still_gathering d ≡ true
      → (fail_if_still_gathering c id reason time s).0 ≡ some (to_domain id (timed_out_row time d))
  unfolding fail_if_still_gathering
  fail_if_still_gathering-answers id time s d at_d h = (update_answers c s id _ _ d at_d h).0

  fail_if_still_gathering-loses :
      (id : String) (time : ℕ) (s : c.Store)
      → matches still_gathering (row_at c s id) ≡ false
      → (fail_if_still_gathering c id reason time s).0 ≡ none
  unfolding fail_if_still_gathering
  fail_if_still_gathering-loses id time s h = update_loses c s id _ _ h

  -- With a database that answers, the timeout handler always returns. It reports a timeout exactly when
  -- the job is stored and still gathering; then the row is failed with the timeout's code and message,
  -- and otherwise it is left as it was.
  pub handle_timeout-exact :
      (id : String) (w : World c.Store p.Env)
      → (r : HandleGatherTimeoutResult) × ((handle_timeout c p id w).0 ≡ ok r)
        × (r.timed_out ≡ matches still_gathering (row_at c w.store id))
        × (row_at c (handle_timeout c p id w).1.store id
            ≡ left_row still_gathering (timed_out_row (p.clock w.env).0) (row_at c w.store id))
  unfolding handle_timeout now read ◌>>=◌ pure
  handle_timeout-exact id w =
      let time = (p.clock w.env).0 in
      let v : World c.Store p.Env = record w { env = (p.clock w.env).1 } in
      let first = query_answers c p (fail_if_still_gathering c id reason time) v (up _) in
      elim (Bool-cases (matches still_gathering (row_at c w.store id))) [
        | inl found ↦
            let (d, at_d, open_) = matching still_gathering (row_at c w.store id) found in
            let won = fail_if_still_gathering-answers id time w.store d at_d open_ in
            (
              record { timed_out = true; job = some (to_domain id (timed_out_row time d)) },
              rw (first, won) refl,
              sym found,
              rw (first, won) (fail_if_still_gathering-row id time w.store),
            )
        | inr missed ↦
            let lost = fail_if_still_gathering-loses id time w.store missed in
            let u : World c.Store p.Env = record w {
              store = (fail_if_still_gathering c id reason time w.store).1;
              env = (p.driver v.env).1;
            } in
            let second = query_answers c p (λ s. (find_by_id c id s, s)) u (up _) in
            (
              record { timed_out = false; job = find_by_id c id u.store },
              rw (first, lost, second) refl,
              sym missed,
              rw (first, lost, second) (fail_if_still_gathering-row id time w.store),
            )
      ]
