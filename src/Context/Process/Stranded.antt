-- ===== src/Context/Process/Stranded.antt =====
-- Failures outside the `try` blocks of process-planning-job.use-case.ts.
use memoflow_api.Prelude.{ℕ, String, ◌≡◌, refl, Bool, true, false, Option, some, ◌∷◌}
use memoflow_api.Exec.{ok, err, attempt, ◌>>=◌}
use memoflow_api.Exec.Errors.{Failure}
use memoflow_api.Context.Job.{PlanningJobDoc, running, gathering, is_pending}
use memoflow_api.Context.Collection.{Collection}
use memoflow_api.Context.Repository.{claim_for_processing, claim_for_gathering, to_domain}
use memoflow_api.Context.Repository.Steps.{row_at}
use memoflow_api.Context.Repository.Races.{update_answers}
use memoflow_api.Context.Ports.{
  Ports, World, port, now, ResolvedPlanningPrompt, looked_up_user, listed_connections,
}
use memoflow_api.Context.Prompt.{resolve_planning_prompt}
use memoflow_api.Context.ResultChunk.Refusals.{query_answers}
use memoflow_api.Context.Process.{
  execute_legacy, process_job, execute_via_transport, active_references,
}
use memoflow_api.Context.Claimed.Consent.{admits, assert-result, assert-world}

module _ (c : Collection) (p : Ports) (builtin : ResolvedPlanningPrompt) where
  -- The claim of the in-process path, on a pending row.
  claimed-row :
      (id : String) (time : ℕ) (s : c.Store) (d : PlanningJobDoc)
      → row_at c s id ≡ some d
      → is_pending d.status ≡ true
      → ((claim_for_processing c id time s).0
          ≡ some (to_domain id (record d { status = running; started_at = some time })))
        × (row_at c (claim_for_processing c id time s).1 id
            ≡ some (record d { status = running; started_at = some time }))
  unfolding claim_for_processing
  claimed-row id time s d at_d pending = update_answers c s id _ _ d at_d pending

  -- On the in-process path, for a pending job and a database that answers the claim: when the prompt
  -- lookup throws, the call throws the same, and the only change of the job's row is that it is
  -- `running` with a start time.
  pub prompt_failure_strands_job :
      (scheduler : Bool) (timeout_ms : Option ℕ) (id : String) (w : World c.Store p.Env)
      (d : PlanningJobDoc) (e : Failure)
      → row_at c w.store id ≡ some d
      → is_pending d.status ≡ true
      → (p.driver (p.clock w.env).1).0 ≡ ok tt
      → (p.find_active_prompt (p.driver (p.clock w.env).1).1).0 ≡ err e
      → ((process_job c p builtin false scheduler timeout_ms id w).0 ≡ err e)
        × (row_at c (process_job c p builtin false scheduler timeout_ms id w).1.store id
            ≡ some (record d { status = running; started_at = some (p.clock w.env).0 }))
  unfolding process_job execute_legacy now resolve_planning_prompt port ◌>>=◌
  prompt_failure_strands_job scheduler timeout_ms id w d e at_d pending up fails =
      let (found, left) = claimed-row id (p.clock w.env).0 w.store d at_d pending in
      rw
        (
          query_answers c p (claim_for_processing c id (p.clock w.env).0)
              (record w { env = (p.clock w.env).1 }) up,
          found,
          fails,
        )
        (refl, left)

  gathering-row :
      (id : String) (time : ℕ) (s : c.Store) (d : PlanningJobDoc)
      → row_at c s id ≡ some d
      → is_pending d.status ≡ true
      → ((claim_for_gathering c id time s).0
          ≡ some (to_domain id (record d { status = gathering; started_at = some time })))
        × (row_at c (claim_for_gathering c id time s).1 id
            ≡ some (record d { status = gathering; started_at = some time }))
  unfolding claim_for_gathering
  gathering-row id time s d at_d pending = update_answers c s id _ _ d at_d pending

  -- On the transport path with a bound connection repository, for a pending job of an active, consenting
  -- user and a database that answers the claim: when the listing of the user's connections throws, the call throws the same, the only
  -- change of the job's row is that it is `gathering` with a start time, and after the user lookup and
  -- the listing no port was called, so no gather request left and no timeout was set.
  pub listing_failure_strands_job :
      (scheduler : Bool) (timeout_ms : Option ℕ) (id : String) (w : World c.Store p.Env)
      (d : PlanningJobDoc) (e : Failure)
      → row_at c w.store id ≡ some d
      → is_pending d.status ≡ true
      → (p.driver (p.clock w.env).1).0 ≡ ok tt
      → admits (p.find_user d.user_id (p.driver (p.clock w.env).1).1).0 ≡ true
      → p.has_connections ≡ true
      → (p.find_active_by_user d.user_id (p.find_user d.user_id (p.driver (p.clock w.env).1).1).1).0
        ≡ err e
      → ((process_job c p builtin true scheduler timeout_ms id w).0 ≡ err e)
        × (row_at c (process_job c p builtin true scheduler timeout_ms id w).1.store id
            ≡ some (record d { status = gathering; started_at = some (p.clock w.env).0 }))
        × ((process_job c p builtin true scheduler timeout_ms id w).1.calls
            ≡ listed_connections d.user_id ∷ looked_up_user d.user_id ∷ w.calls)
  unfolding process_job execute_via_transport now active_references port attempt to_domain ◌>>=◌
  listing_failure_strands_job scheduler timeout_ms id w d e at_d pending up admitted bound fails =
      let time = (p.clock w.env).0 in
      let (found, left) = gathering-row id time w.store d at_d pending in
      let v : World c.Store p.Env = record w {
        store = (claim_for_gathering c id time w.store).1;
        env = (p.driver (p.clock w.env).1).1;
      } in
      let passed = (assert-result c p d.user_id v).0 admitted in
      rw
        (
          query_answers c p (claim_for_gathering c id time) (record w { env = (p.clock w.env).1 })
              up,
          found,
          passed,
          assert-world c p d.user_id v,
          bound,
          fails,
        )
        (refl, left, refl)
