-- ===== src/Context/Claimed/Ends.antt =====
-- The planning phase always ends the job.
use memoflow_api.Prelude.{String, ◌≡◌, refl, ap, true, Option, none, some}
use memoflow_api.Exec.{Result, ok, err, pure, ◌>>=◌}
use memoflow_api.Exec.Returns.{
  Returns, Total, Returns-pure, Total-pure, Total-attempt, Returns-bind, Returns-mono,
}
use memoflow_api.Context.Json.{Fields}
use memoflow_api.Context.Job.{PlanningJob, is_finished}
use memoflow_api.Context.Collection.{Collection}
use memoflow_api.Context.Repository.{
  UpdatePlanningJobStatusData, update_status, to_domain, to_update_doc,
}
use memoflow_api.Context.Repository.Races.{update_wins}
use memoflow_api.Context.Ports.{
  Ports, World, query, run_query, now, ResolvedPlanningPrompt, PreparedPlanningContext,
  ValidatedPlanningResult,
}
use memoflow_api.Context.Claimed.{
  plan_prepared, plan_with_prompt, try_planning, record_outcome, run_claimed_planning, or_else,
  failed_patch, completed_patch, failed_job, completed_job,
}

-- The database driver answers every query.
abbrev pub IsUp : Ports → Type 0
IsUp p = (e : p.Env) → (p.driver e).0 ≡ ok tt

module _ (c : Collection) (p : Ports) (up : IsUp p) where
  module _ {A : Type 0} {Q : A → Type 0} where
    pub Returns-query :
        (f : c.Store → A × c.Store) → ((s : c.Store) → Q (f s).0) → Returns Q (query c p f)
    unfolding query
    Returns-query f q = record {
      at = λ w.
          let answered = up w.env in
          ((f w.store).0, ran (p.driver w.env).0 (p.driver w.env).1 w answered, q w.store);
    }
      where
        ran :
            (r : Result (Unit {0})) (env : p.Env) (w : World c.Store p.Env)
            → r ≡ ok tt
            → (run_query c p f (r, env) w).0 ≡ ok (f w.store).0
        ran (ok u) env w h = refl
        ran (err e) env w h = cc

  pub Total-now : Total (now c p)
  unfolding now
  Total-now = record { at = λ w. ((p.clock w.env).0, refl, tt) }

  -- What an update answers has the status of its patch.
  pub update_status-status :
      (id : String) (patch : UpdatePlanningJobStatusData) (s : c.Store) (job : PlanningJob)
      → (update_status c id patch s).0 ≡ some job
      → job.status ≡ patch.status
  unfolding update_status to_domain to_update_doc
  update_status-status id patch s job h =
      let (d, at_d, ok_d, is_job, at_t) = update_wins c s id _ _ job h in
      ap (λ (j : PlanningJob). j.status) is_job

  module _ (builtin : ResolvedPlanningPrompt) where
    plan_prepared-Total :
        (resolved : ResolvedPlanningPrompt) (claimed : PlanningJob) (context : Fields)
        (r : Result PreparedPlanningContext)
        → Total (plan_prepared c p builtin resolved claimed context r)
    plan_prepared-Total resolved claimed context (err e) = Total-pure _
    plan_prepared-Total resolved claimed context (ok prepared) =
        Returns-bind _ _ (Total-attempt _) (λ r _. Total-pure _)

    plan_with_prompt-Total :
        (claimed : PlanningJob) (context : Fields) (r : Result ResolvedPlanningPrompt)
        → Total (plan_with_prompt c p builtin claimed context r)
    plan_with_prompt-Total claimed context (err e) = Total-pure _
    plan_with_prompt-Total claimed context (ok resolved) =
        Returns-bind _ _ (Total-attempt _) (λ r _. plan_prepared-Total resolved claimed context r)

    try_planning-Total :
        (claimed : PlanningJob) (context : Fields)
        → Total (try_planning c p builtin claimed context)
    unfolding try_planning
    try_planning-Total claimed context =
        Returns-bind _ _ (Total-attempt _) (λ r _. plan_with_prompt-Total claimed context r)

    -- The answer of an update, or the job built in memory, has the patch's status.
    updated-status :
        (id : String) (patch : UpdatePlanningJobStatusData) (fallback : PlanningJob)
        → fallback.status ≡ patch.status
        → Returns
            (λ (j : PlanningJob). j.status ≡ patch.status)
            (query c p (update_status c id patch) >>= λ updated. pure (or_else updated fallback))
    updated-status id patch fallback same =
        Returns-bind {P = λ o. (j : PlanningJob) → o ≡ some j → j.status ≡ patch.status} _ _
          (Returns-query _ (λ s j h. update_status-status id patch s j h))
          (λ o q. Returns-pure _ (of_answer o q))
      where
        of_answer :
            (o : Option PlanningJob)
            → ((j : PlanningJob) → o ≡ some j → j.status ≡ patch.status)
            → (or_else o fallback).status ≡ patch.status
        of_answer none q = same
        of_answer (some j) q = q j refl

    record_outcome-ends :
        (claimed : PlanningJob) (version : Option String) (context : Fields)
        (r : Result ValidatedPlanningResult)
        → Returns
            (λ (j : PlanningJob). is_finished j.status ≡ true)
            (record_outcome c p builtin claimed version context r)
    unfolding failed_job completed_job failed_patch completed_patch
    record_outcome-ends claimed version context (err e) =
        Returns-bind _ _ Total-now
          (λ time _. Returns-mono _ (updated-status claimed.id _ _ refl) (λ j h. rw h refl))
    record_outcome-ends claimed version context (ok r) =
        Returns-bind _ _ Total-now
          (λ time _. Returns-mono _ (updated-status claimed.id _ _ refl) (λ j h. rw h refl))

    -- With a database that answers, planning a claimed job returns a completed or failed job, whatever the
    -- prompt lookup, the user lookups, retrieval and the planner return or throw.
    pub run_claimed_planning-ends :
        (claimed : PlanningJob) (context : Fields) (w : World c.Store p.Env)
        → (j : PlanningJob) × ((run_claimed_planning c p builtin claimed context w).0 ≡ ok j)
          × (is_finished j.status ≡ true)
    unfolding run_claimed_planning
    run_claimed_planning-ends claimed context w =
        (Returns-bind _ _ (try_planning-Total claimed context)
            (λ a _. record_outcome-ends claimed a.prompt_version a.context_used a.result)).at
          w
