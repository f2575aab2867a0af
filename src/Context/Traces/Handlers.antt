-- ===== src/Context/Traces/Handlers.antt =====
-- Every handler moves the collection by the repository's atomic steps.
use memoflow_api.Prelude.{ℕ, String, refl, Option, none, some}
use memoflow_api.Exec.{Result, ok, err}
use memoflow_api.Exec.Errors.{Failure}
use memoflow_api.Users.{User}
use memoflow_api.Context.Json.{Fields}
use memoflow_api.Context.Job.{PlanningJob}
use memoflow_api.Context.Collection.{Collection}
use memoflow_api.Context.Repository.Changes.{IsVerdict}
use memoflow_api.Context.Ports.{Ports, ResolvedPlanningPrompt}
use memoflow_api.Context.Prompt.{check_user, assert_job_user_active, resolve_planning_prompt}
use memoflow_api.Context.Claimed.{
  plan_prepared, plan_with_prompt, try_planning, record_outcome, run_claimed_planning, failed_patch,
  completed_patch,
}
use memoflow_api.Context.Timeout.{handle_timeout, on_timeout}
use memoflow_api.Context.Process.{failure_patch}
use memoflow_api.Context.ResultChunk
use memoflow_api.Context.ResultChunk.{handle_chunk}
use memoflow_api.Context.Chunk.{
  ChunkBody, data_body, status_body, ChunkStatus, ChunkPhase, ContextResultChunk,
}
use memoflow_api.Context.Chunk
use memoflow_api.Context.Traces.{Stepwise, stepwise_rules, Moves}
use memoflow_api.Context.Ports.{PreparedPlanningContext, ValidatedPlanningResult}

pub failed_patch-IsVerdict :
    (e : Failure) (version : Option String) (context : Fields) (time : ℕ)
    → IsVerdict (failed_patch e version context (some time))
unfolding failed_patch
failed_patch-IsVerdict e version context time = record {
  finished = refl;
  with_result = λ h. cc;
  with_reason = λ h. (_, _, refl, refl);
  at_time = (time, refl);
}

module _ (c : Collection) (p : Ports) where
  check_user-Stepwise : (o : Option User) → Stepwise c p (check_user c p o)
  check_user-Stepwise none = search stepwise_rules
  check_user-Stepwise (some u) = search stepwise_rules

  pub assert_job_user_active-Stepwise : (id : String) → Stepwise c p (assert_job_user_active c p id)
  unfolding assert_job_user_active
  assert_job_user_active-Stepwise id = search (stepwise_rules, check_user-Stepwise)

  pub resolve_planning_prompt-Stepwise :
      (b : ResolvedPlanningPrompt) → Stepwise c p (resolve_planning_prompt c p b)
  unfolding resolve_planning_prompt
  resolve_planning_prompt-Stepwise b = search stepwise_rules

pub completed_patch-IsVerdict :
    (r : ValidatedPlanningResult) (version : Option String) (context : Fields) (time : ℕ)
    → IsVerdict (completed_patch r version context (some time))
unfolding completed_patch
completed_patch-IsVerdict r version context time = record {
  finished = refl;
  with_result = λ h. (_, refl);
  with_reason = λ h. cc;
  at_time = (time, refl);
}

pub failure_patch-IsVerdict :
    (code message : String) (time : ℕ) (version : Option (Option String))
    (context : Option (Option Fields))
    → IsVerdict (failure_patch code message (some time) version context)
unfolding failure_patch
failure_patch-IsVerdict code message time version context = record {
  finished = refl;
  with_result = λ h. cc;
  with_reason = λ h. (_, _, refl, refl);
  at_time = (time, refl);
}

pub ruleset user_rules = (
  stepwise_rules, assert_job_user_active-Stepwise, resolve_planning_prompt-Stepwise,
  failed_patch-IsVerdict, completed_patch-IsVerdict, failure_patch-IsVerdict,
)

module _ (c : Collection) (p : Ports) (b : ResolvedPlanningPrompt) where
  plan_prepared-Stepwise :
      (resolved : ResolvedPlanningPrompt) (claimed : PlanningJob) (context : Fields)
      (r : Result PreparedPlanningContext)
      → Stepwise c p (plan_prepared c p b resolved claimed context r)
  plan_prepared-Stepwise resolved claimed context (err e) = search user_rules
  plan_prepared-Stepwise resolved claimed context (ok prepared) = search user_rules

  plan_with_prompt-Stepwise :
      (claimed : PlanningJob) (context : Fields) (r : Result ResolvedPlanningPrompt)
      → Stepwise c p (plan_with_prompt c p b claimed context r)
  plan_with_prompt-Stepwise claimed context (err e) = search user_rules
  plan_with_prompt-Stepwise claimed context (ok resolved) =
      search (user_rules, plan_prepared-Stepwise)

  record_outcome-Stepwise :
      (claimed : PlanningJob) (version : Option String) (context : Fields)
      (r : Result ValidatedPlanningResult)
      → Stepwise c p (record_outcome c p b claimed version context r)
  record_outcome-Stepwise claimed version context (err e) = search user_rules
  record_outcome-Stepwise claimed version context (ok r) = search user_rules

  pub run_claimed_planning-Stepwise :
      (claimed : PlanningJob) (context : Fields)
      → Stepwise c p (run_claimed_planning c p b claimed context)
  unfolding run_claimed_planning try_planning
  run_claimed_planning-Stepwise claimed context =
      search (user_rules, plan_with_prompt-Stepwise, record_outcome-Stepwise)

  pub handle_timeout-Stepwise : (id : String) → Stepwise c p (handle_timeout c p id)
  unfolding handle_timeout
  handle_timeout-Stepwise id = search (stepwise_rules, on_timeout-Stepwise)
    where
      on_timeout-Stepwise : (o : Option PlanningJob) → Stepwise c p (on_timeout c p id o)
      on_timeout-Stepwise none = search stepwise_rules
      on_timeout-Stepwise (some job) = search stepwise_rules

  pub plan_claimed-Stepwise :
      (context : Fields) (o : Option PlanningJob)
      → Stepwise c p (ResultChunk.plan_claimed c p b context o)
  plan_claimed-Stepwise context none = search stepwise_rules
  plan_claimed-Stepwise context (some job) = search (stepwise_rules, run_claimed_planning-Stepwise)

  finalize_completed-Stepwise :
      (job : PlanningJob) → Stepwise c p (ResultChunk.finalize_completed c p b job)
  unfolding ResultChunk.finalize_completed
  finalize_completed-Stepwise job = search (stepwise_rules, plan_claimed-Stepwise)

  finalize_failed-Stepwise :
      (job : PlanningJob) (s : ChunkStatus) → Stepwise c p (ResultChunk.finalize_failed c p b job s)
  unfolding ResultChunk.finalize_failed
  finalize_failed-Stepwise job s = search stepwise_rules

  pub finalize-Stepwise :
      (phase : ChunkPhase) (s : ChunkStatus) (job : PlanningJob)
      → Stepwise c p (ResultChunk.finalize c p b phase s job)
  finalize-Stepwise Chunk.completed s job = finalize_completed-Stepwise job
  finalize-Stepwise _ s job = finalize_failed-Stepwise job s

  pub after_append-Stepwise :
      (body : ChunkBody) (job : PlanningJob)
      → Stepwise c p (ResultChunk.after_append c p b body job)
  after_append-Stepwise (data_body d) job = search stepwise_rules
  after_append-Stepwise (status_body s) job = search (stepwise_rules, finalize-Stepwise)

  on_job-Stepwise :
      (chunk : ContextResultChunk) (o : Option PlanningJob)
      → Stepwise c p (ResultChunk.on_job c p b chunk o)
  on_job-Stepwise chunk none = search stepwise_rules
  on_job-Stepwise chunk (some job) = search (stepwise_rules, after_append-Stepwise)

  pub handle_chunk-Stepwise : (chunk : ContextResultChunk) → Stepwise c p (handle_chunk c p b chunk)
  unfolding handle_chunk
  handle_chunk-Stepwise chunk = search (stepwise_rules, on_job-Stepwise)
