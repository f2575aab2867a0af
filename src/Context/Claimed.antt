-- ===== src/Context/Claimed.antt =====
-- application/context/run-claimed-planning.ts: the planning phase of a job that is in `planning`.
-- The locals that the code sets inside its `try` are the fields of `Attempted`.
pub mod Ends
pub mod Consent
use memoflow_api.Prelude.{ℕ, String, Bool, true, false, Option, none, some, List, [], ◌∷◌}
use memoflow_api.Text.{Text, units}
use memoflow_api.Exec.{Exec, Result, ok, err, pure, attempt, ◌>>=◌, ◌>>◌}
use memoflow_api.Exec.Errors.{Failure}
use memoflow_api.Context.Json.{Json, Items, Fields, str, arr, obj, nil, cons, end, field}
use memoflow_api.Context.Job.{PlanningJob, completed, failed}
use memoflow_api.Context.Collection.{Collection}
use memoflow_api.Context.Repository.{UpdatePlanningJobStatusData, update_status}
use memoflow_api.Context.Ports.{
  Ports, M, port, query, now, ResolvedPlanningPrompt, PreparedPlanningContext,
  ValidatedPlanningResult, CitedSource, PlanningSourceType, section, connector, prepared_for,
  planned_for,
}
use memoflow_api.Context.Prompt.{
  assert_job_user_active, resolve_planning_prompt, safe_failure_message, failure_error_code,
}

abbrev pub source_type : PlanningSourceType → Json
source_type section = str (units "section")
source_type connector = str (units "connector")

abbrev pub texts : List Text → Items
texts [] = nil
texts (t ∷ ts) = cons (str t) (texts ts)

abbrev pub cited : List CitedSource → Items
cited [] = nil
cited (s ∷ ss) =
    cons
      (obj (
        field "id" (str s.id)
          (field "type" (source_type s.type) (field "title" (str s.title) end))))
      (cited ss)

abbrev pub outline_field : Option Json → Fields → Fields
outline_field none rest = rest
outline_field (some v) rest = field "outline" v rest

-- `const { model, ...resultFields } = result`
unfoldable pub result_doc : ValidatedPlanningResult → Fields
result_doc r =
    field "suggestions" (arr (texts r.suggestions))
      (outline_field r.outline (field "sources" (arr (cited r.sources)) end))

-- What the `try` block leaves behind.
pub record Attempted : Type 0 where
  pub prompt_version : Option String
  pub context_used : Fields
  pub result : Result ValidatedPlanningResult

-- `updated ?? fallback`
abbrev pub or_else {ℓ} : {A : Type ℓ} → Option A → A → A
or_else none d = d
or_else (some a) d = a

-- The patch of a run that threw.
unfoldable pub failed_patch :
    Failure → Option String → Fields → Option ℕ → UpdatePlanningJobStatusData
failed_patch e version context time = record {
  status = failed;
  result = none;
  error_code = some (some (failure_error_code e));
  error_message = some (some (safe_failure_message e));
  started_at = none;
  finished_at = some time;
  prompt_version = some version;
  model = none;
  context_used = some (some context);
}

-- The patch of a run that returned.
unfoldable pub completed_patch :
    ValidatedPlanningResult → Option String → Fields → Option ℕ → UpdatePlanningJobStatusData
completed_patch r version context time = record {
  status = completed;
  result = some (some (result_doc r));
  error_code = none;
  error_message = none;
  started_at = none;
  finished_at = some time;
  prompt_version = some version;
  model = some r.model;
  context_used = some (some context);
}

unfoldable pub failed_job : Failure → Option String → Fields → PlanningJob → PlanningJob
failed_job e version context claimed = record claimed {
  status = failed;
  error_code = some (failure_error_code e);
  error_message = some (safe_failure_message e);
  prompt_version = version;
  context_used = some context;
}

unfoldable pub completed_job :
    ValidatedPlanningResult → Option String → Fields → PlanningJob → PlanningJob
completed_job r version context claimed = record claimed {
  status = completed;
  result = some (result_doc r);
  prompt_version = version;
  model = r.model;
  context_used = some context;
}

module _ (c : Collection) (p : Ports) (builtin : ResolvedPlanningPrompt) where
  -- The end of the `try` block: the second check of the user, and the provider call.
  abbrev pub plan_prepared :
      ResolvedPlanningPrompt
      → PlanningJob
      → Fields
      → Result PreparedPlanningContext
      → M c p Attempted
  plan_prepared resolved claimed context (err e) =
      pure (record {
        prompt_version = resolved.prompt_version;
        context_used = context;
        result = err e;
      })
  plan_prepared resolved claimed context (ok prepared) = do
    result ← attempt (
        assert_job_user_active c p claimed.user_id
        >> port c p (planned_for claimed.user_id) (p.plan resolved claimed prepared))
    pure (record {
      prompt_version = resolved.prompt_version;
      context_used = prepared.context_used;
      result = result;
    })

  -- Its middle: the first check of the user, and retrieval.
  abbrev pub plan_with_prompt :
      PlanningJob → Fields → Result ResolvedPlanningPrompt → M c p Attempted
  plan_with_prompt claimed context (err e) =
      pure (record { prompt_version = none; context_used = context; result = err e })
  plan_with_prompt claimed context (ok resolved) = do
    prepared ← attempt (
        assert_job_user_active c p claimed.user_id
        >> port c p (prepared_for claimed.user_id) (p.prepare claimed context))
    plan_prepared resolved claimed context prepared

  unfoldable pub try_planning : PlanningJob → Fields → M c p Attempted
  try_planning claimed context = do
    resolved ← attempt (resolve_planning_prompt c p builtin)
    plan_with_prompt claimed context resolved

  -- The `catch` block, and what follows the `try` when nothing was thrown.
  abbrev pub record_outcome :
      PlanningJob → Option String → Fields → Result ValidatedPlanningResult → M c p PlanningJob
  record_outcome claimed version context (err e) = do
    time ← now c p
    updated ← query c p (update_status c claimed.id (failed_patch e version context (some time)))
    pure (or_else updated (failed_job e version context claimed))
  record_outcome claimed version context (ok r) = do
    time ← now c p
    updated ← query c p (update_status c claimed.id (completed_patch r version context (some time)))
    pure (or_else updated (completed_job r version context claimed))

  unfoldable pub run_claimed_planning : PlanningJob → Fields → M c p PlanningJob
  run_claimed_planning claimed context = do
    a ← try_planning claimed context
    record_outcome claimed a.prompt_version a.context_used a.result
