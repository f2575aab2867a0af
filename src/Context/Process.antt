-- ===== src/Context/Process.antt =====
-- application/context/process-planning-job.use-case.ts, and
-- domain/context/resolve-connector-references.ts.
pub mod Stranded
use memoflow_api.Prelude.{
  ℕ, String, Bool, true, false, Option, none, some, List, [], ◌∷◌, ◌==◌, if◌then◌else◌,
}
use memoflow_api.Exec.{Exec, Result, ok, err, pure, throw, attempt, ◌>>=◌, ◌>>◌}
use memoflow_api.Exec.Errors.{not_found}
use memoflow_api.Context.Json.{Fields, end}
use memoflow_api.Context.Job.{PlanningJob, completed, failed}
use memoflow_api.Context.Collection.{Collection}
use memoflow_api.Context.Repository.{
  UpdatePlanningJobStatusData, find_by_id, claim_for_processing, claim_for_gathering,
  claim_for_planning, update_status,
}
use memoflow_api.Context.Ports.{
  Ports, M, port, query, read, now, ResolvedPlanningPrompt, PreparedPlanningContext,
  ValidatedPlanningResult, ConnectorConnection, ConnectorMcpReference, GatherRequestInput,
  GatherInput, asked_gatherer, prepared_for, planned_for, published, set_timeout,
  listed_connections,
}
use memoflow_api.Context.Prompt.{
  assert_job_user_active, resolve_planning_prompt, safe_failure_message, failure_error_code,
}
use memoflow_api.Context.Claimed.{run_claimed_planning, result_doc, or_else}

abbrev pub default_gather_timeout_ms : ℕ
default_gather_timeout_ms = 120000

abbrev pub publish_failed_message : String
publish_failed_message = "Failed to publish context gather request"

abbrev pub publish_failed_code : String
publish_failed_code = "CONTEXT_ENGINE_PUBLISH_FAILED"

pub record ProcessPlanningJobResult : Type 0 where
  pub processed : Bool
  pub job : PlanningJob

abbrev done : Bool → PlanningJob → ProcessPlanningJobResult
done processed job = record { processed = processed; job = job }

-- `active.find((c) => c.provider === connector)`
unfoldable pub find_provider : String → List ConnectorConnection → Option ConnectorConnection
find_provider name [] = none
find_provider name (r ∷ rs) = if r.provider == name then some r else find_provider name rs

-- A row without an account id, or with an empty one, gives no reference.
abbrev pub account : ConnectorConnection → Option String → Option ConnectorMcpReference
account r none = none
account r (some id) =
    if id == ""
    then none
    else some (record { provider = r.provider; mcp_url = none; composio_account_id = id })

abbrev pub reference : Option ConnectorConnection → Option ConnectorMcpReference
reference none = none
reference (some r) = account r r.composio_account_id

abbrev pub add_reference :
    Option ConnectorMcpReference → List ConnectorMcpReference → List ConnectorMcpReference
add_reference none refs = refs
add_reference (some r) refs = r ∷ refs

unfoldable pub references : List String → List ConnectorConnection → List ConnectorMcpReference
unfolding find_provider
references [] active = []
references (name ∷ names) active =
    add_reference (reference (find_provider name active)) (references names active)

-- What a job that failed outside planning records: a status, a code, a message and a time.
unfoldable pub failure_patch :
    String
    → String
    → Option ℕ
    → Option (Option String)
    → Option (Option Fields)
    → UpdatePlanningJobStatusData
failure_patch code message time version context = record {
  status = failed;
  result = none;
  error_code = some (some code);
  error_message = some (some message);
  started_at = none;
  finished_at = some time;
  prompt_version = version;
  model = none;
  context_used = context;
}

-- `{ ...claimed, status: JobStatus.Failed, errorCode, errorMessage }`
abbrev pub with_failure : String → String → PlanningJob → PlanningJob
with_failure code message job = record job {
  status = failed;
  error_code = some code;
  error_message = some message;
}

-- What the `try` block of the in-process path leaves behind.
pub record LegacyAttempt : Type 0 where
  pub context : Option Fields
  pub result : Result ValidatedPlanningResult

module _ (c : Collection) (p : Ports) (builtin : ResolvedPlanningPrompt) where
  abbrev pub existing_job : String → Option PlanningJob → M c p ProcessPlanningJobResult
  existing_job id none = throw (not_found "Planning job " id)
  existing_job id (some job) = pure (done false job)

  -- Not claimable: missing, or nothing left to do.
  unfoldable pub not_claimed : String → M c p ProcessPlanningJobResult
  not_claimed id = do existing ← read c p (find_by_id c id); existing_job id existing

  abbrev pub plan_gathered :
      ResolvedPlanningPrompt → PlanningJob → Result PreparedPlanningContext → M c p LegacyAttempt
  plan_gathered resolved claimed (err e) = pure (record { context = none; result = err e })
  plan_gathered resolved claimed (ok prepared) = do
    result ← attempt (
        assert_job_user_active c p claimed.user_id
        >> port c p (planned_for claimed.user_id) (p.plan resolved claimed prepared))
    pure (record { context = some prepared.context_used; result = result })

  unfoldable pub gather_and_prepare : PlanningJob → M c p PreparedPlanningContext
  gather_and_prepare claimed = do
    assert_job_user_active c p claimed.user_id
    let request : GatherInput = record {
      user_id = claimed.user_id;
      connectors = claimed.connectors;
      prompt = claimed.prompt;
    }
    gathered ← port c p (asked_gatherer request) (p.gather request)
    port c p (prepared_for claimed.user_id) (p.prepare claimed gathered)

  abbrev pub record_legacy :
      PlanningJob
      → Option String
      → Option Fields
      → Result ValidatedPlanningResult
      → M c p ProcessPlanningJobResult
  record_legacy claimed version context (err e) = do
    time ← now c p
    updated ← query c p (
        update_status c claimed.id (
          failure_patch (failure_error_code e) (safe_failure_message e) (some time) (some version)
            (some context)))
    pure (
        done true (
          or_else updated (record claimed {
            status = failed;
            error_code = some (failure_error_code e);
            error_message = some (safe_failure_message e);
            prompt_version = version;
            context_used = context;
          })))
  record_legacy claimed version context (ok r) = do
    time ← now c p
    updated ← query c p (
        update_status c claimed.id (record {
          status = completed;
          result = some (some (result_doc r));
          error_code = none;
          error_message = none;
          started_at = none;
          finished_at = some (some time);
          prompt_version = some version;
          model = some r.model;
          context_used = some context;
        }))
    pure (
        done true (
          or_else updated (record claimed {
            status = completed;
            result = some (result_doc r);
            prompt_version = version;
            model = r.model;
            context_used = context;
          })))

  abbrev pub run_legacy : String → Option PlanningJob → M c p ProcessPlanningJobResult
  run_legacy id none = not_claimed id
  run_legacy id (some claimed) = do
    resolved ← resolve_planning_prompt c p builtin
    prepared ← attempt (gather_and_prepare claimed)
    a ← plan_gathered resolved claimed prepared
    record_legacy claimed resolved.prompt_version a.context a.result

  unfoldable pub execute_legacy : String → M c p ProcessPlanningJobResult
  execute_legacy id = do
    time ← now c p
    claimed ← query c p (claim_for_processing c id time)
    run_legacy id claimed

  abbrev pub fail_job : PlanningJob → String → String → M c p ProcessPlanningJobResult
  fail_job claimed code message = do
    time ← now c p
    updated ←
        query c p (update_status c claimed.id (failure_patch code message (some time) none none))
    pure (done true (or_else updated (with_failure code message claimed)))

  -- Nothing to gather: the planning phase runs here.
  abbrev pub plan_now : PlanningJob → Option PlanningJob → M c p ProcessPlanningJobResult
  plan_now claimed none = do
    existing ← read c p (find_by_id c claimed.id)
    pure (done false (or_else existing claimed))
  plan_now claimed (some planning) = do
    finished ← run_claimed_planning c p builtin planning end
    pure (done true finished)

  -- `timeout_ms` is the injected `GATHER_TIMEOUT_MS`, `scheduler` whether a scheduler is bound.
  abbrev pub after_publish :
      Bool → Option ℕ → PlanningJob → Result (Unit {0}) → M c p ProcessPlanningJobResult
  after_publish scheduler timeout_ms claimed (err e) =
      fail_job claimed publish_failed_code publish_failed_message
  after_publish scheduler timeout_ms claimed (ok sent) =
      if scheduler
      then (do
        port c p (set_timeout claimed.id (or_else timeout_ms default_gather_timeout_ms))
            (p.schedule_timeout claimed.id (or_else timeout_ms default_gather_timeout_ms))
        pure (done true claimed))
      else pure (done true claimed)

  abbrev pub gather_from :
      Bool → Option ℕ → PlanningJob → List ConnectorMcpReference → M c p ProcessPlanningJobResult
  gather_from scheduler timeout_ms claimed [] = do
    planning ← query c p (claim_for_planning c claimed.id end)
    plan_now claimed planning
  gather_from scheduler timeout_ms claimed (r ∷ rs) = do
    time ← now c p
    let request : GatherRequestInput = record {
      job_id = claimed.id;
      user_id = claimed.user_id;
      prompt = claimed.prompt;
      connectors = r ∷ rs;
      requested_at = time;
    }
    sent ← attempt (port c p (published request) (p.publish_gather_request request))
    after_publish scheduler timeout_ms claimed sent

  unfoldable pub active_references : String → List String → M c p (List ConnectorMcpReference)
  active_references user_id requested =
      if p.has_connections
      then (do
        active ← port c p (listed_connections user_id) (p.find_active_by_user user_id)
        pure (references requested active))
      else pure []

  abbrev pub start_gathering :
      Bool → Option ℕ → PlanningJob → Result (Unit {0}) → M c p ProcessPlanningJobResult
  start_gathering scheduler timeout_ms claimed (err e) =
      fail_job claimed (failure_error_code e) (safe_failure_message e)
  start_gathering scheduler timeout_ms claimed (ok active) = do
    refs ← active_references claimed.user_id claimed.connectors
    gather_from scheduler timeout_ms claimed refs

  abbrev pub run_transport :
      Bool → Option ℕ → String → Option PlanningJob → M c p ProcessPlanningJobResult
  run_transport scheduler timeout_ms id none = not_claimed id
  run_transport scheduler timeout_ms id (some claimed) = do
    active ← attempt (assert_job_user_active c p claimed.user_id)
    start_gathering scheduler timeout_ms claimed active

  unfoldable pub execute_via_transport : Bool → Option ℕ → String → M c p ProcessPlanningJobResult
  execute_via_transport scheduler timeout_ms id = do
    time ← now c p
    claimed ← query c p (claim_for_gathering c id time)
    run_transport scheduler timeout_ms id claimed

  -- `transport` is whether a publisher is bound.
  unfoldable pub process_job : Bool → Bool → Option ℕ → String → M c p ProcessPlanningJobResult
  process_job transport scheduler timeout_ms id =
      if transport then execute_via_transport scheduler timeout_ms id else execute_legacy id
