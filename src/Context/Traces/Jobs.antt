-- ===== src/Context/Traces/Jobs.antt =====
-- Processing and submission move the collection by the repository's atomic steps.
use memoflow_api.Prelude.{
  ℕ, String, Bool, true, false, refl, Option, none, some, List, [], ◌∷◌, if◌then◌else◌,
}
use memoflow_api.Exec.{Result, ok, err, pure, attempt, ◌>>=◌}
use memoflow_api.Context.Json.{Fields}
use memoflow_api.Context.Job.{PlanningJob, completed}
use memoflow_api.Context.Collection.{Collection}
use memoflow_api.Context.Repository.Changes.{IsVerdict}
use memoflow_api.Context.Ports.{Ports, port, ResolvedPlanningPrompt}
use memoflow_api.Context.Process
use memoflow_api.Context.Process.{failure_patch, process_job}
use memoflow_api.Context.Submit
use memoflow_api.Context.Submit.{submit_job}
use memoflow_api.Context.Traces.{Stepwise, stepwise_rules}
use memoflow_api.Context.Ports.{
  PreparedPlanningContext, ValidatedPlanningResult, ConnectorMcpReference, Document, Section,
  checked_quota,
}
use memoflow_api.Context.Claimed.{result_doc}
use memoflow_api.Context.Traces.Handlers.{
  user_rules, failure_patch-IsVerdict, run_claimed_planning-Stepwise,
}

module _ (c : Collection) (p : Ports) (b : ResolvedPlanningPrompt) where
  not_claimed-Stepwise : (id : String) → Stepwise c p (Process.not_claimed c p b id)
  unfolding Process.not_claimed
  not_claimed-Stepwise id = search (stepwise_rules, existing_job-Stepwise)
    where
      existing_job-Stepwise :
          (i : String) (o : Option PlanningJob) → Stepwise c p (Process.existing_job c p b i o)
      existing_job-Stepwise i none = search stepwise_rules
      existing_job-Stepwise i (some job) = search stepwise_rules

  plan_gathered-Stepwise :
      (resolved : ResolvedPlanningPrompt) (claimed : PlanningJob)
      (r : Result PreparedPlanningContext)
      → Stepwise c p (Process.plan_gathered c p b resolved claimed r)
  plan_gathered-Stepwise resolved claimed (err e) = search stepwise_rules
  plan_gathered-Stepwise resolved claimed (ok prepared) = search user_rules

  gather_and_prepare-Stepwise :
      (claimed : PlanningJob) → Stepwise c p (Process.gather_and_prepare c p b claimed)
  unfolding Process.gather_and_prepare
  gather_and_prepare-Stepwise claimed = search user_rules

  legacy_patch-IsVerdict :
      (r : ValidatedPlanningResult) (version : Option String) (context : Option Fields) (time : ℕ)
      → IsVerdict (record {
        status = completed;
        result = some (some (result_doc r));
        error_code = none;
        error_message = none;
        started_at = none;
        finished_at = some (some time);
        prompt_version = some version;
        model = some r.model;
        context_used = some context;
      })
  legacy_patch-IsVerdict r version context time = record {
    finished = refl;
    with_result = λ h. (_, refl);
    with_reason = λ h. cc;
    at_time = (time, refl);
  }

  record_legacy-Stepwise :
      (claimed : PlanningJob) (version : Option String) (context : Option Fields)
      (r : Result ValidatedPlanningResult)
      → Stepwise c p (Process.record_legacy c p b claimed version context r)
  record_legacy-Stepwise claimed version context (err e) = search user_rules
  record_legacy-Stepwise claimed version context (ok r) =
      search (user_rules, legacy_patch-IsVerdict)

  run_legacy-Stepwise :
      (id : String) (o : Option PlanningJob) → Stepwise c p (Process.run_legacy c p b id o)
  run_legacy-Stepwise id none = not_claimed-Stepwise id
  run_legacy-Stepwise id (some claimed) =
      search
        (user_rules, gather_and_prepare-Stepwise, plan_gathered-Stepwise, record_legacy-Stepwise)

  execute_legacy-Stepwise : (id : String) → Stepwise c p (Process.execute_legacy c p b id)
  unfolding Process.execute_legacy
  execute_legacy-Stepwise id = search (stepwise_rules, run_legacy-Stepwise)

  plan_now-Stepwise :
      (claimed : PlanningJob) (o : Option PlanningJob)
      → Stepwise c p (Process.plan_now c p b claimed o)
  plan_now-Stepwise claimed none = search stepwise_rules
  plan_now-Stepwise claimed (some job) = search (stepwise_rules, run_claimed_planning-Stepwise)

  module _ (scheduler : Bool) (timeout_ms : Option ℕ) where
    after_publish-Stepwise :
        (claimed : PlanningJob) (r : Result (Unit {0}))
        → Stepwise c p (Process.after_publish c p b scheduler timeout_ms claimed r)
    after_publish-Stepwise claimed (err e) = search user_rules
    after_publish-Stepwise claimed (ok sent) = search stepwise_rules

    gather_from-Stepwise :
        (claimed : PlanningJob) (rs : List ConnectorMcpReference)
        → Stepwise c p (Process.gather_from c p b scheduler timeout_ms claimed rs)
    gather_from-Stepwise claimed [] = search (stepwise_rules, plan_now-Stepwise)
    gather_from-Stepwise claimed (r ∷ rs) = search (stepwise_rules, after_publish-Stepwise)

    active_references-Stepwise :
        (user_id : String) (names : List String)
        → Stepwise c p (Process.active_references c p b user_id names)
    unfolding Process.active_references
    active_references-Stepwise user_id names = search stepwise_rules

    start_gathering-Stepwise :
        (claimed : PlanningJob) (r : Result (Unit {0}))
        → Stepwise c p (Process.start_gathering c p b scheduler timeout_ms claimed r)
    start_gathering-Stepwise claimed (err e) = search user_rules
    start_gathering-Stepwise claimed (ok u) =
        search (stepwise_rules, active_references-Stepwise, gather_from-Stepwise)

    run_transport-Stepwise :
        (id : String) (o : Option PlanningJob)
        → Stepwise c p (Process.run_transport c p b scheduler timeout_ms id o)
    run_transport-Stepwise id none = not_claimed-Stepwise id
    run_transport-Stepwise id (some claimed) = search (user_rules, start_gathering-Stepwise)

    execute_via_transport-Stepwise :
        (id : String) → Stepwise c p (Process.execute_via_transport c p b scheduler timeout_ms id)
    unfolding Process.execute_via_transport
    execute_via_transport-Stepwise id = search (stepwise_rules, run_transport-Stepwise)

    pub process_job-Stepwise :
        (transport : Bool) (id : String)
        → Stepwise c p (process_job c p b transport scheduler timeout_ms id)
    unfolding process_job
    process_job-Stepwise true id = execute_via_transport-Stepwise id
    process_job-Stepwise false id = execute_legacy-Stepwise id

module _ (c : Collection) (p : Ports) where
  check_document-Stepwise :
      (user_id : String) (o : Option String) → Stepwise c p (Submit.check_document c p user_id o)
  check_document-Stepwise user_id none = search stepwise_rules
  check_document-Stepwise user_id (some id) = search (stepwise_rules, check_owner-Stepwise)
    where
      check_owner-Stepwise :
          (o : Option Document) → Stepwise c p (Submit.check_owner c p user_id id o)
      check_owner-Stepwise none = search stepwise_rules
      check_owner-Stepwise (some d) = search stepwise_rules

  document_of-Stepwise :
      (id : String) (o : Option String) (s : Option Section)
      → Stepwise c p (Submit.document_of c p id o s)
  document_of-Stepwise id none none = search stepwise_rules
  document_of-Stepwise id (some d) none = search stepwise_rules
  document_of-Stepwise id none (some s) = search stepwise_rules
  document_of-Stepwise id (some d) (some s) = search stepwise_rules

  bound_document-Stepwise :
      (unchanged o : Option String) → Stepwise c p (Submit.bound_document c p unchanged o)
  bound_document-Stepwise unchanged none = search stepwise_rules
  bound_document-Stepwise unchanged (some id) = search (stepwise_rules, document_of-Stepwise)

  check_connectors-Stepwise :
      (user_id : String) (names : List String)
      → Stepwise c p (Submit.check_connectors c p user_id names)
  check_connectors-Stepwise user_id [] = search stepwise_rules
  check_connectors-Stepwise user_id (name ∷ names) = search stepwise_rules

  check_quota-Stepwise : (user_id : String) → Stepwise c p (Submit.check_quota c p user_id)
  unfolding Submit.check_quota
  check_quota-Stepwise user_id = record { at = λ w. (asked (p.is_available w.env)).at w }
    where
      quota_answer-Stepwise : (r : Result (Unit {0})) → Stepwise c p (Submit.quota_answer c p r)
      quota_answer-Stepwise (ok u) = search stepwise_rules
      quota_answer-Stepwise (err e) = search stepwise_rules

      asked :
          (available : Bool)
          → Stepwise c p (
              if available
              then attempt (port c p (checked_quota user_id) (p.check_quota user_id))
                >>= Submit.quota_answer c p
              else pure tt)
      asked available = search (stepwise_rules, quota_answer-Stepwise)

  after_enqueue-Stepwise :
      (job : PlanningJob) (r : Result (Unit {0})) → Stepwise c p (Submit.after_enqueue c p job r)
  after_enqueue-Stepwise job (ok sent) = search stepwise_rules
  after_enqueue-Stepwise job (err e) = search (stepwise_rules, failure_patch-IsVerdict)

  binding-Stepwise :
      (input : Submit.SubmitPlanningJobInput)
      → Stepwise c p (Submit.resolve_and_validate_binding c p input)
  unfolding Submit.resolve_and_validate_binding
  binding-Stepwise input = search (stepwise_rules, check_document-Stepwise, bound_document-Stepwise)

  pub submit_job-Stepwise :
      (input : Submit.SubmitPlanningJobInput) → Stepwise c p (submit_job c p input)
  unfolding submit_job
  submit_job-Stepwise input =
      search
        (
          stepwise_rules, binding-Stepwise, check_connectors-Stepwise, check_quota-Stepwise,
          after_enqueue-Stepwise,
        )
        depth 14
