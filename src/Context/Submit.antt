-- ===== src/Context/Submit.antt =====
-- application/context/submit-planning-job.use-case.ts, and application/ai/ai-quota-http.ts.
pub mod Orphans
use memoflow_api.Prelude.{
  String, Bool, Option, none, some, List, [], ◌∷◌, ◌==◌, if◌then◌else◌, all, any,
}
use memoflow_api.Text.{Text}
use memoflow_api.Exec.{Result, ok, err, pure, throw, attempt, ◌>>=◌, ◌>>◌}
use memoflow_api.Exec.Errors.{
  Failure, http, not_found, ai_quota_exceeded, ai_quota_unavailable, ai_quota_throttled,
}
use memoflow_api.Context.Job.{PlanningJob}
use memoflow_api.Context.Collection.{Collection}
use memoflow_api.Context.Repository.{create_job, update_status}
use memoflow_api.Context.Ports.{
  Ports, M, port, query, now, ConnectorConnection, Document, Section, listed_connections,
  checked_quota, enqueued, looked_up_document, looked_up_section,
}
use memoflow_api.Context.Prompt.{ai_quota_exceeded_message, ai_quota_unavailable_message}
use memoflow_api.Context.Process.{failure_patch}

pub record SubmitPlanningJobInput : Type 0 where
  pub user_id : String
  pub prompt : Text
  pub connectors : Option (List String)
  pub document_id : Option String
  pub section_id : Option String

-- The document and section that a job is bound to.
pub record Binding : Type 0 where
  pub document_id : Option String
  pub section_id : Option String

abbrev pub invalid_connectors_message : String
invalid_connectors_message = "Connectors must be among your active connections"

abbrev pub enqueue_failed_code : String
enqueue_failed_code = "ENQUEUE_FAILED"

abbrev pub enqueue_failed_message : String
enqueue_failed_message = "Failed to enqueue job"

abbrev pub submit_failed_message : String
submit_failed_message = "Failed to submit planning job for processing"

-- `quotaHttpException(err) ?? err`
unfoldable pub quota_http_exception : Failure → Failure
quota_http_exception (ai_quota_exceeded retry) = ai_quota_throttled ai_quota_exceeded_message retry
quota_http_exception ai_quota_unavailable = http 503 ai_quota_unavailable_message
quota_http_exception e = e

-- `if (id)`: an id that is given and is not the empty string.
abbrev pub given : Option String → Option String
given none = none
given (some id) = if id == "" then none else some id

abbrev pub requested : Option (List String) → List String
requested none = []
requested (some names) = names

-- `connectors.every((connector) => providers.has(connector))`
unfoldable pub all_active : List String → List ConnectorConnection → Bool
all_active names active = all (λ name. any (λ r. r.provider == name) active) names

module _ (c : Collection) (p : Ports) where
  abbrev pub check_owner : String → String → Option Document → M c p (Unit {0})
  check_owner user_id id none = throw (not_found "Document " id)
  check_owner user_id id (some d) =
      if d.user_id == user_id then pure tt else throw (not_found "Document " id)

  abbrev pub check_document : String → Option String → M c p (Unit {0})
  check_document user_id none = pure tt
  check_document user_id (some id) = do
    document ← port c p (looked_up_document id) (p.find_document id)
    check_owner user_id id document

  -- The document of a job that names this section and perhaps a document.
  abbrev pub document_of : String → Option String → Option Section → M c p (Option String)
  document_of section document none = throw (not_found "Section " section)
  document_of section none (some s) = pure (some s.document_id)
  document_of section (some id) (some s) =
      if s.document_id == id
      then pure (some s.document_id)
      else throw (not_found "Section " section)

  -- `unchanged` is `input.documentId ?? null`, which is kept when no section is given.
  abbrev pub bound_document : Option String → Option String → M c p (Option String)
  bound_document unchanged none = pure unchanged
  bound_document unchanged (some id) = do
    found ← port c p (looked_up_section id) (p.find_section id)
    document_of id (given unchanged) found

  unfoldable pub resolve_and_validate_binding : SubmitPlanningJobInput → M c p Binding
  resolve_and_validate_binding input = do
    document ← bound_document input.document_id (given input.section_id)
    check_document input.user_id (given document)
    pure (record { document_id = document; section_id = input.section_id })

  abbrev pub check_connectors : String → List String → M c p (Unit {0})
  check_connectors user_id [] = pure tt
  check_connectors user_id (name ∷ names) = do
    active ← port c p (listed_connections user_id) (p.find_active_by_user user_id)
    if all_active (name ∷ names) active
        then pure tt
        else throw (http 400 invalid_connectors_message)

  abbrev pub quota_answer : Result (Unit {0}) → M c p (Unit {0})
  quota_answer (ok u) = pure u
  quota_answer (err e) = throw (quota_http_exception e)

  -- Only a real provider spends quota.
  unfoldable pub check_quota : String → M c p (Unit {0})
  check_quota user_id w =
      (if p.is_available w.env
          then (do
            answer ← attempt (port c p (checked_quota user_id) (p.check_quota user_id))
            quota_answer answer)
          else pure tt)
        w

  -- A job that could not be queued is marked as failed, and a failure to mark it is ignored.
  abbrev pub after_enqueue : PlanningJob → Result (Unit {0}) → M c p PlanningJob
  after_enqueue created (ok sent) = pure created
  after_enqueue created (err e) = do
    time ← now c p
    attempt (
        query c p (
          update_status c created.id
            (failure_patch enqueue_failed_code enqueue_failed_message (some time) none none)))
    throw (http 503 submit_failed_message)

  unfoldable pub submit_job : SubmitPlanningJobInput → M c p PlanningJob
  submit_job input = do
    binding ← resolve_and_validate_binding input
    check_connectors input.user_id (requested input.connectors)
    check_quota input.user_id
    time ← now c p
    created ← query c p (
        create_job c
          (record {
            user_id = input.user_id;
            prompt = input.prompt;
            connectors = requested input.connectors;
            document_id = binding.document_id;
            section_id = binding.section_id;
          })
          time)
    sent ←
        attempt
          (port c p (enqueued created.id created.user_id) (p.enqueue created.id created.user_id))
    after_enqueue created sent
