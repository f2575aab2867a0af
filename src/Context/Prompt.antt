-- ===== src/Context/Prompt.antt =====
-- application/context/planning-prompt.ts: the prompt to use, the check of the job's user, and what a
-- failed job records. `builtin` stands for the built-in texts of domain/ai/prompt-definitions.ts.
use memoflow_api.Prelude.{String, Bool, ◌||◌, Option, none, some, if◌then◌else◌}
use memoflow_api.Exec.{pure, throw, ◌>>=◌}
use memoflow_api.Exec.Errors.{
  Failure, planning_output_invalid, planning_output_rejected, job_user_inactive,
  job_consent_required, ai_quota_exceeded, ai_quota_unavailable, generation_provider,
  generation_refused, generation_truncated, generator_rate_limited, generator_unavailable,
}
use memoflow_api.Users.{User, is_disabled, has_current_ai_consent, is_named}
use memoflow_api.Context.Collection.{Collection}
use memoflow_api.Context.Ports.{
  Ports, M, port, Prompt, ResolvedPlanningPrompt, looked_up_user, looked_up_prompt,
}

abbrev pub planning_failed_message : String
planning_failed_message = "Planning job processing failed"

abbrev pub user_inactive_message : String
user_inactive_message = "The account that submitted this job is not active"

abbrev pub ai_consent_required_message : String
ai_consent_required_message =
    "AI consent is required. Accept the current AI notice to use AI features."

abbrev pub ai_quota_exceeded_message : String
ai_quota_exceeded_message = "Daily AI usage limit reached. Try again later."

abbrev pub ai_quota_unavailable_message : String
ai_quota_unavailable_message = "AI usage limits are temporarily unavailable"

unfoldable pub safe_failure_message : Failure → String
safe_failure_message (planning_output_invalid m) = m
safe_failure_message (planning_output_rejected m) = m
safe_failure_message (job_user_inactive m) = m
safe_failure_message (job_consent_required m) = m
safe_failure_message (ai_quota_exceeded retry) = ai_quota_exceeded_message
safe_failure_message ai_quota_unavailable = ai_quota_unavailable_message
safe_failure_message (generation_provider m) = m
safe_failure_message (generation_refused m) = m
safe_failure_message (generation_truncated m) = m
safe_failure_message (generator_rate_limited m) = m
safe_failure_message (generator_unavailable m) = m
safe_failure_message _ = planning_failed_message

unfoldable pub failure_error_code : Failure → String
failure_error_code (ai_quota_exceeded retry) = "AI_QUOTA_EXCEEDED"
failure_error_code ai_quota_unavailable = "AI_QUOTA_UNAVAILABLE"
failure_error_code (job_user_inactive m) = "USER_INACTIVE"
failure_error_code (job_consent_required m) = "AI_CONSENT_REQUIRED"
failure_error_code _ = "PROCESSING_FAILED"

unfoldable pub is_expected_failure_code : Option String → Bool
is_expected_failure_code code =
    is_named code "AI_QUOTA_EXCEEDED"
    || is_named code "USER_INACTIVE"
    || is_named code "AI_CONSENT_REQUIRED"

module _ (c : Collection) (p : Ports) where
  abbrev pub check_user : Option User → M c p (Unit {0})
  check_user none = throw (job_user_inactive user_inactive_message)
  check_user (some u) =
      if is_disabled u
      then throw (job_user_inactive user_inactive_message)
      else if has_current_ai_consent u
      then pure tt
      else throw (job_consent_required ai_consent_required_message)

  unfoldable pub assert_job_user_active : String → M c p (Unit {0})
  assert_job_user_active user_id = do
    user ← port c p (looked_up_user user_id) (p.find_user user_id)
    check_user user

  abbrev pub resolved : ResolvedPlanningPrompt → Option Prompt → ResolvedPlanningPrompt
  resolved builtin none = record builtin { prompt_version = none }
  resolved builtin (some active) = record {
    prompt_version = some active.version;
    system_template = active.system_template;
    user_template = active.template;
  }

  unfoldable pub resolve_planning_prompt : ResolvedPlanningPrompt → M c p ResolvedPlanningPrompt
  resolve_planning_prompt builtin = do
    active ← port c p looked_up_prompt p.find_active_prompt
    pure (resolved builtin active)
