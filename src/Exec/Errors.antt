-- ===== src/Exec/Errors.antt =====
-- What the code throws: the typed errors of domain/context/planning-errors.ts,
-- domain/ai/ai-quota.errors.ts and domain/ai/suggestion-generation.errors.ts with their messages, the
-- 429 exceptions of application/auth/login-throttled.exception.ts and application/ai/ai-quota-http.ts
-- with their seconds to wait, other HTTP exceptions with status and message, and everything else.
use Prim.Native.String
use memoflow_api.Prelude.{ℕ, String}

pub data Failure : Type 0 where
  planning_output_invalid planning_output_rejected : String → Failure
  job_user_inactive job_consent_required : String → Failure
  ai_quota_exceeded : ℕ → Failure
  ai_quota_unavailable : Failure
  generation_provider generation_refused generation_truncated : String → Failure
  generator_rate_limited generator_unavailable : String → Failure
  login_throttled : ℕ → Failure
  ai_quota_throttled : (message : String) (retry_after_seconds : ℕ) → Failure
  http : ℕ → String → Failure
  other : String → Failure

-- `NotFoundException(`${what} ${id} not found`)`
abbrev pub not_found : String → String → Failure
not_found what id = http 404 (String.◌++◌ what (String.◌++◌ id " not found"))
