-- ===== src/Gateway.antt =====
-- infrastructure/ai/openrouter.gateway.ts over the port domain/ai/llm-gateway.port.ts. Times are
-- milliseconds, and the seconds of a `Retry-After` header are whole, as HTTP defines them; a number of
-- the provider that is no natural one counts as none.
pub mod Answer
pub mod Retries
pub mod Complete
pub mod Metered
mod Examples
use memoflow_api.Prelude.{
  ℕ, zero, suc, ◌+◌, ◌-◌, ◌*◌, max, min, Bool, true, false, ◌||◌, Option, none, some, List, [], ◌∷◌,
}
use memoflow_api.Text.{Text}
use memoflow_api.Exec.Errors.{Failure}

abbrev pub default_timeout_ms : ℕ
default_timeout_ms = 60000

abbrev pub default_max_retries : ℕ
default_max_retries = 1

abbrev pub default_max_tokens : ℕ
default_max_tokens = 4096

abbrev pub max_retry_after_seconds : ℕ
max_retry_after_seconds = 10

abbrev pub min_time_after_wait_ms : ℕ
min_time_after_wait_ms = 1000

abbrev pub backoff_base_ms : ℕ
backoff_base_ms = 500

-- What the gateway reads of the configuration; `none` is a value that is not set.
-- `model` is the default one where none is set, and `fallback_models` the parsed list.
pub record GatewayConfig : Type 0 where
  pub has_api_key : Bool
  pub model : Text
  pub fallback_models : List Text
  pub max_tokens : Option ℕ
  pub timeout_ms : Option ℕ
  pub max_retries : Option ℕ

pub data ChatRole : Type 0 where
  system user assistant : ChatRole

pub record ChatMessage : Type 0 where
  pub role : ChatRole
  pub content : Text

-- The instruction of the request, its two texts and its own token cap.
pub record LlmCompletionRequest : Type 0 where
  pub system : Text
  pub user : Text
  pub max_tokens : Option ℕ

pub record LlmUsage : Type 0 where
  pub prompt_tokens : Option ℕ
  pub completion_tokens : Option ℕ
  pub total_tokens : Option ℕ

-- The body of a request, and after what time it is aborted. The JSON schema, which is passed on as it
-- is, is left out; `models` is empty where the body has none.
pub record ProviderRequest : Type 0 where
  pub model : Text
  pub models : List Text
  pub messages : List ChatMessage
  pub max_tokens : ℕ
  pub timeout_ms : ℕ

-- An error code of the provider: a number, a text with its `Number(...)`, or something else.
pub data Code : Type 0 where
  code_number : ℕ → Code
  code_text : Option ℕ → Code
  code_other : Code

pub record Choice : Type 0 where
  pub error : Option Code
  pub finish_reason : Option Text
  pub content : Option Text

pub record ChatResponseBody : Type 0 where
  pub model : Option Text
  pub error : Option Code
  pub choice : Option Choice
  pub usage : Option LlmUsage

-- A `Retry-After` header: whole seconds, a date, or nothing that can be read.
pub data RetryAfter : Type 0 where
  after_seconds : ℕ → RetryAfter
  at_date : ℕ → RetryAfter
  unreadable : RetryAfter

-- What becomes of one request.
pub data Reply : Type 0 where
  unreachable : (timed_out : Bool) → Reply
  refused : (status : ℕ) → RetryAfter → Reply
  no_json : Reply
  no_object : Reply
  answered : ChatResponseBody → Reply

pub data Retry : Type 0 where
  rate_limit : Option ℕ → Retry
  transient no_retry : Retry

pub record AttemptFailure : Type 0 where
  pub domain_error : Failure
  pub retry : Retry

pub record RawCompletion : Type 0 where
  pub content : Text
  pub model : Text
  pub finish_reason : Text
  pub usage : Option LlmUsage

-- How an attempt ends: with a completion, a failure that may be retried, or an error that is not.
pub data Attempted : Type 0 where
  completed : RawCompletion → Attempted
  failed : AttemptFailure → Attempted
  thrown : Failure → Attempted
