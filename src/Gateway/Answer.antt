-- ===== src/Gateway/Answer.antt =====
-- How the gateway reads what the provider answers.
use memoflow_api.Prelude.{
  ℕ, ◌+◌, ◌-◌, ◌/◌, Bool, true, false, ◌||◌, Option, none, some, [], ◌∷◌, leb, eqb, if◌then◌else◌,
}
use memoflow_api.Text.{Text, units, trim, is_empty}
use memoflow_api.Users.{is_set}
use memoflow_api.Exec.Errors.{
  Failure, generation_provider, generation_refused, generation_truncated, generator_rate_limited,
  generator_unavailable,
}
use memoflow_api.Gateway.{
  Code, code_number, code_text, code_other, Choice, ChatResponseBody, RetryAfter, after_seconds,
  at_date, unreadable, Reply, unreachable, refused, no_json, no_object, answered, rate_limit,
  transient, no_retry, AttemptFailure, Attempted, completed, failed, thrown, LlmUsage,
}

abbrev pub unavailable_failure : Failure
unavailable_failure = generator_unavailable "AI provider temporarily unavailable"

abbrev pub invalid_response : Failure
invalid_response = generation_provider "The AI provider returned an invalid response"

abbrev empty_response : Failure
empty_response = generation_provider "The AI provider returned an empty response"

unfoldable pub parse_retry_after : ℕ → RetryAfter → Option ℕ
parse_retry_after now (after_seconds n) = some n
parse_retry_after now (at_date at) = some ((at - now + 999) / 1000)
parse_retry_after now unreadable = none

abbrev pub to_status : Code → Option ℕ
to_status (code_number n) = some n
to_status (code_text n) = n
to_status code_other = none

unfoldable pub map_status : Option ℕ → Option ℕ → AttemptFailure
map_status none seconds = record {
  domain_error = generation_provider "The AI provider failed to generate a suggestion";
  retry = no_retry;
}
map_status (some status) seconds =
    if eqb status 429
    then record {
      domain_error = generator_rate_limited "The AI provider is rate-limited";
      retry = rate_limit seconds;
    }
    else if leb 500 status
    then record { domain_error = unavailable_failure; retry = transient }
    else if eqb status 408
    then record { domain_error = unavailable_failure; retry = no_retry }
    else record {
      domain_error = generation_provider "The AI provider failed to generate a suggestion";
      retry = no_retry;
    }

-- A timeout means that the deadline is spent.
abbrev pub network_failure : Bool → AttemptFailure
network_failure timed_out = record {
  domain_error = unavailable_failure;
  retry = if timed_out then no_retry else transient;
}

abbrev pub is_text : Text → Text → Bool
is_text [] [] = true
is_text (c ∷ s) (d ∷ t) = let rest = is_text s t in if eqb c d then rest else false
is_text _ _ = false

abbrev pub text_or : Text → Option Text → Text
text_or default none = default
text_or default (some []) = default
text_or default (some t) = t

abbrev pub or_empty : Option Text → Text
or_empty none = []
or_empty (some t) = t

-- Usage of which nothing is known is none.
abbrev pub to_usage : Option LlmUsage → Option LlmUsage
to_usage none = none
to_usage (some u) =
    if is_set u.prompt_tokens || is_set u.completion_tokens || is_set u.total_tokens
    then some u
    else none

abbrev added : Option ℕ → Option ℕ → Option ℕ
added none none = none
added none (some n) = some n
added (some n) none = some n
added (some n) (some k) = some (n + k)

unfoldable pub sum_usage : Option LlmUsage → Option LlmUsage → Option LlmUsage
sum_usage none none = none
sum_usage none (some b) = some b
sum_usage (some a) none = some a
sum_usage (some a) (some b) = some (record {
  prompt_tokens = added a.prompt_tokens b.prompt_tokens;
  completion_tokens = added a.completion_tokens b.completion_tokens;
  total_tokens = added a.total_tokens b.total_tokens;
})

-- The reply's text, unless it is blank.
unfoldable pub read_content : Text → ChatResponseBody → Choice → Attempted
read_content model body choice = by_content choice.content
  where
    by_content : Option Text → Attempted
    by_content none = thrown empty_response
    by_content (some content) =
        if is_empty (trim content)
        then thrown empty_response
        else completed (record {
          content = content;
          model = text_or model body.model;
          finish_reason = or_empty choice.finish_reason;
          usage = to_usage body.usage;
        })

unfoldable pub read_finish : Text → ChatResponseBody → Choice → Attempted
read_finish model body choice =
    if is_text (or_empty choice.finish_reason) (units "length")
    then thrown (generation_truncated "The model response was truncated before completion")
    else if is_text (or_empty choice.finish_reason) (units "content_filter")
    then thrown (generation_refused "The model refused to generate a suggestion")
    else read_content model body choice

abbrev pub read_choice : Text → ChatResponseBody → Choice → Option Code → Attempted
read_choice model body choice (some code) = failed (map_status (to_status code) none)
read_choice model body choice none = read_finish model body choice

abbrev pub read_choices : Text → ChatResponseBody → Option Choice → Attempted
read_choices model body none = thrown empty_response
read_choices model body (some choice) = read_choice model body choice choice.error

-- A failure may also be told inside an answer.
abbrev pub read_body : Text → ChatResponseBody → Option Code → Attempted
read_body model body (some code) = failed (map_status (to_status code) none)
read_body model body none = read_choices model body body.choice

unfoldable pub read_reply : ℕ → Text → Reply → Attempted
read_reply now model (unreachable timed_out) = failed (network_failure timed_out)
read_reply now model (refused status header) =
    failed (map_status (some status) (parse_retry_after now header))
read_reply now model no_json = thrown invalid_response
read_reply now model no_object = thrown invalid_response
read_reply now model (answered body) = read_body model body body.error
