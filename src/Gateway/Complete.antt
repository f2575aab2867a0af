-- ===== src/Gateway/Complete.antt =====
-- `complete`: a call of the provider, and one more that asks to repair a reply that is no JSON.
use memoflow_api.Prelude.{ℕ, ◌+◌, Option, none, some, List, [], ◌∷◌, ◌++◌, leb, if◌then◌else◌}
use memoflow_api.Text.{Text}
use memoflow_api.Exec.{Result, ok, err}
use memoflow_api.Exec.Errors.{generator_unavailable}
use memoflow_api.Gateway.{
  GatewayConfig, default_timeout_ms, ChatMessage, system, user, assistant, LlmCompletionRequest,
  RawCompletion, LlmUsage,
}
use memoflow_api.Gateway.Answer.{invalid_response, sum_usage}
use memoflow_api.Gateway.Retries.{
  repair_instruction, or_default, max_retries, GatewayPorts, G, at_time, call_with_retries,
}

pub record LlmCompletion (J : Type 0) : Type 0 where
  pub json : J
  pub model : Text
  pub finish_reason : Text
  pub usage : Option LlmUsage

abbrev pub to_completion : {J : Type 0} → RawCompletion → J → LlmCompletion J
to_completion raw json = record {
  json = json;
  model = raw.model;
  finish_reason = raw.finish_reason;
  usage = raw.usage;
}

abbrev pub first_messages : LlmCompletionRequest → List ChatMessage
first_messages request =
    record { role = system; content = request.system }
    ∷ record { role = user; content = request.user }
    ∷ []

abbrev pub repair_messages : LlmCompletionRequest → RawCompletion → List ChatMessage
repair_messages request raw =
    first_messages request
    ++ record { role = assistant; content = raw.content }
      ∷ record { role = user; content = repair_instruction }
      ∷ []

module _ {J : Type 0} (read_json : Text → Option J) (p : GatewayPorts)
    (config : GatewayConfig) where
  abbrev pub repaired_value :
      RawCompletion → Option J → G p config → Result (LlmCompletion J) × G p config
  repaired_value second none w = (err invalid_response, w)
  repaired_value second (some json) w = (ok (to_completion second json), w)

  abbrev pub repaired :
      RawCompletion
      → (Result RawCompletion × ℕ) × G p config
      → Result (LlmCompletion J) × G p config
  repaired first ((err e, left), w) = (err e, w)
  repaired first ((ok second, left), w) =
      repaired_value (record second { usage = sum_usage first.usage second.usage })
        (read_json second.content) w

  -- One repair only, and none once the deadline is reached.
  abbrev pub repair :
      LlmCompletionRequest
      → (deadline left : ℕ) → RawCompletion
      → G p config
      → Result (LlmCompletion J) × G p config
  repair request deadline left first w =
      let (now, w') = at_time p config w in
      if leb deadline now
      then (err invalid_response, w')
      else repaired first
          (call_with_retries p config request (repair_messages request first) deadline left w')

  abbrev pub read_first :
      LlmCompletionRequest
      → (deadline left : ℕ) → RawCompletion
      → Option J
      → G p config
      → Result (LlmCompletion J) × G p config
  read_first request deadline left first (some json) w = (ok (to_completion first json), w)
  read_first request deadline left first none w = repair request deadline left first w

  abbrev pub after_first :
      LlmCompletionRequest
      → (deadline : ℕ) → (Result RawCompletion × ℕ) × G p config
      → Result (LlmCompletion J) × G p config
  after_first request deadline ((err e, left), w) = (err e, w)
  after_first request deadline ((ok first, left), w) =
      read_first request deadline left first (read_json first.content) w

  abbrev pub called : LlmCompletionRequest → G p config → Result (LlmCompletion J) × G p config
  called request w =
      let (start, w') = at_time p config w in
      let deadline = start + or_default config.timeout_ms default_timeout_ms in
      after_first request deadline (
        call_with_retries p config request (first_messages request) deadline (max_retries config)
          w')

  unfoldable pub complete :
      LlmCompletionRequest → G p config → Result (LlmCompletion J) × G p config
  complete request w =
      if config.has_api_key
      then called request w
      else (err (generator_unavailable "AI suggestion generation is not configured"), w)
