-- ===== src/Gateway/Retries.antt =====
-- The attempts of one `complete`. The environment tells the time, draws the jitter, answers the hook
-- and the requests, and passes the time of a sleep; what the gateway has asked of it is counted beside
-- it. `read_json` stands for `parseJsonContent`: the value of a reply that is JSON, in a fence or not.
use memoflow_api.Prelude.{
  ℕ, zero, suc, ◌+◌, ◌-◌, ◌*◌, max, min, not, Option, none, some, List, [], ◌∷◌, leb, keep,
  if◌then◌else◌,
}
use memoflow_api.Text.{Text, units}
use memoflow_api.Exec.{Result, ok, err}
use memoflow_api.Gateway.{
  GatewayConfig, default_max_retries, default_max_tokens, max_retry_after_seconds,
  min_time_after_wait_ms, backoff_base_ms, ChatMessage, LlmCompletionRequest, ProviderRequest,
  Reply, Retry, rate_limit, transient, no_retry, AttemptFailure, RawCompletion, Attempted,
  completed, failed, thrown,
}
use memoflow_api.Gateway.Answer.{read_reply, is_text}

abbrev pub repair_instruction : Text
repair_instruction =
    units
      "Your previous reply was not valid JSON. Reply again with ONLY the JSON object that satisfies the schema: no prose, no markdown, no code fences."

abbrev pub or_default : Option ℕ → ℕ → ℕ
or_default none default = default
or_default (some n) default = n

unfoldable pub max_retries : GatewayConfig → ℕ
max_retries config = min 3 (or_default config.max_retries default_max_retries)

-- `[model, ...fallbacks]`, where there are fallbacks; the model is not named twice.
abbrev pub routed : Text → List Text → List Text
routed model [] = []
routed model (f ∷ fs) = model ∷ keep (λ m. not (is_text m model)) (f ∷ fs)

pub record GatewayPorts : Type 1 where
  pub Env : Type 0
  pub now : Env → ℕ × Env
  -- `Math.floor(Math.random() * BACKOFF_JITTER_MS)`
  pub jitter : Env → ℕ × Env
  pub before_attempt : Env → Result (Unit {0}) × Env
  pub exchange : ProviderRequest → Env → Reply × Env
  pub sleep : ℕ → Env → Env

pub record GatewayWorld (Env : Type 0) : Type 0 where
  pub env : Env
  -- The hook's calls that returned, and the requests sent, the last one first.
  pub granted : ℕ
  pub sent : List ProviderRequest
  pub waits : List ℕ

module _ (p : GatewayPorts) (config : GatewayConfig) where
  abbrev pub G : Type 0
  G = GatewayWorld p.Env

  abbrev pub at_time : G → ℕ × G
  at_time w = let (n, env) = p.now w.env in (n, record w { env = env })

  abbrev pub provider_request : LlmCompletionRequest → List ChatMessage → ℕ → ProviderRequest
  provider_request request messages timeout = record {
    model = config.model;
    models = routed config.model config.fallback_models;
    messages = messages;
    max_tokens = or_default request.max_tokens (or_default config.max_tokens default_max_tokens);
    timeout_ms = timeout;
  }

  abbrev pub send : ProviderRequest → G → Attempted × G
  send request w =
      let (reply, env) = p.exchange request w.env in
      let (now, w') = at_time (record w { env = env; sent = request ∷ w.sent }) in
      (read_reply now config.model reply, w')

  abbrev pub when_granted :
      LlmCompletionRequest → List ChatMessage → ℕ → Result (Unit {0}) → G → Attempted × G
  when_granted request messages deadline (err e) w = (thrown e, w)
  when_granted request messages deadline (ok u) w =
      let (now, w') = at_time (record w { granted = w.granted + 1 }) in
      send (provider_request request messages (max 1 (deadline - now))) w'

  unfoldable pub attempt : LlmCompletionRequest → List ChatMessage → ℕ → G → Attempted × G
  attempt request messages deadline w =
      let (answer, env) = p.before_attempt w.env in
      when_granted request messages deadline answer (record w { env = env })

  -- A wait that leaves time enough before the deadline.
  abbrev pub fitting : ℕ → ℕ → ℕ → Option ℕ
  fitting now deadline wait =
      if leb (now + wait + min_time_after_wait_ms) deadline then some wait else none

  -- The budget is not spent here: `callWithRetries` asks with at least one retry left.
  unfoldable pub retry_delay_ms : Retry → ℕ → G → Option ℕ × G
  retry_delay_ms no_retry deadline w = (none, w)
  retry_delay_ms (rate_limit none) deadline w = let (now, w') = at_time w in (none, w')
  retry_delay_ms (rate_limit (some seconds)) deadline w =
      let (now, w') = at_time w in
      (
        (if leb seconds max_retry_after_seconds
            then fitting now deadline (seconds * 1000)
            else none),
        w',
      )
  retry_delay_ms transient deadline w =
      let (now, w') = at_time w in
      let (extra, env) = p.jitter w'.env in
      (fitting now deadline (backoff_base_ms + extra), record w' { env = env })

  abbrev pub slept : ℕ → G → G
  slept wait w = record w { env = p.sleep wait w.env; waits = wait ∷ w.waits }

  -- After a failed attempt with retries left: `again` is the loop with one retry less.
  abbrev pub retried :
      (again : G → (Result RawCompletion × ℕ) × G) (left : ℕ)
      → AttemptFailure
      → Option ℕ × G
      → (Result RawCompletion × ℕ) × G
  retried again left failure (none, w) = ((err failure.domain_error, left), w)
  retried again left failure (some wait, w) = again (slept wait w)

  abbrev pub concluded :
      (again : G → (Result RawCompletion × ℕ) × G) (left deadline : ℕ)
      → Attempted × G
      → (Result RawCompletion × ℕ) × G
  concluded again left deadline (completed raw, w) = ((ok raw, left), w)
  concluded again left deadline (thrown e, w) = ((err e, left), w)
  concluded again left deadline (failed failure, w) =
      retried again left failure (retry_delay_ms failure.retry deadline w)

  abbrev pub exhausted : Attempted × G → (Result RawCompletion × ℕ) × G
  exhausted (completed raw, w) = ((ok raw, 0), w)
  exhausted (thrown e, w) = ((err e, 0), w)
  exhausted (failed failure, w) = ((err failure.domain_error, 0), w)

  -- The loop of `callWithRetries`; it answers with the retries that are left, too.
  unfoldable pub call_with_retries :
      LlmCompletionRequest
      → List ChatMessage
      → (deadline left : ℕ) → G
      → (Result RawCompletion × ℕ) × G
  call_with_retries request messages deadline zero w =
      exhausted (attempt request messages deadline w)
  call_with_retries request messages deadline (suc left) w =
      concluded (call_with_retries request messages deadline left) (suc left) deadline
        (attempt request messages deadline w)
