-- ===== src/Gateway/Examples.antt =====
-- A provider that is down, and one that answers with prose.
use memoflow_api.Prelude.{ℕ, ◌+◌, ◌≤◌, ◌≡◌, refl, true, Option, none, some, [], length}
use memoflow_api.Text.{Text, units, trim, is_space}
use memoflow_api.Exec.{ok, err}
use memoflow_api.Gateway.{
  GatewayConfig, LlmCompletionRequest, Reply, refused, answered, unreadable, ChatResponseBody,
}
use memoflow_api.Gateway.Answer.{
  read_reply, map_status, parse_retry_after, read_finish, read_content, unavailable_failure,
  sum_usage,
}
use memoflow_api.Gateway.Retries.{
  GatewayPorts, GatewayWorld, max_retries, call_with_retries, attempt, retry_delay_ms,
}
use memoflow_api.Gateway.Complete.{complete}
use memoflow_api.Gateway.Metered.{complete-metered}

abbrev config : GatewayConfig
config = record {
  has_api_key = true;
  model = units "openrouter/free";
  fallback_models = [];
  max_tokens = none;
  timeout_ms = none;
  max_retries = some 7;
}

-- The environment is the time; a request takes a tenth of a second.
abbrev answering : Reply → GatewayPorts
answering reply = record {
  Env = ℕ;
  now = λ e. (e, e);
  jitter = λ e. (7, e);
  before_attempt = λ e. (ok tt, e);
  exchange = λ request e. (reply, e + 100);
  sleep = λ ms e. e + ms;
}

abbrev request : LlmCompletionRequest
request = record { system = units "s"; user = units "u"; max_tokens = none }

abbrev start : GatewayWorld ℕ
start = record { env = 0; granted = 0; sent = []; waits = [] }

-- No reply is JSON.
abbrev reads_nothing : Text → Option ℕ
reads_nothing t = none

abbrev prose : ChatResponseBody
prose = record {
  model = none;
  error = none;
  choice = some (record { error = none; finish_reason = none; content = some (units "Sure!") });
  usage = none;
}

abbrev down : Reply
down = refused 503 unreadable

-- Three retries, whatever more the configuration asks for.
four_requests : length (complete reads_nothing (answering down) config request start).1.sent ≡ 4
unfolding complete call_with_retries attempt retry_delay_ms max_retries read_reply map_status
    parse_retry_after
four_requests = refl

reports_outage :
    (complete reads_nothing (answering down) config request start).0 ≡ err unavailable_failure
unfolding complete call_with_retries attempt retry_delay_ms max_retries read_reply map_status
    parse_retry_after
reports_outage = refl

-- A reply and its repair.
two_requests :
    length (complete reads_nothing (answering (answered prose)) config request start).1.sent ≡ 2
unfolding complete call_with_retries attempt retry_delay_ms max_retries read_reply read_finish
    read_content trim is_space sum_usage
two_requests = refl

complete-metered_example :
    let w = (complete reads_nothing (answering down) config request start).1 in
    (w.granted + 0 ≡ 0 + length w.sent)
    × (length w.sent ≤ 0 + (max_retries config + 2))
    × (length w.sent ≤ 0 + 5)
complete-metered_example = complete-metered reads_nothing (answering down) config request start
