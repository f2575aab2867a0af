-- ===== src/Context/Tests/Messages.antt =====
-- Result messages: reading one, and one whose job cannot be claimed at first.
use memoflow_api.Prelude.{◌≡◌, refl, true, none, some, List, [], ◌∷◌}
use memoflow_api.Exec.{Result, ok, err}
use memoflow_api.Exec.Errors.{generator_unavailable, other, Failure}
use memoflow_api.Context.Json.{natural}
use memoflow_api.Context.Json as Json
use memoflow_api.Context.Job.{gathering}
use memoflow_api.Context.Ports.{Ports}
use memoflow_api.Context.Message.{
  Raw, str, num, obj, end, field, parse_context_result_chunk, parse_body, parse_data, parse_status,
  phase_named,
}
use memoflow_api.Context.Message.RoundTrip.{WireMessage, wire_data, raw_of, chunk_of, parse-raw_of}
use memoflow_api.Context.Repository.Steps.{row_at}
use memoflow_api.Context.Repository.{new_row, is_new_sequence}
use memoflow_api.Context.Consumer.{W, on_message, acked, requeued_after}
use memoflow_api.Context.Consumer.Redelivery.{requeued_completion_is_lost, completing}
use memoflow_api.Context.Tests.Memory.{memory, find}
use memoflow_api.Context.Tests.Script.{builtin, sample_row, rows_in}

abbrev trello_message : WireMessage
trello_message = record {
  job_id = "j1";
  user_id = "alice";
  sequence = 0;
  body = wire_data "trello" "cards" (some (natural 12));
}

parse-raw_of_example :
    parse_context_result_chunk (raw_of trello_message) ≡ some (chunk_of trello_message)
parse-raw_of_example = parse-raw_of trello_message refl refl refl

-- Another provider is no message.
refuses_slack :
    parse_context_result_chunk
      (raw_of (record trello_message { body = wire_data "slack" "c" none }))
    ≡ none
unfolding parse_context_result_chunk raw_of parse_body parse_data
refuses_slack = refl

-- Ports of a database that answers what the list says.
abbrev next : List (Result (Unit {0})) → Result (Unit {0}) × List (Result (Unit {0}))
next [] = (ok tt, [])
next (r ∷ rs) = (r, rs)

abbrev flaky : Ports
flaky = record {
  Env = List (Result (Unit {0}));
  driver = next;
  clock = λ e. (100, e);
  find_user = λ id e. (ok none, e);
  find_active_prompt = λ e. (ok none, e);
  gather = λ request e. (ok Json.end, e);
  prepare = λ job context e. (err (other "unused"), e);
  plan = λ prompt job prepared e. (err (other "unused"), e);
  publish_gather_request = λ request e. (ok tt, e);
  schedule_timeout = λ id delay e. (ok tt, e);
  has_connections = true;
  find_active_by_user = λ id e. (ok [], e);
  is_available = λ e. true;
  check_quota = λ id e. (ok tt, e);
  enqueue = λ job_id user_id e. (ok tt, e);
  find_document = λ id e. (ok none, e);
  find_section = λ id e. (ok none, e);
}

abbrev down : Failure
down = generator_unavailable "down"

abbrev completion : Raw
completion = obj (
    field "schema_version" (num (natural 1)) (
      field "job_id" (str "j1") (
        field "user_id" (str "alice") (
          field "sequence" (num (natural 4)) (
            field "type" (str "status")
              (field "status" (obj (field "phase" (str "completed") end)) end))))))

abbrev at_gathering : W memory flaky builtin
at_gathering = record {
  inner = record { store = rows_in gathering; env = ok tt ∷ ok tt ∷ err down ∷ []; calls = [] };
  replies = [];
  events = [];
  reports = [];
}

reads_completion :
    parse_context_result_chunk completion ≡ some (completing "j1" "alice" 4 none none)
unfolding parse_context_result_chunk parse_body parse_status phase_named
reads_completion = refl

requeued_completion_is_lost_example :
    let first = on_message memory flaky builtin (some completion) at_gathering in
    let second =
      on_message memory flaky builtin
        (some completion)
        (record first { inner = record first.inner { env = [] } }) in
    (second.replies ≡ acked ∷ requeued_after 250 ∷ [])
    × (second.events ≡ [])
    × (row_at memory second.inner.store "j1"
        ≡ some (record (sample_row gathering) { chunk_sequences = 4 ∷ [] }))
unfolding find new_row is_new_sequence
requeued_completion_is_lost_example =
    requeued_completion_is_lost memory flaky builtin completion "j1" "alice" 4 none none
      (sample_row gathering) at_gathering down [] reads_completion refl refl refl refl refl refl
      refl refl refl
