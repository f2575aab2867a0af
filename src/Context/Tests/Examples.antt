-- ===== src/Context/Tests/Examples.antt =====
-- The theorems on the handlers at concrete jobs, chunks and failures.
use memoflow_api.Prelude.{
  ◌≡◌, ◌≢◌, refl, true, false, none, some, List, [], ◌∷◌, arith, ◌==◌, eq_iff, Bool-cases, inl, inr,
  Ascending,
}
use mathlib.Core.List.{Permᴰ}
use mathlib.Core.List.Permᴰ.{swap}
use mathlib.Core.Bool.{false≢true}
use memoflow_api.Text.{units}
use memoflow_api.Exec.{Result, ok, err, ◌>>=◌, pure}
use memoflow_api.Exec.Errors.{generator_unavailable}
use memoflow_api.Users.{is_disabled, has_current_ai_consent}
use memoflow_api.Context.Json.{Items, end, arr, natural, get_key}
use memoflow_api.Context.Job.{
  PlanningJob, PlanningJobDoc, AccumulatedDataChunk, pending, running, gathering, planning,
  is_finished,
}
use memoflow_api.Context.Job as Job
use mathlib.Core.Option.{none-ne-some}
use memoflow_api.Context.Timeout.{handle_timeout, timeout_code, timeout_message}
use memoflow_api.Context.Chunk.{
  ContextResultChunk, is_terminal_phase, status_body, failed, completed,
}
use memoflow_api.Context.Repository.{
  fail_if_still_gathering, append_result_chunk, run_id_query, to_domain, new_row, push_chunk,
  is_new_sequence, find_by_id,
}
use memoflow_api.Context.Repository.Rows.{IsSound, Evolves}
use memoflow_api.Context.Repository.Steps.{Steps, here, row_at, AllSound}
use memoflow_api.Context.Ports.{
  Ports, query, read, now, World, prepared_for, looked_up_user, looked_up_prompt,
  listed_connections, PreparedPlanningContext,
}
use memoflow_api.Context.Claimed.{run_claimed_planning}
use memoflow_api.Context.Claimed.Ends.{run_claimed_planning-ends}
use memoflow_api.Context.Claimed.Consent.{
  admits, refused_user_is_not_planned, withdrawn_user_is_not_planned,
}
use memoflow_api.Context.ResultChunk.{
  handle_chunk, finalize_failed, assemble_context, HandleContextResultChunkResult, applied,
  unknown_job,
}
use memoflow_api.Context.ResultChunk.Assembly.{
  assemble_context-perm, assemble_context-Ascending, AreItemsOf,
}
use memoflow_api.Context.ResultChunk.Refusals.{handle_chunk-refuses}
use memoflow_api.Context.ResultChunk.Terminal.{one_terminal_chunk}
use memoflow_api.Context.Process.{process_job}
use memoflow_api.Context.Submit.{
  SubmitPlanningJobInput, submit_job, resolve_and_validate_binding, check_quota,
}
use memoflow_api.Context.Submit.Orphans.{Answers, submit_job-no_orphans}
use memoflow_api.Prelude.{◌⊎◌}
use memoflow_api.Exec.{attempt, throw}
use memoflow_api.Context.Ports.{port}
use memoflow_api.Context.Repository.{create_job, update_status, to_update_doc}
use memoflow_api.Context.Tests.Memory.{fresh}
use memoflow_api.Context.Collection.{left_row}
use memoflow_api.Context.Timeout.{HandleGatherTimeoutResult}
use memoflow_api.Context.Timeout.Exact.{
  still_gathering, handle_timeout-exact, timed_out_row as gave_up_row,
}
use memoflow_api.Context.Get.{get_planning_job, get_planning_job-hides}
use memoflow_api.Exec.Errors.{not_found}
use memoflow_api.Context.Process.Stranded.{prompt_failure_strands_job, listing_failure_strands_job}
use memoflow_api.Context.Traces.Safety.{
  Event, handle, handle-Steps, timeout_fired, chunk_came, handle_all, handle_all-AllSound,
  handle_all-Evolves,
}
use memoflow_api.Context.Tests.Memory.{Rows, memory, find, change}
use memoflow_api.Context.Tests.Script.{
  Script, scripted, script, disabled_alice, builtin, sample_row, rows_in, world,
}

-- Ports whose prompt lookup throws.
abbrev no_prompt : World Rows Script
no_prompt = record (world pending) {
  env = record script { prompt = err (generator_unavailable "down") };
}

-- Ports that cannot list the user's connections.
abbrev no_listing : World Rows Script
no_listing = record (world pending) {
  env = record script { connections = err (generator_unavailable "down") };
}

prompt_failure_strands_job_example :
    ((process_job memory scripted builtin false true none "j1" no_prompt).0
      ≡ err (generator_unavailable "down"))
    × (row_at memory
          (process_job memory scripted builtin false true none "j1" no_prompt).1.store
          "j1"
        ≡ some (record (sample_row pending) { status = running; started_at = some 100 }))
unfolding find new_row
prompt_failure_strands_job_example =
    prompt_failure_strands_job memory scripted builtin true none "j1" no_prompt (sample_row pending)
      (generator_unavailable "down") refl refl refl refl

listing_failure_strands_job_example :
    ((process_job memory scripted builtin true true none "j1" no_listing).0
      ≡ err (generator_unavailable "down"))
    × (row_at memory
          (process_job memory scripted builtin true true none "j1" no_listing).1.store
          "j1"
        ≡ some (record (sample_row pending) { status = gathering; started_at = some 100 }))
    × ((process_job memory scripted builtin true true none "j1" no_listing).1.calls
        ≡ listed_connections "alice" ∷ looked_up_user "alice" ∷ [])
unfolding find new_row admits is_disabled has_current_ai_consent
listing_failure_strands_job_example =
    listing_failure_strands_job memory scripted builtin true none "j1" no_listing
      (sample_row pending) (generator_unavailable "down") refl refl refl refl refl refl

-- Ports of a database that always answers, and of a planner that throws.
abbrev steady : Ports
steady = record scripted {
  driver = λ e. (ok tt, e);
  plan = λ prompt job prepared e. (err (generator_unavailable "down"), e);
}

abbrev claimed_job : PlanningJob
claimed_job = to_domain "j1" (sample_row planning)

run_claimed_planning-ends_example :
    (j : PlanningJob) × ((run_claimed_planning memory steady builtin claimed_job end
        (world planning)).0
      ≡ ok j)
    × (is_finished j.status ≡ true)
run_claimed_planning-ends_example =
    run_claimed_planning-ends memory steady (λ e. refl) builtin claimed_job end (world planning)

-- Alice was disabled before planning began.
abbrev refused_world : World Rows Script
refused_world = record (world planning) { env = record script { user = ok (some disabled_alice) } }

refused_user_is_not_planned_example :
    (run_claimed_planning memory scripted builtin claimed_job end refused_world).1.calls
    ≡ looked_up_user "alice" ∷ looked_up_prompt ∷ []
unfolding to_domain new_row admits is_disabled
refused_user_is_not_planned_example =
    refused_user_is_not_planned memory scripted builtin claimed_job end refused_world none refl refl

-- Alice is disabled while sources are retrieved.
abbrev withdrawn_world : World Rows Script
withdrawn_world = record (world planning) {
  env = record script { user_later = ok (some disabled_alice) };
}

abbrev sample_prepared : PreparedPlanningContext
sample_prepared = record {
  context_used = end;
  connector_context = end;
  rendered_context = [];
  sources = [];
  source_strings = [];
}

withdrawn_user_is_not_planned_example :
    (run_claimed_planning memory scripted builtin claimed_job end withdrawn_world).1.calls
    ≡ looked_up_user "alice" ∷ prepared_for "alice" ∷ looked_up_user "alice" ∷ looked_up_prompt ∷ []
unfolding to_domain new_row admits is_disabled has_current_ai_consent
withdrawn_user_is_not_planned_example =
    withdrawn_user_is_not_planned memory scripted builtin claimed_job end withdrawn_world none
      sample_prepared refl refl refl refl

abbrev failing_chunk : ContextResultChunk
failing_chunk = record {
  job_id = "j1";
  user_id = "alice";
  sequence = 3;
  body = status_body (record { phase = failed; message = none; error_code = none });
}

abbrev completing_chunk : ContextResultChunk
completing_chunk = record {
  job_id = "j1";
  user_id = "alice";
  sequence = 4;
  body = status_body (record { phase = completed; message = none; error_code = none });
}

-- A chunk that claims another user's job.
abbrev foreign_chunk : ContextResultChunk
foreign_chunk = record completing_chunk { user_id = "bob" }

handle_chunk-refuses_example :
    (r : HandleContextResultChunkResult) × (handle_chunk memory scripted builtin foreign_chunk
        (world gathering)
      ≡ (ok r, record (world gathering) { env = script }))
    × (r.outcome ≢ applied)
    × (r.terminal ≡ false)
unfolding find_by_id find run_id_query to_domain new_row
handle_chunk-refuses_example =
    handle_chunk-refuses memory scripted builtin foreign_chunk (world gathering) refl
      (λ h. false≢true ((eq_iff "alice" "bob").1 h.0))

abbrev chunk_one : AccumulatedDataChunk
chunk_one = record { sequence = 1; provider = "trello"; content = units "a"; token_estimate = none }

abbrev chunk_two : AccumulatedDataChunk
chunk_two = record {
  sequence = 2;
  provider = "github";
  content = units "b";
  token_estimate = some (natural 5);
}

assemble_context-perm_example :
    assemble_context (chunk_two ∷ chunk_one ∷ []) ≡ assemble_context (chunk_one ∷ chunk_two ∷ [])
assemble_context-perm_example =
    assemble_context-perm (chunk_two ∷ chunk_one ∷ []) (chunk_one ∷ chunk_two ∷ []) (swap refl refl)
      (refl, (refl, tt))

assemble_context-Ascending_example :
    (zs : List AccumulatedDataChunk) × (items : Items) × (get_key "chunks"
        (assemble_context (chunk_two ∷ chunk_one ∷ []))
      ≡ some (arr items))
    × AreItemsOf zs items
    × Ascending (λ d. d.sequence) zs
    × Permᴰ zs (chunk_two ∷ chunk_one ∷ [])
assemble_context-Ascending_example = assemble_context-Ascending (chunk_two ∷ chunk_one ∷ [])

-- A job that two result chunks and the timeout reach.
abbrev events : List Event
events = chunk_came failing_chunk ∷ timeout_fired "j1" ∷ chunk_came completing_chunk ∷ []

abbrev answered : Result HandleContextResultChunkResult → HandleContextResultChunkResult
answered (ok r) = r
answered (err e) = record { outcome = unknown_job; job = none; terminal = false }

-- The world after the failing chunk.
abbrev after_failing : World Rows Script
after_failing = (handle_chunk memory scripted builtin failing_chunk (world gathering)).1

one_terminal_chunk_example :
    (answered (handle_chunk memory scripted builtin completing_chunk after_failing).0).terminal
    ≡ false
unfolding handle_chunk read query find_by_id run_id_query find change to_domain new_row
    append_result_chunk is_new_sequence push_chunk is_terminal_phase finalize_failed now
    fail_if_still_gathering ◌>>=◌ pure
one_terminal_chunk_example =
    one_terminal_chunk memory scripted builtin failing_chunk completing_chunk (world gathering)
      after_failing
      (answered (handle_chunk memory scripted builtin failing_chunk (world gathering)).0)
      (answered (handle_chunk memory scripted builtin completing_chunk after_failing).0) refl refl
      refl here refl

handle_all-Evolves_example :
    (e : PlanningJobDoc) × (row_at memory
        (handle_all memory scripted builtin events (world gathering)).store
        "j1"
      ≡ some e)
    × Evolves (sample_row gathering) e
unfolding find new_row
handle_all-Evolves_example =
    handle_all-Evolves memory scripted builtin events (world gathering) "j1" (sample_row gathering)
      refl

sample_row-IsSound : IsSound (sample_row gathering)
unfolding new_row
sample_row-IsSound = record { settled = ground arith; tallied = ground arith }

rows_in-AllSound : AllSound memory (rows_in gathering)
unfolding find new_row
rows_in-AllSound j d h = elim (Bool-cases ("j1" == j)) [
  | inl same ↦
      let found : sample_row gathering ≡ d = ground (arith, rw same at h) in
      rw (← found) sample_row-IsSound
  | inr other ↦ absurd (none-ne-some d (rw other at h))
]

abbrev timed_out_row : PlanningJobDoc
timed_out_row = record (sample_row gathering) {
  status = Job.failed;
  error_code = some timeout_code;
  error_message = some timeout_message;
  finished_at = some 100;
}

handle_all-AllSound_example : IsSound timed_out_row
unfolding find change new_row handle_all handle_timeout fail_if_still_gathering now query
    run_id_query ◌>>=◌ pure to_domain
handle_all-AllSound_example =
    handle_all-AllSound memory scripted builtin (timeout_fired "j1" ∷ []) (world gathering) "j1"
      timed_out_row rows_in-AllSound refl

handle-Steps_example :
    Steps memory
      (world gathering).store
      (handle memory scripted builtin (chunk_came completing_chunk) (world gathering)).store
handle-Steps_example =
    handle-Steps memory scripted builtin (chunk_came completing_chunk) (world gathering)

get_planning_job-hides_example :
    get_planning_job memory scripted "j1" "bob" (world gathering)
    ≡ (err (not_found "Planning job " "j1"), world gathering)
unfolding find_by_id find run_id_query to_domain new_row
get_planning_job-hides_example =
    get_planning_job-hides memory scripted "j1" "bob" (world gathering) refl
      (λ h. false≢true ((eq_iff "alice" "bob").1 h))

abbrev submission : SubmitPlanningJobInput
submission = record {
  user_id = "alice";
  prompt = units "plan";
  connectors = none;
  document_id = none;
  section_id = none;
}

-- The queue refuses every job.
abbrev no_queue : World Rows Script
no_queue = record (world pending) {
  env = record script { enqueued = err (generator_unavailable "down") };
}

submit_job-no_orphans_example :
    (row_at memory (rows_in pending) "j1" ≡ some (sample_row pending))
    ⊎ Answers memory steady (submit_job memory steady submission no_queue).0 "j1"
unfolding submit_job resolve_and_validate_binding check_quota port attempt query now create_job
    update_status run_id_query find change fresh new_row to_domain to_update_doc throw pure ◌>>=◌
submit_job-no_orphans_example =
    submit_job-no_orphans memory steady (λ e. refl) submission no_queue "j1" (sample_row pending)
      refl refl

handle_timeout-exact_example :
    (r : HandleGatherTimeoutResult) × ((handle_timeout memory steady "j1" (world gathering)).0
      ≡ ok r)
    × (r.timed_out ≡ true)
    × (row_at memory (handle_timeout memory steady "j1" (world gathering)).1.store "j1"
        ≡ left_row still_gathering (gave_up_row 100) (some (sample_row gathering)))
unfolding find new_row
handle_timeout-exact_example = handle_timeout-exact memory steady (λ e. refl) "j1" (world gathering)
