-- ===== src/Context/Consumer.antt =====
-- `ContextResultsConsumer` of infrastructure/amqp/context-results.consumer.ts: what becomes of one
-- message. A message is the value of its JSON, or `none` where it is no JSON. The promise chain that
-- orders the messages of a job is the order in which `on_message` is applied.
pub mod Redelivery
use memoflow_api.Prelude.{
  ℕ, String, Bool, true, false, not, ◌&&◌, Option, none, some, List, ◌∷◌, ◌++◌, [], if◌then◌else◌,
}
use memoflow_api.Exec.{Result, ok, err}
use memoflow_api.Context.Json.{Fields}
use memoflow_api.Context.Job.{JobStatus, PlanningJob}
use memoflow_api.Context.Job as Job
use memoflow_api.Context.Chunk.{
  ChunkPhase, completed, ChunkBody, data_body, status_body, ContextResultChunk,
}
use memoflow_api.Context.Collection.{Collection}
use memoflow_api.Context.Ports.{Ports, World, ResolvedPlanningPrompt}
use memoflow_api.Context.Prompt.{is_expected_failure_code}
use memoflow_api.Context.ResultChunk.{
  ChunkOutcome, applied, duplicate, unknown_job, ownership_mismatch, HandleContextResultChunkResult,
  handle_chunk,
}
use memoflow_api.Context.Message.{Raw, parse_context_result_chunk}

abbrev pub transient_requeue_delay_ms : ℕ
transient_requeue_delay_ms = 250

-- `ack`, `nack` without requeue, and `nack` with requeue after a delay.
pub data Reply : Type 0 where
  acked dropped : Reply
  requeued_after : ℕ → Reply

pub data PlanningEvent : Type 0 where
  planning_chunk : (job_id user_id : String) (sequence : ℕ) (body : ChunkBody) → PlanningEvent
  planning_status : (job_id user_id : String) (status : JobStatus) → PlanningEvent
  planning_completed : (job_id user_id : String) (result : Option Fields) → PlanningEvent
  planning_failed :
      (job_id user_id : String) (error_code error_message : Option String) → PlanningEvent

-- What is reported to Sentry: the message, the job and its error code.
pub record Report : Type 0 where
  pub message : String
  pub job_id : String
  pub error_code : Option String

pub record ConsumerWorld (Store Env : Type 0) : Type 0 where
  pub inner : World Store Env
  -- The last one first.
  pub replies : List Reply
  pub events : List PlanningEvent
  pub reports : List Report

abbrev pub is_completed_phase : ChunkBody → Bool
is_completed_phase (data_body d) = false
is_completed_phase (status_body s) = by_phase s.phase
  where
    by_phase : ChunkPhase → Bool
    by_phase completed = true
    by_phase _ = false

-- The terminal event of a job, the last one first.
abbrev pub terminal_events : PlanningJob → List PlanningEvent
terminal_events job = by_status job.status
  where
    by_status : JobStatus → List PlanningEvent
    by_status Job.completed = planning_completed job.id job.user_id job.result ∷ []
    by_status Job.failed = planning_failed job.id job.user_id job.error_code job.error_message ∷ []
    by_status _ = []

-- What `relay` emits, the last one first.
unfoldable pub relay : Option PlanningJob → ContextResultChunk → Bool → List PlanningEvent
relay none chunk terminal = []
relay (some job) chunk false =
    planning_chunk chunk.job_id chunk.user_id chunk.sequence chunk.body ∷ []
relay (some job) chunk true =
    terminal_events job
    ++ (if is_completed_phase chunk.body
        then planning_status job.id job.user_id Job.planning ∷ []
        else [])

abbrev or_default : Option String → String
or_default none = "Context result chunk failed"
or_default (some message) = message

abbrev is_failed : JobStatus → Bool
is_failed Job.failed = true
is_failed _ = false

-- The failures that this message ended its job with and that are worth a report.
unfoldable pub report : HandleContextResultChunkResult → List Report
report r = of_job r.job
  where
    of_job : Option PlanningJob → List Report
    of_job none = []
    of_job (some job) =
        if r.terminal && (is_failed job.status && not (is_expected_failure_code job.error_code))
        then record {
          message = or_default job.error_message;
          job_id = job.id;
          error_code = job.error_code;
        }
          ∷ []
        else []

module _ (c : Collection) (p : Ports) (builtin : ResolvedPlanningPrompt) where
  abbrev pub W : Type 0
  W = ConsumerWorld c.Store p.Env

  abbrev pub reply : Reply → W → W
  reply r w = record w { replies = r ∷ w.replies }

  -- By the outcome of the handler, once what is to report is reported.
  abbrev pub answer : ContextResultChunk → HandleContextResultChunkResult → W → W
  answer chunk r w = by_outcome r.outcome
    where
      by_outcome : ChunkOutcome → W
      by_outcome unknown_job = reply dropped w
      by_outcome ownership_mismatch = reply dropped w
      by_outcome applied =
          reply acked (record w { events = relay r.job chunk r.terminal ++ w.events })
      by_outcome duplicate = reply acked w

  abbrev pub settle : ContextResultChunk → Result HandleContextResultChunkResult → W → W
  settle chunk (ok r) w = answer chunk r (record w { reports = report r ++ w.reports })
  settle chunk (err e) w = reply (requeued_after transient_requeue_delay_ms) w

  unfoldable pub handle_parsed_chunk : ContextResultChunk → W → W
  handle_parsed_chunk chunk w =
      let (r, inner) = handle_chunk c p builtin chunk w.inner in
      settle chunk r (record w { inner = inner })

  abbrev pub on_parsed : Option ContextResultChunk → W → W
  on_parsed none w = reply dropped w
  on_parsed (some chunk) w = handle_parsed_chunk chunk w

  unfoldable pub on_message : Option Raw → W → W
  on_message none w = reply dropped w
  on_message (some raw) w = on_parsed (parse_context_result_chunk raw) w
