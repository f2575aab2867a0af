-- ===== src/Context/Job.antt =====
-- domain/context/planning-job.ts and the row of planning-job.schema.ts. Dates are milliseconds.
use memoflow_api.Prelude.{ℕ, String, Bool, true, false, Option, List}
use memoflow_api.Text.{Text}
use memoflow_api.Context.Json.{Number, Fields}

pub data JobStatus : Type 0 where
  pending running gathering planning completed failed : JobStatus

pub record AccumulatedDataChunk : Type 0 where
  pub sequence : ℕ
  pub provider : String
  pub content : Text
  pub token_estimate : Option Number

pub record PlanningJob : Type 0 where
  pub id : String
  pub user_id : String
  pub document_id : Option String
  pub section_id : Option String
  pub status : JobStatus
  pub prompt : Text
  pub connectors : List String
  pub prompt_version : Option String
  pub model : Option String
  pub context_used : Option Fields
  pub result : Option Fields
  pub error_code : Option String
  pub error_message : Option String
  pub created_at : ℕ
  pub started_at : Option ℕ
  pub finished_at : Option ℕ
  pub data_chunks : List AccumulatedDataChunk

-- One row of `planning_jobs`; the row's `_id` is the key under which the collection keeps it.
pub record PlanningJobDoc : Type 0 where
  pub user_id : String
  pub document_id : Option String
  pub section_id : Option String
  pub status : JobStatus
  pub prompt : Text
  pub connectors : List String
  pub prompt_version : Option String
  pub model : Option String
  pub context_used : Option Fields
  pub result : Option Fields
  pub error_code : Option String
  pub error_message : Option String
  pub created_at : ℕ
  pub started_at : Option ℕ
  pub finished_at : Option ℕ
  pub chunk_sequences : List ℕ
  pub data_chunks : List AccumulatedDataChunk

abbrev pub is_pending : JobStatus → Bool
is_pending pending = true
is_pending _ = false

abbrev pub is_gathering : JobStatus → Bool
is_gathering gathering = true
is_gathering _ = false

-- `status === JobStatus.Completed || status === JobStatus.Failed`
abbrev pub is_finished : JobStatus → Bool
is_finished completed = true
is_finished failed = true
is_finished _ = false
