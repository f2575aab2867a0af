-- ===== src/Context/Repository.antt =====
-- infrastructure/persistence/context/planning-job.mongoose.repository.ts, and the inputs of
-- domain/context/planning-job.repository.ts. Each operation is given the time that the code reads.
-- A query that fails for another reason than a `CastError` throws before it changes a row; the
-- handlers meet that through `Ports.query`.
pub mod Rows
pub mod Changes
pub mod Steps
pub mod Races
pub mod Append
pub mod Soundness
use memoflow_api.Prelude.{
  ℕ, String, Bool, not, true, false, Option, none, some, List, [], ◌∷◌, ◌++◌, any, eqb,
}
use memoflow_api.Text.{Text}
use memoflow_api.Context.Json.{Number, Fields}
use memoflow_api.Context.Job.{
  JobStatus, pending, running, gathering, planning, failed, PlanningJob, PlanningJobDoc, is_pending,
  is_gathering,
}
use memoflow_api.Context.Collection.{Collection, Answer, answer, cast_error}

pub record CreatePlanningJobData : Type 0 where
  pub user_id : String
  pub prompt : Text
  pub connectors : List String
  pub document_id : Option String
  pub section_id : Option String

-- A column that is `none` is `undefined`, and the update leaves it; `some none` sets it to `null`.
pub record UpdatePlanningJobStatusData : Type 0 where
  pub status : JobStatus
  pub result : Option (Option Fields)
  pub error_code : Option (Option String)
  pub error_message : Option (Option String)
  pub started_at : Option (Option ℕ)
  pub finished_at : Option (Option ℕ)
  pub prompt_version : Option (Option String)
  pub model : Option (Option String)
  pub context_used : Option (Option Fields)

pub data ChunkData : Type 0 where
  data_chunk : (provider : String) (content : Text) (token_estimate : Option Number) → ChunkData
  status_chunk : ChunkData

pub record AppendResultChunkData : Type 0 where
  pub sequence : ℕ
  pub payload : ChunkData

pub record AppendResultChunkOutcome : Type 0 where
  pub applied : Bool
  pub job : Option PlanningJob

pub record GatherFailure : Type 0 where
  pub error_code : String
  pub error_message : String

unfoldable pub to_domain : String → PlanningJobDoc → PlanningJob
to_domain id d = record {
  id = id;
  user_id = d.user_id;
  document_id = d.document_id;
  section_id = d.section_id;
  status = d.status;
  prompt = d.prompt;
  connectors = d.connectors;
  prompt_version = d.prompt_version;
  model = d.model;
  context_used = d.context_used;
  result = d.result;
  error_code = d.error_code;
  error_message = d.error_message;
  created_at = d.created_at;
  started_at = d.started_at;
  finished_at = d.finished_at;
  data_chunks = d.data_chunks;
}

-- The row that `create` writes: the given columns, and the schema's defaults.
unfoldable pub new_row : CreatePlanningJobData → ℕ → PlanningJobDoc
new_row c now = record {
  user_id = c.user_id;
  document_id = c.document_id;
  section_id = c.section_id;
  status = pending;
  prompt = c.prompt;
  connectors = c.connectors;
  prompt_version = none;
  model = none;
  context_used = none;
  result = none;
  error_code = none;
  error_message = none;
  created_at = now;
  started_at = none;
  finished_at = none;
  chunk_sequences = [];
  data_chunks = [];
}

-- `if (patch.x !== undefined) update.x = patch.x`
abbrev pub patched {ℓ} : {A : Type ℓ} → Option A → A → A
patched none old = old
patched (some new) old = new

unfoldable pub to_update_doc : UpdatePlanningJobStatusData → PlanningJobDoc → PlanningJobDoc
to_update_doc p d = record d {
  status = p.status;
  result = patched p.result d.result;
  error_code = patched p.error_code d.error_code;
  error_message = patched p.error_message d.error_message;
  started_at = patched p.started_at d.started_at;
  finished_at = patched p.finished_at d.finished_at;
  prompt_version = patched p.prompt_version d.prompt_version;
  model = patched p.model d.model;
  context_used = patched p.context_used d.context_used;
}

-- `$push` of the sequence, and of the data chunk where there is one.
unfoldable pub push_chunk : AppendResultChunkData → PlanningJobDoc → PlanningJobDoc
push_chunk c d = elim c.payload [
  | data_chunk provider content tokens ↦ record d {
    chunk_sequences = d.chunk_sequences ++ c.sequence ∷ [];
    data_chunks =
        d.data_chunks
        ++ record {
          sequence = c.sequence;
          provider = provider;
          content = content;
          token_estimate = tokens;
        }
          ∷ [];
  }
  | status_chunk ↦ record d { chunk_sequences = d.chunk_sequences ++ c.sequence ∷ [] }
]

-- `chunk_sequences: { $ne: sequence }` on an array column.
unfoldable pub is_new_sequence : ℕ → PlanningJobDoc → Bool
is_new_sequence n d = not (any (λ k. eqb k n) d.chunk_sequences)

-- `runIdQuery` and the `toDomain` of what it finds: a `CastError` is "not found".
unfoldable pub run_id_query : String → Answer → Option PlanningJob
unfolding to_domain
run_id_query id (answer (some d)) = some (to_domain id d)
run_id_query id (answer none) = none
run_id_query id cast_error = none

module _ (c : Collection) where
  open c use {Store}

  unfoldable pub create_job : CreatePlanningJobData → ℕ → Store → PlanningJob × Store
  unfolding to_domain new_row
  create_job d now s =
      let (id, s') = c.create s (new_row d now) in (to_domain id (new_row d now), s')

  unfoldable pub find_by_id : String → Store → Option PlanningJob
  unfolding run_id_query
  find_by_id id s = run_id_query id (c.find_by_id s id)

  unfoldable pub update_status :
      String → UpdatePlanningJobStatusData → Store → Option PlanningJob × Store
  unfolding run_id_query to_update_doc
  update_status id patch s =
      let (found, s') = c.find_one_and_update s id (λ d. true) (to_update_doc patch) in
      (run_id_query id found, s')

  unfoldable pub claim_for_processing : String → ℕ → Store → Option PlanningJob × Store
  unfolding run_id_query
  claim_for_processing id now s =
      let (found, s') =
        c.find_one_and_update s id (λ d. is_pending d.status)
          (λ d. record d { status = running; started_at = some now }) in
      (run_id_query id found, s')

  unfoldable pub claim_for_gathering : String → ℕ → Store → Option PlanningJob × Store
  unfolding run_id_query
  claim_for_gathering id now s =
      let (found, s') =
        c.find_one_and_update s id (λ d. is_pending d.status)
          (λ d. record d { status = gathering; started_at = some now }) in
      (run_id_query id found, s')

  unfoldable pub claim_for_planning : String → Fields → Store → Option PlanningJob × Store
  unfolding run_id_query
  claim_for_planning id context s =
      let (found, s') =
        c.find_one_and_update s id (λ d. is_gathering d.status)
          (λ d. record d { status = planning; context_used = some context }) in
      (run_id_query id found, s')

  unfoldable pub fail_if_still_gathering :
      String → GatherFailure → ℕ → Store → Option PlanningJob × Store
  unfolding run_id_query
  fail_if_still_gathering id patch now s =
      let (found, s') =
        c.find_one_and_update s id (λ d. is_gathering d.status)
          (λ d. record d {
            status = failed;
            error_code = some patch.error_code;
            error_message = some patch.error_message;
            finished_at = some now;
          }) in
      (run_id_query id found, s')

  -- A row that did not match is read again, to tell a duplicate from an unknown job; the model takes
  -- that read, which only informs the caller, in the same step.
  abbrev pub appended : String → Option PlanningJob → Store → AppendResultChunkOutcome × Store
  appended id (some job) s = (record { applied = true; job = some job }, s)
  appended id none s = (record { applied = false; job = find_by_id id s }, s)

  unfoldable pub append_result_chunk :
      String → AppendResultChunkData → Store → AppendResultChunkOutcome × Store
  unfolding run_id_query is_new_sequence push_chunk find_by_id
  append_result_chunk id chunk s =
      let (found, s') =
        c.find_one_and_update s id (is_new_sequence chunk.sequence) (push_chunk chunk) in
      appended id (run_id_query id found) s'
