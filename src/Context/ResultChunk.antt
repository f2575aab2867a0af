-- ===== src/Context/ResultChunk.antt =====
-- application/context/handle-context-result-chunk.use-case.ts. The input chunk, which every answer of
-- the code repeats, is left out of `HandleContextResultChunkResult`.
pub mod Assembly
pub mod Refusals
pub mod Once
pub mod Endings
pub mod Terminal
use memoflow_api.Prelude.{
  ℕ, String, Bool, true, false, ◌||◌, Option, none, some, List, [], ◌∷◌, ◌==◌, if◌then◌else◌,
  sort_by,
}
use memoflow_api.Text.{units}
use memoflow_api.Exec.{Exec, pure, ◌>>=◌}
use memoflow_api.Context.Json.{
  Json, Number, Items, Fields, null, num, str, arr, obj, nil, cons, end, field,
}
use memoflow_api.Context.Job.{AccumulatedDataChunk, PlanningJob, is_finished}
use memoflow_api.Context.Chunk.{
  ChunkPhase, completed, is_terminal_phase, ChunkStatus, ChunkContent, ChunkBody, data_body,
  status_body, ContextResultChunk,
}
use memoflow_api.Context.Collection.{Collection}
use memoflow_api.Context.Repository.{
  AppendResultChunkData, AppendResultChunkOutcome, ChunkData, data_chunk, status_chunk,
  GatherFailure, find_by_id, append_result_chunk, claim_for_planning, fail_if_still_gathering,
}
use memoflow_api.Context.Ports.{Ports, M, query, read, now, ResolvedPlanningPrompt}
use memoflow_api.Context.Claimed.{run_claimed_planning, or_else}

abbrev pub context_engine_failed_message : String
context_engine_failed_message = "Context gather failed"

abbrev pub default_context_engine_error_code : String
default_context_engine_error_code = "CONTEXT_ENGINE_FAILED"

abbrev pub context_engine_timeout_code : String
context_engine_timeout_code = "CONTEXT_ENGINE_TIMEOUT"

-- `CONTEXT_ENGINE_ERROR_CODES.includes(code)`
abbrev pub is_known_code : String → Bool
is_known_code code =
    default_context_engine_error_code == code || context_engine_timeout_code == code

pub data ChunkOutcome : Type 0 where
  applied duplicate unknown_job ownership_mismatch : ChunkOutcome

pub record HandleContextResultChunkResult : Type 0 where
  pub outcome : ChunkOutcome
  pub job : Option PlanningJob
  pub terminal : Bool

abbrev result : ChunkOutcome → Option PlanningJob → Bool → HandleContextResultChunkResult
result o j t = record { outcome = o; job = j; terminal = t }

abbrev pub payload : ChunkBody → ChunkData
payload (data_body d) = data_chunk d.provider d.content d.token_estimate
payload (status_body s) = status_chunk

abbrev pub append_data : ContextResultChunk → AppendResultChunkData
append_data chunk = record { sequence = chunk.sequence; payload = payload chunk.body }

abbrev pub token_field : Option Number → Json
token_field none = null
token_field (some n) = num n

abbrev pub chunk_items : List AccumulatedDataChunk → Items
chunk_items [] = nil
chunk_items (d ∷ ds) =
    cons
      (obj (
        field "provider" (str (units d.provider)) (
          field "content" (str d.content)
            (field "tokenEstimate" (token_field d.token_estimate) end))))
      (chunk_items ds)

unfoldable pub assemble_context : List AccumulatedDataChunk → Fields
assemble_context chunks = field "chunks" (arr (chunk_items (sort_by (λ d. d.sequence) chunks))) end

abbrev pub allowed_code : Option String → String
allowed_code none = default_context_engine_error_code
allowed_code (some code) = if is_known_code code then code else default_context_engine_error_code

module _ (c : Collection) (p : Ports) (builtin : ResolvedPlanningPrompt) where
  -- Only the winner of the claim plans.
  abbrev pub plan_claimed : Fields → Option PlanningJob → M c p (Option PlanningJob)
  plan_claimed context none = pure none
  plan_claimed context (some claimed) = do
    finished ← run_claimed_planning c p builtin claimed context
    pure (some finished)

  unfoldable pub finalize_completed : PlanningJob → M c p (Option PlanningJob)
  finalize_completed job = do
    claimed ← query c p (claim_for_planning c job.id (assemble_context job.data_chunks))
    plan_claimed (assemble_context job.data_chunks) claimed

  unfoldable pub finalize_failed : PlanningJob → ChunkStatus → M c p (Option PlanningJob)
  finalize_failed job status = do
    time ← now c p
    query c p (
        fail_if_still_gathering c job.id
          (record {
            error_code = allowed_code status.error_code;
            error_message = context_engine_failed_message;
          })
          time)

  abbrev pub finalize : ChunkPhase → ChunkStatus → PlanningJob → M c p (Option PlanningJob)
  finalize completed status job = finalize_completed job
  finalize _ status job = finalize_failed job status

  abbrev pub finalized : PlanningJob → Option PlanningJob → HandleContextResultChunkResult
  finalized current none = result duplicate (some current) false
  finalized current (some job) = result applied (some job) true

  abbrev pub after_append : ChunkBody → PlanningJob → M c p HandleContextResultChunkResult
  after_append (data_body d) current = pure (result applied (some current) false)
  after_append (status_body s) current =
      if is_terminal_phase s.phase
      then (do done ← finalize s.phase s current; pure (finalized current done))
      else pure (result applied (some current) false)

  abbrev pub on_append :
      ContextResultChunk
      → PlanningJob
      → AppendResultChunkOutcome
      → M c p HandleContextResultChunkResult
  on_append chunk job o =
      if o.applied
      then after_append chunk.body (or_else o.job job)
      else pure (result duplicate (some (or_else o.job job)) false)

  abbrev pub on_job : ContextResultChunk → Option PlanningJob → M c p HandleContextResultChunkResult
  on_job chunk none = pure (result unknown_job none false)
  on_job chunk (some job) =
      if job.user_id == chunk.user_id
      then (if is_finished job.status then pure (result duplicate (some job) false) else (do
        o ← query c p (append_result_chunk c job.id (append_data chunk))
        on_append chunk job o))
      else pure (result ownership_mismatch (some job) false)

  unfoldable pub handle_chunk : ContextResultChunk → M c p HandleContextResultChunkResult
  handle_chunk chunk = do job ← read c p (find_by_id c chunk.job_id); on_job chunk job
