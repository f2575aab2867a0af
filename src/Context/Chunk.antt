-- ===== src/Context/Chunk.antt =====
-- domain/context/context-result-chunk.ts.
use memoflow_api.Prelude.{ℕ, String, Bool, true, false, Option}
use memoflow_api.Text.{Text}
use memoflow_api.Context.Json.{Number}

pub data ChunkPhase : Type 0 where
  started gathering completed failed : ChunkPhase

unfoldable pub is_terminal_phase : ChunkPhase → Bool
is_terminal_phase completed = true
is_terminal_phase failed = true
is_terminal_phase _ = false

pub record ChunkStatus : Type 0 where
  pub phase : ChunkPhase
  pub message : Option Text
  pub error_code : Option String

pub record ChunkContent : Type 0 where
  pub provider : String
  pub content : Text
  pub token_estimate : Option Number

pub data ChunkBody : Type 0 where
  data_body : ChunkContent → ChunkBody
  status_body : ChunkStatus → ChunkBody

pub record ContextResultChunk : Type 0 where
  pub job_id : String
  pub user_id : String
  pub sequence : ℕ
  pub body : ChunkBody
