-- ===== src/Context/Traces/Safety.antt =====
-- What holds of the stored jobs whatever the handlers do.
use memoflow_api.Prelude.{ℕ, String, Bool, ◌≡◌, Option, some, List, [], ◌∷◌}
use memoflow_api.Context.Job.{PlanningJobDoc}
use memoflow_api.Context.Chunk.{ContextResultChunk}
use memoflow_api.Context.Collection.{Collection}
use memoflow_api.Context.Repository.Rows.{Evolves, IsSound}
use memoflow_api.Context.Repository.Steps.{
  row_at, Steps-Evolves, AllSound, Steps, here, Steps-trans,
}
use memoflow_api.Context.Repository.Soundness.{Steps-AllSound}
use memoflow_api.Context.Ports.{Ports, World, ResolvedPlanningPrompt}
use memoflow_api.Context.ResultChunk.{handle_chunk}
use memoflow_api.Context.Timeout.{handle_timeout}
use memoflow_api.Context.Process.{process_job}
use memoflow_api.Context.Submit.{SubmitPlanningJobInput, submit_job}
use memoflow_api.Context.Traces.Handlers.{handle_timeout-Stepwise, handle_chunk-Stepwise}
use memoflow_api.Context.Traces.Jobs.{process_job-Stepwise, submit_job-Stepwise}

-- What reaches the context feature: a request, a queue job, a result chunk, a timeout.
pub data Event : Type 0 where
  submitted : SubmitPlanningJobInput → Event
  dequeued : (transport scheduler : Bool) (timeout_ms : Option ℕ) (job_id : String) → Event
  chunk_came : ContextResultChunk → Event
  timeout_fired : String → Event

module _ (c : Collection) (p : Ports) (b : ResolvedPlanningPrompt) where
  -- The world after the handler of an event, whether it returned or threw.
  abbrev pub handle : Event → World c.Store p.Env → World c.Store p.Env
  handle (submitted input) w = (submit_job c p input w).1
  handle (dequeued transport scheduler timeout_ms id) w =
      (process_job c p b transport scheduler timeout_ms id w).1
  handle (chunk_came chunk) w = (handle_chunk c p b chunk w).1
  handle (timeout_fired id) w = (handle_timeout c p id w).1

  unfoldable pub handle_all : List Event → World c.Store p.Env → World c.Store p.Env
  handle_all [] w = w
  handle_all (e ∷ es) w = handle_all es (handle e w)

  -- Submission, the worker, the chunk handler and the timeout handler, on every path, failures of the
  -- ports and of the database driver included, move the collection by a sequence of the repository's
  -- atomic steps.
  pub handle-Steps : (e : Event) (w : World c.Store p.Env) → Steps c w.store (handle e w).store
  handle-Steps (submitted input) w = (submit_job-Stepwise c p input).at w
  handle-Steps (dequeued transport scheduler timeout_ms id) w =
      (process_job-Stepwise c p b scheduler timeout_ms transport id).at w
  handle-Steps (chunk_came chunk) w = (handle_chunk-Stepwise c p b chunk).at w
  handle-Steps (timeout_fired id) w = (handle_timeout-Stepwise c p b id).at w

  handle_all-Steps :
      (es : List Event) (w : World c.Store p.Env) → Steps c w.store (handle_all es w).store
  unfolding handle_all
  handle_all-Steps [] w = here
  handle_all-Steps (e ∷ es) w = Steps-trans c (handle-Steps e w) (handle_all-Steps es (handle e w))

  -- From a collection of sound rows, any events, returning or throwing, leave sound rows: a completed job
  -- has its result, a failed one its code and message, both the time they ended; a pending one has not
  -- started; no sequence number is recorded twice, of a data chunk neither, and every data chunk's is
  -- recorded.
  pub handle_all-AllSound :
      (es : List Event) (w : World c.Store p.Env) (id : String) (d : PlanningJobDoc)
      → AllSound c w.store
      → row_at c (handle_all es w).store id ≡ some d
      → IsSound d
  handle_all-AllSound es w id d h at_d =
      Steps-AllSound c w.store _ (handle_all-Steps es w) h id d at_d

  -- Across any events, returning or throwing, a stored job stays stored, its status never goes back, its
  -- owner never changes, its recorded sequences and data chunks are only added to, and a sound row
  -- stays sound.
  pub handle_all-Evolves :
      (es : List Event) (w : World c.Store p.Env) (id : String) (d : PlanningJobDoc)
      → row_at c w.store id ≡ some d
      → (e : PlanningJobDoc) × (row_at c (handle_all es w).store id ≡ some e) × Evolves d e
  handle_all-Evolves es w id d h = Steps-Evolves c (handle_all-Steps es w) id d h
