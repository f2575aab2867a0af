-- ===== src/Context/Timeout.antt =====
-- application/context/handle-gather-timeout.use-case.ts.
pub mod Exact
use memoflow_api.Prelude.{String, Bool, true, false, Option, none, some}
use memoflow_api.Exec.{pure, ◌>>=◌}
use memoflow_api.Context.Job.{PlanningJob}
use memoflow_api.Context.Collection.{Collection}
use memoflow_api.Context.Repository.{find_by_id, fail_if_still_gathering}
use memoflow_api.Context.Ports.{Ports, M, query, read, now}

pub record HandleGatherTimeoutResult : Type 0 where
  pub timed_out : Bool
  pub job : Option PlanningJob

abbrev pub timeout_code : String
timeout_code = "CONTEXT_ENGINE_TIMEOUT"

abbrev pub timeout_message : String
timeout_message = "No terminal context-gather result was received within the configured timeout"

module _ (c : Collection) (p : Ports) where
  abbrev pub on_timeout : String → Option PlanningJob → M c p HandleGatherTimeoutResult
  on_timeout id (some job) = pure (record { timed_out = true; job = some job })
  on_timeout id none = do
    current ← read c p (find_by_id c id)
    pure (record { timed_out = false; job = current })

  unfoldable pub handle_timeout : String → M c p HandleGatherTimeoutResult
  handle_timeout id = do
    time ← now c p
    gave_up ← query c p (
        fail_if_still_gathering c id
          (record { error_code = timeout_code; error_message = timeout_message }) time)
    on_timeout id gave_up
