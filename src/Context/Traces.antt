-- ===== src/Context/Traces.antt =====
-- Every handler, on every path, failures of ports and of the database driver included, moves the
-- collection only by the repository's atomic steps. So what holds of all steps holds of any
-- interleaving of handlers.
pub mod Handlers
pub mod Jobs
pub mod Safety
use memoflow_api.Prelude.{
  ℕ, String, Bool, true, false, ◌≡◌, refl, Option, none, some, List, [], ◌∷◌, if◌then◌else◌, arith,
  ◌==◌,
}
use memoflow_api.Exec.{Exec, Result, ok, err, pure, throw, attempt, ◌>>=◌, ◌>>◌}
use memoflow_api.Exec.Errors.{Failure}
use memoflow_api.Exec.Within.{
  Preorder, Within, Within-pure, Within-throw, Within-attempt, Within-bind, Within-if,
}
use memoflow_api.Users.{User, is_disabled, has_current_ai_consent}
use memoflow_api.Context.Json.{Fields}
use memoflow_api.Context.Job.{PlanningJob, completed, failed}
use memoflow_api.Context.Collection.{Collection}
use memoflow_api.Context.Repository.{
  CreatePlanningJobData, UpdatePlanningJobStatusData, AppendResultChunkData, GatherFailure,
  find_by_id, create_job, update_status, claim_for_processing, claim_for_gathering,
  claim_for_planning, fail_if_still_gathering, append_result_chunk,
}
use memoflow_api.Context.Repository.Changes.{IsVerdict}
use memoflow_api.Context.Repository.Steps.{
  Step, Steps, here, next, Steps-trans, one, created, began, gathered, received, planned, gave_up,
  ended,
}
use memoflow_api.Context.Ports.{
  run_query, Ports, World, M, Call, port, query, read, now, ResolvedPlanningPrompt,
}
use memoflow_api.Context.Prompt.{
  check_user, assert_job_user_active, resolve_planning_prompt, safe_failure_message,
  failure_error_code,
}
use memoflow_api.Context.Claimed.{
  plan_prepared, plan_with_prompt, try_planning, record_outcome, run_claimed_planning, failed_patch,
  completed_patch, Attempted,
}
use memoflow_api.Context.Timeout.{handle_timeout, on_timeout}

module _ (c : Collection) (p : Ports) where
  -- The collection moves by steps of the repository.
  abbrev pub Moves : World c.Store p.Env → World c.Store p.Env → Type 0
  Moves v w = Steps c v.store w.store

  pub Moves-order : Preorder Moves
  Moves-order = record { stay = λ w. here; step = λ u v w r s. Steps-trans c r s }

  abbrev pub Stepwise : {A : Type 0} → M c p A → Type 0
  Stepwise m = Within Moves m

  module _ {A : Type 0} where
    pub Stepwise-port : (call : Call) (f : p.Env → Result A × p.Env) → Stepwise (port c p call f)
    unfolding port
    Stepwise-port call f = record { at = λ w. here }

    Stepwise-run_query :
        (f : c.Store → A × c.Store)
        → ((s : c.Store) → Steps c s (f s).1)
        → (r : Result (Unit {0})) (env : p.Env) (w : World c.Store p.Env)
        → Moves w (run_query c p f (r, env) w).1
    Stepwise-run_query f moves (ok u) env w = moves w.store
    Stepwise-run_query f moves (err e) env w = here

    Stepwise-query :
        (f : c.Store → A × c.Store) → ((s : c.Store) → Steps c s (f s).1) → Stepwise (query c p f)
    unfolding query
    Stepwise-query f moves = record {
      at = λ w. Stepwise-run_query f moves (p.driver w.env).0 (p.driver w.env).1 w;
    }

    pub Stepwise-read : (f : c.Store → A) → Stepwise (read c p f)
    unfolding read
    Stepwise-read f = Stepwise-query (λ s. (f s, s)) (λ s. here)

  pub Stepwise-now : Stepwise (now c p)
  unfolding now
  Stepwise-now = record { at = λ w. here }

  pub Stepwise-create :
      (d : CreatePlanningJobData) (time : ℕ) → Stepwise (query c p (create_job c d time))
  Stepwise-create d time = Stepwise-query _ (λ s. one c (created d time refl))

  pub Stepwise-begin :
      (id : String) (time : ℕ) → Stepwise (query c p (claim_for_processing c id time))
  Stepwise-begin id time = Stepwise-query _ (λ s. one c (began id time refl))

  pub Stepwise-gather :
      (id : String) (time : ℕ) → Stepwise (query c p (claim_for_gathering c id time))
  Stepwise-gather id time = Stepwise-query _ (λ s. one c (gathered id time refl))

  pub Stepwise-append :
      (id : String) (chunk : AppendResultChunkData)
      → Stepwise (query c p (append_result_chunk c id chunk))
  Stepwise-append id chunk = Stepwise-query _ (λ s. one c (received id chunk refl))

  pub Stepwise-plan :
      (id : String) (context : Fields) → Stepwise (query c p (claim_for_planning c id context))
  Stepwise-plan id context = Stepwise-query _ (λ s. one c (planned id context refl))

  pub Stepwise-give_up :
      (id : String) (patch : GatherFailure) (time : ℕ)
      → Stepwise (query c p (fail_if_still_gathering c id patch time))
  Stepwise-give_up id patch time = Stepwise-query _ (λ s. one c (gave_up id patch time refl))

  pub Stepwise-end :
      (id : String) (patch : UpdatePlanningJobStatusData)
      → IsVerdict patch
      → Stepwise (query c p (update_status c id patch))
  Stepwise-end id patch v = Stepwise-query _ (λ s. one c (ended id patch v refl))

  module _ {A : Type 0} where
    pub Stepwise-pure : (a : A) → Stepwise (pure a)
    Stepwise-pure a = Within-pure Moves-order a

    pub Stepwise-throw : (e : Failure) → Stepwise (throw {A = A} e)
    Stepwise-throw e = Within-throw Moves-order e

    pub Stepwise-attempt : (m : M c p A) → Stepwise m → Stepwise (attempt m)
    Stepwise-attempt m h = Within-attempt Moves-order m h

    pub Stepwise-if :
        (b : Bool) (m n : M c p A) → Stepwise m → Stepwise n → Stepwise (if b then m else n)
    Stepwise-if b m n h k = Within-if b m n h k

  module _ {A B : Type 0} where
    pub Stepwise-bind :
        (m : M c p A) (f : A → M c p B)
        → Stepwise m
        → ((a : A) → Stepwise (f a))
        → Stepwise (m >>= f)
    Stepwise-bind m f h k = Within-bind Moves-order m f h k

pub ruleset stepwise_rules = (
  Stepwise-port, Stepwise-read, Stepwise-now, Stepwise-create, Stepwise-begin, Stepwise-gather,
  Stepwise-append, Stepwise-plan, Stepwise-give_up, Stepwise-end, Stepwise-pure, Stepwise-throw,
  Stepwise-attempt, Stepwise-if, Stepwise-bind,
)
