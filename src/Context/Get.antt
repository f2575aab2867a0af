-- ===== src/Context/Get.antt =====
-- application/context/get-planning-job.use-case.ts.
use memoflow_api.Prelude.{
  String, ◌≡◌, refl, Option, none, some, ◌==◌, eq_iff, if◌then◌else◌, Bool-cases, inl, inr,
}
use memoflow_api.Exec.{ok, err, pure, throw, ◌>>=◌}
use memoflow_api.Exec.Errors.{not_found}
use memoflow_api.Context.Job.{PlanningJob}
use memoflow_api.Context.Collection.{Collection}
use memoflow_api.Context.Repository.{find_by_id}
use memoflow_api.Context.Ports.{Ports, World, M, read}
use memoflow_api.Context.ResultChunk.Refusals.{query_answers}

-- The job is there and belongs to the user.
abbrev pub IsOwned : String → Option PlanningJob → Type 0
IsOwned user_id none = ⊥
IsOwned user_id (some job) = job.user_id ≡ user_id

module _ (c : Collection) (p : Ports) where
  abbrev pub owned_job : String → String → Option PlanningJob → M c p PlanningJob
  owned_job id user_id none = throw (not_found "Planning job " id)
  owned_job id user_id (some job) =
      if job.user_id == user_id then pure job else throw (not_found "Planning job " id)

  unfoldable pub get_planning_job : String → String → M c p PlanningJob
  get_planning_job id user_id = do job ← read c p (find_by_id c id); owned_job id user_id job

  owned_job-hides :
      (id user_id : String) (o : Option PlanningJob) (w : World c.Store p.Env)
      → ¬ IsOwned user_id o
      → owned_job id user_id o w ≡ (err (not_found "Planning job " id), w)
  unfolding throw
  owned_job-hides id user_id none w h = refl
  owned_job-hides id user_id (some job) w h = elim (Bool-cases (job.user_id == user_id)) [
    | inl mine ↦ absurd (h ((eq_iff _ _).0 mine))
    | inr other ↦ rw other refl
  ]

  -- With a database that answers, a job that is missing and a job of another user give the same
  -- answer, "not found", and neither changes a row or calls a port.
  pub get_planning_job-hides :
      (id user_id : String) (w : World c.Store p.Env)
      → (p.driver w.env).0 ≡ ok tt
      → ¬ IsOwned user_id (find_by_id c id w.store)
      → get_planning_job id user_id w
        ≡ (err (not_found "Planning job " id), record w { env = (p.driver w.env).1 })
  unfolding get_planning_job read ◌>>=◌
  get_planning_job-hides id user_id w up h =
      rw (query_answers c p (λ s. (find_by_id c id s, s)) w up)
        (owned_job-hides id user_id _ (record w { env = (p.driver w.env).1 }) h)
