-- ===== src/Context/ResultChunk/Refusals.antt =====
-- Chunks that must change nothing.
use memoflow_api.Prelude.{
  ◌≡◌, ◌≢◌, refl, false, Option, none, some, arith, ◌==◌, eq_iff, Bool-cases, inl, inr,
}
use memoflow_api.Exec.{Result, ok, err, pure, ◌>>=◌}
use memoflow_api.Context.Job.{PlanningJob, is_finished}
use memoflow_api.Context.Chunk.{ContextResultChunk}
use memoflow_api.Context.Collection.{Collection}
use memoflow_api.Context.Repository.{find_by_id}
use memoflow_api.Context.Ports.{Ports, World, query, run_query, read, ResolvedPlanningPrompt}
use memoflow_api.Context.ResultChunk.{
  applied, duplicate, ownership_mismatch, result, HandleContextResultChunkResult, on_job,
  handle_chunk,
}

-- The chunk is of an unfinished job of the same user.
abbrev pub Concerns : ContextResultChunk → Option PlanningJob → Type 0
Concerns chunk none = ⊥
Concerns chunk (some job) = (job.user_id ≡ chunk.user_id) × (is_finished job.status ≡ false)

module _ (c : Collection) (p : Ports) where
  -- A query of a database that answers.
  pub query_answers :
      {A : Type 0} (f : c.Store → A × c.Store) (w : World c.Store p.Env)
      → (p.driver w.env).0 ≡ ok tt
      → query c p f w
        ≡ (ok (f w.store).0, record w { store = (f w.store).1; env = (p.driver w.env).1 })
  unfolding query
  query_answers {A} f w up = ran (p.driver w.env).0 (p.driver w.env).1 up
    where
      ran :
          (r : Result (Unit {0})) (env : p.Env)
          → r ≡ ok tt
          → run_query c p f (r, env) w
            ≡ (ok (f w.store).0, record w { store = (f w.store).1; env = env })
      ran (ok u) env h = refl
      ran (err e) env h = cc

  module _ (builtin : ResolvedPlanningPrompt) where
    on_job-refuses :
        (chunk : ContextResultChunk) (o : Option PlanningJob) (w : World c.Store p.Env)
        → ¬ Concerns chunk o
        → (r : HandleContextResultChunkResult) × (on_job c p builtin chunk o w ≡ (ok r, w))
          × (r.outcome ≢ applied)
          × (r.terminal ≡ false)
    unfolding pure
    on_job-refuses chunk none w h = (_, refl, ground arith, refl)
    on_job-refuses chunk (some job) w h = elim (Bool-cases (job.user_id == chunk.user_id)) [
      | inr other ↦ (result ownership_mismatch (some job) false, rw other refl, ground arith, refl)
      | inl same ↦ elim (Bool-cases (is_finished job.status)) [
        | inl over ↦ (result duplicate (some job) false, rw (same, over) refl, ground arith, refl)
        | inr open_ ↦ absurd (h ((eq_iff _ _).0 same, open_))
      ]
    ]

    -- With a database that answers the read, a chunk of an unknown job, of another user's job or of a
    -- finished job changes no row, calls no port and is never reported as applied or terminal.
    pub handle_chunk-refuses :
        (chunk : ContextResultChunk) (w : World c.Store p.Env)
        → (p.driver w.env).0 ≡ ok tt
        → ¬ Concerns chunk (find_by_id c chunk.job_id w.store)
        → (r : HandleContextResultChunkResult) × (handle_chunk c p builtin chunk w
            ≡ (ok r, record w { env = (p.driver w.env).1 }))
          × (r.outcome ≢ applied)
          × (r.terminal ≡ false)
    unfolding handle_chunk ◌>>=◌ read
    handle_chunk-refuses chunk w up h =
        rw (query_answers (λ s. (find_by_id c chunk.job_id s, s)) w up)
          (on_job-refuses chunk _ (record w { env = (p.driver w.env).1 }) h)
