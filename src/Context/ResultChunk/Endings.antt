-- ===== src/Context/ResultChunk/Endings.antt =====
-- What a chunk that was appended is answered with, and what it leaves behind.
use memoflow_api.Prelude.{
  String, ◌≡◌, refl, ap, Bool, true, false, Option, none, some, arith, inl, inr, if◌then◌else◌, ◌⊎◌,
}
use memoflow_api.Exec.{ok, pure, ◌>>=◌}
use memoflow_api.Context.Job.{PlanningJob}
use memoflow_api.Context.Chunk.{ChunkBody, data_body, status_body, is_terminal_phase}
use memoflow_api.Context.Collection.{Collection}
use memoflow_api.Context.Repository.{find_by_id, append_result_chunk, to_domain}
use memoflow_api.Context.Repository.Races.{HasRank}
use memoflow_api.Context.Ports.{Ports, World, ResolvedPlanningPrompt}
use memoflow_api.Context.ResultChunk.{
  applied, HandleContextResultChunkResult, finalize, finalized, after_append, result,
}
use memoflow_api.Context.Repository.Races.{run_id_query-row}
use memoflow_api.Context.Repository.{run_id_query, AppendResultChunkData, appended}
use memoflow_api.Context.ResultChunk.Once.{
  Post, Post-bind, Settles, finalize-Settles, finalize_late,
}

module _ (c : Collection) where
  -- A job that is found under an id has that id.
  pub find_by_id-id :
      (id : String) (s : c.Store) (job : PlanningJob) → find_by_id c id s ≡ some job → job.id ≡ id
  unfolding find_by_id to_domain
  find_by_id-id id s job h =
      let (d, at_d, is_job) = run_id_query-row id _ job h in ap (λ (j : PlanningJob). j.id) is_job

  pub append-id :
      (id : String) (chunk : AppendResultChunkData) (s : c.Store) (job : PlanningJob)
      → (append_result_chunk c id chunk s).0.job ≡ some job
      → job.id ≡ id
  unfolding append_result_chunk to_domain
  append-id id chunk s job h =
      by_answer (run_id_query id _) _
        (λ j e.
          let (d, at_d, is_job) = run_id_query-row id _ j e in
          ap (λ (x : PlanningJob). x.id) is_job)
        h
    where
      by_answer :
          (o : Option PlanningJob) (t : c.Store)
          → ((j : PlanningJob) → o ≡ some j → j.id ≡ id)
          → (appended c id o t).0.job ≡ some job
          → job.id ≡ id
      by_answer none t k e = find_by_id-id id t job e
      by_answer (some j) t k e = k job e

module _ (c : Collection) (p : Ports) (builtin : ResolvedPlanningPrompt) where
  -- The answer says that this chunk finished the job only if it left the job past `gathering`.
  abbrev pub Announces : String → HandleContextResultChunkResult → World c.Store p.Env → Type 0
  Announces id r v = (r.terminal ≡ false) ⊎ HasRank c v.store id 2

  finalized-terminal :
      (current : PlanningJob) (o : Option PlanningJob)
      → o ≡ none
      → (finalized c p builtin current o).terminal ≡ false
  finalized-terminal current none h = refl
  finalized-terminal current (some job) h = cc

  pub after_append-Announces :
      (body : ChunkBody) (job : PlanningJob) (w : World c.Store p.Env)
      → Post (after_append c p builtin body job) w (Announces job.id)
  unfolding pure
  after_append-Announces (data_body d) job w = λ r h. inl (ground arith)
  after_append-Announces (status_body s) job w = by_phase (is_terminal_phase s.phase)
    where
      settled :
          (o : Option PlanningJob) (v : World c.Store p.Env) (r : HandleContextResultChunkResult)
          → Settles c p builtin job.id o v
          → (pure (finalized c p builtin job o) v).0 ≡ ok r
          → Announces job.id r v
      settled o v r (inl e) h = inl (ground (arith, finalized-terminal job o e))
      settled o v r (inr past) h = inr past

      by_phase :
          (b : Bool)
          → Post
              (if b
                then finalize c p builtin s.phase s job
                  >>= (λ done. pure (finalized c p builtin job done))
                else pure (result applied (some job) false))
              w
              (Announces job.id)
      by_phase true =
          Post-bind (finalize c p builtin s.phase s job) _ w (Announces job.id) (λ o ran r h.
            settled o (finalize c p builtin s.phase s job w).1 r
              (finalize-Settles c p builtin s.phase s job w o ran) h)
      by_phase false = λ r h. inl (ground arith)

  pub after_append_late :
      (body : ChunkBody) (job : PlanningJob) (w : World c.Store p.Env)
      → HasRank c w.store job.id 2
      → Post (after_append c p builtin body job) w (λ r v. r.terminal ≡ false)
  unfolding pure
  after_append_late (data_body d) job w late = λ r h. ground arith
  after_append_late (status_body s) job w late = by_phase (is_terminal_phase s.phase)
    where
      by_phase :
          (b : Bool)
          → Post
              (if b
                then finalize c p builtin s.phase s job
                  >>= (λ done. pure (finalized c p builtin job done))
                else pure (result applied (some job) false))
              w
              (λ r v. r.terminal ≡ false)
      by_phase true =
          Post-bind (finalize c p builtin s.phase s job) _ w (λ r v. r.terminal ≡ false)
            (λ o ran r h. ground (
              arith,
              finalized-terminal job o (finalize_late c p builtin s.phase s job w late o ran),
            ))
      by_phase false = λ r h. ground arith
