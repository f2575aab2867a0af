-- ===== src/Context/ResultChunk/Terminal.antt =====
-- A job is announced as finished by one chunk at most.
use mathlib.Core.Bool.{false≢true}
use memoflow_api.Prelude.{
  String, ◌≡◌, refl, sym, ap, ◌∙◌, Bool, true, false, Option, none, some, arith, ◌==◌, Option-cases,
  inl, inr, if◌then◌else◌,
}
use memoflow_api.Exec.{ok, pure, ◌>>=◌}
use memoflow_api.Context.Job.{PlanningJob, is_finished}
use memoflow_api.Context.Chunk.{ContextResultChunk}
use memoflow_api.Context.Collection.{Collection}
use memoflow_api.Context.Repository.{find_by_id, append_result_chunk, AppendResultChunkOutcome}
use memoflow_api.Context.Repository.Steps.{Steps, one, received}
use memoflow_api.Context.Repository.Races.{HasRank, Steps-HasRank}
use memoflow_api.Context.Ports.{Ports, World, query, read, ResolvedPlanningPrompt}
use memoflow_api.Context.Claimed.{or_else}
use memoflow_api.Context.ResultChunk.{
  duplicate, ownership_mismatch, HandleContextResultChunkResult, append_data, on_append, on_job,
  handle_chunk, after_append, result,
}
use memoflow_api.Context.Repository.{AppendResultChunkData}
use memoflow_api.Context.ResultChunk.Once.{Post, Post-bind, query_ran}
use memoflow_api.Context.ResultChunk.Endings.{
  find_by_id-id, append-id, Announces, after_append-Announces, after_append_late,
}

module _ (c : Collection) (p : Ports) (builtin : ResolvedPlanningPrompt) where
  -- The job that `after_append` is given has the id of the job that was found.
  current-id :
      (id : String) (chunk : AppendResultChunkData) (s : c.Store) (job : PlanningJob)
      → job.id ≡ id
      → (o : AppendResultChunkOutcome) → o ≡ (append_result_chunk c job.id chunk s).0
      → (or_else o.job job).id ≡ id
  current-id id chunk s job e o was = elim (Option-cases o.job) [
    | inl missing ↦ rw missing e
    | inr (j, found) ↦ rw found (
        append-id c job.id chunk s j
          (ap (λ (x : AppendResultChunkOutcome). x.job) (sym was) ∙ found)
        ∙ e)
  ]

  on_job-Announces :
      (chunk : ContextResultChunk) (o : Option PlanningJob) (w : World c.Store p.Env)
      → ((job : PlanningJob) → o ≡ some job → job.id ≡ chunk.job_id)
      → Post (on_job c p builtin chunk o) w (Announces c p builtin chunk.job_id)
  unfolding pure
  on_job-Announces chunk none w k = λ r h. inl (ground arith)
  on_job-Announces chunk (some job) w k =
      by_tests (job.user_id == chunk.user_id) (is_finished job.status)
    where
      appended_result :
          (o : AppendResultChunkOutcome) (v : World c.Store p.Env)
          → (or_else o.job job).id ≡ chunk.job_id
          → (applied_now : Bool)
          → Post
              (if applied_now
                then after_append c p builtin chunk.body (or_else o.job job)
                else pure (result duplicate (some (or_else o.job job)) false))
              v
              (Announces c p builtin chunk.job_id)
      appended_result o v e true =
          λ r h. rw (← e) (after_append-Announces c p builtin chunk.body (or_else o.job job) v r h)
      appended_result o v e false = λ r h. inl (ground arith)

      by_tests :
          (mine over : Bool)
          → Post
              (if mine
                then (if over
                    then pure (result duplicate (some job) false)
                    else query c p (append_result_chunk c job.id (append_data chunk))
                      >>= on_append c p builtin chunk job)
                else pure (result ownership_mismatch (some job) false))
              w
              (Announces c p builtin chunk.job_id)
      by_tests false over = λ r h. inl (ground arith)
      by_tests true true = λ r h. inl (ground arith)
      by_tests true false =
          Post-bind (query c p _) _ w (Announces c p builtin chunk.job_id) (λ o ran.
            appended_result o _
              (current-id chunk.job_id (append_data chunk) w.store job (k job refl) o
                (query_ran c p _ w o ran).0)
              o.applied)

  on_job_late :
      (chunk : ContextResultChunk) (o : Option PlanningJob) (w : World c.Store p.Env)
      → ((job : PlanningJob) → o ≡ some job → job.id ≡ chunk.job_id)
      → HasRank c w.store chunk.job_id 2
      → Post (on_job c p builtin chunk o) w (λ r v. r.terminal ≡ false)
  unfolding pure
  on_job_late chunk none w k late = λ r h. ground arith
  on_job_late chunk (some job) w k late =
      by_tests (job.user_id == chunk.user_id) (is_finished job.status)
    where
      appended_result :
          (o : AppendResultChunkOutcome) (v : World c.Store p.Env)
          → (or_else o.job job).id ≡ chunk.job_id
          → HasRank c v.store chunk.job_id 2
          → (applied_now : Bool)
          → Post
              (if applied_now
                then after_append c p builtin chunk.body (or_else o.job job)
                else pure (result duplicate (some (or_else o.job job)) false))
              v
              (λ r u. r.terminal ≡ false)
      appended_result o v e past true =
          after_append_late c p builtin chunk.body (or_else o.job job) v (rw e past)
      appended_result o v e past false = λ r h. ground arith

      by_tests :
          (mine over : Bool)
          → Post
              (if mine
                then (if over
                    then pure (result duplicate (some job) false)
                    else query c p (append_result_chunk c job.id (append_data chunk))
                      >>= on_append c p builtin chunk job)
                else pure (result ownership_mismatch (some job) false))
              w
              (λ r v. r.terminal ≡ false)
      by_tests false over = λ r h. ground arith
      by_tests true true = λ r h. ground arith
      by_tests true false =
          Post-bind (query c p _) _ w (λ r v. r.terminal ≡ false)
            (λ o ran.
              let (was, is) =
                query_ran c p (append_result_chunk c job.id (append_data chunk)) w o ran in
              appended_result o _
                (current-id chunk.job_id (append_data chunk) w.store job (k job refl) o was)
                (Steps-HasRank c chunk.job_id 2 (one c (received job.id (append_data chunk) is))
                  late)
                o.applied)

  -- What was read is the job with the chunk's id.
  read-id :
      (chunk : ContextResultChunk) (w : World c.Store p.Env) (o : Option PlanningJob)
      → (read c p (find_by_id c chunk.job_id) w).0 ≡ ok o
      → ((job : PlanningJob) → o ≡ some job → job.id ≡ chunk.job_id)
        × ((read c p (find_by_id c chunk.job_id) w).1.store ≡ w.store)
  unfolding read
  read-id chunk w o ran =
      let (was, is) = query_ran c p (λ s. (find_by_id c chunk.job_id s, s)) w o ran in
      (λ job e. find_by_id-id c chunk.job_id w.store job (sym was ∙ e), is)

  handle_chunk-Announces :
      (chunk : ContextResultChunk) (w : World c.Store p.Env)
      → Post (handle_chunk c p builtin chunk) w (Announces c p builtin chunk.job_id)
  unfolding handle_chunk
  handle_chunk-Announces chunk w =
      Post-bind (read c p _) _ w (Announces c p builtin chunk.job_id)
        (λ o ran. on_job-Announces chunk o _ (read-id chunk w o ran).0)

  handle_chunk_late :
      (chunk : ContextResultChunk) (w : World c.Store p.Env)
      → HasRank c w.store chunk.job_id 2
      → Post (handle_chunk c p builtin chunk) w (λ r v. r.terminal ≡ false)
  unfolding handle_chunk
  handle_chunk_late chunk w late =
      Post-bind (read c p _) _ w (λ r v. r.terminal ≡ false)
        (λ o ran. let (ids, is) = read-id chunk w o ran in on_job_late chunk o _ ids (rw is late))

  -- At most one chunk finishes a job: after a chunk was answered as terminal, no other chunk of the
  -- job is, whatever steps other handlers take between and whatever the chunks say.
  pub one_terminal_chunk :
      (chunk again : ContextResultChunk) (w u : World c.Store p.Env)
      (r s : HandleContextResultChunkResult)
      → again.job_id ≡ chunk.job_id
      → (handle_chunk c p builtin chunk w).0 ≡ ok r
      → r.terminal ≡ true
      → Steps c (handle_chunk c p builtin chunk w).1.store u.store
      → (handle_chunk c p builtin again u).0 ≡ ok s
      → s.terminal ≡ false
  one_terminal_chunk chunk again w u r s same first done later second =
      elim (handle_chunk-Announces chunk w r first) [
        | inl silent ↦ absurd (false≢true (sym silent ∙ done))
        | inr past ↦
            handle_chunk_late again u (rw same (Steps-HasRank c chunk.job_id 2 later past)) s second
      ]
