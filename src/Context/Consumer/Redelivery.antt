-- ===== src/Context/Consumer/Redelivery.antt =====
-- A terminal chunk that the consumer asks for again.
use memoflow_api.Prelude.{
  ℕ, String, ◌≡◌, refl, ◌∙◌, true, false, Option, some, [], ◌∷◌, ◌++◌, ◌==◌, arith,
}
use memoflow_api.Text.{Text}
use memoflow_api.Exec.{Result, ok, err, pure, ◌>>=◌}
use memoflow_api.Exec.Errors.{Failure}
use memoflow_api.Context.Job.{PlanningJobDoc, is_gathering, is_finished, JobStatus}
use memoflow_api.Context.Chunk.{completed, ContextResultChunk, status_body, is_terminal_phase}
use memoflow_api.Context.Collection.{Collection}
use memoflow_api.Context.Repository.{
  find_by_id, append_result_chunk, claim_for_planning, to_domain, push_chunk, is_new_sequence,
  AppendResultChunkData,
}
use memoflow_api.Context.Repository.Steps.{row_at}
use memoflow_api.Context.Repository.Races.{
  update_answers, update_loses, update_loses_rows, run_id_query-some,
}
use memoflow_api.Context.Repository.Append.{IsRecorded, push_chunk-IsRecorded, recorded_misses}
use memoflow_api.Context.Ports.{Ports, World, query, run_query, read, ResolvedPlanningPrompt}
use memoflow_api.Context.ResultChunk.{
  HandleContextResultChunkResult, handle_chunk, append_data, finalize_completed, duplicate,
  assemble_context,
}
use memoflow_api.Context.ResultChunk.Refusals.{query_answers}
use memoflow_api.Context.Message.{Raw, parse_context_result_chunk}
use memoflow_api.Context.Consumer.{W, on_message, handle_parsed_chunk, acked, requeued_after}

-- The chunk that ends a gathering with success.
abbrev pub completing : String → String → ℕ → Option Text → Option String → ContextResultChunk
completing job_id user_id sequence message code = record {
  job_id = job_id;
  user_id = user_id;
  sequence = sequence;
  body = status_body (record { phase = completed; message = message; error_code = code });
}

module _ (c : Collection) (p : Ports) where
  -- A query of a database that fails.
  pub query_fails :
      {A : Type 0} (f : c.Store → A × c.Store) (w : World c.Store p.Env) (e : Failure)
      → (p.driver w.env).0 ≡ err e
      → query c p f w ≡ (err e, record w { env = (p.driver w.env).1 })
  unfolding query
  query_fails {A} f w e down = ran (p.driver w.env).0 (p.driver w.env).1 down
    where
      ran :
          (r : Result (Unit {0})) (env : p.Env)
          → r ≡ err e
          → run_query c p f (r, env) w ≡ (err e, record w { env = env })
      ran (ok u) env h = cc
      ran (err e') env h = cc

  find_by_id-row :
      (id : String) (s : c.Store) (d : PlanningJobDoc)
      → row_at c s id ≡ some d
      → find_by_id c id s ≡ some (to_domain id d)
  unfolding find_by_id
  find_by_id-row id s d at_d = run_id_query-some id (c.find_by_id s id) d at_d

  append-row :
      (id : String) (chunk : AppendResultChunkData) (s : c.Store) (d : PlanningJobDoc)
      → row_at c s id ≡ some d
      → is_new_sequence chunk.sequence d ≡ true
      → ((append_result_chunk c id chunk s).0
          ≡ record { applied = true; job = some (to_domain id (push_chunk chunk d)) })
        × (row_at c (append_result_chunk c id chunk s).1 id ≡ some (push_chunk chunk d))
  unfolding append_result_chunk
  append-row id chunk s d at_d new =
      let (answers, left) =
        update_answers c s id (is_new_sequence chunk.sequence) (push_chunk chunk) d at_d new in
      rw answers (refl, left)

  append-recorded :
      (id : String) (chunk : AppendResultChunkData) (s : c.Store) (d : PlanningJobDoc)
      → row_at c s id ≡ some d
      → IsRecorded chunk.sequence d
      → ((append_result_chunk c id chunk s).0.applied ≡ false)
        × ((j : String) → row_at c (append_result_chunk c id chunk s).1 j ≡ row_at c s j)
  unfolding append_result_chunk
  append-recorded id chunk s d at_d known =
      let missed = recorded_misses c chunk.sequence _ d at_d known in
      let lost = update_loses c s id (is_new_sequence chunk.sequence) (push_chunk chunk) missed in
      rw lost
        (refl, update_loses_rows c s id (is_new_sequence chunk.sequence) (push_chunk chunk) missed)

gathering_goes_on : (s : JobStatus) → is_gathering s ≡ true → is_finished s ≡ false
gathering_goes_on s h = ground arith

module _ (c : Collection) (p : Ports) (builtin : ResolvedPlanningPrompt) where
  module _ (job_id user_id : String) (n : ℕ) (message : Option Text) (code : Option String)
      (d : PlanningJobDoc) (owned : (d.user_id == user_id) ≡ true)
      (open_ : is_gathering d.status ≡ true) where
    abbrev chunk : ContextResultChunk
    chunk = completing job_id user_id n message code

    abbrev recorded : PlanningJobDoc
    recorded = record d { chunk_sequences = d.chunk_sequences ++ n ∷ [] }

    -- The database answers the read and the update that records the chunk, and fails the claim.
    claim_fails :
        (w : World c.Store p.Env) (e : Failure)
        → row_at c w.store job_id ≡ some d
        → is_new_sequence n d ≡ true
        → (p.driver w.env).0 ≡ ok tt
        → (p.driver (p.driver w.env).1).0 ≡ ok tt
        → (p.driver (p.driver (p.driver w.env).1).1).0 ≡ err e
        → (handle_chunk c p builtin chunk w).0 ≡ err e
          × (row_at c (handle_chunk c p builtin chunk w).1.store job_id ≡ some recorded)
    unfolding handle_chunk read ◌>>=◌ finalize_completed is_terminal_phase push_chunk to_domain
    claim_fails w e at_d new up up' down =
        let (answers, left) = append-row c p job_id (append_data chunk) w.store d at_d new in
        rw
          (
            query_answers c p (λ s. (find_by_id c job_id s, s)) w up,
            find_by_id-row c p job_id w.store d at_d,
            owned,
            gathering_goes_on d.status open_,
            query_answers c p (append_result_chunk c job_id (append_data chunk))
                (record w { env = (p.driver w.env).1 }) up',
            answers,
            query_fails c p (claim_for_planning c job_id (assemble_context d.data_chunks))
                (record w {
                  store = (append_result_chunk c job_id (append_data chunk) w.store).1;
                  env = (p.driver (p.driver w.env).1).1;
                })
                e down,
          )
          (refl, left)

    recorded-IsRecorded : IsRecorded n recorded
    unfolding push_chunk
    recorded-IsRecorded = push_chunk-IsRecorded (append_data chunk) d

    -- The chunk again, on the row that has recorded it.
    again_is_duplicate :
        (w : World c.Store p.Env)
        → row_at c w.store job_id ≡ some recorded
        → (p.driver w.env).0 ≡ ok tt
        → (p.driver (p.driver w.env).1).0 ≡ ok tt
        → (r : HandleContextResultChunkResult) × ((handle_chunk c p builtin chunk w).0 ≡ ok r)
          × (r.outcome ≡ duplicate)
          × (r.terminal ≡ false)
          × (row_at c (handle_chunk c p builtin chunk w).1.store job_id ≡ some recorded)
    unfolding handle_chunk read ◌>>=◌ to_domain pure
    again_is_duplicate w at_row up up' =
        let (missed, kept) =
          append-recorded c p job_id (append_data chunk) w.store recorded at_row
            recorded-IsRecorded in
        rw
          (
            query_answers c p (λ s. (find_by_id c job_id s, s)) w up,
            find_by_id-row c p job_id w.store recorded at_row,
            owned,
            gathering_goes_on d.status open_,
            query_answers c p (append_result_chunk c job_id (append_data chunk))
                (record w { env = (p.driver w.env).1 }) up',
            missed,
          )
          (_, refl, refl, refl, kept job_id ∙ at_row)

  -- A message that ends the gathering of a job, on a database that answers the read and the update that
  -- records the chunk and then fails the claim of the job: the consumer asks for it again. When it comes
  -- again and the database answers, it is acknowledged as a duplicate without an event, and the job's
  -- row is what it was but for the recorded sequence: its status is still one of gathering.
  pub requeued_completion_is_lost :
      (raw : Raw) (job_id user_id : String) (n : ℕ) (message : Option Text) (code : Option String)
      (d : PlanningJobDoc) (w : W c p builtin) (e : Failure) (env : p.Env)
      → parse_context_result_chunk raw ≡ some (completing job_id user_id n message code)
      → (d.user_id == user_id) ≡ true
      → is_gathering d.status ≡ true
      → row_at c w.inner.store job_id ≡ some d
      → is_new_sequence n d ≡ true
      → (p.driver w.inner.env).0 ≡ ok tt
      → (p.driver (p.driver w.inner.env).1).0 ≡ ok tt
      → (p.driver (p.driver (p.driver w.inner.env).1).1).0 ≡ err e
      → (p.driver env).0 ≡ ok tt
      → (p.driver (p.driver env).1).0 ≡ ok tt
      → let first = on_message c p builtin (some raw) w in
        let second =
          on_message c p builtin
            (some raw)
            (record first { inner = record first.inner { env = env } }) in
        (second.replies ≡ acked ∷ requeued_after 250 ∷ w.replies)
        × (second.events ≡ w.events)
        × (row_at c second.inner.store job_id
            ≡ some (record d { chunk_sequences = d.chunk_sequences ++ n ∷ [] }))
  unfolding on_message handle_parsed_chunk
  requeued_completion_is_lost raw job_id user_id n message code d w e env parsed owned open_ at_d
        new up up' down back back' =
      let (fails, left) =
        claim_fails job_id user_id n message code d owned open_ w.inner e at_d new up up' down in
      let (r, again, is_duplicate, not_terminal, kept) =
        again_is_duplicate job_id user_id n message code d owned open_
          (record (handle_chunk c p builtin (completing job_id user_id n message code) w.inner).1 {
            env = env;
          })
          left back back' in
      rw (parsed, fails, again, is_duplicate) (refl, refl, kept)
