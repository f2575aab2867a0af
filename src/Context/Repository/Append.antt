-- ===== src/Context/Repository/Append.antt =====
-- Appending result chunks: each sequence number of a job is applied once.
use memoflow_api.Prelude.{
  ℕ, String, ◌≡◌, refl, true, false, Option, none, some, arith, List, [], ◌∷◌, ◌++◌, any, eqb,
  eqb_refl,
}
use memoflow_api.Context.Job.{PlanningJob, PlanningJobDoc}
use memoflow_api.Context.Collection.{Collection}
use memoflow_api.Context.Repository.{
  AppendResultChunkData, append_result_chunk, push_chunk, is_new_sequence, appended,
}
use memoflow_api.Context.Repository.Rows.{any-append}
use memoflow_api.Context.Repository.Steps.{row_at, Steps, Steps-Evolves}
use memoflow_api.Context.Repository.Races.{matches, update_wins, update_loses, update_loses_rows}

-- The number is among the row's recorded sequences.
abbrev pub IsRecorded : ℕ → PlanningJobDoc → Type 0
IsRecorded n d = any (λ k. eqb k n) d.chunk_sequences ≡ true

any-append_true :
    (n : ℕ) (xs ys : List ℕ) → any (λ k. eqb k n) xs ≡ true → any (λ k. eqb k n) (xs ++ ys) ≡ true
any-append_true n xs ys h = rw (any-append n xs ys, h) refl

pub push_chunk-IsRecorded :
    (chunk : AppendResultChunkData) (d : PlanningJobDoc)
    → IsRecorded chunk.sequence (push_chunk chunk d)
unfolding push_chunk
push_chunk-IsRecorded chunk d = ground (
  arith,
  any-append chunk.sequence d.chunk_sequences (chunk.sequence ∷ []),
  eqb_refl chunk.sequence,
)

module _ (c : Collection) where
  open c use {Store}

  -- The answer says `applied` exactly when the update found the row.
  appended-applied :
      (id : String) (o : Option PlanningJob) (t : Store)
      → (appended c id o t).0.applied ≡ true
      → (job : PlanningJob) × (o ≡ some job)
  appended-applied id none t h = cc
  appended-applied id (some job) t h = (job, refl)

  pub append-IsRecorded :
      (s : Store) (id : String) (chunk : AppendResultChunkData)
      → (append_result_chunk c id chunk s).0.applied ≡ true
      → (d : PlanningJobDoc) × (row_at c (append_result_chunk c id chunk s).1 id ≡ some d)
        × IsRecorded chunk.sequence d
  unfolding append_result_chunk
  append-IsRecorded s id chunk h =
      let (job, found) = appended-applied id _ _ h in
      let (d, at_d, new, is_job, at_t) =
        update_wins c s id (is_new_sequence chunk.sequence) (push_chunk chunk) job found in
      (push_chunk chunk d, rw found at_t, push_chunk-IsRecorded chunk d)

  pub recorded_misses :
      (n : ℕ) (o : Option PlanningJobDoc) (d : PlanningJobDoc)
      → o ≡ some d
      → IsRecorded n d
      → matches (is_new_sequence n) o ≡ false
  unfolding is_new_sequence
  recorded_misses n o d e h = rw (e, h) refl

  -- A chunk that was applied is not applied again: after any steps, another chunk of the same job and
  -- sequence, whatever it carries, is answered as not applied and leaves every row.
  pub append_once :
      (s : Store) (id : String) (chunk again : AppendResultChunkData)
      → (append_result_chunk c id chunk s).0.applied ≡ true
      → again.sequence ≡ chunk.sequence
      → (u : Store) → Steps c (append_result_chunk c id chunk s).1 u
      → (j : String)
      → ((append_result_chunk c id again u).0.applied ≡ false)
        × (row_at c (append_result_chunk c id again u).1 j ≡ row_at c u j)
  unfolding append_result_chunk
  append_once s id chunk again h same u later j =
      let (d, at_d, was) = append-IsRecorded s id chunk h in
      let (e, at_e, de) = Steps-Evolves c later id d at_d in
      let known : IsRecorded again.sequence e =
        rw (same, de.sequences.1) (any-append_true chunk.sequence _ de.sequences.0 was) in
      let missed = recorded_misses again.sequence _ e at_e known in
      let lost = update_loses c u id (is_new_sequence again.sequence) (push_chunk again) missed in
      (
        rw lost refl,
        rw lost
            (update_loses_rows c u id (is_new_sequence again.sequence) (push_chunk again) missed j),
      )
