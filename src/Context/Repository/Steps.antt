-- ===== src/Context/Repository/Steps.antt =====
-- The repository's operations as the steps of one relation. Any interleaving of the handlers of any
-- number of processes is a sequence of these steps, since each is one atomic update of MongoDB.
use mathlib.Core.Option.{none-ne-some}
use memoflow_api.Prelude.{
  ◌∙◌, ℕ, String, ◌≡◌, refl, sym, Bool, true, Option, none, some, ◌==◌, eq_iff, Bool-cases, inl,
  inr,
}
use memoflow_api.Context.Json.{Fields}
use memoflow_api.Context.Job.{PlanningJob, PlanningJobDoc, running, gathering}
use memoflow_api.Context.Collection.{Collection, row}
use memoflow_api.Context.Repository.{
  UpdatePlanningJobStatusData, AppendResultChunkData, GatherFailure, CreatePlanningJobData,
  appended, create_job, update_status, claim_for_processing, claim_for_gathering,
  claim_for_planning, fail_if_still_gathering, append_result_chunk, new_row, push_chunk,
  is_new_sequence, run_id_query,
}
use memoflow_api.Context.Repository.Rows.{IsSound, Evolves, Evolves-refl, Evolves-trans}
use memoflow_api.Context.Repository.Changes.{
  IsVerdict, claim-Evolves, plan-Evolves, fail-Evolves, verdict-Evolves, push-Evolves,
}

module _ (c : Collection) where
  open c use {Store}

  -- The row under an id.
  abbrev pub row_at : Store → String → Option PlanningJobDoc
  row_at s id = row (c.find_by_id s id)

  pub data Step (s t : Store) : Type 0 where
    created : (d : CreatePlanningJobData) (now : ℕ) → t ≡ (create_job c d now s).1 → Step s t
    began : (id : String) (now : ℕ) → t ≡ (claim_for_processing c id now s).1 → Step s t
    gathered : (id : String) (now : ℕ) → t ≡ (claim_for_gathering c id now s).1 → Step s t
    received :
        (id : String) (chunk : AppendResultChunkData)
        → t ≡ (append_result_chunk c id chunk s).1
        → Step s t
    planned :
        (id : String) (context : Fields) → t ≡ (claim_for_planning c id context s).1 → Step s t
    gave_up :
        (id : String) (patch : GatherFailure) (now : ℕ)
        → t ≡ (fail_if_still_gathering c id patch now s).1
        → Step s t
    ended :
        (id : String) (patch : UpdatePlanningJobStatusData)
        → IsVerdict patch
        → t ≡ (update_status c id patch s).1
        → Step s t

  pub data Steps (s : Store) : Store → Type 0 where
    here : Steps s s
    next : {t u : Store} → Steps s t → Step t u → Steps s u

  pub Steps-trans : {s t u : Store} → Steps s t → Steps t u → Steps s u
  Steps-trans p here = p
  Steps-trans p (next q st) = next (Steps-trans p q) st

  pub one : {s t : Store} → Step s t → Steps s t
  one st = next here st

  -- A guarded update evolves the row that it finds and leaves every other row.
  update-Evolves :
      (s : Store) (id : String) (p : PlanningJobDoc → Bool) (f : PlanningJobDoc → PlanningJobDoc)
      → ((d : PlanningJobDoc) → p d ≡ true → Evolves d (f d))
      → (j : String) (d : PlanningJobDoc) → row_at s j ≡ some d
      → (e : PlanningJobDoc) × (row_at (c.find_one_and_update s id p f).1 j ≡ some e) × Evolves d e
  update-Evolves s id p f good j d at_j = elim (Bool-cases (id == j)) [
    | inr other ↦ (d, rw (c.rows_after s id p f j, other) at_j, Evolves-refl d)
    | inl same ↦
        let at_id : row_at s id ≡ some d = rw ((eq_iff id j).0 same) at_j in
        elim (Bool-cases (p d)) [
          | inl passes ↦
              (f d, rw (c.rows_after s id p f j, same, at_id, passes) refl, good d passes)
          | inr fails ↦ (d, rw (c.rows_after s id p f j, same, at_id, fails) refl, Evolves-refl d)
        ]
  ]

  created-Evolves :
      (s : Store) (d : CreatePlanningJobData) (now : ℕ) (j : String) (r : PlanningJobDoc)
      → row_at s j ≡ some r
      → (e : PlanningJobDoc) × (row_at (create_job c d now s).1 j ≡ some e) × Evolves r e
  unfolding create_job
  created-Evolves s d now j r at_j = elim (Bool-cases ((c.create s (new_row d now)).0 == j)) [
    | inr other ↦ (r, rw (c.rows_created s (new_row d now) j, other) at_j, Evolves-refl r)
    | inl same ↦
        absurd (
          none-ne-some r
            (sym (c.fresh_id s (new_row d now)) ∙ (rw (← (eq_iff _ j).0 same) at at_j)))
  ]

  pub appended-store :
      (s : Store) (id : String) (chunk : AppendResultChunkData)
      → (append_result_chunk c id chunk s).1
        ≡ (c.find_one_and_update s id (is_new_sequence chunk.sequence) (push_chunk chunk)).1
  unfolding append_result_chunk
  appended-store s id chunk =
      by_answer
        (run_id_query id
          (c.find_one_and_update s id (is_new_sequence chunk.sequence) (push_chunk chunk)).0)
        (c.find_one_and_update s id (is_new_sequence chunk.sequence) (push_chunk chunk)).1
    where
      by_answer : (o : Option PlanningJob) (t : Store) → (appended c id o t).1 ≡ t
      by_answer none t = refl
      by_answer (some job) t = refl

  pub Step-Evolves :
      {s t : Store}
      → Step s t
      → (j : String) (d : PlanningJobDoc) → row_at s j ≡ some d
      → (e : PlanningJobDoc) × (row_at t j ≡ some e) × Evolves d e
  unfolding claim_for_processing claim_for_gathering claim_for_planning fail_if_still_gathering
      update_status
  Step-Evolves {s} (created d now p) j r h = rw p (created-Evolves s d now j r h)
  Step-Evolves {s} (began id now p) j r h =
      rw p (update-Evolves s id _ _ (λ d k. claim-Evolves d running now k refl) j r h)
  Step-Evolves {s} (gathered id now p) j r h =
      rw p (update-Evolves s id _ _ (λ d k. claim-Evolves d gathering now k refl) j r h)
  Step-Evolves {s} (received id chunk p) j r h =
      rw (p, appended-store s id chunk)
        (update-Evolves s id _ _ (λ d k. push-Evolves chunk d k) j r h)
  Step-Evolves {s} (planned id context p) j r h =
      rw p (update-Evolves s id _ _ (λ d k. plan-Evolves d context k) j r h)
  Step-Evolves {s} (gave_up id patch now p) j r h =
      rw p (update-Evolves s id _ _ (λ d k. fail-Evolves d patch now k) j r h)
  Step-Evolves {s} (ended id patch v p) j r h =
      rw p (update-Evolves s id _ _ (λ d _. verdict-Evolves d patch v) j r h)

  -- Whatever the handlers do, in whatever order, a row stays, its status never goes back, its owner
  -- never changes, its chunks are only added to, and a sound row stays sound.
  pub Steps-Evolves :
      {s t : Store}
      → Steps s t
      → (j : String) (d : PlanningJobDoc) → row_at s j ≡ some d
      → (e : PlanningJobDoc) × (row_at t j ≡ some e) × Evolves d e
  Steps-Evolves here j d h = (d, h, Evolves-refl d)
  Steps-Evolves (next q st) j d h =
      let (e, at_e, de) = Steps-Evolves q j d h in
      let (f, at_f, ef) = Step-Evolves st j e at_e in (f, at_f, Evolves-trans d e f de ef)

  -- Every row of the store is sound.
  abbrev pub AllSound : Store → Type 0
  AllSound s = (j : String) (d : PlanningJobDoc) → row_at s j ≡ some d → IsSound d
