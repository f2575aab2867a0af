-- ===== src/Context/Repository/Soundness.antt =====
-- Every row that any steps can make is sound.
use memoflow_api.Prelude.{
  ℕ, String, ◌≡◌, refl, sym, ap, ◌∙◌, Bool, Option, none, some, arith, ◌==◌, eq_iff, Bool-cases,
  Option-cases, inl, inr,
}
use mathlib.Core.Option.{none-ne-some}
use memoflow_api.Context.Job.{PlanningJobDoc}
use memoflow_api.Context.Collection.{Collection, left_row}
use memoflow_api.Context.Repository.{
  CreatePlanningJobData, create_job, update_status, claim_for_processing, claim_for_gathering,
  claim_for_planning, fail_if_still_gathering, new_row,
}
use memoflow_api.Context.Repository.Rows.{IsSound}
use memoflow_api.Context.Repository.Steps.{
  row_at, Step, Steps, here, next, created, began, gathered, received, planned, gave_up, ended,
  Step-Evolves, AllSound, appended-store,
}

new_row-IsSound : (d : CreatePlanningJobData) (now : ℕ) → IsSound (new_row d now)
unfolding new_row
new_row-IsSound d now = record { settled = ground arith; tallied = ground arith }

left_row-none :
    (p : PlanningJobDoc → Bool) (f : PlanningJobDoc → PlanningJobDoc) (o : Option PlanningJobDoc)
    → o ≡ none
    → left_row p f o ≡ none
left_row-none p f o e = rw e refl

module _ (c : Collection) where
  open c use {Store}

  -- An update makes no row.
  update-none :
      (s : Store) (id : String) (p : PlanningJobDoc → Bool) (f : PlanningJobDoc → PlanningJobDoc)
      (j : String)
      → row_at c s j ≡ none
      → row_at c (c.find_one_and_update s id p f).1 j ≡ none
  update-none s id p f j h = elim (Bool-cases (id == j)) [
    | inr other ↦ rw (c.rows_after s id p f j, other) h
    | inl same ↦
        rw (c.rows_after s id p f j, same)
          (left_row-none p f _ (ap (row_at c s) ((eq_iff id j).0 same) ∙ h))
  ]

  -- A row that a step makes is a new one.
  new-IsSound :
      {s t : Store}
      → Step c s t
      → (j : String) (e : PlanningJobDoc) → row_at c s j ≡ none
      → row_at c t j ≡ some e
      → IsSound e
  unfolding create_job claim_for_processing claim_for_gathering claim_for_planning
      fail_if_still_gathering update_status
  new-IsSound {s} (created d now p) j e h k =
      let at_j = rw (p, c.rows_created s (new_row d now) j) at k in
      elim (Bool-cases ((c.create s (new_row d now)).0 == j)) [
        | inr other ↦ absurd (none-ne-some e (sym h ∙ (rw other at at_j)))
        | inl same ↦
            let made : new_row d now ≡ e = ground (arith, rw same at at_j) in
            rw (← made) (new_row-IsSound d now)
      ]
  new-IsSound {s} (began id now p) j e h k =
      absurd (none-ne-some e (sym (update-none s id _ _ j h) ∙ (rw p at k)))
  new-IsSound {s} (gathered id now p) j e h k =
      absurd (none-ne-some e (sym (update-none s id _ _ j h) ∙ (rw p at k)))
  new-IsSound {s} (received id chunk p) j e h k =
      absurd (
        none-ne-some e
          (sym (update-none s id _ _ j h) ∙ (rw (p, appended-store c s id chunk) at k)))
  new-IsSound {s} (planned id context p) j e h k =
      absurd (none-ne-some e (sym (update-none s id _ _ j h) ∙ (rw p at k)))
  new-IsSound {s} (gave_up id patch now p) j e h k =
      absurd (none-ne-some e (sym (update-none s id _ _ j h) ∙ (rw p at k)))
  new-IsSound {s} (ended id patch v p) j e h k =
      absurd (none-ne-some e (sym (update-none s id _ _ j h) ∙ (rw p at k)))

  Step-AllSound : {s t : Store} → Step c s t → AllSound c s → AllSound c t
  Step-AllSound {s} st h j e k = elim (Option-cases (row_at c s j)) [
    | inl missing ↦ new-IsSound st j e missing k
    | inr (d, at_d) ↦
        let (e', at_e', de) = Step-Evolves c st j d at_d in
        let same : e' ≡ e = ground (arith, sym at_e' ∙ k) in rw (← same) (de.sound (h j d at_d))
  ]

  -- Whatever the handlers do, in whatever order, from a store of sound rows: a completed job has its
  -- result, a failed one its code and message, both the time they ended; a pending one has not
  -- started; and every chunk of a job was counted once.
  pub Steps-AllSound : (s t : Store) → Steps c s t → AllSound c s → AllSound c t
  Steps-AllSound s t here h = h
  Steps-AllSound s t (next {t = m} q st) h = Step-AllSound st (Steps-AllSound s m q h)
