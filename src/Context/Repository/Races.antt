-- ===== src/Context/Repository/Races.antt =====
-- Who wins when handlers race for one job: each atomic update succeeds at most once.
use memoflow_api.Prelude.{
  ℕ, ◌≤◌, String, ◌≡◌, refl, sym, ap, ◌∙◌, Bool, true, false, Option, none, some, arith, ◌==◌,
  eq_iff, eq_refl, Bool-cases, inl, inr,
}
use mathlib.Core.Option.{none-ne-some}
use memoflow_api.Context.Json.{Fields}
use memoflow_api.Context.Job.{PlanningJob, PlanningJobDoc, is_pending, is_gathering}
use memoflow_api.Context.Collection.{
  Collection, Answer, answer, cast_error, row, update_row, left_row,
}
use memoflow_api.Context.Repository.{
  GatherFailure, claim_for_processing, claim_for_gathering, claim_for_planning,
  fail_if_still_gathering, run_id_query, to_domain,
}
use memoflow_api.Context.Repository.Rows.{rank}
use memoflow_api.Context.Repository.Steps.{row_at, Steps, Steps-Evolves}

-- A query answers with a job exactly when it found a row.
pub run_id_query-row :
    (id : String) (a : Answer) (job : PlanningJob)
    → run_id_query id a ≡ some job
    → (d : PlanningJobDoc) × (row a ≡ some d) × (job ≡ to_domain id d)
unfolding run_id_query
run_id_query-row id (answer (some d)) job h = (d, refl, ground arith)
run_id_query-row id (answer none) job h = cc
run_id_query-row id cast_error job h = cc

run_id_query-none : (id : String) (a : Answer) → row a ≡ none → run_id_query id a ≡ none
unfolding run_id_query
run_id_query-none id (answer (some d)) h = cc
run_id_query-none id (answer none) h = refl
run_id_query-none id cast_error h = refl

pub run_id_query-some :
    (id : String) (a : Answer) (d : PlanningJobDoc)
    → row a ≡ some d
    → run_id_query id a ≡ some (to_domain id d)
unfolding run_id_query
run_id_query-some id (answer (some e)) d h = ground arith
run_id_query-some id (answer none) d h = cc
run_id_query-some id cast_error d h = cc

-- Whether a found row passes the filter.
abbrev pub matches : (PlanningJobDoc → Bool) → Option PlanningJobDoc → Bool
matches p none = false
matches p (some d) = p d

update_row-none :
    (p : PlanningJobDoc → Bool) (f : PlanningJobDoc → PlanningJobDoc) (o : Option PlanningJobDoc)
    → matches p o ≡ false
    → update_row p f o ≡ none
update_row-none p f none h = refl
update_row-none p f (some d) h = rw h

update_row-some :
    (p : PlanningJobDoc → Bool) (f : PlanningJobDoc → PlanningJobDoc) (o : Option PlanningJobDoc)
    (e : PlanningJobDoc)
    → update_row p f o ≡ some e
    → (d : PlanningJobDoc) × (o ≡ some d) × (p d ≡ true) × (e ≡ f d)
update_row-some p f none e h = cc
update_row-some p f (some d) e h = elim (Bool-cases (p d)) [
  | inl passes ↦ (d, refl, passes, ground arith)
  | inr fails ↦ absurd (none-ne-some e (rw fails at h))
]

module _ (c : Collection) where
  open c use {Store}

  module _ (s : Store) (id : String) (p : PlanningJobDoc → Bool)
      (f : PlanningJobDoc → PlanningJobDoc) where
    -- An update that answers with a job found a row that passes its filter, and left it changed.
    pub update_wins :
        (job : PlanningJob)
        → run_id_query id (c.find_one_and_update s id p f).0 ≡ some job
        → (d : PlanningJobDoc) × (row_at c s id ≡ some d)
          × (p d ≡ true)
          × (job ≡ to_domain id (f d))
          × (row_at c (c.find_one_and_update s id p f).1 id ≡ some (f d))
    update_wins job h =
        let (e, at_e, is_job) = run_id_query-row id _ job h in
        let (d, at_d, passes, e_is) = update_row-some p f _ e (sym (c.updated s id p f) ∙ at_e) in
        (
          d,
          at_d,
          passes,
          is_job ∙ ap (to_domain id) e_is,
          rw (c.rows_after s id p f id, eq_refl id, at_d, passes) refl,
        )

    -- An update of a row that passes its filter answers with the changed row and leaves it.
    pub update_answers :
        (d : PlanningJobDoc)
        → row_at c s id ≡ some d
        → p d ≡ true
        → (run_id_query id (c.find_one_and_update s id p f).0 ≡ some (to_domain id (f d)))
          × (row_at c (c.find_one_and_update s id p f).1 id ≡ some (f d))
    update_answers d at_d passes = (
      run_id_query-some id _ (f d) (c.updated s id p f ∙ (rw (at_d, passes) refl)),
      rw (c.rows_after s id p f id, eq_refl id, at_d, passes) refl,
    )

    pub update_loses :
        matches p (row_at c s id) ≡ false
        → run_id_query id (c.find_one_and_update s id p f).0 ≡ none
    update_loses h = run_id_query-none id _ (c.updated s id p f ∙ update_row-none p f _ h)

    -- An update that finds nothing to change leaves every row.
    pub update_loses_rows :
        matches p (row_at c s id) ≡ false
        → (j : String) → row_at c (c.find_one_and_update s id p f).1 j ≡ row_at c s j
    update_loses_rows h j = elim (Bool-cases (id == j)) [
      | inr other ↦ rw (c.rows_after s id p f j, other) refl
      | inl same ↦
          rw (c.rows_after s id p f j, same)
            (kept (row_at c s id) h ∙ ap (row_at c s) ((eq_iff id j).0 same))
    ]
      where
        kept : (o : Option PlanningJobDoc) → matches p o ≡ false → left_row p f o ≡ o
        kept none h = refl
        kept (some d) h = rw h

  -- The status of a job, in whatever store its row has come to.
  abbrev pub HasRank : Store → String → ℕ → Type 0
  HasRank s id n = (d : PlanningJobDoc) × (row_at c s id ≡ some d) × (n ≤ rank d.status)

  pub Steps-HasRank :
      {s t : Store} (id : String) (n : ℕ) → Steps c s t → HasRank s id n → HasRank t id n
  Steps-HasRank id n st (d, at_d, h) =
      let (e, at_e, de) = Steps-Evolves c st id d at_d in (e, at_e, omega (arith, de.forward))

  past_gathering :
      (o : Option PlanningJobDoc) (d : PlanningJobDoc)
      → o ≡ some d
      → 2 ≤ rank d.status
      → matches (λ r. is_gathering r.status) o ≡ false
  past_gathering o d e h = rw e (ground arith)

  past_pending :
      (o : Option PlanningJobDoc) (d : PlanningJobDoc)
      → o ≡ some d
      → 1 ≤ rank d.status
      → matches (λ r. is_pending r.status) o ≡ false
  past_pending o d e h = rw e (ground arith)

  -- How a job leaves `gathering`: claimed for planning, or failed by a chunk or by the timeout.
  pub data LeavesGathering (id : String) (s t : Store) : Type 0 where
    to_planning :
        (context : Fields) (job : PlanningJob)
        → (claim_for_planning c id context s).0 ≡ some job
        → t ≡ (claim_for_planning c id context s).1
        → LeavesGathering id s t
    to_failed :
        (patch : GatherFailure) (now : ℕ) (job : PlanningJob)
        → (fail_if_still_gathering c id patch now s).0 ≡ some job
        → t ≡ (fail_if_still_gathering c id patch now s).1
        → LeavesGathering id s t

  pub LeavesGathering-HasRank :
      {id : String} {s t : Store} → LeavesGathering id s t → HasRank t id 2
  unfolding claim_for_planning fail_if_still_gathering
  LeavesGathering-HasRank {id} {s} (to_planning context job h p) =
      let (d, at_d, ok, is_job, at_t) = update_wins s id _ _ job h in rw p (_, at_t, omega arith)
  LeavesGathering-HasRank {id} {s} (to_failed patch now job h p) =
      let (d, at_d, ok, is_job, at_t) = update_wins s id _ _ job h in rw p (_, at_t, omega arith)

  -- A job past `gathering` is claimed for planning or failed by no one.
  pub late_for_gathering :
      (id : String) (u : Store)
      → HasRank u id 2
      → ((context : Fields) → (claim_for_planning c id context u).0 ≡ none)
        × ((patch : GatherFailure) (now : ℕ) → (fail_if_still_gathering c id patch now u).0 ≡ none)
  unfolding claim_for_planning fail_if_still_gathering
  late_for_gathering id u (d, at_d, far) =
      let missed = past_gathering _ d at_d far in
      (λ context. update_loses u id _ _ missed, λ patch now. update_loses u id _ _ missed)

  -- Of all the terminal chunks and timeouts that race for one job, only one wins: once a job has left
  -- `gathering`, every later claim for planning and every later failure finds nothing, whatever
  -- steps lie between.
  pub one_winner :
      (id : String) (s t u : Store)
      → LeavesGathering id s t
      → Steps c t u
      → (context : Fields) (patch : GatherFailure) (now : ℕ)
      → ((claim_for_planning c id context u).0 ≡ none)
        × ((fail_if_still_gathering c id patch now u).0 ≡ none)
  one_winner id s t u left later context patch now =
      let (no_claim, no_failure) =
        late_for_gathering id u (Steps-HasRank id 2 later (LeavesGathering-HasRank left)) in
      (no_claim context, no_failure patch now)

  -- How a worker claims a job: for the in-process path, or for the queue transport.
  pub data LeavesPending (id : String) (s t : Store) : Type 0 where
    to_running :
        (now : ℕ) (job : PlanningJob)
        → (claim_for_processing c id now s).0 ≡ some job
        → t ≡ (claim_for_processing c id now s).1
        → LeavesPending id s t
    to_gathering :
        (now : ℕ) (job : PlanningJob)
        → (claim_for_gathering c id now s).0 ≡ some job
        → t ≡ (claim_for_gathering c id now s).1
        → LeavesPending id s t

  pub LeavesPending-HasRank : {id : String} {s t : Store} → LeavesPending id s t → HasRank t id 1
  unfolding claim_for_processing claim_for_gathering
  LeavesPending-HasRank {id} {s} (to_running now job h p) =
      let (d, at_d, ok, is_job, at_t) = update_wins s id _ _ job h in rw p (_, at_t, omega arith)
  LeavesPending-HasRank {id} {s} (to_gathering now job h p) =
      let (d, at_d, ok, is_job, at_t) = update_wins s id _ _ job h in rw p (_, at_t, omega arith)

  -- A job is started once: after one worker has claimed it, no retry of the queue and no other
  -- worker claims it again, on either path, whatever steps lie between.
  pub one_start :
      (id : String) (s t u : Store)
      → LeavesPending id s t
      → Steps c t u
      → (now : ℕ)
      → ((claim_for_processing c id now u).0 ≡ none) × ((claim_for_gathering c id now u).0 ≡ none)
  unfolding claim_for_processing claim_for_gathering
  one_start id s t u left later now =
      let (d, at_d, far) = Steps-HasRank id 1 later (LeavesPending-HasRank left) in
      let missed = past_pending _ d at_d far in
      (update_loses u id _ _ missed, update_loses u id _ _ missed)
