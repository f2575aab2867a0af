-- ===== src/Context/Submit/Orphans.antt =====
-- Submission leaves no job behind that is pending and that no one was told about.
use mathlib.Core.Bool.{false≢true}
use memoflow_api.Prelude.{
  ℕ, String, ◌≡◌, refl, sym, ap, ◌∙◌, Bool, true, Option, none, some, List, [], ◌∷◌, ◌⊎◌, inl, inr,
  ◌==◌, eq_iff, if◌then◌else◌, Bool-cases, arith,
}
use memoflow_api.Exec.{Result, ok, err, pure, throw, attempt, ◌>>=◌}
use memoflow_api.Exec.Within.{
  Preorder, Within, Within-pure, Within-throw, Within-attempt, Within-bind, Within-if,
}
use memoflow_api.Exec.Errors.{Failure}
use memoflow_api.Context.Job.{PlanningJob, PlanningJobDoc, is_pending, failed}
use memoflow_api.Context.Collection.{Collection, left_row}
use memoflow_api.Context.Repository.{
  CreatePlanningJobData, create_job, update_status, to_update_doc, to_domain, new_row,
  UpdatePlanningJobStatusData,
}
use memoflow_api.Context.Repository.Steps.{row_at}
use memoflow_api.Context.Ports.{
  Ports, World, M, Call, port, query, now, Document, Section, checked_quota, enqueued,
}
use memoflow_api.Context.Process.{failure_patch}
use memoflow_api.Context.Claimed.Ends.{IsUp}
use memoflow_api.Context.ResultChunk.Refusals.{query_answers}
use memoflow_api.Context.Submit.{
  SubmitPlanningJobInput, submit_job, resolve_and_validate_binding, bound_document, document_of,
  check_document, check_owner, check_connectors, check_quota, quota_answer, after_enqueue,
  requested, enqueue_failed_code, enqueue_failed_message,
}

module _ (c : Collection) (p : Ports) where
  abbrev Kept : World c.Store p.Env → World c.Store p.Env → Type 0
  Kept v w = w.store ≡ v.store

  Kept-order : Preorder Kept
  Kept-order = record { stay = λ w. refl; step = λ u v w r s. s ∙ r }

  abbrev Keeps : {A : Type 0} → M c p A → Type 0
  Keeps m = Within Kept m

  module _ {A : Type 0} where
    Keeps-port : (call : Call) (f : p.Env → Result A × p.Env) → Keeps (port c p call f)
    unfolding port
    Keeps-port call f = record { at = λ w. refl }

    Keeps-pure : (a : A) → Keeps (pure a)
    Keeps-pure a = Within-pure Kept-order a

    Keeps-throw : (e : Failure) → Keeps (throw {A = A} e)
    Keeps-throw e = Within-throw Kept-order e

    Keeps-attempt : (m : M c p A) → Keeps m → Keeps (attempt m)
    Keeps-attempt m h = Within-attempt Kept-order m h

    Keeps-if : (b : Bool) (m n : M c p A) → Keeps m → Keeps n → Keeps (if b then m else n)
    Keeps-if b m n h k = Within-if b m n h k

  module _ {A B : Type 0} where
    Keeps-bind :
        (m : M c p A) (f : A → M c p B) → Keeps m → ((a : A) → Keeps (f a)) → Keeps (m >>= f)
    Keeps-bind m f h k = Within-bind Kept-order m f h k

  Keeps-now : Keeps (now c p)
  unfolding now
  Keeps-now = record { at = λ w. refl }

ruleset keeping =
    (Keeps-port, Keeps-pure, Keeps-throw, Keeps-attempt, Keeps-if, Keeps-bind, Keeps-now)

module _ (c : Collection) (p : Ports) where
  check_document-Keeps :
      (user_id : String) (o : Option String) → Keeps c p (check_document c p user_id o)
  check_document-Keeps user_id none = search keeping
  check_document-Keeps user_id (some id) = search (keeping, check_owner-Keeps)
    where
      check_owner-Keeps : (o : Option Document) → Keeps c p (check_owner c p user_id id o)
      check_owner-Keeps none = search keeping
      check_owner-Keeps (some d) = search keeping

  document_of-Keeps :
      (id : String) (o : Option String) (s : Option Section) → Keeps c p (document_of c p id o s)
  document_of-Keeps id none none = search keeping
  document_of-Keeps id (some d) none = search keeping
  document_of-Keeps id none (some s) = search keeping
  document_of-Keeps id (some d) (some s) = search keeping

  bound_document-Keeps : (unchanged o : Option String) → Keeps c p (bound_document c p unchanged o)
  bound_document-Keeps unchanged none = search keeping
  bound_document-Keeps unchanged (some id) = search (keeping, document_of-Keeps)

  binding-Keeps :
      (input : SubmitPlanningJobInput) → Keeps c p (resolve_and_validate_binding c p input)
  unfolding resolve_and_validate_binding
  binding-Keeps input = search (keeping, check_document-Keeps, bound_document-Keeps)

  check_connectors-Keeps :
      (user_id : String) (names : List String) → Keeps c p (check_connectors c p user_id names)
  check_connectors-Keeps user_id [] = search keeping
  check_connectors-Keeps user_id (name ∷ names) = search keeping

  check_quota-Keeps : (user_id : String) → Keeps c p (check_quota c p user_id)
  unfolding check_quota
  check_quota-Keeps user_id = record { at = λ w. (asked (p.is_available w.env)).at w }
    where
      quota_answer-Keeps : (r : Result (Unit {0})) → Keeps c p (quota_answer c p r)
      quota_answer-Keeps (ok u) = search keeping
      quota_answer-Keeps (err e) = search keeping

      asked :
          (available : Bool)
          → Keeps c p (
              if available
              then attempt (port c p (checked_quota user_id) (p.check_quota user_id))
                >>= quota_answer c p
              else pure tt)
      asked available = search (keeping, quota_answer-Keeps)

  -- The answer names the job.
  abbrev pub Answers : Result PlanningJob → String → Type 0
  Answers (ok job) id = job.id ≡ id
  Answers (err e) id = ⊥

  -- Every pending job of the store was in the store before, or is the answer.
  abbrev Told : c.Store → Result PlanningJob → c.Store → Type 0
  Told before r after =
      (id : String) (d : PlanningJobDoc)
      → row_at c after id ≡ some d
      → is_pending d.status ≡ true
      → (row_at c before id ≡ some d) ⊎ Answers r id

  module _ {A : Type 0} where
    Told-after :
        (m : M c p A) (f : A → M c p PlanningJob)
        → Keeps c p m
        → ((a : A) (v : World c.Store p.Env) → Told v.store (f a v).0 (f a v).1.store)
        → (w : World c.Store p.Env) → Told w.store ((m >>= f) w).0 ((m >>= f) w).1.store
    unfolding ◌>>=◌
    Told-after m f kept told w = by_result (m w).0 (m w).1 (kept.at w)
      where
        by_result :
            (r : Result A) (v : World c.Store p.Env)
            → v.store ≡ w.store
            → Told w.store
                (◌>>=◌ (λ (u : World c.Store p.Env). (r, u)) f v).0
                (◌>>=◌ (λ (u : World c.Store p.Env). (r, u)) f v).1.store
        by_result (ok a) v same id d at_d is = rw (← same) (told a v id d at_d is)
        by_result (err e) v same id d at_d is = inl (rw (← same) at_d)

  abbrev create_and_enqueue : CreatePlanningJobData → ℕ → M c p PlanningJob
  create_and_enqueue given_data time = do
    created ← query c p (create_job c given_data time)
    sent ←
        attempt
          (port c p (enqueued created.id created.user_id) (p.enqueue created.id created.user_id))
    after_enqueue c p created sent

  module _ (up : IsUp p) where
    left-status :
        (patch : UpdatePlanningJobStatusData) (o : Option PlanningJobDoc) (d : PlanningJobDoc)
        → left_row (λ x. true) (to_update_doc patch) o ≡ some d
        → d.status ≡ patch.status
    unfolding to_update_doc
    left-status patch none d h = cc
    left-status patch (some x) d h = ground arith

    -- After an update that fails the created job, what is pending was there before.
    failed_row :
        (s t : c.Store) (created : PlanningJob) (patch : UpdatePlanningJobStatusData)
        → patch.status ≡ failed
        → ((id : String) (d : PlanningJobDoc)
            → row_at c t id ≡ some d
            → (row_at c s id ≡ some d) ⊎ (created.id ≡ id))
        → (id : String) (d : PlanningJobDoc)
        → row_at c (update_status c created.id patch t).1 id ≡ some d
        → is_pending d.status ≡ true
        → row_at c s id ≡ some d
    unfolding update_status to_update_doc
    failed_row s t created patch is_failed near id d at_d is =
        elim (Bool-cases (created.id == id)) [
          | inr other ↦
              let at_t =
                rw (c.rows_after t created.id (λ x. true) (to_update_doc patch) id, other) at
                  at_d in
              elim (near id d at_t) [
                | inl h ↦ h
                | inr e ↦ absurd (false≢true (sym other ∙ (eq_iff _ _).1 e))
              ]
          | inl same ↦
              let left =
                rw (c.rows_after t created.id (λ x. true) (to_update_doc patch) id, same) at at_d in
              let ended : d.status ≡ failed = left-status patch _ d left ∙ is_failed in
              absurd (false≢true (ap is_pending (sym ended) ∙ is))
        ]

    after_enqueue-Told :
        (s : c.Store) (created : PlanningJob) (r : Result (Unit {0})) (w : World c.Store p.Env)
        → ((id : String) (d : PlanningJobDoc)
            → row_at c w.store id ≡ some d
            → (row_at c s id ≡ some d) ⊎ (created.id ≡ id))
        → Told s (after_enqueue c p created r w).0 (after_enqueue c p created r w).1.store
    unfolding pure throw attempt now ◌>>=◌ failure_patch
    after_enqueue-Told s created (ok u) w near id d at_d is = near id d at_d
    after_enqueue-Told s created (err e) w near id d at_d is =
        let patch =
          failure_patch enqueue_failed_code enqueue_failed_message (some (p.clock w.env).0) none
            none in
        let v = record w { env = (p.clock w.env).1 } in
        let left = rw (query_answers c p (update_status c created.id patch) v (up _)) at at_d in
        inl (failed_row s w.store created patch refl near id d left is)

    created_rows :
        (given_data : CreatePlanningJobData) (time : ℕ) (s : c.Store) (id : String)
        (d : PlanningJobDoc)
        → row_at c (create_job c given_data time s).1 id ≡ some d
        → (row_at c s id ≡ some d) ⊎ ((create_job c given_data time s).0.id ≡ id)
    unfolding create_job to_domain
    created_rows given_data time s id d h =
        elim (Bool-cases ((c.create s (new_row given_data time)).0 == id)) [
          | inl same ↦ inr ((eq_iff _ _).0 same)
          | inr other ↦ inl (rw (c.rows_created s (new_row given_data time) id, other) at h)
        ]

    -- From the creation of the row on.
    created-Told :
        (given_data : CreatePlanningJobData) (time : ℕ) (w : World c.Store p.Env)
        → Told w.store
            (create_and_enqueue given_data time w).0
            (create_and_enqueue given_data time w).1.store
    unfolding ◌>>=◌ port attempt
    created-Told given_data time w =
        rw (query_answers c p (create_job c given_data time) w (up _)) (
          after_enqueue-Told w.store (create_job c given_data time w.store).0 _ _
            (λ id d h. created_rows given_data time w.store id d h))

    -- With a database that answers, after a submission every pending job of the collection was there
    -- before with the same row, or is the job that the caller was given: a job that could not be queued
    -- is not left pending, whatever the checks, the quota and the queue do.
    pub submit_job-no_orphans :
        (input : SubmitPlanningJobInput) (w : World c.Store p.Env) (id : String)
        (d : PlanningJobDoc)
        → row_at c (submit_job c p input w).1.store id ≡ some d
        → is_pending d.status ≡ true
        → (row_at c w.store id ≡ some d) ⊎ Answers (submit_job c p input w).0 id
    unfolding submit_job
    submit_job-no_orphans input w =
        Told-after _ _ (binding-Keeps input)
          (λ binding.
            Told-after _ _ (check_connectors-Keeps input.user_id (requested input.connectors)) (λ u.
              Told-after _ _ (check_quota-Keeps input.user_id)
                (λ t. Told-after _ _ (Keeps-now c p) (λ time v. created-Told _ time v))))
          w
