-- ===== src/Context/ResultChunk/Once.antt =====
-- A job is finalized by one chunk at most.
use memoflow_api.Prelude.{ℕ, String, ◌≡◌, refl, sym, ◌∙◌, Option, none, some, arith, inl, inr, ◌⊎◌}
use memoflow_api.Exec.{Exec, Result, ok, err, pure, ◌>>=◌}
use memoflow_api.Context.Json.{Fields}
use memoflow_api.Context.Job.{PlanningJob}
use memoflow_api.Context.Chunk
use memoflow_api.Context.Chunk.{
  ContextResultChunk, ChunkPhase, ChunkStatus, ChunkBody, data_body, status_body, is_terminal_phase,
}
use memoflow_api.Context.Collection.{Collection}
use memoflow_api.Context.Repository.{claim_for_planning, fail_if_still_gathering, GatherFailure}
use memoflow_api.Context.Repository.Races.{
  HasRank, Steps-HasRank, to_planning, to_failed, LeavesGathering-HasRank, late_for_gathering,
}
use memoflow_api.Context.Ports.{Ports, World, query, run_query, now, ResolvedPlanningPrompt}
use memoflow_api.Context.Traces.Handlers.{plan_claimed-Stepwise}
use memoflow_api.Context.ResultChunk.{
  plan_claimed, finalize_completed, finalize_failed, finalize, assemble_context, allowed_code,
  context_engine_failed_message,
}

-- What an action that returns may have done: `P` of the world before, the value and the world after.
abbrev pub Post : {W A : Type 0} → Exec W A → W → (A → W → Type 0) → Type 0
Post {A} m w P = (a : A) → (m w).0 ≡ ok a → P a (m w).1

module _ {W A B : Type 0} where
  -- A bind that returned ran both of its parts.
  pub Post-bind :
      (m : Exec W A) (f : A → Exec W B) (w : W) (P : B → W → Type 0)
      → ((a : A) → (m w).0 ≡ ok a → (b : B) → (f a (m w).1).0 ≡ ok b → P b (f a (m w).1).1)
      → (b : B) → ((m >>= f) w).0 ≡ ok b
      → P b ((m >>= f) w).1
  unfolding ◌>>=◌
  Post-bind m f w P h = by_result (m w).0 (m w).1 h
    where
      by_result :
          (r : Result A) (v : W)
          → ((a : A) → r ≡ ok a → (b : B) → (f a v).0 ≡ ok b → P b (f a v).1)
          → (b : B) → (◌>>=◌ (λ (u : W). (r, u)) f v).0 ≡ ok b
          → P b (◌>>=◌ (λ (u : W). (r, u)) f v).1
      by_result (ok a) v k b e = k a refl b e
      by_result (err x) v k b e = cc

module _ (c : Collection) (p : Ports) where
  -- A query that returned ran its operation.
  pub query_ran :
      {A : Type 0} (f : c.Store → A × c.Store) (w : World c.Store p.Env) (a : A)
      → (query c p f w).0 ≡ ok a
      → (a ≡ (f w.store).0) × ((query c p f w).1.store ≡ (f w.store).1)
  unfolding query
  query_ran {A} f w a h = ran (p.driver w.env).0 (p.driver w.env).1 h
    where
      ran :
          (r : Result (Unit {0})) (env : p.Env)
          → (run_query c p f (r, env) w).0 ≡ ok a
          → (a ≡ (f w.store).0) × ((run_query c p f (r, env) w).1.store ≡ (f w.store).1)
      ran (ok u) env e = (ground arith, refl)
      ran (err x) env e = cc

  -- A claim that won, or a failure that was written, left the job past `gathering`.
  claim-HasRank :
      (id : String) (context : Fields) (w : World c.Store p.Env) (a : Option PlanningJob)
      (job : PlanningJob)
      → (query c p (claim_for_planning c id context) w).0 ≡ ok a
      → a ≡ some job
      → HasRank c (query c p (claim_for_planning c id context) w).1.store id 2
  claim-HasRank id context w a job h e =
      let (was, is) = query_ran (claim_for_planning c id context) w a h in
      LeavesGathering-HasRank c (to_planning context job (sym was ∙ e) is)

  fail-HasRank :
      (id : String) (patch : GatherFailure) (time : ℕ) (w : World c.Store p.Env)
      (a : Option PlanningJob) (job : PlanningJob)
      → (query c p (fail_if_still_gathering c id patch time) w).0 ≡ ok a
      → a ≡ some job
      → HasRank c (query c p (fail_if_still_gathering c id patch time) w).1.store id 2
  fail-HasRank id patch time w a job h e =
      let (was, is) = query_ran (fail_if_still_gathering c id patch time) w a h in
      LeavesGathering-HasRank c (to_failed patch time job (sym was ∙ e) is)

  module _ (builtin : ResolvedPlanningPrompt) where
    -- The job was finalized by this call, and its row is past `gathering`; or it was not.
    abbrev pub Settles : String → Option PlanningJob → World c.Store p.Env → Type 0
    Settles id o v = (o ≡ none) ⊎ HasRank c v.store id 2

    plan_claimed-Settles :
        (id : String) (context : Fields) (a : Option PlanningJob) (v : World c.Store p.Env)
        → ((job : PlanningJob) → a ≡ some job → HasRank c v.store id 2)
        → (b : Option PlanningJob) → (plan_claimed c p builtin context a v).0 ≡ ok b
        → Settles id b (plan_claimed c p builtin context a v).1
    unfolding pure
    plan_claimed-Settles id context none v k b h = inl (ground arith)
    plan_claimed-Settles id context (some job) v k b h = inr (
        Steps-HasRank c id 2 ((plan_claimed-Stepwise c p builtin context (some job)).at v)
          (k job refl))

    finalize_completed-Settles :
        (job : PlanningJob) (w : World c.Store p.Env)
        → Post (finalize_completed c p builtin job) w (Settles job.id)
    unfolding finalize_completed
    finalize_completed-Settles job w =
        Post-bind (query c p _) _ w (Settles job.id) (λ a ran b planned.
          plan_claimed-Settles job.id _ a _ (λ claimed e. claim-HasRank job.id _ w a claimed ran e)
            b planned)

    finalize_failed-Settles :
        (job : PlanningJob) (s : ChunkStatus) (w : World c.Store p.Env)
        → Post (finalize_failed c p builtin job s) w (Settles job.id)
    unfolding finalize_failed
    finalize_failed-Settles job s w =
        Post-bind (now c p) _ w (Settles job.id) (λ time ticked a ran. by_answer time a ran)
      where
        by_answer :
            (time : ℕ) (a : Option PlanningJob)
            → (query c p
                (fail_if_still_gathering c job.id
                  (record {
                    error_code = allowed_code s.error_code;
                    error_message = context_engine_failed_message;
                  })
                  time)
                (now c p w).1).0
              ≡ ok a
            → Settles job.id a
                (query c p
                  (fail_if_still_gathering c job.id
                    (record {
                      error_code = allowed_code s.error_code;
                      error_message = context_engine_failed_message;
                    })
                    time)
                  (now c p w).1).1
        by_answer time none ran = inl refl
        by_answer time (some failed) ran =
            inr (fail-HasRank job.id _ time _ (some failed) failed ran refl)

    pub finalize-Settles :
        (phase : ChunkPhase) (s : ChunkStatus) (job : PlanningJob) (w : World c.Store p.Env)
        → Post (finalize c p builtin phase s job) w (Settles job.id)
    finalize-Settles Chunk.completed s job w = finalize_completed-Settles job w
    finalize-Settles _ s job w = finalize_failed-Settles job s w

    -- A job that is past `gathering` already is finalized by no one.
    finalize_completed_late :
        (job : PlanningJob) (w : World c.Store p.Env)
        → HasRank c w.store job.id 2
        → Post (finalize_completed c p builtin job) w (λ o v. o ≡ none)
    unfolding finalize_completed
    finalize_completed_late job w late =
        Post-bind (query c p _) _ w (λ o v. o ≡ none)
          (λ a ran b planned. no_claim a (lost a ran) _ b planned)
      where
        lost :
            (a : Option PlanningJob)
            → (query c p (claim_for_planning c job.id (assemble_context job.data_chunks)) w).0
              ≡ ok a
            → a ≡ none
        lost a ran = (query_ran _ w a ran).0 ∙ (late_for_gathering c job.id w.store late).0 _

        no_claim :
            (a : Option PlanningJob)
            → a ≡ none
            → (v : World c.Store p.Env) (b : Option PlanningJob)
            → (plan_claimed c p builtin (assemble_context job.data_chunks) a v).0 ≡ ok b
            → b ≡ none
        no_claim none e v b h = unfold pure in ground arith
        no_claim (some claimed) e v b h = cc

    finalize_failed_late :
        (job : PlanningJob) (s : ChunkStatus) (w : World c.Store p.Env)
        → HasRank c w.store job.id 2
        → Post (finalize_failed c p builtin job s) w (λ o v. o ≡ none)
    unfolding finalize_failed now
    finalize_failed_late job s w late =
        Post-bind (now c p) _ w (λ o v. o ≡ none)
          (λ time ticked a ran.
            (query_ran _ _ a ran).0 ∙ (late_for_gathering c job.id w.store late).1 _ time)

    pub finalize_late :
        (phase : ChunkPhase) (s : ChunkStatus) (job : PlanningJob) (w : World c.Store p.Env)
        → HasRank c w.store job.id 2
        → Post (finalize c p builtin phase s job) w (λ o v. o ≡ none)
    finalize_late Chunk.completed s job w late = finalize_completed_late job w late
    finalize_late _ s job w late = finalize_failed_late job s w late
