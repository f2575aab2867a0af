-- ===== src/Context/Claimed/Consent.antt =====
-- No retrieval and no provider call for a user who is gone, disabled or without consent.
use memoflow_api.Prelude.{
  String, ◌≡◌, refl, ap, ◌∙◌, Bool, true, false, not, ◌&&◌, Option, none, some, ◌∷◌, arith,
  if◌then◌else◌,
}
use memoflow_api.Exec.{Result, ok, err, pure, attempt, ◌>>=◌}
use memoflow_api.Exec.Errors.{Failure, job_user_inactive, job_consent_required}
use memoflow_api.Users.{User, is_disabled, has_current_ai_consent}
use memoflow_api.Context.Json.{Fields}
use memoflow_api.Context.Job.{PlanningJob}
use memoflow_api.Context.Collection.{Collection}
use memoflow_api.Context.Ports.{
  Ports, World, M, query, run_query, port, now, Prompt, ResolvedPlanningPrompt,
  PreparedPlanningContext, ValidatedPlanningResult, looked_up_user, looked_up_prompt, prepared_for,
}
use memoflow_api.Context.Prompt.{
  user_inactive_message, ai_consent_required_message, check_user, assert_job_user_active,
  resolve_planning_prompt,
}
use memoflow_api.Context.Claimed.{Attempted, try_planning, record_outcome, run_claimed_planning}

-- The lookup found a user who is enabled and has current consent.
unfoldable pub admits : Result (Option User) → Bool
admits (ok (some u)) = not (is_disabled u) && has_current_ai_consent u
admits (ok none) = false
admits (err e) = false

module _ (c : Collection) (p : Ports) where
  module _ {A : Type 0} where
    -- A query makes no call on another port.
    pub calls-query :
        (f : c.Store → A × c.Store) (w : World c.Store p.Env) → (query c p f w).1.calls ≡ w.calls
    unfolding query
    calls-query f w = ran (p.driver w.env).0 (p.driver w.env).1
      where
        ran : (r : Result (Unit {0})) (env : p.Env) → (run_query c p f (r, env) w).1.calls ≡ w.calls
        ran (ok u) env = refl
        ran (err e) env = refl

  module _ {A B : Type 0} where
    -- A continuation that only computes keeps the calls.
    calls-then_pure :
        (m : M c p A) (f : A → B) (w : World c.Store p.Env)
        → ((m >>= λ a. pure (f a)) w).1.calls ≡ (m w).1.calls
    unfolding ◌>>=◌
    calls-then_pure m f w = by_result (m w).0 (m w).1
      where
        by_result :
            (r : Result A) (v : World c.Store p.Env)
            → (◌>>=◌ (λ (u : World c.Store p.Env). (r, u)) (λ a. pure (f a)) v).1.calls ≡ v.calls
        by_result (ok a) v = refl
        by_result (err e) v = refl

  -- The world after the check of a user: one lookup, whatever it answers.
  abbrev pub after_check : String → World c.Store p.Env → World c.Store p.Env
  after_check id w = record w {
    env = (p.find_user id w.env).1;
    calls = looked_up_user id ∷ w.calls;
  }

  check_user-world : (o : Option User) (w : World c.Store p.Env) → (check_user c p o w).1 ≡ w
  unfolding ◌>>=◌
  check_user-world none w = refl
  check_user-world (some u) w = ground arith

  resumed-world :
      (r : Result (Option User)) (w : World c.Store p.Env)
      → (◌>>=◌ (λ (v : World c.Store p.Env). (r, v)) (check_user c p) w).1 ≡ w
  unfolding ◌>>=◌
  resumed-world (ok o) w = check_user-world o w
  resumed-world (err e) w = refl

  pub assert-world :
      (id : String) (w : World c.Store p.Env)
      → (assert_job_user_active c p id w).1 ≡ after_check id w
  unfolding assert_job_user_active port ◌>>=◌
  assert-world id w = resumed-world (p.find_user id w.env).0 _

  resumed-result :
      (r : Result (Option User)) (w : World c.Store p.Env)
      → (admits r ≡ true
          → (◌>>=◌ (λ (v : World c.Store p.Env). (r, v)) (check_user c p) w).0 ≡ ok tt)
        × (admits r ≡ false
            → (e : Failure) × ((◌>>=◌ (λ (v : World c.Store p.Env). (r, v)) (check_user c p) w).0
                ≡ err e))
  unfolding ◌>>=◌ admits
  resumed-result (ok none) w = (λ h. cc, λ h. (job_user_inactive user_inactive_message, refl))
  resumed-result (ok (some u)) w = (
    λ h. ground arith,
    λ h. (
      if is_disabled u
          then job_user_inactive user_inactive_message
          else job_consent_required ai_consent_required_message,
      ground arith,
    ),
  )
  resumed-result (err e) w = (λ h. cc, λ h. (e, refl))

  -- The check passes exactly for an admitted user.
  pub assert-result :
      (id : String) (w : World c.Store p.Env)
      → (admits (p.find_user id w.env).0 ≡ true → (assert_job_user_active c p id w).0 ≡ ok tt)
        × (admits (p.find_user id w.env).0 ≡ false
            → (e : Failure) × ((assert_job_user_active c p id w).0 ≡ err e))
  unfolding assert_job_user_active port ◌>>=◌
  assert-result id w = resumed-result (p.find_user id w.env).0 _

  module _ (builtin : ResolvedPlanningPrompt) where
    record_outcome-calls :
        (claimed : PlanningJob) (version : Option String) (context : Fields)
        (r : Result ValidatedPlanningResult) (w : World c.Store p.Env)
        → (record_outcome c p builtin claimed version context r w).1.calls ≡ w.calls
    unfolding now ◌>>=◌
    record_outcome-calls claimed version context (err e) w =
        calls-then_pure (query c p _) _ _ ∙ calls-query _ _
    record_outcome-calls claimed version context (ok r) w =
        calls-then_pure (query c p _) _ _ ∙ calls-query _ _

    -- Recording the outcome calls no other port.
    run-calls :
        (claimed : PlanningJob) (context : Fields) (w : World c.Store p.Env)
        → (run_claimed_planning c p builtin claimed context w).1.calls
          ≡ (try_planning c p builtin claimed context w).1.calls
    unfolding run_claimed_planning ◌>>=◌
    run-calls claimed context w =
        by_result (try_planning c p builtin claimed context w).0
          (try_planning c p builtin claimed context w).1
      where
        by_result :
            (r : Result Attempted) (v : World c.Store p.Env)
            → (◌>>=◌
                (λ (u : World c.Store p.Env). (r, u))
                (λ a. record_outcome c p builtin claimed a.prompt_version a.context_used a.result)
                v).1.calls
              ≡ v.calls
        by_result (ok a) v = record_outcome-calls claimed a.prompt_version a.context_used a.result v
        by_result (err e) v = refl

    -- When the prompt lookup returns and the user is found gone, disabled or without current consent, or
    -- cannot be looked up, planning a claimed job calls no port after these two lookups: nothing is
    -- retrieved and no provider runs.
    pub refused_user_is_not_planned :
        (claimed : PlanningJob) (context : Fields) (w : World c.Store p.Env)
        (active : Option Prompt)
        → (p.find_active_prompt w.env).0 ≡ ok active
        → admits (p.find_user claimed.user_id (p.find_active_prompt w.env).1).0 ≡ false
        → (run_claimed_planning c p builtin claimed context w).1.calls
          ≡ looked_up_user claimed.user_id ∷ looked_up_prompt ∷ w.calls
    unfolding try_planning resolve_planning_prompt port attempt ◌>>=◌
    refused_user_is_not_planned claimed context w active h refused =
        let v = record w {
          env = (p.find_active_prompt w.env).1;
          calls = looked_up_prompt ∷ w.calls;
        } in
        let (e, failed) = (assert-result claimed.user_id v).1 refused in
        run-calls claimed context w
        ∙ (rw (h, failed)
            (ap (λ (u : World c.Store p.Env). u.calls) (assert-world claimed.user_id v)))

    -- The environment after the prompt and the user were looked up.
    abbrev first_look : PlanningJob → World c.Store p.Env → p.Env
    first_look claimed w = (p.find_user claimed.user_id (p.find_active_prompt w.env).1).1

    -- When the prompt lookup and retrieval return, and the user passes the first check but not the second
    -- one after retrieval (consent withdrawn, disabled, deleted, or the lookup fails), the calls are the
    -- prompt, the user, retrieval and the user again: no provider runs.
    pub withdrawn_user_is_not_planned :
        (claimed : PlanningJob) (context : Fields) (w : World c.Store p.Env)
        (active : Option Prompt) (prepared : PreparedPlanningContext)
        → (p.find_active_prompt w.env).0 ≡ ok active
        → admits (p.find_user claimed.user_id (p.find_active_prompt w.env).1).0 ≡ true
        → (p.prepare claimed context (first_look claimed w)).0 ≡ ok prepared
        → admits
            (p.find_user claimed.user_id (p.prepare claimed context (first_look claimed w)).1).0
          ≡ false
        → (run_claimed_planning c p builtin claimed context w).1.calls
          ≡ looked_up_user claimed.user_id
            ∷ prepared_for claimed.user_id
            ∷ looked_up_user claimed.user_id
            ∷ looked_up_prompt
            ∷ w.calls
    unfolding try_planning resolve_planning_prompt port attempt ◌>>=◌
    withdrawn_user_is_not_planned claimed context w active prepared h admitted found refused =
        let v : World c.Store p.Env = record w {
          env = (p.find_active_prompt w.env).1;
          calls = looked_up_prompt ∷ w.calls;
        } in
        let first = (assert-result claimed.user_id v).0 admitted in
        let u : World c.Store p.Env = record v {
          env = (p.prepare claimed context (p.find_user claimed.user_id v.env).1).1;
          calls = prepared_for claimed.user_id ∷ looked_up_user claimed.user_id ∷ v.calls;
        } in
        let (e, failed) = (assert-result claimed.user_id u).1 refused in
        run-calls claimed context w
        ∙ (rw (h, first, assert-world claimed.user_id v, found, failed)
            (ap (λ (t : World c.Store p.Env). t.calls) (assert-world claimed.user_id u)))
