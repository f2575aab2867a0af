-- ===== src/Gateway/Metered.antt =====
-- Every request is granted by the hook first, and there are few of them.
use memoflow_api.Prelude.{
  ℕ, zero, suc, ◌+◌, ◌≤◌, ◌≡◌, refl, Bool, true, false, Option, none, some, List, leb, length,
  arith, if◌then◌else◌, Bool-cases, inl, inr,
}
use memoflow_api.Text.{Text}
use memoflow_api.Exec.{Result, ok, err}
use memoflow_api.Exec.Errors.{generator_unavailable}
use memoflow_api.Gateway.{
  GatewayConfig, ChatMessage, LlmCompletionRequest, RawCompletion, Attempted, completed, failed,
  thrown, AttemptFailure, Retry, rate_limit, transient, no_retry,
}
use memoflow_api.Gateway.Answer.{sum_usage}
use memoflow_api.Gateway.Retries.{
  max_retries, GatewayPorts, G, at_time, attempt, when_granted, retry_delay_ms, retried, concluded,
  exhausted, call_with_retries, slept,
}
use memoflow_api.Gateway.Complete.{
  complete, called, after_first, read_first, repair, repaired, repaired_value, repair_messages,
  first_messages,
}

module _ (p : GatewayPorts) (config : GatewayConfig) where
  -- From one world to a later one, at most `n` requests were sent, each granted for itself.
  abbrev Within : ℕ → G p config → G p config → Type 0
  Within n w w' =
      (length w'.sent ≤ length w.sent + n)
      × (w'.granted + length w.sent ≡ w.granted + length w'.sent)

  attempt-Within :
      (request : LlmCompletionRequest) (messages : List ChatMessage) (deadline : ℕ) (w : G p config)
      → Within 1 w (attempt p config request messages deadline w).1
  unfolding attempt
  attempt-Within request messages deadline w =
      by_answer (p.before_attempt w.env).0 (record w { env = (p.before_attempt w.env).1 }) refl refl
    where
      by_answer :
          (r : Result (Unit {0})) (v : G p config)
          → v.sent ≡ w.sent
          → v.granted ≡ w.granted
          → Within 1 w (when_granted p config request messages deadline r v).1
      by_answer (err e) v same same' = rw (same, same') (omega arith, omega arith)
      by_answer (ok u) v same same' = rw (same, same') (omega arith, omega arith)

  -- The loop, with the retries before and after it.
  abbrev Spends : ℕ → G p config → (Result RawCompletion × ℕ) × G p config → Type 0
  Spends left w ((r, left'), w') =
      (length w'.sent + left' ≤ length w.sent + left + 1)
      × (w'.granted + length w.sent ≡ w.granted + length w'.sent)

  -- Waiting for a retry sends nothing.
  delay-sends_nothing :
      (retry : Retry) (deadline : ℕ) (w : G p config)
      → ((retry_delay_ms p config retry deadline w).1.sent ≡ w.sent)
        × ((retry_delay_ms p config retry deadline w).1.granted ≡ w.granted)
  unfolding retry_delay_ms
  delay-sends_nothing no_retry deadline w = (refl, refl)
  delay-sends_nothing (rate_limit none) deadline w = (refl, refl)
  delay-sends_nothing (rate_limit (some seconds)) deadline w = (refl, refl)
  delay-sends_nothing transient deadline w = (refl, refl)

  exhausted-Spends :
      (w : G p config) (a : Attempted) (v : G p config)
      → Within 1 w v
      → Spends 0 w (exhausted p config (a, v))
  exhausted-Spends w (completed raw) v h = (omega arith, h.1)
  exhausted-Spends w (failed f) v h = (omega arith, h.1)
  exhausted-Spends w (thrown e) v h = (omega arith, h.1)

  module _ (left : ℕ) (again : G p config → (Result RawCompletion × ℕ) × G p config)
      (spends : (v : G p config) → Spends left v (again v)) where
    retried-Spends :
        (w : G p config) (f : AttemptFailure) (o : Option ℕ) (v : G p config)
        → Within 1 w v
        → Spends (suc left) w (retried p config again (suc left) f (o, v))
    retried-Spends w f none v h = (omega arith, h.1)
    retried-Spends w f (some wait) v h =
        let (few, each) = spends (slept p config wait v) in (omega arith, omega arith)

    concluded-Spends :
        (w : G p config) (deadline : ℕ) (a : Attempted) (v : G p config)
        → Within 1 w v
        → Spends (suc left) w (concluded p config again (suc left) deadline (a, v))
    concluded-Spends w deadline (completed raw) v h = (omega arith, h.1)
    concluded-Spends w deadline (thrown e) v h = (omega arith, h.1)
    concluded-Spends w deadline (failed f) v h =
        let (same, same') = delay-sends_nothing f.retry deadline v in
        retried-Spends w f (retry_delay_ms p config f.retry deadline v).0
          (retry_delay_ms p config f.retry deadline v).1 (rw (same, same') h)

  call_with_retries-Spends :
      (request : LlmCompletionRequest) (messages : List ChatMessage) (deadline left : ℕ)
      (w : G p config)
      → Spends left w (call_with_retries p config request messages deadline left w)
  unfolding call_with_retries
  call_with_retries-Spends request messages deadline zero w =
      exhausted-Spends w (attempt p config request messages deadline w).0
        (attempt p config request messages deadline w).1
        (attempt-Within request messages deadline w)
  call_with_retries-Spends request messages deadline (suc left) w =
      concluded-Spends left (call_with_retries p config request messages deadline left)
        (call_with_retries-Spends request messages deadline left) w deadline
        (attempt p config request messages deadline w).0
        (attempt p config request messages deadline w).1
        (attempt-Within request messages deadline w)

module _ {J : Type 0} (read_json : Text → Option J) (p : GatewayPorts)
    (config : GatewayConfig) where
  -- From the world of a call, `n` requests at most.
  abbrev AtMost : ℕ → G p config → G p config → Type 0
  AtMost n w w' =
      (w'.granted + length w.sent ≡ w.granted + length w'.sent)
      × (length w'.sent ≤ length w.sent + n)

  repaired-AtMost :
      (first : RawCompletion) (left n : ℕ) (w v : G p config)
      (second : (Result RawCompletion × ℕ) × G p config)
      → v.granted + length w.sent ≡ w.granted + length v.sent
      → length v.sent + left ≤ length w.sent + n
      → Spends p config left v second
      → AtMost (n + 1) w (repaired read_json p config first second).1
  repaired-AtMost first left n w v ((err e, left'), u) each few (few', each') =
      (omega arith, omega arith)
  repaired-AtMost first left n w v ((ok second, left'), u) each few (few', each') =
      by_value (read_json second.content)
    where
      by_value :
          (o : Option J)
          → AtMost
              (n + 1)
              w
              (repaired_value read_json p config
                (record second { usage = sum_usage first.usage second.usage })
                o
                u).1
      by_value none = (omega arith, omega arith)
      by_value (some json) = (omega arith, omega arith)

  after_first-AtMost :
      (request : LlmCompletionRequest) (deadline n : ℕ) (w : G p config)
      (first : (Result RawCompletion × ℕ) × G p config)
      → Spends p config n w first
      → AtMost (n + 2) w (after_first read_json p config request deadline first).1
  after_first-AtMost request deadline n w ((err e, left), u) (few, each) = (each, omega arith)
  after_first-AtMost request deadline n w ((ok first, left), u) (few, each) =
      by_value (read_json first.content)
    where
      v : G p config
      v = (at_time p config u).1

      now : ℕ
      now = (at_time p config u).0

      by_deadline : AtMost (n + 2) w (repair read_json p config request deadline left first u).1
      by_deadline = elim (Bool-cases (leb deadline now)) [
        | inl late ↦ rw late (each, omega arith)
        | inr early ↦ rw early (
            let (each', few') = repaired-AtMost first left (n + 1) w v _ each (omega arith) (
              call_with_retries-Spends p config request (repair_messages request first) deadline
                left v) in
            (each', omega arith))
      ]

      by_value :
          (o : Option J)
          → AtMost (n + 2) w (read_first read_json p config request deadline left first o u).1
      by_value (some json) = (each, omega arith)
      by_value none = by_deadline

  -- However the provider answers: every request that a call sends was granted by a call of the hook of
  -- its own, which is not used for another, and a call sends at most two more than the retries allowed,
  -- so never more than five.
  pub complete-metered :
      (request : LlmCompletionRequest) (w : G p config)
      → let w' = (complete read_json p config request w).1 in
        (w'.granted + length w.sent ≡ w.granted + length w'.sent)
        × (length w'.sent ≤ length w.sent + (max_retries config + 2))
        × (length w'.sent ≤ length w.sent + 5)
  unfolding complete max_retries
  complete-metered request w =
      let (each, few) = by_key config.has_api_key in (each, few, omega arith)
    where
      by_key :
          (b : Bool)
          → AtMost
              (max_retries config + 2)
              w
              (if b then called read_json p config request w else (
                err (generator_unavailable "AI suggestion generation is not configured"),
                w,
              )).1
      by_key false = (refl, omega arith)
      by_key true = after_first-AtMost request _ (max_retries config) w _ (
          call_with_retries-Spends p config request (first_messages request) _ (max_retries config)
            (at_time p config w).1)
