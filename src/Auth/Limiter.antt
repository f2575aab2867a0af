-- ===== src/Auth/Limiter.antt =====
-- domain/auth/login-attempt-limiter.port.ts and infrastructure/auth/redis-login-attempt-limiter.ts.
-- Times are milliseconds; `hash` stands for the hexadecimal SHA-256 digest of an address.
use Prim.Native.String
use memoflow_api.Prelude.{
  ℕ, ◌+◌, ◌-◌, ◌*◌, max, String, Bool, true, Option, none, some, leb, eqb, if◌then◌else◌,
}
use memoflow_api.Text.{Text}
use memoflow_api.Redis.{Redis, Delivery, answered, lost_before, lost_after, Entry, live, count_of}
use memoflow_api.Quota.{ceil_seconds}

abbrev pub login_max_attempts : ℕ
login_max_attempts = 10

abbrev pub login_attempt_window_seconds : ℕ
login_attempt_window_seconds = 15 * 60

pub record LoginAttemptResult : Type 0 where
  pub allowed : Bool
  pub retry_after_seconds : ℕ
  pub attempts : ℕ

-- `PTTL`: `none` for the negative answers, on a key without an expiry and on a missing one.
abbrev pub ttl_of : ℕ → Option Entry → Option ℕ
ttl_of now none = none
ttl_of now (some e) = remaining e.expires_at
  where
    remaining : Option ℕ → Option ℕ
    remaining none = none
    remaining (some at) = some (at - now)

module _ (redis : Redis) where
  -- The window starts anew on the first attempt, and where the key has no expiry.
  abbrev pub with_expiry : ℕ → String → ℕ → ℕ → Option ℕ → redis.Store → (ℕ × ℕ) × redis.Store
  with_expiry now key window count none s = ((count, window), redis.expire now key (now + window) s)
  with_expiry now key window count (some ttl) s =
      if eqb count 1
      then ((count, window), redis.expire now key (now + window) s)
      else ((count, ttl), s)

  -- `INCR_WITH_EXPIRY`
  unfoldable pub incr_with_expiry : ℕ → String → ℕ → redis.Store → (ℕ × ℕ) × redis.Store
  incr_with_expiry now key window s =
      let s' = redis.incr now key s in
      let e = live now (redis.entry s' key) in
      with_expiry now key window (count_of e) (ttl_of now e) s'

abbrev pub answer_of : ℕ × ℕ → LoginAttemptResult
answer_of (count, ttl) = record {
  allowed = leb count login_max_attempts;
  retry_after_seconds = max 1 (ceil_seconds ttl);
  attempts = count;
}

abbrev pub failed_open : LoginAttemptResult
failed_open = record { allowed = true; retry_after_seconds = 0; attempts = 0 }

module _ (hash : Text → String) where
  unfoldable pub login_attempt_key : Text → String
  login_attempt_key email = String.◌++◌ "login-attempts:" (hash email)

  module _ (redis : Redis) where
    abbrev pub script_at : ℕ → Text → redis.Store → (ℕ × ℕ) × redis.Store
    script_at now email =
        incr_with_expiry redis now (login_attempt_key email) (login_attempt_window_seconds * 1000)

    unfoldable pub register_attempt :
        Delivery → ℕ → Text → redis.Store → LoginAttemptResult × redis.Store
    register_attempt answered now email s = let (r, s') = script_at now email s in (answer_of r, s')
    register_attempt lost_before now email s = (failed_open, s)
    register_attempt lost_after now email s =
        let (r, s') = script_at now email s in (failed_open, s')

    unfoldable pub clear : Delivery → Text → redis.Store → redis.Store
    clear lost_before email s = s
    clear _ email s = redis.del (login_attempt_key email) s
