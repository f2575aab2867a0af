-- ===== src/Quota.antt =====
-- infrastructure/ai/redis-ai-quota.ts. Times are milliseconds; `hash` stands for the hexadecimal
-- SHA-256 digest and `utc_day` for the `YYYY-MM-DD` name of a day, given as its number.
pub mod Keys
pub mod Script
pub mod Calls
pub mod Caps
mod Examples
use Prim.Native.String
use memoflow_api.Prelude.{
  ℕ, ◌+◌, ◌-◌, ◌*◌, ◌/◌, max, String, Bool, true, false, ◌||◌, List, [], ◌∷◌, leb, eqb,
  if◌then◌else◌,
}
use memoflow_api.Exec.{Result, ok, err}
use memoflow_api.Exec.Errors.{ai_quota_exceeded, ai_quota_unavailable}
use memoflow_api.Redis.{Redis, Delivery, answered, lost_before, lost_after, live, count_of}

abbrev pub default_ai_user_daily_limit : ℕ
default_ai_user_daily_limit = 10

abbrev pub default_ai_global_daily_limit : ℕ
default_ai_global_daily_limit = 40

abbrev pub expiry_grace_seconds : ℕ
expiry_grace_seconds = 3600

abbrev pub day_ms : ℕ
day_ms = 86400000

-- `Math.ceil(ms / 1000)`
abbrev pub ceil_seconds : ℕ → ℕ
ceil_seconds ms = (ms + 999) / 1000

-- From `at` to the next multiple of a day.
unfoldable pub seconds_until_utc_midnight : ℕ → ℕ
seconds_until_utc_midnight at = max 1 (ceil_seconds ((at / day_ms + 1) * day_ms - at))

pub data Mode : Type 0 where
  reserve check : Mode

abbrev pub is_reserve : Mode → Bool
is_reserve reserve = true
is_reserve check = false

pub record Limits : Type 0 where
  pub user_limit : ℕ
  pub global_limit : ℕ

module _ (hash : String → String) (utc_day : ℕ → String) where
  unfoldable pub user_quota_key : String → ℕ → String
  user_quota_key user_id day =
      String.◌++◌ "ai-quota:user:" (String.◌++◌ (hash user_id) (String.◌++◌ ":" (utc_day day)))

  unfoldable pub global_quota_key : ℕ → String
  global_quota_key day = String.◌++◌ "ai-quota:global:" (utc_day day)

  module _ (redis : Redis) (limits : Limits) where
    -- Both counters, incremented and given their expiry.
    abbrev pub counted : ℕ → String → String → ℕ → redis.Store → redis.Store
    counted now user_key global_key expiry s = redis.expire now global_key (expiry * 1000) (
        redis.expire now user_key (expiry * 1000)
          (redis.incr now global_key (redis.incr now user_key s)))

    -- `QUOTA_SCRIPT`; `expiry` is in seconds, as `EXPIREAT` takes it.
    unfoldable pub quota_script : ℕ → String → String → ℕ → Mode → redis.Store → ℕ × redis.Store
    quota_script now user_key global_key expiry mode s =
        if leb limits.user_limit (count_of (live now (redis.entry s user_key)))
          || leb limits.global_limit (count_of (live now (redis.entry s global_key)))
        then (0, s)
        else (1, (if is_reserve mode then counted now user_key global_key expiry s else s))

    abbrev pub expire_at : ℕ → ℕ
    expire_at now = now / 1000 + seconds_until_utc_midnight now + expiry_grace_seconds

    abbrev pub script_of : ℕ → String → Mode → redis.Store → ℕ × redis.Store
    script_of now user_id mode =
        quota_script now (user_quota_key user_id (now / day_ms)) (global_quota_key (now / day_ms))
          (expire_at now) mode

    abbrev pub answer_of : ℕ → ℕ → Result (Unit {0})
    answer_of now allowed =
        if eqb allowed 1 then ok tt else err (ai_quota_exceeded (seconds_until_utc_midnight now))

    -- `reserve` and `check`.
    unfoldable pub run :
        Delivery → ℕ → String → Mode → redis.Store → Result (Unit {0}) × redis.Store
    unfolding quota_script
    run answered now user_id mode s =
        let (allowed, s') = script_of now user_id mode s in (answer_of now allowed, s')
    run lost_before now user_id mode s = (err ai_quota_unavailable, s)
    run lost_after now user_id mode s =
        let (allowed, s') = script_of now user_id mode s in (err ai_quota_unavailable, s')
