-- ===== src/Quota/Examples.antt =====
-- The quota on a day of five calls, with counters in memory.
use memoflow_api.Prelude.{ℕ, ◌+◌, ◌*◌, ◌≤◌, ◌==◌, String, ◌≡◌, refl, true, none, List, [], ◌∷◌}
use memoflow_api.Redis.Memory.{memory}
use memoflow_api.Quota.{
  Limits, reserve, check, run, global_quota_key, user_quota_key, day_ms, quota_script,
  seconds_until_utc_midnight,
}
use memoflow_api.Redis.{answered, lost_after}
use memoflow_api.Quota.Calls.{QuotaCall, grants}
use memoflow_api.Quota.Caps.{caps_hold, check-predicts-reserve}

abbrev no_hash : String → String
no_hash user_id = user_id

abbrev one_day : ℕ → String
one_day day = "2026-11-25"

abbrev tight : Limits
tight = record { user_limit = 2; global_limit = 3 }

abbrev empty_store : memory.Store
empty_store = λ k. none

abbrev noon : ℕ
noon = 100 * day_ms + 43200000

abbrev five_calls : List QuotaCall
five_calls =
    record { user_id = "ana"; mode = reserve; at = noon; delivery = answered }
    ∷ record { user_id = "ana"; mode = reserve; at = noon + 1; delivery = lost_after }
    ∷ record { user_id = "ana"; mode = reserve; at = noon + 2; delivery = answered }
    ∷ record { user_id = "ben"; mode = check; at = noon + 3; delivery = answered }
    ∷ record { user_id = "ben"; mode = reserve; at = noon + 4; delivery = answered }
    ∷ []

-- One for ana, whose second attempt was counted and lost, and one for ben.
two_granted : grants no_hash one_day memory tight (λ c. true) five_calls empty_store ≡ 2
unfolding grants run quota_script global_quota_key user_quota_key seconds_until_utc_midnight
two_granted = refl

caps_hold_example :
    (grants no_hash one_day memory tight (λ c. c.user_id == "ana") five_calls empty_store ≤ 2)
    × (grants no_hash one_day memory tight (λ c. true) five_calls empty_store ≤ 3)
caps_hold_example =
    caps_hold no_hash one_day memory tight 100 five_calls empty_store "ana"
      (refl, (refl, (refl, (refl, (refl, tt))))) refl refl

check-predicts-reserve_example :
    ((run no_hash one_day memory tight answered noon "ana" check empty_store).0
      ≡ (run no_hash one_day memory tight answered noon "ana" reserve empty_store).0)
    × ((run no_hash one_day memory tight answered noon "ana" check empty_store).1 ≡ empty_store)
check-predicts-reserve_example =
    check-predicts-reserve no_hash one_day memory tight noon "ana" empty_store
