-- ===== src/Quota/Script.antt =====
-- What one call leaves in a counter.
use memoflow_api.Prelude.{
  ℕ, ◌+◌, ◌*◌, ◌/◌, ◌≤◌, ◌<◌, String, ◌≡◌, refl, sym, ◌∙◌, false, Option, none, some, leb, arith,
  ◌==◌, eq_iff, eq_refl, Bool-cases, inl, inr,
}
use memoflow_api.Redis.{Redis, Entry, live, count_of, incremented, expiring}
use memoflow_api.Redis.Entries.{live-incremented}
use mathlib.Core.Bool.{false≢true}
use memoflow_api.Quota.{Limits, counted, seconds_until_utc_midnight, day_ms, expiry_grace_seconds}

-- The moment at which the counters of a day are gone, an hour after the next midnight.
abbrev pub day_end : ℕ → ℕ
day_end day = (day + 1) * day_ms + expiry_grace_seconds * 1000

pub seconds_until_utc_midnight-bounds :
    (at : ℕ)
    → (1 ≤ seconds_until_utc_midnight at)
      × (seconds_until_utc_midnight at ≤ 86400)
      × ((at / day_ms + 1) * day_ms ≤ at + seconds_until_utc_midnight at * 1000)
unfolding seconds_until_utc_midnight
seconds_until_utc_midnight-bounds at = omega arith

-- At whatever time of a day a counter is used, it is given the same expiry.
pub expire_at-day_end :
    (hash : String → String) (utc_day : ℕ → String) (redis : Redis) (at : ℕ)
    → (at / 1000 + seconds_until_utc_midnight at + expiry_grace_seconds) * 1000
      ≡ day_end (at / day_ms)
unfolding seconds_until_utc_midnight
expire_at-day_end hash utc_day redis at = omega arith

-- A counter of a day: gone at its end, within its limit, and at least `granted`.
abbrev pub Counts : (day limit granted : ℕ) → Option Entry → Type 0
Counts day limit granted none = granted ≡ 0
Counts day limit granted (some e) =
    (e.expires_at ≡ some (day_end day)) × (granted ≤ e.count) × (e.count ≤ limit)

-- The entry of a counter that was counted up.
abbrev pub raised : ℕ → ℕ → Option Entry → Entry
raised now at o = record { count = count_of (live now o) + 1; expires_at = some at }

expiring-raised :
    (now at : ℕ) (o : Option Entry)
    → expiring at (live now (some (incremented (live now o)))) ≡ some (raised now at o)
expiring-raised now at o = rw (live-incremented now o) (by_live (live now o))
  where
    by_live :
        (l : Option Entry)
        → expiring at (some (incremented l))
          ≡ some (record { count = count_of l + 1; expires_at = some at })
    by_live none = refl
    by_live (some e) = refl

pub raised-Counts :
    (day limit granted now : ℕ) (o : Option Entry)
    → Counts day limit granted o
    → now < day_end day
    → leb limit (count_of (live now o)) ≡ false
    → Counts day limit (granted + 1) (some (raised now (day_end day) o))
raised-Counts day limit granted now none h early below = ground arith
raised-Counts day limit granted now (some e) h early below = ground arith

module _ (hash : String → String) (utc_day : ℕ → String) (redis : Redis) (limits : Limits) where
  module _ (now expiry : ℕ) (user_key global_key : String) (s : redis.Store)
      (differ : (user_key == global_key) ≡ false) where
    abbrev pub after_counted : redis.Store
    after_counted = counted hash utc_day redis limits now user_key global_key expiry s

    differ_too : (global_key == user_key) ≡ false
    differ_too = elim (Bool-cases (global_key == user_key)) [
      | inl same ↦ absurd (false≢true (sym differ ∙ (eq_iff _ _).1 (sym ((eq_iff _ _).0 same))))
      | inr other ↦ other
    ]

    pub counted-global :
        redis.entry after_counted global_key
        ≡ some (raised now (expiry * 1000) (redis.entry s global_key))
    counted-global =
        rw
          (
            redis.entry-expire now global_key (expiry * 1000) _ global_key,
            eq_refl global_key,
            redis.entry-expire now user_key (expiry * 1000) _ global_key,
            differ,
            redis.entry-incr now global_key _ global_key,
            eq_refl global_key,
            redis.entry-incr now user_key s global_key,
            differ,
          )
          (expiring-raised now (expiry * 1000) (redis.entry s global_key))

    pub counted-user :
        redis.entry after_counted user_key
        ≡ some (raised now (expiry * 1000) (redis.entry s user_key))
    counted-user =
        rw
          (
            redis.entry-expire now global_key (expiry * 1000) _ user_key,
            differ_too,
            redis.entry-expire now user_key (expiry * 1000) _ user_key,
            eq_refl user_key,
            redis.entry-incr now global_key _ user_key,
            differ_too,
            redis.entry-incr now user_key s user_key,
            eq_refl user_key,
          )
          (expiring-raised now (expiry * 1000) (redis.entry s user_key))

    pub counted-other :
        (j : String)
        → (user_key == j) ≡ false
        → (global_key == j) ≡ false
        → redis.entry after_counted j ≡ redis.entry s j
    counted-other j not_user not_global =
        rw
          (
            redis.entry-expire now global_key (expiry * 1000) _ j,
            not_global,
            redis.entry-expire now user_key (expiry * 1000) _ j,
            not_user,
            redis.entry-incr now global_key _ j,
            not_global,
            redis.entry-incr now user_key s j,
            not_user,
          )
          refl
