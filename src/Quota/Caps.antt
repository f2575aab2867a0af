-- ===== src/Quota/Caps.antt =====
-- The daily caps hold whoever calls when, and whatever Redis answers.
use memoflow_api.Prelude.{
  ℕ, ◌+◌, ◌/◌, ◌≤◌, ◌<◌, String, ◌≡◌, refl, sym, ap, ◌∙◌, Bool, true, false, ◌||◌, ◌&&◌, Option,
  none, some, List, [], ◌∷◌, leb, arith, ◌==◌, eq_iff, if◌then◌else◌, Bool-cases, inl, inr, All,
}
use memoflow_api.Redis.{Redis, Entry, live, count_of}
use memoflow_api.Quota.{
  Limits, Mode, reserve, check, is_reserve, counted, quota_script, run, expire_at, user_quota_key,
  global_quota_key, day_ms,
}
use memoflow_api.Redis.{Delivery, answered, lost_before, lost_after}
use mathlib.Core.Bool.{false≢true}
use memoflow_api.Quota.Calls.{
  QuotaCall, grants, one_if, is_ok, Counts-weaken, Counts-plus_zero, script-Counts, delivered,
}
use memoflow_api.Quota.Keys.{keys_differ, keys_differ_too}
use memoflow_api.Quota.Script.{
  Counts, day_end, expire_at-day_end, counted-global, counted-user, counted-other,
}

module _ (hash : String → String) (utc_day : ℕ → String) (redis : Redis) (limits : Limits) where
  early_enough : (at : ℕ) → at < day_end (at / day_ms)
  early_enough at = omega arith

  test_global : (a b : Bool) → (a || b) ≡ false → b ≡ false
  test_global a b h = ground arith

  test_user : (a b : Bool) → (a || b) ≡ false → a ≡ false
  test_user a b h = ground arith

  global-Counts :
      (c : QuotaCall) (s : redis.Store) (g : ℕ)
      → Counts
          (c.at / day_ms)
          limits.global_limit
          g
          (redis.entry s (global_quota_key hash utc_day (c.at / day_ms)))
      → Counts
          (c.at / day_ms)
          limits.global_limit
          (g
            + one_if (
                is_reserve c.mode
                && is_ok (run hash utc_day redis limits c.delivery c.at c.user_id c.mode s).0))
          (redis.entry
            (run hash utc_day redis limits c.delivery c.at c.user_id c.mode s).1
            (global_quota_key hash utc_day (c.at / day_ms)))
  global-Counts c s g h =
      let uk = user_quota_key hash utc_day c.user_id (c.at / day_ms) in
      let gk = global_quota_key hash utc_day (c.at / day_ms) in
      let expiry = expire_at hash utc_day redis limits c.at in
      let apart = keys_differ hash utc_day c.user_id (c.at / day_ms) (c.at / day_ms) in
      delivered hash utc_day redis limits c.delivery c.at c.user_id c.mode s gk (c.at / day_ms)
        limits.global_limit g
        (script-Counts hash utc_day redis limits c.at expiry uk gk gk limits.global_limit s
          (c.at / day_ms) g (counted-global hash utc_day redis limits c.at expiry uk gk s apart)
          (test_global _ _) (expire_at-day_end hash utc_day redis c.at) (early_enough c.at) h
          c.mode)
        h

  script_foreign :
      (now expiry : ℕ) (user_key global_key : String) (mode : Mode) (s : redis.Store) (k : String)
      → (user_key == global_key) ≡ false
      → (user_key == k) ≡ false
      → (global_key == k) ≡ false
      → redis.entry
          (quota_script hash utc_day redis limits now user_key global_key expiry mode s).1
          k
        ≡ redis.entry s k
  unfolding quota_script
  script_foreign now expiry user_key global_key mode s k differ not_user not_global =
      elim (Bool-cases (
        leb limits.user_limit (count_of (live now (redis.entry s user_key)))
        || leb limits.global_limit (count_of (live now (redis.entry s global_key))))) [
          | inl spent ↦ rw spent refl
          | inr room ↦ rw room (by_mode mode)
        ]
    where
      by_mode :
          (m : Mode)
          → redis.entry
              (if is_reserve m
                then counted hash utc_day redis limits now user_key global_key expiry s
                else s)
              k
            ≡ redis.entry s k
      by_mode check = refl
      by_mode reserve =
          counted-other hash utc_day redis limits now expiry user_key global_key s differ k not_user
            not_global

  -- A call leaves every counter that is neither its user's nor the global one.
  foreign_call :
      (d : Delivery) (at : ℕ) (user_id : String) (mode : Mode) (s : redis.Store) (k : String)
      → (user_quota_key hash utc_day user_id (at / day_ms) == k) ≡ false
      → (global_quota_key hash utc_day (at / day_ms) == k) ≡ false
      → redis.entry (run hash utc_day redis limits d at user_id mode s).1 k ≡ redis.entry s k
  unfolding run
  foreign_call answered at user_id mode s k not_user not_global =
      script_foreign at _ _ _ mode s k (keys_differ hash utc_day user_id _ _) not_user not_global
  foreign_call lost_before at user_id mode s k not_user not_global = refl
  foreign_call lost_after at user_id mode s k not_user not_global =
      script_foreign at _ _ _ mode s k (keys_differ hash utc_day user_id _ _) not_user not_global

  Counts-fewer :
      (day limit g : ℕ) (o : Option Entry) (t b : Bool)
      → Counts day limit (g + one_if b) o
      → Counts day limit (g + one_if (t && b)) o
  Counts-fewer day limit g o true b h = h
  Counts-fewer day limit g o false b h =
      Counts-plus_zero day limit g o (Counts-weaken day limit g (one_if b) o h)

  own-Counts :
      (c : QuotaCall) (s : redis.Store) (g : ℕ)
      → Counts
          (c.at / day_ms)
          limits.user_limit
          g
          (redis.entry s (user_quota_key hash utc_day c.user_id (c.at / day_ms)))
      → Counts
          (c.at / day_ms)
          limits.user_limit
          (g
            + one_if (
                is_reserve c.mode
                && is_ok (run hash utc_day redis limits c.delivery c.at c.user_id c.mode s).0))
          (redis.entry
            (run hash utc_day redis limits c.delivery c.at c.user_id c.mode s).1
            (user_quota_key hash utc_day c.user_id (c.at / day_ms)))
  own-Counts c s g h =
      let uk = user_quota_key hash utc_day c.user_id (c.at / day_ms) in
      let gk = global_quota_key hash utc_day (c.at / day_ms) in
      let expiry = expire_at hash utc_day redis limits c.at in
      let apart = keys_differ hash utc_day c.user_id (c.at / day_ms) (c.at / day_ms) in
      delivered hash utc_day redis limits c.delivery c.at c.user_id c.mode s uk (c.at / day_ms)
        limits.user_limit g
        (script-Counts hash utc_day redis limits c.at expiry uk gk uk limits.user_limit s
          (c.at / day_ms) g (counted-user hash utc_day redis limits c.at expiry uk gk s apart)
          (test_user _ _) (expire_at-day_end hash utc_day redis c.at) (early_enough c.at) h c.mode)
        h

  user-Counts :
      (u : String) (c : QuotaCall) (s : redis.Store) (g : ℕ)
      → Counts
          (c.at / day_ms)
          limits.user_limit
          g
          (redis.entry s (user_quota_key hash utc_day u (c.at / day_ms)))
      → Counts
          (c.at / day_ms)
          limits.user_limit
          (g
            + one_if (
                (c.user_id == u)
                && (is_reserve c.mode
                    && is_ok (run hash utc_day redis limits c.delivery c.at c.user_id c.mode s).0)))
          (redis.entry
            (run hash utc_day redis limits c.delivery c.at c.user_id c.mode s).1
            (user_quota_key hash utc_day u (c.at / day_ms)))
  user-Counts u c s g h = elim (Bool-cases (mine == theirs)) [
    | inl same ↦
        let e : mine ≡ theirs = (eq_iff mine theirs).0 same in
        rw (← e) (
          Counts-fewer (c.at / day_ms) limits.user_limit g _ (c.user_id == u) _
            (own-Counts c s g (rw e h)))
    | inr other ↦
        let left =
          foreign_call c.delivery c.at c.user_id c.mode s theirs other
            (keys_differ_too hash utc_day u (c.at / day_ms)) in
        rw (left, not_mine other) (Counts-plus_zero (c.at / day_ms) limits.user_limit g _ h)
  ]
    where
      mine : String
      mine = user_quota_key hash utc_day c.user_id (c.at / day_ms)

      theirs : String
      theirs = user_quota_key hash utc_day u (c.at / day_ms)

      not_mine : (mine == theirs) ≡ false → (c.user_id == u) ≡ false
      not_mine other = elim (Bool-cases (c.user_id == u)) [
        | inl same ↦ absurd (
            false≢true (
              sym other
              ∙ (eq_iff mine theirs).1
                  (ap (λ v. user_quota_key hash utc_day v (c.at / day_ms)) ((eq_iff _ _).0 same))))
        | inr differs ↦ differs
      ]

  global_loop :
      (day : ℕ) (calls : List QuotaCall) (s : redis.Store) (g : ℕ)
      → All (λ c. c.at / day_ms ≡ day) calls
      → Counts day limits.global_limit g (redis.entry s (global_quota_key hash utc_day day))
      → g + grants hash utc_day redis limits (λ c. true) calls s ≤ limits.global_limit
  unfolding grants
  global_loop day [] s g today h = bound (redis.entry s (global_quota_key hash utc_day day)) h
    where
      bound : (o : Option Entry) → Counts day limits.global_limit g o → g + 0 ≤ limits.global_limit
      bound none h = omega arith
      bound (some e) h = omega (arith, h.1, h.2)
  global_loop day (c ∷ cs) s g (now, today) h =
      omega (arith, global_loop day cs _ _ today (rw now at (global-Counts c s g (rw now h))))

  user_loop :
      (u : String) (day : ℕ) (calls : List QuotaCall) (s : redis.Store) (g : ℕ)
      → All (λ c. c.at / day_ms ≡ day) calls
      → Counts day limits.user_limit g (redis.entry s (user_quota_key hash utc_day u day))
      → g + grants hash utc_day redis limits (λ c. c.user_id == u) calls s ≤ limits.user_limit
  unfolding grants
  user_loop u day [] s g today h = bound (redis.entry s (user_quota_key hash utc_day u day)) h
    where
      bound : (o : Option Entry) → Counts day limits.user_limit g o → g + 0 ≤ limits.user_limit
      bound none h = omega arith
      bound (some e) h = omega (arith, h.1, h.2)
  user_loop u day (c ∷ cs) s g (now, today) h =
      omega (arith, user_loop u day cs _ _ today (rw now at (user-Counts u c s g (rw now h))))

  -- On one UTC day that begins with no counter, whatever calls are made in whatever order, and also
  -- where Redis errs before or after it has counted: no user is granted more provider attempts than
  -- the user limit, and all users together no more than the global limit.
  pub caps_hold :
      (day : ℕ) (calls : List QuotaCall) (s : redis.Store) (u : String)
      → All (λ c. c.at / day_ms ≡ day) calls
      → redis.entry s (global_quota_key hash utc_day day) ≡ none
      → redis.entry s (user_quota_key hash utc_day u day) ≡ none
      → (grants hash utc_day redis limits (λ c. c.user_id == u) calls s ≤ limits.user_limit)
        × (grants hash utc_day redis limits (λ c. true) calls s ≤ limits.global_limit)
  caps_hold day calls s u today no_global no_user = (
    omega (arith, user_loop u day calls s 0 today (rw no_user refl)),
    omega (arith, global_loop day calls s 0 today (rw no_global refl)),
  )

  -- While Redis answers, `check` answers as a `reserve` at the same time in the same state would, and
  -- counts nothing.
  pub check-predicts-reserve :
      (now : ℕ) (user_id : String) (s : redis.Store)
      → ((run hash utc_day redis limits answered now user_id check s).0
          ≡ (run hash utc_day redis limits answered now user_id reserve s).0)
        × ((run hash utc_day redis limits answered now user_id check s).1 ≡ s)
  unfolding run quota_script
  check-predicts-reserve now user_id s = ground arith
