-- ===== src/Quota/Calls.antt =====
-- What one call of the quota does to a counter, and how many calls are granted.
use memoflow_api.Prelude.{
  ℕ, ◌+◌, ◌*◌, ◌<◌, String, ◌≡◌, refl, Bool, true, false, ◌||◌, ◌&&◌, Option, none, some, List, [],
  ◌∷◌, leb, eqb, arith, if◌then◌else◌, Bool-cases, inl, inr,
}
use memoflow_api.Exec.{Result, ok, err}
use memoflow_api.Redis.{Redis, Entry, live, count_of}
use memoflow_api.Quota.{
  Limits, Mode, reserve, check, is_reserve, counted, quota_script, script_of, answer_of, run,
}
use memoflow_api.Redis.{Delivery, answered, lost_before, lost_after}
use memoflow_api.Quota.Script.{Counts, day_end, raised, raised-Counts}

abbrev pub is_ok {ℓ} : {A : Type ℓ} → Result A → Bool
is_ok (ok a) = true
is_ok (err e) = false

abbrev pub one_if : Bool → ℕ
one_if b = if b then 1 else 0

pub Counts-weaken :
    (day limit g n : ℕ) (o : Option Entry) → Counts day limit (g + n) o → Counts day limit g o
Counts-weaken day limit g n none h = omega arith
Counts-weaken day limit g n (some e) (at, low, high) = (at, omega arith, high)

pub Counts-plus_zero :
    (day limit g : ℕ) (o : Option Entry) → Counts day limit g o → Counts day limit (g + 0) o
Counts-plus_zero day limit g none h = omega arith
Counts-plus_zero day limit g (some e) (at, low, high) = (at, omega arith, high)

-- One call of the quota.
pub record QuotaCall : Type 0 where
  pub user_id : String
  pub mode : Mode
  pub at : ℕ
  pub delivery : Delivery

module _ (hash : String → String) (utc_day : ℕ → String) (redis : Redis) (limits : Limits) where
  -- A key that the script counts, with its limit.
  module _ (now expiry : ℕ) (user_key global_key : String) (k : String) (limit : ℕ)
      (s : redis.Store) (day granted : ℕ)
      (touched : redis.entry (counted hash utc_day redis limits now user_key global_key expiry s) k
        ≡ some (raised now (expiry * 1000) (redis.entry s k)))
      (guarded : (leb limits.user_limit (count_of (live now (redis.entry s user_key)))
            || leb limits.global_limit (count_of (live now (redis.entry s global_key))))
          ≡ false
        → leb limit (count_of (live now (redis.entry s k))) ≡ false)
      (at_end : expiry * 1000 ≡ day_end day) (early : now < day_end day)
      (h : Counts day limit granted (redis.entry s k)) where
    pub script-Counts :
        (mode : Mode)
        → Counts day limit
            (granted
              + one_if (
                  eqb
                    (quota_script hash utc_day redis limits now user_key global_key expiry mode s).0
                    1
                  && is_reserve mode))
            (redis.entry
              (quota_script hash utc_day redis limits now user_key global_key expiry mode s).1
              k)
    unfolding quota_script
    script-Counts mode =
        elim (Bool-cases (
          leb limits.user_limit (count_of (live now (redis.entry s user_key)))
          || leb limits.global_limit (count_of (live now (redis.entry s global_key))))) [
            | inl spent ↦ rw spent (Counts-plus_zero day limit granted (redis.entry s k) h)
            | inr room ↦ rw room (by_mode mode (guarded room))
          ]
      where
        by_mode :
            (m : Mode)
            → leb limit (count_of (live now (redis.entry s k))) ≡ false
            → Counts day limit (granted + one_if (true && is_reserve m)) (
                redis.entry
                  (if is_reserve m
                    then counted hash utc_day redis limits now user_key global_key expiry s
                    else s)
                  k)
        by_mode check below = Counts-plus_zero day limit granted (redis.entry s k) h
        by_mode reserve below =
            rw (touched, at_end)
              (raised-Counts day limit granted now (redis.entry s k) h early below)

  granted_one :
      (b r : Bool) (a now : ℕ)
      → eqb a 1 ≡ b
      → one_if (b && r) ≡ one_if (r && is_ok (answer_of hash utc_day redis limits now a))
  granted_one true true a now e = rw e refl
  granted_one true false a now e = refl
  granted_one false true a now e = rw e refl
  granted_one false false a now e = refl

  pub delivered :
      (d : Delivery) (now : ℕ) (user_id : String) (mode : Mode) (s : redis.Store) (k : String)
      (day limit g : ℕ)
      → Counts day limit
          (g
            + one_if (
                eqb (script_of hash utc_day redis limits now user_id mode s).0 1
                && is_reserve mode))
          (redis.entry (script_of hash utc_day redis limits now user_id mode s).1 k)
      → Counts day limit g (redis.entry s k)
      → Counts day limit
          (g
            + one_if
                (is_reserve mode && is_ok (run hash utc_day redis limits d now user_id mode s).0))
          (redis.entry (run hash utc_day redis limits d now user_id mode s).1 k)
  unfolding run
  delivered answered now user_id mode s k day limit g ran before =
      rw
        (← granted_one _ (is_reserve mode)
          (script_of hash utc_day redis limits now user_id mode s).0 now refl)
        ran
  delivered lost_before now user_id reserve s k day limit g ran before =
      Counts-plus_zero day limit g (redis.entry s k) before
  delivered lost_before now user_id check s k day limit g ran before =
      Counts-plus_zero day limit g (redis.entry s k) before
  delivered lost_after now user_id reserve s k day limit g ran before =
      Counts-plus_zero day limit g _ (Counts-weaken day limit g _ _ ran)
  delivered lost_after now user_id check s k day limit g ran before =
      Counts-plus_zero day limit g _ (Counts-weaken day limit g _ _ ran)

  -- The calls that were granted a provider attempt, among those that `counts` selects.
  unfoldable pub grants : (QuotaCall → Bool) → List QuotaCall → redis.Store → ℕ
  grants counts [] s = 0
  grants counts (c ∷ cs) s =
      let (r, s') = run hash utc_day redis limits c.delivery c.at c.user_id c.mode s in
      one_if (counts c && (is_reserve c.mode && is_ok r)) + grants counts cs s'
