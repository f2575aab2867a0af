-- ===== src/Auth/Counter.antt =====
-- What an attempt to log in does to the counters in Redis.
use memoflow_api.Prelude.{
  ℕ, ◌+◌, ◌-◌, ◌*◌, ◌≤◌, String, ◌≡◌, refl, ap, ◌∙◌, false, Option, none, some, eqb, arith, ◌==◌,
  eq_refl, if◌then◌else◌, Bool-cases, inl, inr,
}
use memoflow_api.Text.{Text}
use memoflow_api.Redis.{Redis, Entry, live, incremented, count_of}
use memoflow_api.Redis.Entries.{live-incremented}
use memoflow_api.Auth.Limiter.{
  login_attempt_window_seconds, ttl_of, with_expiry, incr_with_expiry, script_at, login_attempt_key,
}

abbrev pub window_ms : ℕ
window_ms = login_attempt_window_seconds * 1000

-- What an attempt answers and leaves, given what is left of the counter at its time.
abbrev pub touched : ℕ → Option Entry → (ℕ × ℕ) × Entry
touched now none = ((1, window_ms), record { count = 1; expires_at = some (now + window_ms) })
touched now (some e) = by_expiry e.expires_at
  where
    by_expiry : Option ℕ → (ℕ × ℕ) × Entry
    by_expiry none = (
      (e.count + 1, window_ms),
      record { count = e.count + 1; expires_at = some (now + window_ms) },
    )
    by_expiry (some at) =
        if eqb (e.count + 1) 1
        then (
          (e.count + 1, window_ms),
          record { count = e.count + 1; expires_at = some (now + window_ms) },
        )
        else ((e.count + 1, at - now), record { count = e.count + 1; expires_at = some at })

module _ (redis : Redis) (now : ℕ) (key : String) (s : redis.Store) where
  expiring_now :
      (i : Entry)
      → redis.entry s key ≡ some i
      → live now (some i) ≡ some i
      → redis.entry (redis.expire now key (now + window_ms) s) key
        ≡ some (record i { expires_at = some (now + window_ms) })
  expiring_now i at_key alive =
      rw (redis.entry-expire now key (now + window_ms) s key, eq_refl key, at_key, alive) refl

  with_expiry-touched :
      (o : Option Entry)
      → redis.entry s key ≡ some (incremented o)
      → live now (some (incremented o)) ≡ some (incremented o)
      → ((with_expiry redis now key window_ms
            (count_of (some (incremented o)))
            (ttl_of now (some (incremented o)))
            s).0
          ≡ (touched now o).0)
        × (redis.entry
              (with_expiry redis now key window_ms
                (count_of (some (incremented o)))
                (ttl_of now (some (incremented o)))
                s).1
              key
            ≡ some (touched now o).1)
  with_expiry-touched none at_key alive = (refl, expiring_now _ at_key alive)
  with_expiry-touched (some e) at_key alive = by_expiry e.count e.expires_at at_key alive
    where
      by_expiry :
          (n : ℕ) (x : Option ℕ)
          → redis.entry s key ≡ some (record { count = n + 1; expires_at = x })
          → live now (some (record { count = n + 1; expires_at = x }))
            ≡ some (record { count = n + 1; expires_at = x })
          → ((with_expiry redis now key window_ms
                (n + 1)
                (ttl_of now (some (record { count = n + 1; expires_at = x })))
                s).0
              ≡ (touched now (some (record { count = n; expires_at = x }))).0)
            × (redis.entry
                  (with_expiry redis now key window_ms
                    (n + 1)
                    (ttl_of now (some (record { count = n + 1; expires_at = x })))
                    s).1
                  key
                ≡ some (touched now (some (record { count = n; expires_at = x }))).1)
      by_expiry n none at_key alive = (refl, expiring_now _ at_key alive)
      by_expiry n (some at) at_key alive = elim (Bool-cases (eqb (n + 1) 1)) [
        | inl first ↦ rw first (refl, expiring_now _ at_key alive)
        | inr later ↦ rw later (refl, at_key)
      ]

module _ (hash : Text → String) (redis : Redis) where
  pub script-touched :
      (now : ℕ) (email : Text) (s : redis.Store)
      → ((script_at hash redis now email s).0
          ≡ (touched now (live now (redis.entry s (login_attempt_key hash email)))).0)
        × (redis.entry (script_at hash redis now email s).1 (login_attempt_key hash email)
            ≡ some (touched now (live now (redis.entry s (login_attempt_key hash email)))).1)
  unfolding incr_with_expiry
  script-touched now email s =
      let key = login_attempt_key hash email in
      let at_key =
        redis.entry-incr now key s key
        ∙ ap
            (λ b.
              if b then some (incremented (live now (redis.entry s key))) else redis.entry s key)
            (eq_refl key) in
      rw (at_key, live-incremented now (redis.entry s key))
        (with_expiry-touched redis now key (redis.incr now key s) (live now (redis.entry s key))
          at_key (live-incremented now (redis.entry s key)))

  -- Another key keeps its entry.
  pub script_foreign :
      (now : ℕ) (email : Text) (s : redis.Store) (j : String)
      → (login_attempt_key hash email == j) ≡ false
      → redis.entry (script_at hash redis now email s).1 j ≡ redis.entry s j
  unfolding incr_with_expiry
  script_foreign now email s j other = by_ttl (count_of after) (ttl_of now after)
    where
      after : Option Entry
      after = live now (
          redis.entry (redis.incr now (login_attempt_key hash email) s)
            (login_attempt_key hash email))

      key : String
      key = login_attempt_key hash email

      incremented_other : redis.entry (redis.incr now key s) j ≡ redis.entry s j
      incremented_other = rw (redis.entry-incr now key s j, other) refl

      expired_other :
          redis.entry (redis.expire now key (now + window_ms) (redis.incr now key s)) j
          ≡ redis.entry s j
      expired_other =
          rw (redis.entry-expire now key (now + window_ms) (redis.incr now key s) j, other)
            incremented_other

      by_ttl :
          (n : ℕ) (ttl : Option ℕ)
          → redis.entry (with_expiry redis now key window_ms n ttl (redis.incr now key s)).1 j
            ≡ redis.entry s j
      by_ttl n none = expired_other
      by_ttl n (some x) = elim (Bool-cases (eqb n 1)) [
        | inl first ↦ rw first expired_other
        | inr later ↦ rw later incremented_other
      ]

pub touched-expiry :
    (now : ℕ) (o : Option Entry)
    → (touched now (live now o)).1.expires_at ≡ some (now + (touched now (live now o)).0.1)
touched-expiry now none = refl
touched-expiry now (some e) = ground arith

pub touched-again :
    (later : ℕ) (e : Entry) (at : ℕ)
    → e.expires_at ≡ some at
    → at ≤ later
    → (touched later (live later (some e))).0.0 ≡ 1
touched-again later e at is over = ground arith
