-- ===== src/Auth/Window.antt =====
-- The window of the login limiter: how many attempts it lets through, and that it always ends.
use memoflow_api.Prelude.{
  ℕ, ◌+◌, ◌*◌, ◌≤◌, ◌<◌, String, ◌≡◌, refl, Bool, true, false, ◌&&◌, Option, none, some, List, [],
  ◌∷◌, leb, eqb, arith, ◌==◌, eq_iff, if◌then◌else◌, Bool-cases, inl, inr, ◌⊎◌, All,
}
use memoflow_api.Text.{Text}
use memoflow_api.Redis.{Redis, Entry, Delivery, answered, lost_before, lost_after, live, is_gone}
use memoflow_api.Auth.Counter.{
  window_ms, touched, script-touched, script_foreign, touched-expiry, touched-again,
}
use memoflow_api.Auth.Limiter.{
  login_max_attempts, script_at, login_attempt_key, register_attempt, clear,
}

abbrev lasts : ℕ → Option ℕ → Bool
lasts from none = false
lasts from (some at) = leb (from + window_ms) at

-- A counter in the window that begins at `from`, in which `admitted` attempts were let through.
abbrev Tally : (from admitted : ℕ) → Option Entry → Type 0
Tally from admitted none = admitted ≡ 0
Tally from admitted (some e) =
    ((admitted ≡ 0) × (is_gone from e.expires_at ≡ true))
    ⊎ ((admitted ≤ e.count) × (lasts from e.expires_at ≡ true))

gone_later : (from now x : ℕ) → from ≤ now → leb x from ≡ true → leb x now ≡ true
gone_later from now x after gone = ground arith

touched-Tally :
    (from admitted now : ℕ) (o : Option Entry)
    → from ≤ now
    → now < from + window_ms
    → Tally from admitted o
    → Tally from (admitted + 1) (some (touched now (live now o)).1)
      × (admitted + 1 ≤ (touched now (live now o)).0.0)
touched-Tally from admitted now none after before h = ground arith
touched-Tally from admitted now (some e) after before h = by_expiry e.count e.expires_at h
  where
    by_expiry :
        (n : ℕ) (x : Option ℕ)
        → Tally from admitted (some (record { count = n; expires_at = x }))
        → Tally from
            (admitted + 1)
            (some (touched now (live now (some (record { count = n; expires_at = x })))).1)
          × (admitted + 1
              ≤ (touched now (live now (some (record { count = n; expires_at = x })))).0.0)
    by_expiry n none h = ground arith
    by_expiry n (some x) (inl (none_yet, gone)) =
        rw (none_yet, gone_later from now x after gone) (ground arith)
    by_expiry n (some x) (inr (enough, late)) =
        rw (not_gone x late) (elim (Bool-cases (eqb (n + 1) 1)) [
          | inl first ↦ rw first (ground arith)
          | inr more ↦ rw more (inr (omega arith, late), omega arith)
        ])
      where
        not_gone : (x : ℕ) → leb (from + window_ms) x ≡ true → leb x now ≡ false
        not_gone x late = ground arith

-- An attempt to log in with an address.
pub record LoginTry : Type 0 where
  pub email : Text
  pub at : ℕ
  pub delivery : Delivery

-- A call of the limiter: an attempt, or the clearing that follows a login.
pub data LimiterCall : Type 0 where
  tried : LoginTry → LimiterCall
  cleared : Text → Delivery → LimiterCall

abbrev IsWithin : ℕ → LimiterCall → Type 0
IsWithin from (tried t) = (from ≤ t.at) × (t.at < from + 900000)
IsWithin from (cleared email d) = Unit

abbrev has_run : Delivery → Bool
has_run lost_before = false
has_run _ = true

abbrev is_answered : Delivery → Bool
is_answered answered = true
is_answered _ = false

abbrev one_if : Bool → ℕ
one_if b = if b then 1 else 0

module _ (hash : Text → String) (redis : Redis) where
  -- Of the attempts on one key that Redis answered, how many were let through since the last clearing
  -- that reached Redis; `n` of them came before the calls.
  unfoldable pub admitted_since_clear : String → ℕ → List LimiterCall → redis.Store → ℕ
  admitted_since_clear key n [] s = n
  admitted_since_clear key n (tried t ∷ calls) s =
      let (r, s') = register_attempt hash redis t.delivery t.at t.email s in
      admitted_since_clear key
        (n
          + one_if
              ((login_attempt_key hash t.email == key) && (is_answered t.delivery && r.allowed)))
        calls s'
  admitted_since_clear key n (cleared email d ∷ calls) s =
      admitted_since_clear key (if (login_attempt_key hash email == key) && has_run d then 0 else n)
        calls (clear hash redis d email s)

  Tally-fewer : (from n : ℕ) (o : Option Entry) → Tally from (n + 1) o → Tally from n o
  Tally-fewer from n none h = ground arith
  Tally-fewer from n (some e) h = ground arith

  Tally-zero : (from n : ℕ) (o : Option Entry) → Tally from n o → Tally from (n + 0) o
  Tally-zero from n none h = ground arith
  Tally-zero from n (some e) h = ground arith

  script-Tally :
      (at : ℕ) (email : Text) (s : redis.Store) (from n : ℕ)
      → from ≤ at
      → at < from + window_ms
      → Tally from n (redis.entry s (login_attempt_key hash email))
      → Tally from
          (n + 1)
          (redis.entry (script_at hash redis at email s).1 (login_attempt_key hash email))
        × (n + 1 ≤ (script_at hash redis at email s).0.0)
  script-Tally at email s from n after before h =
      let (answer, left) = script-touched hash redis at email s in
      rw (answer, left) (touched-Tally from n at _ after before h)

  module _ (from n : ℕ) (few : n ≤ login_max_attempts) where
    -- An attempt lets one more through, or none.
    abbrev Counted : Bool → Option Entry → Type 0
    Counted let_in o = (n + one_if let_in ≤ login_max_attempts) × Tally from (n + one_if let_in) o

    Counted-none : (o : Option Entry) → Tally from n o → Counted false o
    Counted-none o h = (omega arith, Tally-zero from n o h)

    own_try :
        (d : Delivery) (at : ℕ) (email : Text) (s : redis.Store)
        → from ≤ at
        → at < from + window_ms
        → Tally from n (redis.entry s (login_attempt_key hash email))
        → Counted (is_answered d && (register_attempt hash redis d at email s).0.allowed) (
            redis.entry (register_attempt hash redis d at email s).1 (login_attempt_key hash email))
    unfolding register_attempt
    own_try answered at email s after before h =
        let (tally, low) = script-Tally at email s from n after before h in
        elim (Bool-cases (leb (script_at hash redis at email s).0.0 login_max_attempts)) [
          | inl room ↦ rw room (ground arith, tally)
          | inr full ↦ rw full (Counted-none _ (Tally-fewer from n _ tally))
        ]
    own_try lost_before at email s after before h = Counted-none _ h
    own_try lost_after at email s after before h =
        Counted-none _ (Tally-fewer from n _ (script-Tally at email s from n after before h).0)

    foreign_try :
        (d : Delivery) (at : ℕ) (email : Text) (s : redis.Store) (key : String)
        → (login_attempt_key hash email == key) ≡ false
        → redis.entry (register_attempt hash redis d at email s).1 key ≡ redis.entry s key
    unfolding register_attempt
    foreign_try answered at email s key other = script_foreign hash redis at email s key other
    foreign_try lost_before at email s key other = refl
    foreign_try lost_after at email s key other = script_foreign hash redis at email s key other

    try-Counted :
        (t : LoginTry) (key : String) (s : redis.Store)
        → from ≤ t.at
        → t.at < from + window_ms
        → Tally from n (redis.entry s key)
        → Counted
            ((login_attempt_key hash t.email == key)
              && (is_answered t.delivery
                  && (register_attempt hash redis t.delivery t.at t.email s).0.allowed))
            (redis.entry (register_attempt hash redis t.delivery t.at t.email s).1 key)
    try-Counted t key s after before h = elim (Bool-cases (login_attempt_key hash t.email == key)) [
      | inl same ↦
          rw (same, ← (eq_iff _ _).0 same)
            (own_try t.delivery t.at t.email s after before (rw ((eq_iff _ _).0 same) h))
      | inr other ↦ rw (other, foreign_try t.delivery t.at t.email s key other) (Counted-none _ h)
    ]

  del-Tally :
      (from n : ℕ) (email : Text) (key : String) (s : redis.Store)
      → Tally from n (redis.entry s key)
      → Tally from
          (if (login_attempt_key hash email == key) && true then 0 else n)
          (redis.entry (redis.del (login_attempt_key hash email) s) key)
  del-Tally from n email key s h = elim (Bool-cases (login_attempt_key hash email == key)) [
    | inl same ↦ rw (redis.entry-del (login_attempt_key hash email) s key, same) refl
    | inr other ↦ rw (redis.entry-del (login_attempt_key hash email) s key, other) h
  ]

  -- A clearing that reaches Redis starts the tally of its key anew.
  clear-Tally :
      (from n : ℕ) (email : Text) (d : Delivery) (key : String) (s : redis.Store)
      → Tally from n (redis.entry s key)
      → Tally from
          (if (login_attempt_key hash email == key) && has_run d then 0 else n)
          (redis.entry (clear hash redis d email s) key)
  unfolding clear
  clear-Tally from n email lost_before key s h = ground arith
  clear-Tally from n email answered key s h = del-Tally from n email key s h
  clear-Tally from n email lost_after key s h = del-Tally from n email key s h

  caps_loop :
      (key : String) (from : ℕ) (calls : List LimiterCall) (s : redis.Store) (n : ℕ)
      → n ≤ login_max_attempts
      → All (IsWithin from) calls
      → Tally from n (redis.entry s key)
      → admitted_since_clear key n calls s ≤ login_max_attempts
  unfolding admitted_since_clear
  caps_loop key from [] s n few timely h = few
  caps_loop key from (tried t ∷ calls) s n few ((after, before), timely) h =
      let (few', h') = try-Counted from n few t key s after before h in
      caps_loop key from calls _ _ few' timely h'
  caps_loop key from (cleared email d ∷ calls) s n few (_, timely) h =
      caps_loop key from calls _ _ (ground arith) timely (clear-Tally from n email d key s h)

  -- From a counter that is gone by `from`, whatever attempts and clearings on whatever accounts follow
  -- in the quarter of an hour from then, in any order, and also where Redis errs before or after it has
  -- run a call: of the attempts on one key that Redis answered, the limiter has let at most ten through
  -- since the last clearing of the key that reached Redis.
  pub window_caps_attempts :
      (key : String) (from : ℕ) (calls : List LimiterCall) (s : redis.Store)
      → All (IsWithin from) calls
      → live from (redis.entry s key) ≡ none
      → admitted_since_clear key 0 calls s ≤ 10
  window_caps_attempts key from calls s timely gone =
      caps_loop key from calls s 0 (omega arith) timely (gone-Tally (redis.entry s key) gone)
    where
      gone-Tally : (o : Option Entry) → live from o ≡ none → Tally from 0 o
      gone-Tally none h = refl
      gone-Tally (some e) h = ground arith

  -- Whatever the counter holds, an account that is told to wait some seconds is let in again, with its
  -- first attempt of a window, when it comes back after them and nobody else has tried.
  pub lockout_ends :
      (now later : ℕ) (email : Text) (s : redis.Store)
      → now + (register_attempt hash redis answered now email s).0.retry_after_seconds * 1000
        ≤ later
      → ((register_attempt hash redis answered later email
            (register_attempt hash redis answered now email s).1).0.allowed
          ≡ true)
        × ((register_attempt hash redis answered later email
              (register_attempt hash redis answered now email s).1).0.attempts
            ≡ 1)
  unfolding register_attempt
  lockout_ends now later email s waited = rw first (refl, refl)
    where
      left : redis.Store
      left = (script_at hash redis now email s).1

      expiry_reached :
          now + (touched now (live now (redis.entry s (login_attempt_key hash email)))).0.1 ≤ later
      expiry_reached = rw (← (script-touched hash redis now email s).0) (ground arith)

      first : (script_at hash redis later email left).0.0 ≡ 1
      first =
          rw
            (
              (script-touched hash redis later email left).0,
              (script-touched hash redis now email s).1,
            )
            (touched-again later _ _
              (touched-expiry now (redis.entry s (login_attempt_key hash email))) expiry_reached)
