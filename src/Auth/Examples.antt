-- ===== src/Auth/Examples.antt =====
-- Logging in, with the limiter's counters in memory and one account.
use Prim.Native.String
use memoflow_api.Prelude.{
  ◌+◌, ◌*◌, ◌≤◌, String, ◌≡◌, refl, Bool, true, false, none, some, List, [], ◌∷◌, ◌&&◌, length, eqb,
  arith, ◌==◌, if◌then◌else◌,
}
use memoflow_api.Text.{Text, units, trim, is_space}
use memoflow_api.Exec.{ok, err, ◌>>=◌}
use memoflow_api.Exec.Errors.{http}
use memoflow_api.Users.{User, user, is_disabled}
use memoflow_api.Redis.{answered, lost_after}
use memoflow_api.Redis.Memory.{memory}
use memoflow_api.Auth.Limiter.{register_attempt, clear, login_attempt_key, incr_with_expiry}
use memoflow_api.Auth.Window.{
  LimiterCall, tried, cleared, admitted_since_clear, window_caps_attempts, lockout_ends,
}
use memoflow_api.Auth.Login.{
  LoginUserInput, LoginPorts, LoginWorld, login, payload_of, port, check_password, on_match, admit,
  normalize_email, emitted, login_failed, compared, looked_up, registered,
}
use memoflow_api.Auth.Login.Outcomes.{
  refusals_look_alike, token_needs_proof, account, attempt, found, comparison,
}

-- A digest that tells two addresses apart by their first character.
abbrev toy_hash : Text → String
toy_hash [] = "empty"
toy_hash (c ∷ t) = if eqb c 97 then "a" else "other"

abbrev empty_store : memory.Store
empty_store = λ k. none

abbrev ana : Text
ana = units "ana@memoflow.app"

abbrev ben : Text
ben = units "ben@memoflow.app"

abbrev ana_key : String
ana_key = login_attempt_key toy_hash ana

-- Two attempts and a clearing, then three attempts of which one is on another account and one is lost.
abbrev calls : List LimiterCall
calls =
    tried (record { email = ana; at = 5000; delivery = answered })
    ∷ tried (record { email = ana; at = 5001; delivery = answered })
    ∷ cleared ana answered
    ∷ tried (record { email = ana; at = 5002; delivery = answered })
    ∷ tried (record { email = ben; at = 5003; delivery = answered })
    ∷ tried (record { email = ana; at = 5004; delivery = lost_after })
    ∷ []

one_admitted : admitted_since_clear toy_hash memory ana_key 0 calls empty_store ≡ 1
unfolding admitted_since_clear register_attempt incr_with_expiry login_attempt_key clear
one_admitted = refl

window_caps_attempts_example : admitted_since_clear toy_hash memory ana_key 0 calls empty_store ≤ 10
window_caps_attempts_example =
    window_caps_attempts toy_hash memory ana_key 5000 calls empty_store
      (
        (omega arith, omega arith),
        (
          (omega arith, omega arith),
          (
            tt,
            (
              (omega arith, omega arith),
              ((omega arith, omega arith), ((omega arith, omega arith), tt)),
            ),
          ),
        ),
      )
      refl

-- A counter at its limit, which is gone at 65000.
abbrev full_store : memory.Store
full_store = λ k. some (record { count = 10; expires_at = some 65000 })

is_locked : (register_attempt toy_hash memory answered 5000 ana full_store).0.allowed ≡ false
unfolding register_attempt incr_with_expiry login_attempt_key
is_locked = refl

waits_a_minute :
    (register_attempt toy_hash memory answered 5000 ana full_store).0.retry_after_seconds ≡ 60
unfolding register_attempt incr_with_expiry login_attempt_key
waits_a_minute = refl

a_minute_later :
    5000
      + (register_attempt toy_hash memory answered 5000 ana full_store).0.retry_after_seconds * 1000
    ≤ 65000
a_minute_later = rw waits_a_minute (omega arith)

lockout_ends_example :
    ((register_attempt toy_hash memory answered 65000 ana
        (register_attempt toy_hash memory answered 5000 ana full_store).1).0.allowed
      ≡ true)
    × ((register_attempt toy_hash memory answered 65000 ana
          (register_attempt toy_hash memory answered 5000 ana full_store).1).0.attempts
        ≡ 1)
lockout_ends_example = lockout_ends toy_hash memory 5000 65000 ana full_store a_minute_later

abbrev ana_user : User
ana_user = record {
  id = "u1";
  email = "ana@memoflow.app";
  password_hash = "h1";
  display_name = "Ana";
  role = user;
  xp = 0;
  level = 1;
  last_active_at = none;
  disabled_at = none;
  email_verified_at = none;
  token_version = 3;
  ai_consent_at = none;
  ai_consent_version = none;
}

abbrev is_ana : Text → Bool
is_ana [] = false
is_ana (c ∷ t) = eqb c 97

-- The limiter over counters in memory at noon, one account, and a password of six letters.
abbrev ports : LoginPorts
ports = record {
  Env = memory.Store;
  register_attempt = λ email s. register_attempt toy_hash memory answered 43200000 email s;
  clear = λ email s. clear toy_hash memory answered email s;
  find_by_email = λ email s. (ok (if is_ana email then some ana_user else none), s);
  update_last_active_at = λ id s. (ok tt, s);
  compare = λ password hash s. (ok (eqb (length password) 6 && (hash == "h1")), s);
  sign = λ payload s. (ok (String.◌++◌ "jwt-" payload.sub), s);
}

abbrev as_typed : Text → Text
as_typed t = t

abbrev at_noon : LoginWorld memory.Store
at_noon = record { env = empty_store; calls = [] }

abbrev good : LoginUserInput
good = record { email = units " ana@memoflow.app"; password = units "secret" }

abbrev wrong : LoginUserInput
wrong = record { email = ana; password = units "guess" }

logs_in : (login as_typed ports good at_noon).0 ≡ ok "jwt-u1"
unfolding login port normalize_email register_attempt incr_with_expiry login_attempt_key clear ◌>>=◌
    trim is_space check_password on_match is_disabled admit
logs_in = refl

token_needs_proof_example :
    ((attempt as_typed ports good at_noon).0.allowed ≡ true)
    × ((u : User) × ((found as_typed ports good at_noon).0 ≡ ok (some u))
        × ((comparison as_typed ports good at_noon (some u)).0 ≡ ok true)
        × (is_disabled u ≡ false)
        × ((env : memory.Store) × ((ports.sign (payload_of as_typed ports u) env).0 ≡ ok "jwt-u1")))
token_needs_proof_example = token_needs_proof as_typed ports good at_noon "jwt-u1" logs_in

lets_through : (attempt as_typed ports wrong at_noon).0.allowed ≡ true
unfolding normalize_email register_attempt incr_with_expiry login_attempt_key trim is_space
lets_through = refl

finds_ana : (found as_typed ports wrong at_noon).0 ≡ ok (some ana_user)
unfolding normalize_email trim is_space
finds_ana = refl

refusals_look_alike_example :
    ((login as_typed ports wrong at_noon).0 ≡ err (http 401 "Invalid email or password"))
    × ((login as_typed ports wrong at_noon).1.calls
        ≡ emitted (login_failed (some "u1") (account as_typed ports wrong at_noon))
          ∷ compared wrong.password "h1"
          ∷ looked_up (account as_typed ports wrong at_noon)
          ∷ registered (account as_typed ports wrong at_noon)
          ∷ [])
refusals_look_alike_example =
    refusals_look_alike as_typed ports wrong at_noon (some ana_user) false lets_through finds_ana
      refl refl
