-- ===== src/Auth/Login.antt =====
-- application/auth/login-user.use-case.ts. `lower` stands for `toLowerCase`, and the ports are
-- functions of an environment: the limiter, which never throws, and the user repository, bcrypt and
-- the token service, which may.
pub mod Outcomes
use memoflow_api.Prelude.{
  ℕ, ◌+◌, String, Bool, true, false, not, ◌||◌, Option, none, some, List, ◌∷◌, eqb, if◌then◌else◌,
}
use memoflow_api.Text.{Text, trim}
use memoflow_api.Exec.{Result, ok, err, Exec, pure, throw, ◌>>=◌, ◌>>◌}
use memoflow_api.Exec.Errors.{http, login_throttled}
use memoflow_api.Users.{User, is_disabled}
use memoflow_api.Auth.Limiter.{login_max_attempts, LoginAttemptResult}

abbrev pub dummy_password_hash : String
dummy_password_hash = "$2b$10$6beIFBDfQh6MC8Fn/Mw4I.GJBGlN7Nxmn79JZ2rW/SHYEnUnPVAOq"

pub record LoginUserInput : Type 0 where
  pub email : Text
  pub password : Text

pub record JwtPayload : Type 0 where
  pub sub : String
  pub email : String
  pub tv : ℕ

pub data AuthEvent : Type 0 where
  throttled : Text → AuthEvent
  login_failed : Option String → Text → AuthEvent
  logged_in : String → AuthEvent

pub data LoginCall : Type 0 where
  registered cleared looked_up : Text → LoginCall
  compared : Text → String → LoginCall
  touched : String → LoginCall
  signed : JwtPayload → LoginCall
  emitted : AuthEvent → LoginCall

pub record LoginPorts : Type 1 where
  pub Env : Type 0
  pub register_attempt : Text → Env → LoginAttemptResult × Env
  pub clear : Text → Env → Env
  pub find_by_email : Text → Env → Result (Option User) × Env
  pub update_last_active_at : String → Env → Result (Unit {0}) × Env
  pub compare : Text → String → Env → Result Bool × Env
  pub sign : JwtPayload → Env → Result String × Env

pub record LoginWorld (Env : Type 0) : Type 0 where
  pub env : Env
  pub calls : List LoginCall

module _ (lower : Text → Text) where
  unfoldable pub normalize_email : Text → Text
  normalize_email email = lower (trim email)

  module _ (p : LoginPorts) where
    abbrev pub L : Type 0 → Type 0
    L A = Exec (LoginWorld p.Env) A

    -- `await` of a call on a port.
    unfoldable pub port : {A : Type 0} → LoginCall → (p.Env → Result A × p.Env) → L A
    port call f w = let (r, env) = f w.env in (r, record { env = env; calls = call ∷ w.calls })

    abbrev pub emit : AuthEvent → L (Unit {0})
    emit event = port (emitted event) (λ env. (ok tt, env))

    abbrev pub register : Text → L LoginAttemptResult
    register email =
        port (registered email)
          (λ env. let (r, env') = p.register_attempt email env in (ok r, env'))

    unfoldable pub invalid_credentials : L String
    invalid_credentials = throw (http 401 "Invalid email or password")

    unfoldable pub refuse_throttled : Text → LoginAttemptResult → L String
    refuse_throttled email attempt =
        (if eqb attempt.attempts (login_max_attempts + 1) then emit (throttled email) else pure tt)
        >> throw (login_throttled attempt.retry_after_seconds)

    -- The email is unknown: as much bcrypt work as for a wrong password.
    unfoldable pub refuse_unknown : Text → Text → L String
    refuse_unknown email password = do
      matches ←
          port (compared password dummy_password_hash) (p.compare password dummy_password_hash)
      done ← emit (login_failed none email)
      invalid_credentials

    abbrev pub payload_of : User → JwtPayload
    payload_of user = record { sub = user.id; email = user.email; tv = user.token_version }

    unfoldable pub admit : Text → User → L String
    admit email user = do
      forgotten ← port (cleared email) (λ env. (ok tt, p.clear email env))
      active ← port (touched user.id) (p.update_last_active_at user.id)
      access_token ← port (signed (payload_of user)) (p.sign (payload_of user))
      done ← emit (logged_in user.id)
      pure access_token

    -- A disabled account is refused like a wrong password.
    unfoldable pub on_match : Text → User → Bool → L String
    on_match email user matches =
        if not matches || is_disabled user
        then emit (login_failed (some user.id) email) >> invalid_credentials
        else admit email user

    unfoldable pub check_password : Text → Text → User → L String
    check_password email password user = do
      matches ← port (compared password user.password_hash) (p.compare password user.password_hash)
      on_match email user matches

    abbrev pub on_user : Text → Text → Option User → L String
    on_user email password none = refuse_unknown email password
    on_user email password (some user) = check_password email password user

    abbrev pub on_attempt : Text → Text → LoginAttemptResult → L String
    on_attempt email password attempt =
        if not attempt.allowed
        then refuse_throttled email attempt
        else (do user ← port (looked_up email) (p.find_by_email email); on_user email password user)

    -- `execute`; it answers with the access token.
    unfoldable pub login : LoginUserInput → L String
    login input = do
      attempt ← register (normalize_email input.email)
      on_attempt (normalize_email input.email) input.password attempt
