-- ===== src/Auth/Login/Outcomes.antt =====
-- What logging in answers and what it has asked of others by then.
use memoflow_api.Prelude.{
  String, ◌≡◌, refl, sym, ap, ◌∙◌, Bool, true, false, not, ◌||◌, Option, none, some, ◌∷◌,
  Bool-cases, inl, inr, arith,
}
use memoflow_api.Text.{Text}
use memoflow_api.Exec.{Result, ok, err, throw, ◌>>=◌}
use memoflow_api.Exec.Inversion.{Ensures, Ensures-pure, Ensures-throw, Ensures-bind, Ensures-known}
use memoflow_api.Exec.Errors.{http}
use memoflow_api.Users.{User, is_disabled}
use memoflow_api.Auth.Limiter.{LoginAttemptResult}
use memoflow_api.Auth.Login.{
  LoginUserInput, LoginPorts, LoginWorld, normalize_email, login, port, on_user, check_password,
  admit, refuse_unknown, refuse_throttled, invalid_credentials, payload_of, dummy_password_hash,
  compared, looked_up, registered, emitted, on_match, login_failed,
}

abbrev pub id_of : Option User → Option String
id_of none = none
id_of (some user) = some user.id

-- The hash that a password is compared with.
abbrev pub hash_of : Option User → String
hash_of none = dummy_password_hash
hash_of (some user) = user.password_hash

abbrev pub is_refused : Option User → Bool → Bool
is_refused none matches = true
is_refused (some user) matches = not matches || is_disabled user

module _ (lower : Text → Text) (p : LoginPorts) (input : LoginUserInput)
    (w : LoginWorld p.Env) where
  -- The account that the request names, the limiter's answer, the user found and the comparison.
  abbrev pub account : Text
  account = normalize_email lower input.email

  abbrev pub attempt : LoginAttemptResult × p.Env
  attempt = p.register_attempt account w.env

  abbrev pub found : Result (Option User) × p.Env
  found = p.find_by_email account attempt.1

  abbrev pub comparison : Option User → Result Bool × p.Env
  comparison o = p.compare input.password (hash_of o) found.1

  -- An account that is unknown, or whose password is wrong, or that is disabled, is refused in the same
  -- words after one comparison of the password, where the limiter lets the attempt through and neither
  -- the lookup nor the comparison throws: nothing else is asked, and no token signed.
  pub refusals_look_alike :
      (o : Option User) (matches : Bool)
      → attempt.0.allowed ≡ true
      → found.0 ≡ ok o
      → (comparison o).0 ≡ ok matches
      → is_refused o matches ≡ true
      → ((login lower p input w).0 ≡ err (http 401 "Invalid email or password"))
        × ((login lower p input w).1.calls
            ≡ emitted (login_failed (id_of o) account)
              ∷ compared input.password (hash_of o)
              ∷ looked_up account
              ∷ registered account
              ∷ w.calls)
  unfolding login port ◌>>=◌ check_password on_match refuse_unknown invalid_credentials throw
  refusals_look_alike none matches allowed is_found is_compared refused =
      rw (allowed, is_found, is_compared) (refl, refl)
  refusals_look_alike (some user) matches allowed is_found is_compared refused =
      rw (allowed, is_found, is_compared, refused) (refl, refl)

  abbrev Signed : User → String → Type 0
  Signed user token = (env : p.Env) × ((p.sign (payload_of lower p user) env).0 ≡ ok token)

  admit-Signed :
      (user : User) (v : LoginWorld p.Env) → Ensures (Signed user) (admit lower p account user) v
  unfolding admit port
  admit-Signed user v = Ensures-bind _ _ v (λ forgotten _. Ensures-bind _ _ _ (λ active _.
      Ensures-bind _ _ _
        (λ token is_signed. Ensures-bind _ _ _ (λ told _. Ensures-pure token _ (_, is_signed)))))

  -- What stands behind a token.
  abbrev Proven : String → Type 0
  Proven token =
      (user : User) × (found.0 ≡ ok (some user))
      × ((comparison (some user)).0 ≡ ok true)
      × (is_disabled user ≡ false)
      × Signed user token

  both : (m d : Bool) → (not m || d) ≡ false → (m ≡ true) × (d ≡ false)
  both m d h = ground arith

  on_user-Proven :
      (o : Option User) (v : LoginWorld p.Env)
      → found.0 ≡ ok o
      → v.env ≡ found.1
      → Ensures Proven (on_user lower p account input.password o) v
  unfolding check_password refuse_unknown on_match port invalid_credentials
  on_user-Proven none v is_found here =
      Ensures-bind _ _ v (λ m _. Ensures-bind _ _ _ (λ told _. Ensures-throw _ _))
  on_user-Proven (some user) v is_found here = Ensures-bind _ _ v (λ matches is_compared.
      on_match-Proven matches
        (ap (λ env. (p.compare input.password user.password_hash env).0) (sym here) ∙ is_compared))
    where
      on_match-Proven :
          (matches : Bool) {u : LoginWorld p.Env}
          → (comparison (some user)).0 ≡ ok matches
          → Ensures Proven (on_match lower p account user matches) u
      on_match-Proven matches {u} compared_with =
          elim (Bool-cases (not matches || is_disabled user)) [
            | inl refused ↦ rw refused (Ensures-bind _ _ u (λ told _. Ensures-throw _ _))
            | inr accepted ↦
                let (matched, enabled) = both matches (is_disabled user) accepted in
                rw accepted (record {
                  at = λ token issued. (
                    user,
                    is_found,
                    compared_with ∙ ap ok matched,
                    enabled,
                    (admit-Signed user u).at token issued,
                  );
                })
          ]

  let_through : attempt.0.allowed ≡ true → Ensures Proven (login lower p input) w
  unfolding login port
  let_through allowed =
      Ensures-known _ _ w attempt.0 _ refl
        (rw allowed (Ensures-bind _ _ _ (λ o is_found. on_user-Proven o _ is_found refl)))

  held_back : attempt.0.allowed ≡ false → Ensures (λ t. ⊥) (login lower p input) w
  unfolding login refuse_throttled port
  held_back stopped =
      Ensures-known _ _ w attempt.0 _ refl
        (rw stopped (Ensures-bind _ _ _ (λ told _. Ensures-throw _ _)))

  -- A token is only ever issued for an attempt that the limiter lets through, to a user who is found under
  -- the account and not disabled and whose password hash was compared with success; it is what the
  -- token service signed for that user.
  pub token_needs_proof :
      (token : String)
      → (login lower p input w).0 ≡ ok token
      → (attempt.0.allowed ≡ true)
        × ((user : User) × (found.0 ≡ ok (some user))
            × ((comparison (some user)).0 ≡ ok true)
            × (is_disabled user ≡ false)
            × ((env : p.Env) × ((p.sign (payload_of lower p user) env).0 ≡ ok token)))
  token_needs_proof token issued = elim (Bool-cases attempt.0.allowed) [
    | inl allowed ↦ (allowed, (let_through allowed).at token issued)
    | inr stopped ↦ absurd ((held_back stopped).at token issued)
  ]
