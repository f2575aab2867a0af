-- ===== src/Exec/Inversion.antt =====
-- Partial correctness of one run: when it returns, `Q` holds of the value. One rule for each way to
-- build an action; a bind passes on what its first part returned.
use mathlib.Core.Bool.{false≢true}
use memoflow_api.Exec.Errors.{Failure}
use memoflow_api.Exec.{Exec, Result, ok, err, pure, throw, resume, ◌>>=◌}
use memoflow_api.Prelude.{◌≡◌, refl, sym, ap, ◌∙◌, Bool, true, false}

pub record Ensures {W A : Type 0} (Q : A → Type 0) (m : Exec W A) (w : W) : Type 0 where
  pub at : (a : A) → (m w).0 ≡ ok a → Q a

abbrev is_ok {ℓ} : {A : Type ℓ} → Result A → Bool
is_ok (ok a) = true
is_ok (err e) = false

pub err-ne-ok : {A : Type 0} {e : Failure} {a : A} → err e ≡ ok a → ⊥
err-ne-ok {A = A} same = false≢true (ap is_ok same)

abbrev value_or {ℓ} : {A : Type ℓ} → A → Result A → A
value_or d (ok a) = a
value_or d (err e) = d

pub ok-injective : {A : Type 0} {a b : A} → ok a ≡ ok b → a ≡ b
ok-injective {a = a} same = ap (value_or a) same

module _ {W A : Type 0} {Q : A → Type 0} where
  pub Ensures-pure : (a : A) (w : W) → Q a → Ensures Q (pure a) w
  unfolding pure
  Ensures-pure a w q = record { at = λ b same. rw (← ok-injective same) q }

  pub Ensures-throw : (e : Failure) (w : W) → Ensures Q (throw e) w
  unfolding throw
  Ensures-throw e w = record { at = λ b same. absurd (err-ne-ok same) }

module _ {W A B : Type 0} {Q : B → Type 0} where
  resumed :
      (r : Result A) (f : A → Exec W B) (w : W)
      → ((a : A) → r ≡ ok a → Ensures Q (f a) w)
      → (b : B) → (resume r f w).0 ≡ ok b
      → Q b
  resumed (ok a) f w h b done = (h a refl).at b done
  resumed (err e) f w h b done = absurd (err-ne-ok done)

  pub Ensures-bind :
      (m : Exec W A) (f : A → Exec W B) (w : W)
      → ((a : A) → (m w).0 ≡ ok a → Ensures Q (f a) (m w).1)
      → Ensures Q (m >>= f) w
  unfolding ◌>>=◌
  Ensures-bind m f w h = record { at = resumed (m w).0 f (m w).1 h }

  -- The first part is known.
  pub Ensures-known :
      (m : Exec W A) (f : A → Exec W B) (w : W) (a : A) (v : W)
      → m w ≡ (ok a, v)
      → Ensures Q (f a) v
      → Ensures Q (m >>= f) w
  unfolding ◌>>=◌
  Ensures-known m f w a v is h = record {
    at = λ b done. h.at b (ap (λ r. (resume r.0 f r.1).0) (sym is) ∙ done);
  }
