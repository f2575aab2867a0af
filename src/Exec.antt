-- ===== src/Exec.antt =====
-- Asynchronous code that changes a world and may throw. What was written before a throw stays
-- written, so the world comes back beside the thrown value too.
pub mod Errors
pub mod Within
pub mod Returns
pub mod Inversion
use memoflow_api.Prelude.{ℕ, String, ◌≡◌, ◌⊎◌, inl, inr, refl, Option, none, some}
use memoflow_api.Exec.Errors.{Failure}

pub data Result {ℓ} (A : Type ℓ) : Type ℓ where
  ok : A → Result A
  err : Failure → Result A

abbrev pub Exec : Type 0 → Type 0 → Type 0
Exec W A = W → Result A × W

module _ {W A : Type 0} where
  unfoldable pub pure : A → Exec W A
  pure a w = (ok a, w)

  unfoldable pub throw : Failure → Exec W A
  throw e w = (err e, w)

  -- The outcome of `m` as a value: what a `try` block hands to the code below it.
  unfoldable pub attempt : Exec W A → Exec W (Result A)
  attempt m w = let (r, w') = m w in (ok r, w')

module _ {W A B : Type 0} where
  abbrev pub resume : Result A → (A → Exec W B) → Exec W B
  resume (ok a) f w = f a w
  resume (err e) f w = (err e, w)

  infixl 10 ◌>>=◌ ◌>>◌
  unfoldable pub ◌>>=◌ : Exec W A → (A → Exec W B) → Exec W B
  unfolding pure throw attempt
  ◌>>=◌ m f w = let (r, w') = m w in resume r f w'

  abbrev pub ◌>>◌ : Exec W A → Exec W B → Exec W B
  m >> n = m >>= λ _. n

pub Result-cases {ℓ} :
    {A : Type ℓ} (r : Result A) → ((a : A) × (r ≡ ok a)) ⊎ ((e : Failure) × (r ≡ err e))
Result-cases (ok a) = inl (a, refl)
Result-cases (err e) = inr (e, refl)
