-- ===== src/Exec/Returns.antt =====
-- Total correctness of an action: every run returns, with a value of which `Q` holds.
use memoflow_api.Exec.{Exec, ok, pure, attempt, ◌>>=◌}
use memoflow_api.Prelude.{◌≡◌, refl}

pub record Returns {W A : Type 0} (Q : A → Type 0) (m : Exec W A) : Type 0 where
  pub at : (w : W) → (a : A) × ((m w).0 ≡ ok a) × Q a

-- Every run returns something.
abbrev pub Total : {W A : Type 0} → Exec W A → Type 0
Total m = Returns (λ a. Unit {0}) m

module _ {W A : Type 0} where
  pub Returns-pure : {Q : A → Type 0} (a : A) → Q a → Returns {W = W} Q (pure a)
  unfolding pure
  Returns-pure a q = record { at = λ w. (a, refl, q) }

  pub Total-pure : (a : A) → Total {W = W} (pure a)
  unfolding pure
  Total-pure a = record { at = λ w. (a, refl, tt) }

  pub Total-attempt : (m : Exec W A) → Total (attempt m)
  unfolding attempt
  Total-attempt m = record { at = λ w. ((m w).0, refl, tt) }

module _ {W A B : Type 0} {P : A → Type 0} {Q : B → Type 0} where
  pub Returns-bind :
      (m : Exec W A) (f : A → Exec W B)
      → Returns P m
      → ((a : A) → P a → Returns Q (f a))
      → Returns Q (m >>= f)
  unfolding ◌>>=◌
  Returns-bind m f h k = record { at = λ w. let (a, e, q) = h.at w in rw e ((k a q).at (m w).1) }

module _ {W A : Type 0} {P Q : A → Type 0} where
  pub Returns-mono : (m : Exec W A) → Returns P m → ((a : A) → P a → Q a) → Returns Q m
  Returns-mono m h k = record { at = λ w. let (a, e, q) = h.at w in (a, e, k a q) }
