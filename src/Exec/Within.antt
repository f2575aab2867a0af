-- ===== src/Exec/Within.antt =====
-- How an action may move its world: every run, returning or throwing, stays inside a relation `R`
-- that is reflexive and transitive. One rule for each way to build an action.
use memoflow_api.Exec.Errors.{Failure}
use memoflow_api.Exec.{Exec, Result, ok, err, pure, throw, attempt, ◌>>=◌}
use memoflow_api.Prelude.{Bool, true, false, if◌then◌else◌}

pub record Preorder {W : Type 0} (R : W → W → Type 0) : Type 0 where
  pub stay : (w : W) → R w w
  pub step : (u v w : W) → R u v → R v w → R u w

pub record Within {W A : Type 0} (R : W → W → Type 0) (m : Exec W A) : Type 0 where
  pub at : (w : W) → R w (m w).1

module _ {W : Type 0} {R : W → W → Type 0} (order : Preorder R) where
  module _ {A : Type 0} where
    pub Within-pure : (a : A) → Within R (pure a)
    unfolding pure
    Within-pure a = record { at = λ w. order.stay w }

    pub Within-throw : (e : Failure) → Within R (throw {A = A} e)
    unfolding throw
    Within-throw e = record { at = λ w. order.stay w }

    pub Within-attempt : (m : Exec W A) → Within R m → Within R (attempt m)
    unfolding attempt
    Within-attempt m h = record { at = λ w. h.at w }

  module _ {A B : Type 0} where
    after :
        (f : A → Exec W B)
        → ((a : A) → Within R (f a))
        → (r : Result A) (u w : W) → R u w
        → R u (◌>>=◌ (λ (v : W). (r, v)) f w).1
    unfolding ◌>>=◌
    after f kf (ok a) u w h = order.step u w _ h ((kf a).at w)
    after f kf (err e) u w h = h

    pub Within-bind :
        (m : Exec W A) (f : A → Exec W B)
        → Within R m
        → ((a : A) → Within R (f a))
        → Within R (m >>= f)
    unfolding ◌>>=◌
    Within-bind m f km kf = record { at = λ w. after f kf (m w).0 w (m w).1 (km.at w) }

module _ {W A : Type 0} {R : W → W → Type 0} where
  pub Within-if :
      (b : Bool) (m n : Exec W A) → Within R m → Within R n → Within R (if b then m else n)
  Within-if true m n km kn = km
  Within-if false m n km kn = kn
