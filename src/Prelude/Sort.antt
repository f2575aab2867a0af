-- ===== src/Prelude/Sort.antt =====
-- `Array.prototype.sort` by a numeric key: stable, as an insertion sort.
use Prim.Native.Nat.{ℕ, ◌≤◌}
use mathlib.Core.Logic.{◌≢◌}
use mathlib.Core.Path.{◌≡◌, refl, sym, ◌∙◌, subst}
use mathlib.Core.Bool.{Bool, true, false}
use mathlib.Core.List.{List, [], ◌∷◌, ◌++◌}
use mathlib.Core.List.{Permᴰ, map}
use mathlib.Core.List.Permᴰ as PermD
use native.Mathlib.Omega.{arith}
use memoflow_api.Prelude.Tests.{leb, eqb, if◌then◌else◌}
use memoflow_api.Prelude.Lists.{any, Distinct, All}

module _ {A : Type 0} (key : A → ℕ) where
  -- Before the first element with a key that is not smaller.
  unfoldable pub insert_by : A → List A → List A
  insert_by x [] = x ∷ []
  insert_by x (y ∷ ys) =
      let rest = insert_by x ys in if leb (key x) (key y) then x ∷ y ∷ ys else y ∷ rest

  unfoldable pub sort_by : List A → List A
  unfolding insert_by
  sort_by [] = []
  sort_by (x ∷ xs) = insert_by x (sort_by xs)

  -- Insertions of different keys commute.
  insert_by_comm :
      (a b : A) (l : List A)
      → key a ≢ key b
      → insert_by a (insert_by b l) ≡ insert_by b (insert_by a l)
  unfolding insert_by
  insert_by_comm a b [] h = ground arith
  insert_by_comm a b (y ∷ l) h = ground (arith, insert_by_comm a b l)

  any-perm :
      (n : ℕ) {xs ys : List A}
      → Permᴰ xs ys
      → any (λ k. eqb k n) (map key xs) ≡ any (λ k. eqb k n) (map key ys)
  any-perm n Permᴰ.nil = refl
  any-perm n (Permᴰ.cons e p) = cc (e, any-perm n p)
  any-perm n (Permᴰ.swap {a} {b} {l} e f) = rw (e, f) (ground arith)
  any-perm n (Permᴰ.trans p q) = any-perm n p ∙ any-perm n q

  Distinct-perm : {xs ys : List A} → Permᴰ xs ys → Distinct (map key xs) → Distinct (map key ys)
  Distinct-perm Permᴰ.nil h = h
  Distinct-perm (Permᴰ.cons {a} e p) (new, h) =
      rw (← e) (sym (any-perm (key a) p) ∙ new, Distinct-perm p h)
  Distinct-perm (Permᴰ.swap {a} {b} {b'} {l} e f) (new, (fresh, h)) =
      let swapped : Distinct (key b ∷ key a ∷ map key l) = (ground arith, (ground arith, h)) in
      subst (λ z. Distinct (key z ∷ key b' ∷ map key l)) f
        (subst (λ z. Distinct (key b ∷ key z ∷ map key l)) e swapped)
  Distinct-perm (Permᴰ.trans p q) h = Distinct-perm q (Distinct-perm p h)

  -- Elements with distinct keys are sorted to the same list, in whatever order they come.
  pub sort_by-perm :
      {xs ys : List A} → Permᴰ xs ys → Distinct (map key xs) → sort_by xs ≡ sort_by ys
  unfolding sort_by
  sort_by-perm Permᴰ.nil h = refl
  sort_by-perm (Permᴰ.cons e p) (new, h) = cc (e, sort_by-perm p h)
  sort_by-perm (Permᴰ.swap {a} {b} {l} e f) (new, (fresh, h)) =
      rw (← e, ← f) (insert_by_comm a b (sort_by l) (ground arith))
  sort_by-perm (Permᴰ.trans p q) h = sort_by-perm p h ∙ sort_by-perm q (Distinct-perm p h)

  -- Each key is at most the next.
  abbrev pub Ascending : List A → Type 0
  Ascending [] = Unit
  Ascending (x ∷ []) = Unit
  Ascending (x ∷ y ∷ l) = (key x ≤ key y) × Ascending (y ∷ l)

  insert_by-Ascending : (x : A) (l : List A) → Ascending l → Ascending (insert_by x l)
  unfolding insert_by
  insert_by-Ascending x [] h = tt
  insert_by-Ascending x (y ∷ []) h = ground arith
  insert_by-Ascending x (y ∷ z ∷ l) h = ground (arith, insert_by-Ascending x (z ∷ l))

  pub sort_by-Ascending : (xs : List A) → Ascending (sort_by xs)
  unfolding sort_by
  sort_by-Ascending [] = tt
  sort_by-Ascending (x ∷ xs) = insert_by-Ascending x (sort_by xs) (sort_by-Ascending xs)

  insert_by-perm : (x : A) (l : List A) → Permᴰ (insert_by x l) (x ∷ l)
  unfolding insert_by
  insert_by-perm x [] = PermD.refl _
  insert_by-perm x (y ∷ l) = by_test (leb (key x) (key y)) (insert_by-perm x l)
    where
      by_test :
          (b : Bool)
          → Permᴰ (insert_by x l) (x ∷ l)
          → Permᴰ (if b then x ∷ y ∷ l else y ∷ insert_by x l) (x ∷ y ∷ l)
      by_test true ih = PermD.refl _
      by_test false ih = Permᴰ.trans (Permᴰ.cons refl ih) (Permᴰ.swap refl refl)

  pub sort_by-perm_self : (xs : List A) → Permᴰ (sort_by xs) xs
  unfolding sort_by
  sort_by-perm_self [] = Permᴰ.nil
  sort_by-perm_self (x ∷ xs) =
      Permᴰ.trans (insert_by-perm x (sort_by xs)) (Permᴰ.cons refl (sort_by-perm_self xs))

-- `Array.prototype.sort` with a comparator, where `le x y` says that it does not put `y` before `x`:
-- stable, as an insertion sort.
module _ {A : Type 0} (le : A → A → Bool) where
  unfoldable pub insert_with : A → List A → List A
  insert_with x [] = x ∷ []
  insert_with x (y ∷ ys) = let rest = insert_with x ys in if le x y then x ∷ y ∷ ys else y ∷ rest

  unfoldable pub sort_with : List A → List A
  sort_with [] = []
  sort_with (x ∷ xs) = insert_with x (sort_with xs)

  -- Before a list of elements that it may stand before.
  pub insert_with-first :
      (x : A) (l : List A) → All (λ y. le x y ≡ true) l → insert_with x l ≡ x ∷ l
  unfolding insert_with
  insert_with-first x [] h = refl
  insert_with-first x (y ∷ l) (first, h) = rw first refl

  -- Past the elements that it may not stand before.
  pub insert_with-past :
      (x : A) (l m : List A)
      → All (λ y. le x y ≡ false) l
      → insert_with x (l ++ m) ≡ l ++ insert_with x m
  unfolding insert_with
  insert_with-past x [] m h = refl
  insert_with-past x (y ∷ l) m (later, h) = rw (later, insert_with-past x l m h) refl
