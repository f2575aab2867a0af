-- ===== src/Leads/Stats/Counting.antt =====
-- A set of keys raises every count by one at most.
use memoflow_api.Leads.Enums.{tier_enum, action_enum, Enum}
use memoflow_api.Prelude.{
  ℕ, ◌+◌, ◌≤◌, ◌≡◌, refl, Bool, true, not, Option, none, some, List, [], ◌∷◌, keep, if◌then◌else◌,
  arith, Bool-cases, inl, inr,
}
use memoflow_api.Leads.Stats.{Counts, same, bump, bump_some, unique, bump_each, bump_set}

module _ {K : Type 0} ⦃e : Enum K⦄ where
  abbrev occurs : K → List K → ℕ
  occurs j [] = 0
  occurs j (k ∷ ks) = (if same k j then 1 else 0) + occurs j ks

  bump_each-occurs : (ks : List K) (c : Counts K) (j : K) → bump_each ks c j ≡ c j + occurs j ks
  unfolding bump
  bump_each-occurs [] c j = omega arith
  bump_each-occurs (k ∷ ks) c j = ground (arith, bump_each-occurs ks (bump k c) j)

  occurs-keep : (p : K → Bool) (ks : List K) (j : K) → occurs j (keep p ks) ≤ occurs j ks
  occurs-keep p [] j = omega arith
  occurs-keep p (k ∷ ks) j = ground (arith, occurs-keep p ks j)

  -- No key that was dropped occurs.
  occurs-dropped :
      (k j : K) (ks : List K) → same k j ≡ true → occurs j (keep (λ i. not (same k i)) ks) ≡ 0
  occurs-dropped k j [] h = refl
  occurs-dropped k j (i ∷ ks) h = ground (arith, occurs-dropped k j ks h)

  occurs-unique : (ks : List K) (j : K) → occurs j (unique ks) ≤ 1
  unfolding unique
  occurs-unique [] j = omega arith
  occurs-unique (k ∷ ks) j = elim (Bool-cases (same k j)) [
    | inl is ↦ rw is (omega (arith, occurs-dropped k j (unique ks) is))
    | inr other ↦
        rw other
          (omega (arith, occurs-keep (λ i. not (same k i)) (unique ks) j, occurs-unique ks j))
  ]

  pub bump_set-bound : (o : Option (List K)) (c : Counts K) (j : K) → bump_set o c j ≤ c j + 1
  unfolding bump_set
  bump_set-bound none c j = omega arith
  bump_set-bound (some ks) c j = omega (arith, bump_each-occurs (unique ks) c j, occurs-unique ks j)

  pub bump_some-bound : (o : Option K) (c : Counts K) (j : K) → bump_some o c j ≤ c j + 1
  unfolding bump_some bump
  bump_some-bound none c j = omega arith
  bump_some-bound (some k) c j = ground arith
