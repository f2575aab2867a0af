-- ===== src/Quota/Keys.antt =====
-- No user's counter is the global one.
use Prim.Native.String
use mathlib.Core.Bool.{false≢true}
use text.Mathlib.TextLemmas.{append_assoc, append_inj}
use text.Mathlib.Text.{◌==◌}
use memoflow_api.Prelude.{String, ℕ, ◌≡◌, ◌≢◌, refl, sym, ◌∙◌, false, Bool-cases, inl, inr, eq_iff}
use memoflow_api.Quota.{user_quota_key, global_quota_key}

module _ (hash : String → String) (utc_day : ℕ → String) where
  pub user_quota_key-ne-global_quota_key :
      (user_id : String) (d e : ℕ)
      → user_quota_key hash utc_day user_id d ≢ global_quota_key hash utc_day e
  unfolding user_quota_key global_quota_key
  user_quota_key-ne-global_quota_key user_id d e h =
      let user_part = String.◌++◌ (hash user_id) (String.◌++◌ ":" (utc_day d)) in
      let heads =
        append_inj
          (sym (append_assoc "ai-quota:u" "ser:" user_part)
            ∙ h
            ∙ append_assoc "ai-quota:g" "lobal:" (utc_day e))
          refl in
      false≢true ((eq_iff "ai-quota:u" "ai-quota:g").1 heads.0)

  pub keys_differ :
      (user_id : String) (d e : ℕ)
      → (user_quota_key hash utc_day user_id d == global_quota_key hash utc_day e) ≡ false
  keys_differ user_id d e =
      elim (Bool-cases (user_quota_key hash utc_day user_id d == global_quota_key hash utc_day e)) [
        | inl same ↦ absurd (user_quota_key-ne-global_quota_key user_id d e ((eq_iff _ _).0 same))
        | inr other ↦ other
      ]

  pub keys_differ_too :
      (user_id : String) (d : ℕ)
      → (global_quota_key hash utc_day d == user_quota_key hash utc_day user_id d) ≡ false
  keys_differ_too user_id d =
      elim (Bool-cases (global_quota_key hash utc_day d == user_quota_key hash utc_day user_id d)) [
        | inl same ↦
            absurd (user_quota_key-ne-global_quota_key user_id d d (sym ((eq_iff _ _).0 same)))
        | inr other ↦ other
      ]
