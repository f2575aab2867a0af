-- ===== src/Users.antt =====
-- domain/users/user.entity.ts and the consent notice of domain/ai/ai-consent.ts.
use memoflow_api.Prelude.{ℕ, String, Bool, true, false, ◌&&◌, Option, none, some, ◌==◌}

pub data UserRole : Type 0 where
  user admin : UserRole

pub record User : Type 0 where
  pub id : String
  pub email : String
  pub password_hash : String
  pub display_name : String
  pub role : UserRole
  pub xp : ℕ
  pub level : ℕ
  pub last_active_at : Option ℕ
  pub disabled_at : Option ℕ
  pub email_verified_at : Option ℕ
  pub token_version : ℕ
  pub ai_consent_at : Option ℕ
  pub ai_consent_version : Option String

abbrev pub ai_notice_version : String
ai_notice_version = "2026-11-06"

-- `x !== null`
abbrev pub is_set {ℓ} : {A : Type ℓ} → Option A → Bool
is_set none = false
is_set (some a) = true

-- `x === name`, false on `null`
abbrev pub is_named : Option String → String → Bool
is_named none name = false
is_named (some s) name = s == name

unfoldable pub is_admin : User → Bool
is_admin u = is_admin_role u.role
  where
    is_admin_role : UserRole → Bool
    is_admin_role admin = true
    is_admin_role user = false

unfoldable pub is_email_verified : User → Bool
is_email_verified u = is_set u.email_verified_at

unfoldable pub is_disabled : User → Bool
is_disabled u = is_set u.disabled_at

unfoldable pub has_current_ai_consent : User → Bool
has_current_ai_consent u = is_set u.ai_consent_at && is_named u.ai_consent_version ai_notice_version
