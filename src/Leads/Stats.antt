-- ===== src/Leads/Stats.antt =====
-- domain/leads/lead-stats.ts, and the columns of a `LeadRow` that it reads. A record of counts is a function from the enum, 0 everywhere at first.
pub mod Counting
pub mod Totals
use memoflow_api.Prelude.{
  ℕ, ◌+◌, Bool, true, false, not, Option, none, some, List, [], ◌∷◌, length, keep, eqb,
  if◌then◌else◌,
}
use memoflow_api.Leads.{
  Persona, apprentice, intern, student, other, WorkTool, trello, notion, teams, slack, email, drive,
  other_tool, LeadTier, hot, warm, cold, SuggestedAction, interview_and_pro_offer, scheduled_emails,
  newsletter, no_outreach, suggested_action,
}
use memoflow_api.Leads.Enums.{
  DeliverableType, thesis, apprenticeship_report, internship_report, other_deliverable,
  AcademicLevel, l3, m1, m2, other_level, Blocker, getting_started, finding_past_work, structuring,
  writing, lack_of_time, AcquisitionChannel, friend, school, tiktok, instagram, linkedin, google,
  other_channel, LeadSignalType, export_paywall_hit, Enum, persona_enum, tool_enum, tier_enum,
  action_enum, deliverable_enum, level_enum, blocker_enum, channel_enum, signal_enum,
}

pub record LeadRow : Type 0 where
  pub tier : LeadTier
  pub onboarding_completed : Bool
  pub persona : Option Persona
  pub deliverable_type : Option DeliverableType
  pub academic_level : Option AcademicLevel
  pub work_tools : Option (List WorkTool)
  pub blockers : Option (List Blocker)
  pub acquisition_channel : Option AcquisitionChannel
  pub marketing_opt_in : Bool
  pub has_active_connector : Bool
  pub has_paywall_signal : Bool

abbrev pub Counts : Type 0 → Type 0
Counts K = K → ℕ

abbrev pub zero_filled : {K : Type 0} → Counts K
zero_filled k = 0

module _ {K : Type 0} ⦃e : Enum K⦄ where
  abbrev pub same : K → K → Bool
  same j k = eqb (e.place j) (e.place k)

  -- `counts[k] += 1`
  unfoldable pub bump : K → Counts K → Counts K
  bump k c j = if same k j then c j + 1 else c j

  -- `if (k) counts[k] += 1`
  unfoldable pub bump_some : Option K → Counts K → Counts K
  unfolding bump
  bump_some none c = c
  bump_some (some k) c = bump k c

  -- `new Set(ks)`
  unfoldable pub unique : List K → List K
  unique [] = []
  unique (k ∷ ks) = k ∷ keep (λ j. not (same k j)) (unique ks)

  abbrev pub bump_each : List K → Counts K → Counts K
  bump_each [] c = c
  bump_each (k ∷ ks) c = bump_each ks (bump k c)

  -- `for (const k of new Set(ks ?? [])) counts[k] += 1`
  unfoldable pub bump_set : Option (List K) → Counts K → Counts K
  unfolding unique bump
  bump_set none c = c
  bump_set (some ks) c = bump_each (unique ks) c

pub record Distributions : Type 0 where
  pub persona : Counts Persona
  pub deliverable_type : Counts DeliverableType
  pub academic_level : Counts AcademicLevel
  pub work_tools : Counts WorkTool
  pub blockers : Counts Blocker
  pub acquisition_channel : Counts AcquisitionChannel

pub record LeadStats : Type 0 where
  pub generated_at : ℕ
  pub total_leads : ℕ
  pub tiers : Counts LeadTier
  pub suggested_actions : Counts SuggestedAction
  pub not_started : ℕ
  pub completed : ℕ
  pub marketing_opt_in : ℕ
  pub connected_tool : ℕ
  pub signals : Counts LeadSignalType
  pub distributions : Distributions

abbrev pub plus_one : Bool → ℕ → ℕ
plus_one b n = if b then n + 1 else n

unfoldable pub add_answers : LeadRow → Distributions → Distributions
unfolding bump_some bump_set
add_answers row d = record {
  persona = bump_some row.persona d.persona;
  deliverable_type = bump_some row.deliverable_type d.deliverable_type;
  academic_level = bump_some row.academic_level d.academic_level;
  work_tools = bump_set row.work_tools d.work_tools;
  blockers = bump_set row.blockers d.blockers;
  acquisition_channel = bump_some row.acquisition_channel d.acquisition_channel;
}

-- The body of the loop over the rows.
unfoldable pub add_row : LeadRow → LeadStats → LeadStats
unfolding bump suggested_action add_answers
add_row row s = record s {
  tiers = bump row.tier s.tiers;
  suggested_actions = bump (suggested_action row.tier row.marketing_opt_in) s.suggested_actions;
  not_started = plus_one (not row.onboarding_completed) s.not_started;
  completed = plus_one row.onboarding_completed s.completed;
  marketing_opt_in = plus_one row.marketing_opt_in s.marketing_opt_in;
  connected_tool = plus_one row.has_active_connector s.connected_tool;
  signals = if row.has_paywall_signal then bump export_paywall_hit s.signals else s.signals;
  distributions =
      if row.onboarding_completed then add_answers row s.distributions else s.distributions;
}

abbrev pub add_rows : List LeadRow → LeadStats → LeadStats
add_rows [] s = s
add_rows (row ∷ rows) s = add_rows rows (add_row row s)

unfoldable pub empty_stats : ℕ → ℕ → LeadStats
empty_stats total now = record {
  generated_at = now;
  total_leads = total;
  tiers = zero_filled;
  suggested_actions = zero_filled;
  not_started = 0;
  completed = 0;
  marketing_opt_in = 0;
  connected_tool = 0;
  signals = zero_filled;
  distributions = record {
    persona = zero_filled;
    deliverable_type = zero_filled;
    academic_level = zero_filled;
    work_tools = zero_filled;
    blockers = zero_filled;
    acquisition_channel = zero_filled;
  };
}

unfoldable pub compute_lead_stats : List LeadRow → ℕ → LeadStats
unfolding add_row empty_stats
compute_lead_stats rows now = add_rows rows (empty_stats (length rows) now)
