-- ===== src/Leads/Examples.antt =====
-- The theorems on leads at a concrete day, a concrete lead and two rows.
use memoflow_api.Prelude.{◌+◌, ◌≤◌, ◌≡◌, refl, true, false, none, some, List, [], ◌∷◌}
use memoflow_api.Leads.{
  Date, ymd, plus_year, add_calendar_months, last_day, LeadScoreFacts, compute_lead_score,
  apprentice, trello, notion, hot, cold,
}
use memoflow_api.Leads.Score.{
  compute_lead_score-bound, connecting_never_lowers, connected, tier_rank,
}
use memoflow_api.Leads.Stats.{LeadRow, compute_lead_stats}
use memoflow_api.Leads.Enums.{writing}
use memoflow_api.Leads.Stats.Totals.{
  tier_total, action_total, CountsUsers, compute_lead_stats-totals, compute_lead_stats-CountsUsers,
}

abbrev last_of_january : Date
last_of_january = record { year = 2028; month = 1; day = 31 }

-- A month after the 31st of January 2028 is the 29th of February.
clamps_to_leap_day :
    add_calendar_months last_of_january 1 ≡ ymd (record { year = 2028; month = 2; day = 29 })
unfolding add_calendar_months last_day
clamps_to_leap_day = refl

-- A month after the last day of 9999 is `+010000-01`.
leaves_four_digits :
    add_calendar_months (record { year = 9999; month = 12; day = 31 }) 1 ≡ plus_year 10000 1
unfolding add_calendar_months last_day
leaves_four_digits = refl

abbrev lead : LeadScoreFacts
lead = record {
  persona = some apprentice;
  due_date = some (record { year = 2028; month = 3; day = 1 });
  work_tools = some (trello ∷ []);
  has_active_connector = false;
  has_paywall_signal = false;
}

compute_lead_score-bound_example : (compute_lead_score lead last_of_january).score ≤ 13
compute_lead_score-bound_example = compute_lead_score-bound lead last_of_january

connecting_never_lowers_example :
    ((compute_lead_score lead last_of_january).score
      ≤ (compute_lead_score (connected lead) last_of_january).score)
    × (tier_rank (compute_lead_score lead last_of_january).tier
        ≤ tier_rank (compute_lead_score (connected lead) last_of_january).tier)
connecting_never_lowers_example = connecting_never_lowers lead last_of_january

abbrev newcomer : LeadRow
newcomer = record {
  tier = cold;
  onboarding_completed = false;
  persona = none;
  deliverable_type = none;
  academic_level = none;
  work_tools = none;
  blockers = none;
  acquisition_channel = none;
  marketing_opt_in = false;
  has_active_connector = false;
  has_paywall_signal = false;
}

abbrev regular : LeadRow
regular = record newcomer {
  tier = hot;
  onboarding_completed = true;
  persona = some apprentice;
  work_tools = some (trello ∷ notion ∷ trello ∷ []);
  blockers = some (writing ∷ []);
  marketing_opt_in = true;
}

abbrev rows : List LeadRow
rows = newcomer ∷ regular ∷ []

compute_lead_stats-totals_example :
    (tier_total (compute_lead_stats rows 7).tiers ≡ (compute_lead_stats rows 7).total_leads)
    × (action_total (compute_lead_stats rows 7).suggested_actions
        ≡ (compute_lead_stats rows 7).total_leads)
    × ((compute_lead_stats rows 7).not_started + (compute_lead_stats rows 7).completed
        ≡ (compute_lead_stats rows 7).total_leads)
compute_lead_stats-totals_example = compute_lead_stats-totals rows 7

compute_lead_stats-CountsUsers_example :
    CountsUsers (compute_lead_stats rows 7).completed (compute_lead_stats rows 7).distributions
compute_lead_stats-CountsUsers_example = compute_lead_stats-CountsUsers rows 7
