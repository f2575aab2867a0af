-- ===== src/Leads/Stats/Totals.antt =====
-- What the statistics add up to.
use memoflow_api.Leads.Enums.{
  DeliverableType, AcademicLevel, Blocker, AcquisitionChannel, tier_enum, action_enum,
}
use memoflow_api.Prelude.{
  ℕ, suc, ◌+◌, ◌≤◌, ◌≡◌, refl, Bool, true, false, not, List, [], ◌∷◌, length, arith, Bool-cases,
  inl, inr,
}
use memoflow_api.Leads.{
  LeadTier, hot, warm, cold, SuggestedAction, interview_and_pro_offer, scheduled_emails, newsletter,
  no_outreach, suggested_action, Persona, WorkTool,
}
use memoflow_api.Leads.Stats.{
  LeadRow, LeadStats, Distributions, Counts, bump, add_answers, add_row, add_rows, empty_stats,
  compute_lead_stats, plus_one,
}
use memoflow_api.Leads.Stats.Counting.{bump_set-bound, bump_some-bound}

abbrev pub tier_total : Counts LeadTier → ℕ
tier_total c = c hot + c warm + c cold

abbrev pub action_total : Counts SuggestedAction → ℕ
action_total c = c interview_and_pro_offer + c scheduled_emails + c newsletter + c no_outreach

bump-tier_total : (t : LeadTier) (c : Counts LeadTier) → tier_total (bump t c) ≡ tier_total c + 1
unfolding bump
bump-tier_total hot c = omega arith
bump-tier_total warm c = omega arith
bump-tier_total cold c = omega arith

bump-action_total :
    (a : SuggestedAction) (c : Counts SuggestedAction)
    → action_total (bump a c) ≡ action_total c + 1
unfolding bump
bump-action_total interview_and_pro_offer c = omega arith
bump-action_total scheduled_emails c = omega arith
bump-action_total newsletter c = omega arith
bump-action_total no_outreach c = omega arith

plus_one-split : (b : Bool) (m n : ℕ) → plus_one (not b) m + plus_one b n ≡ m + n + 1
plus_one-split true m n = omega arith
plus_one-split false m n = omega arith

-- Everyone counted so far is in one tier, has one suggested action and one onboarding state.
record IsTotal (n : ℕ) (s : LeadStats) : Type 0 where
  by_tier : tier_total s.tiers ≡ n
  by_action : action_total s.suggested_actions ≡ n
  by_onboarding : s.not_started + s.completed ≡ n

add_row-IsTotal :
    (n : ℕ) (r : LeadRow) (s : LeadStats) → IsTotal n s → IsTotal (n + 1) (add_row r s)
unfolding add_row
add_row-IsTotal n r s h = record {
  by_tier = omega (arith, bump-tier_total r.tier s.tiers, h.by_tier);
  by_action = omega (
    arith,
    bump-action_total (suggested_action r.tier r.marketing_opt_in) s.suggested_actions,
    h.by_action,
  );
  by_onboarding =
      omega
        (arith, plus_one-split r.onboarding_completed s.not_started s.completed, h.by_onboarding);
}

add_rows-IsTotal :
    (rows : List LeadRow) (n : ℕ) (s : LeadStats)
    → IsTotal n s
    → IsTotal (n + length rows) (add_rows rows s)
add_rows-IsTotal [] n s h = let same : n + 0 ≡ n = omega arith in rw same h
add_rows-IsTotal (r ∷ rows) n s h =
    let same : n + suc (length rows) ≡ n + 1 + length rows = omega arith in
    rw same (add_rows-IsTotal rows (n + 1) (add_row r s) (add_row-IsTotal n r s h))

add_rows-total_leads :
    (rows : List LeadRow) (s : LeadStats) → (add_rows rows s).total_leads ≡ s.total_leads
unfolding add_row
add_rows-total_leads [] s = refl
add_rows-total_leads (r ∷ rows) s = add_rows-total_leads rows (add_row r s)

-- The tiers, the suggested actions and the onboarding states each add up to the number of leads.
pub compute_lead_stats-totals :
    (rows : List LeadRow) (now : ℕ)
    → (tier_total (compute_lead_stats rows now).tiers ≡ (compute_lead_stats rows now).total_leads)
      × (action_total (compute_lead_stats rows now).suggested_actions
          ≡ (compute_lead_stats rows now).total_leads)
      × ((compute_lead_stats rows now).not_started + (compute_lead_stats rows now).completed
          ≡ (compute_lead_stats rows now).total_leads)
unfolding compute_lead_stats empty_stats
compute_lead_stats-totals rows now =
    let start = empty_stats (length rows) now in
    let begun : IsTotal 0 start = record {
      by_tier = refl;
      by_action = refl;
      by_onboarding = refl;
    } in
    let ended = add_rows-IsTotal rows 0 start begun in
    let all_rows = add_rows-total_leads rows start in
    (
      omega (arith, ended.by_tier, all_rows),
      omega (arith, ended.by_action, all_rows),
      omega (arith, ended.by_onboarding, all_rows),
    )

-- No answer is counted for more users than completed the onboarding.
pub record CountsUsers (n : ℕ) (d : Distributions) : Type 0 where
  pub personas : (k : Persona) → d.persona k ≤ n
  pub deliverables : (k : DeliverableType) → d.deliverable_type k ≤ n
  pub levels : (k : AcademicLevel) → d.academic_level k ≤ n
  pub tools : (k : WorkTool) → d.work_tools k ≤ n
  pub blocked : (k : Blocker) → d.blockers k ≤ n
  pub channels : (k : AcquisitionChannel) → d.acquisition_channel k ≤ n

add_answers-CountsUsers :
    (r : LeadRow) (n : ℕ) (d : Distributions)
    → CountsUsers n d
    → CountsUsers (n + 1) (add_answers r d)
unfolding add_answers
add_answers-CountsUsers r n d h = record {
  personas = λ k. omega (arith, h.personas k, bump_some-bound r.persona d.persona k);
  deliverables =
      λ k. omega (arith, h.deliverables k, bump_some-bound r.deliverable_type d.deliverable_type k);
  levels = λ k. omega (arith, h.levels k, bump_some-bound r.academic_level d.academic_level k);
  tools = λ k. omega (arith, h.tools k, bump_set-bound r.work_tools d.work_tools k);
  blocked = λ k. omega (arith, h.blocked k, bump_set-bound r.blockers d.blockers k);
  channels = λ k.
      omega (arith, h.channels k, bump_some-bound r.acquisition_channel d.acquisition_channel k);
}

add_row-CountsUsers :
    (r : LeadRow) (s : LeadStats)
    → CountsUsers s.completed s.distributions
    → CountsUsers (add_row r s).completed (add_row r s).distributions
unfolding add_row
add_row-CountsUsers r s h = elim (Bool-cases r.onboarding_completed) [
  | inl done ↦ rw done (add_answers-CountsUsers r s.completed s.distributions h)
  | inr open_ ↦ rw open_ h
]

add_rows-CountsUsers :
    (rows : List LeadRow) (s : LeadStats)
    → CountsUsers s.completed s.distributions
    → CountsUsers (add_rows rows s).completed (add_rows rows s).distributions
add_rows-CountsUsers [] s h = h
add_rows-CountsUsers (r ∷ rows) s h =
    add_rows-CountsUsers rows (add_row r s) (add_row-CountsUsers r s h)

-- Every count of every distribution counts users: it is at most the number of users who completed the
-- onboarding, also where an answer names one tool or blocker twice.
pub compute_lead_stats-CountsUsers :
    (rows : List LeadRow) (now : ℕ)
    → CountsUsers
        (compute_lead_stats rows now).completed
        (compute_lead_stats rows now).distributions
unfolding compute_lead_stats empty_stats
compute_lead_stats-CountsUsers rows now =
    add_rows-CountsUsers rows (empty_stats (length rows) now) (record {
      personas = λ k. omega arith;
      deliverables = λ k. omega arith;
      levels = λ k. omega arith;
      tools = λ k. omega arith;
      blocked = λ k. omega arith;
      channels = λ k. omega arith;
    })
