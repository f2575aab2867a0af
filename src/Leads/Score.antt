-- ===== src/Leads/Score.antt =====
-- What a lead's score can be.
use memoflow_api.Prelude.{
  ℕ, ◌+◌, ◌≤◌, ◌≡◌, refl, ◌∙◌, Bool, true, false, Option, none, some, List, [], ◌∷◌, ◌++◌, arith,
  if◌then◌else◌,
}
use memoflow_api.Leads.{
  LeadScoreFacts, LeadTier, hot, warm, cold, ScoreBreakdownEntry, ScoreRule, cited_trello,
  connected_tool, export_paywall_hit, Persona, apprentice, intern, student, other, Date,
  total_points, due_entries, persona_entries, cites_trello, when, entry, compute_lead_score,
  tier_for_score,
}

total_points-append :
    (xs ys : List ScoreBreakdownEntry) → total_points (xs ++ ys) ≡ total_points xs + total_points ys
total_points-append [] ys = omega arith
total_points-append (x ∷ xs) ys = omega (arith, total_points-append xs ys)

due_entries-points : (due : Option Date) (today : Date) → total_points (due_entries due today) ≤ 3
unfolding due_entries
due_entries-points none today = omega arith
due_entries-points (some due) today = ground arith

persona_entries-points : (p : Option Persona) → total_points (persona_entries p) ≤ 2
persona_entries-points none = omega arith
persona_entries-points (some apprentice) = omega arith
persona_entries-points (some intern) = omega arith
persona_entries-points (some student) = omega arith
persona_entries-points (some other) = omega arith

when-points :
    (b : Bool) (r : ScoreRule) (n : ℕ) → total_points (when b (entry r n)) ≡ (if b then n else 0)
when-points true r n = omega arith
when-points false r n = refl

five_parts :
    (due persona cited tool hit : List ScoreBreakdownEntry)
    → total_points (due ++ persona ++ cited ++ tool ++ hit)
      ≡ total_points due
        + (total_points persona + (total_points cited + (total_points tool + total_points hit)))
five_parts due persona cited tool hit = omega (
  arith,
  total_points-append (due ++ persona ++ cited ++ tool) hit,
  total_points-append (due ++ persona ++ cited) tool,
  total_points-append (due ++ persona) cited,
  total_points-append due persona,
)

-- The score, fact by fact.
compute_lead_score-sum :
    (facts : LeadScoreFacts) (today : Date)
    → (compute_lead_score facts today).score
      ≡ total_points (due_entries facts.due_date today)
        + (total_points (persona_entries facts.persona)
            + ((if cites_trello facts.work_tools then 2 else 0)
                + ((if facts.has_active_connector then 3 else 0)
                    + (if facts.has_paywall_signal then 3 else 0))))
unfolding compute_lead_score
compute_lead_score-sum facts today =
    five_parts (due_entries facts.due_date today) (persona_entries facts.persona) _ _ _
    ∙ (rw
        (
          when-points (cites_trello facts.work_tools) cited_trello 2,
          when-points facts.has_active_connector connected_tool 3,
          when-points facts.has_paywall_signal export_paywall_hit 3,
        )
        refl)

if-bound : (b : Bool) (n : ℕ) → (if b then n else 0) ≤ n
if-bound true n = omega arith
if-bound false n = omega arith

-- A score is at most 13, whatever the facts and the day.
pub compute_lead_score-bound :
    (facts : LeadScoreFacts) (today : Date) → (compute_lead_score facts today).score ≤ 13
compute_lead_score-bound facts today = omega (
  arith,
  compute_lead_score-sum facts today,
  due_entries-points facts.due_date today,
  persona_entries-points facts.persona,
  if-bound (cites_trello facts.work_tools) 2,
  if-bound facts.has_active_connector 3,
  if-bound facts.has_paywall_signal 3,
)

-- How much a tier is worth.
abbrev pub tier_rank : LeadTier → ℕ
tier_rank cold = 0
tier_rank warm = 1
tier_rank hot = 2

tier_for_score-monotone :
    (m n : ℕ) → m ≤ n → tier_rank (tier_for_score m) ≤ tier_rank (tier_for_score n)
unfolding tier_for_score
tier_for_score-monotone m n h = ground arith

abbrev pub connected : LeadScoreFacts → LeadScoreFacts
connected facts = record facts { has_active_connector = true }

connected-score :
    (facts : LeadScoreFacts) (today : Date)
    → (compute_lead_score facts today).score ≤ (compute_lead_score (connected facts) today).score
connected-score facts today = omega (
  arith,
  compute_lead_score-sum facts today,
  compute_lead_score-sum (connected facts) today,
  if-bound facts.has_active_connector 3,
)

-- Connecting a tool never lowers a lead's score or tier, whatever the other facts and the day.
pub connecting_never_lowers :
    (facts : LeadScoreFacts) (today : Date)
    → ((compute_lead_score facts today).score ≤ (compute_lead_score (connected facts) today).score)
      × (tier_rank (compute_lead_score facts today).tier
          ≤ tier_rank (compute_lead_score (connected facts) today).tier)
unfolding compute_lead_score
connecting_never_lowers facts today =
    (connected-score facts today, tier_for_score-monotone _ _ (connected-score facts today))
