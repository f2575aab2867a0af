-- ===== src/Leads.antt =====
-- domain/leads/lead-enums.ts and domain/leads/lead-score.ts. A `YYYY-MM-DD` string is its three
-- numbers, of four, two and two digits: two such strings compare as the numbers that their digits
-- spell.
pub mod Dates
pub mod Score
pub mod Enums
pub mod Stats
mod Examples
use memoflow_api.Prelude.{
  ℕ, ◌+◌, ◌*◌, ◌-◌, ◌/◌, ◌%◌, Bool, true, false, not, ◌&&◌, ◌||◌, Option, none, some, List, [], ◌∷◌,
  ◌++◌, any, ltb, leb, eqb, min, if◌then◌else◌,
}

pub data Persona : Type 0 where
  apprentice intern student other : Persona

pub data WorkTool : Type 0 where
  trello notion teams slack email drive other_tool : WorkTool

pub data LeadTier : Type 0 where
  hot warm cold : LeadTier

pub data SuggestedAction : Type 0 where
  interview_and_pro_offer scheduled_emails newsletter no_outreach : SuggestedAction

pub data ScoreRule : Type 0 where
  due_within_3_months due_within_3_to_6_months persona_apprentice persona_intern : ScoreRule
  cited_trello connected_tool export_paywall_hit : ScoreRule

pub record Date : Type 0 where
  pub year : ℕ
  pub month : ℕ
  pub day : ℕ

-- What the first ten characters of `toISOString` are: a `YYYY-MM-DD`, or from the year 10000 on a `+`,
-- the six digits of the year and the month. Past the last time of JavaScript it throws.
pub data DateText : Type 0 where
  ymd : Date → DateText
  plus_year : (year month : ℕ) → DateText
  range_error : DateText

-- The number that the digits of the string spell.
abbrev pub digits : Date → ℕ
digits d = d.year * 10000 + d.month * 100 + d.day

pub record LeadScoreFacts : Type 0 where
  pub persona : Option Persona
  pub due_date : Option Date
  pub work_tools : Option (List WorkTool)
  pub has_active_connector : Bool
  pub has_paywall_signal : Bool

pub record ScoreBreakdownEntry : Type 0 where
  pub rule : ScoreRule
  pub points : ℕ

pub record LeadScoreResult : Type 0 where
  pub score : ℕ
  pub tier : LeadTier
  pub breakdown : List ScoreBreakdownEntry

abbrev pub is_leap_year : ℕ → Bool
is_leap_year y = (eqb (y % 4) 0 && not (eqb (y % 100) 0)) || eqb (y % 400) 0

-- `Date.UTC(year, month + 1, 0)`: the last day of a month.
unfoldable pub last_day : ℕ → ℕ → ℕ
last_day y m =
    if eqb m 2
    then (if is_leap_year y then 29 else 28)
    else (if eqb m 4 || eqb m 6 || eqb m 9 || eqb m 11 then 30 else 31)

-- `toISOString().slice(0, 10)`. The last time is in September 275760, a month whose last day is past it.
abbrev pub to_utc_date : ℕ → ℕ → ℕ → DateText
to_utc_date y m d =
    if leb y 9999
    then ymd (record { year = y; month = m; day = d })
    else if ltb (y * 12 + m) (275760 * 12 + 9)
    then plus_year y m
    else range_error

-- `Date.UTC` takes the years 0 to 99 for those of the twentieth century.
abbrev pub utc_year : ℕ → ℕ
utc_year y = if leb y 99 then 1900 + y else y

unfoldable pub add_calendar_months : Date → ℕ → DateText
unfolding last_day
add_calendar_months date months =
    let y = utc_year date.year + (date.month - 1 + months) / 12 in
    let m = (date.month - 1 + months) % 12 + 1 in to_utc_date y m (min date.day (last_day y m))

-- `due < text` and `due <= text`: a `+` sorts before every digit. `range_error` is not compared: the
-- code adds 3 or 6 months to a day with a year of four digits.
abbrev pub is_before : Date → DateText → Bool
is_before due (ymd d) = ltb (digits due) (digits d)
is_before due _ = false

abbrev pub is_not_after : Date → DateText → Bool
is_not_after due (ymd d) = leb (digits due) (digits d)
is_not_after due _ = false

unfoldable pub tier_for_score : ℕ → LeadTier
tier_for_score score = if leb 8 score then hot else (if leb 4 score then warm else cold)

abbrev pub entry : ScoreRule → ℕ → List ScoreBreakdownEntry
entry rule points = record { rule = rule; points = points } ∷ []

unfoldable pub due_entries : Option Date → Date → List ScoreBreakdownEntry
unfolding add_calendar_months
due_entries none today = []
due_entries (some due) today =
    if leb (digits today) (digits due)
    then (if is_before due (add_calendar_months today 3)
        then entry due_within_3_months 3
        else (if is_not_after due (add_calendar_months today 6)
            then entry due_within_3_to_6_months 2
            else []))
    else []

abbrev pub persona_entries : Option Persona → List ScoreBreakdownEntry
persona_entries (some apprentice) = entry persona_apprentice 2
persona_entries (some intern) = entry persona_intern 1
persona_entries _ = []

abbrev pub is_trello : WorkTool → Bool
is_trello trello = true
is_trello _ = false

abbrev pub cites_trello : Option (List WorkTool) → Bool
cites_trello none = false
cites_trello (some tools) = any is_trello tools

abbrev pub total_points : List ScoreBreakdownEntry → ℕ
total_points [] = 0
total_points (e ∷ es) = e.points + total_points es

abbrev pub when : Bool → List ScoreBreakdownEntry → List ScoreBreakdownEntry
when b es = if b then es else []

-- The entries in the order in which the code adds them.
abbrev pub breakdown_of : LeadScoreFacts → Date → List ScoreBreakdownEntry
breakdown_of facts today =
    due_entries facts.due_date today
    ++ persona_entries facts.persona
    ++ when (cites_trello facts.work_tools) (entry cited_trello 2)
    ++ when facts.has_active_connector (entry connected_tool 3)
    ++ when facts.has_paywall_signal (entry export_paywall_hit 3)

unfoldable pub compute_lead_score : LeadScoreFacts → Date → LeadScoreResult
unfolding tier_for_score
compute_lead_score facts today =
    let entries = breakdown_of facts today in
    record {
      score = total_points entries;
      tier = tier_for_score (total_points entries);
      breakdown = entries;
    }

abbrev pub action_by_tier : LeadTier → SuggestedAction
action_by_tier hot = interview_and_pro_offer
action_by_tier warm = scheduled_emails
action_by_tier cold = newsletter

unfoldable pub suggested_action : LeadTier → Bool → SuggestedAction
suggested_action tier opt_in = if opt_in then action_by_tier tier else no_outreach
