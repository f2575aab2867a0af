-- ===== src/Leads/Dates.antt =====
-- Adding months to a date of the calendar.
use memoflow_api.Prelude.{ℕ, ◌+◌, ◌-◌, ◌/◌, ◌%◌, ◌≤◌, ◌≡◌, ◌≢◌, ◌⊎◌, min}
use memoflow_api.Leads.{Date, last_day}

abbrev pub IsLeap : ℕ → Type 0
IsLeap y = ((y % 4 ≡ 0) × (y % 100 ≢ 0)) ⊎ (y % 400 ≡ 0)

-- Up to July the odd months are long, from August on the even ones.
abbrev pub IsLong : ℕ → Type 0
IsLong m = ((m ≤ 7) × (m % 2 ≡ 1)) ⊎ ((8 ≤ m) × (m % 2 ≡ 0))

-- Month `m` of year `y` has a day `d`.
abbrev pub HasDay : ℕ → ℕ → ℕ → Type 0
HasDay y m d =
    (d ≤ 28)
    ⊎ (((d ≡ 29) × ((m ≢ 2) ⊎ IsLeap y)) ⊎ (((d ≡ 30) × (m ≢ 2)) ⊎ ((d ≡ 31) × (m ≢ 2) × IsLong m)))

-- A date of the years 100 to 9999.
pub record IsDate (d : Date) : Type 0 where
  pub year_low : 100 ≤ d.year
  pub year_high : d.year ≤ 9999
  pub month_low : 1 ≤ d.month
  pub month_high : d.month ≤ 12
  pub day_low : 1 ≤ d.day
  pub has_day : HasDay d.year d.month d.day

-- Where the calendar moves a date to.
abbrev moved_year : Date → ℕ → ℕ
moved_year d n = d.year + (d.month - 1 + n) / 12

abbrev moved_month : Date → ℕ → ℕ
moved_month d n = (d.month - 1 + n) % 12 + 1

abbrev moved : Date → ℕ → Date
moved d n =
    let y = moved_year d n in
    let m = moved_month d n in record { year = y; month = m; day = min d.day (last_day y m) }
