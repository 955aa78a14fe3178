-- ===== src/Dates/Spaced.antt =====
-- The times that the generators of dates give.
use gsky.Prelude.{ℕ, ◌≤◌, ◌<◌, ◌≡◌, ◌≢◌, List, ◌++◌, ◌==◌, if◌then◌else◌}
use gsky.Dates.{Calendar, jan1}
use gsky.Dates.Rounds.{Follows}

module _ (cal : Calendar) where
  open cal use {year, add_days, add_months, add_years}

  -- After a step into another year the next time is the first of January.
  pub again : (ℕ → ℕ) → ℕ → ℕ
  again step t = if year (step t) == year t then step t else jan1 cal (year (step t))

  module _ (step : ℕ → ℕ) (up : (t : ℕ) → t < step t)
      (same_year : (t : ℕ) → year (jan1 cal (year t)) ≡ year t)
      (jan1_le : (t : ℕ) → jan1 cal (year t) ≤ t)
      (before_jan1 : (s t : ℕ) → s < t → year s ≢ year t → s < jan1 cal (year t)) (end : ℕ) where
    abbrev Runs : ℕ → List ℕ → Type 0
    Runs start ts = Follows step (again step) end start ts

    -- What the inner loop leaves: the dates of the year from a start on, and where it stopped.
    abbrev Leaves : ℕ → List ℕ → ℕ → Type 0
    Leaves start ds s =
        (start < s)
        × (end < s → Runs start ds)
        × (s ≤ end
            → (year s ≢ year start)
              × ((us : List ℕ) → Runs (jan1 cal (year s)) us → Runs start (ds ++ us)))
