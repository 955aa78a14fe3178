-- ===== src/Dates/Tests.antt =====
-- Tests of the dates of utils/config.go in a calendar of years with ten days, which are two months.
use gsky.Prelude.{◌+◌, ◌-◌, ◌*◌, ◌/◌, ◌%◌, ◌≡◌, refl, some, [], ◌∷◌, codes}
use gsky.Prelude.Int.{pos}
use gsky.Dates.{Calendar, times, generate_dates}

abbrev ten_days : Calendar
ten_days = record {
  year = λ t. t / 10;
  month = λ t. t / 5;
  day = λ t. t % 5 + 1;
  date = λ y m d. 10 * y + 5 * (m - 1) + (d - 1);
  add_years = λ t n. t + 10 * n;
  add_months = λ t n. t + 5 * n;
  add_days = λ t n. t + n;
  format = λ t. t ∷ [];
}

-- The step from 8 leads to 11, and the dates go on with the first day of that year.
new_year : times ten_days (codes "mcd43") 2 16 (pos 3) ≡ some (2 ∷ 5 ∷ 8 ∷ 10 ∷ 13 ∷ 16 ∷ [])
unfolding times
new_year = refl

each_year :
    generate_dates ten_days (codes "aux") 7 25 (pos 0)
    ≡ some ((7 ∷ []) ∷ (10 ∷ []) ∷ (20 ∷ []) ∷ [])
unfolding generate_dates
each_year = refl

thirds_of_months : times ten_days (codes "chirps20") 3 4 (pos 0) ≡ some (0 ∷ 10 ∷ 20 ∷ [])
unfolding times
thirds_of_months = refl

no_step : times ten_days (codes "regular") 3 4 (pos 0) ≡ some []
unfolding times
no_step = refl
