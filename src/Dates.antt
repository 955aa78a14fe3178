-- ===== src/Dates.antt =====
-- utils/config.go: the generators of the dates of a layer, with `GenerateDates`, which chooses one by its
-- name. A time is the number of its instant; the calendar of package time is a parameter. A
-- generator gives the times of its dates, and `generate_dates` their texts.
use gsky.Prelude.{
  ℕ, zero, suc, ◌+◌, ◌-◌, ◌&&◌, Option, none, some, List, [], ◌∷◌, ◌++◌, ltb, leb, ◌==◌,
  if◌then◌else◌, map, ◌>>=◌, Bytes, bytes_eq, codes,
}
use gsky.Prelude.Int.{ℤ, pos, negsuc}
pub mod Spaced
pub mod Mas
pub mod Aggregated
mod Rounds
mod Tests
pub mod Layer
mod MasTests
mod LayerTests

-- Year, Month and Day of a time, time.Date at midnight UTC, AddDate and Format.
pub record Calendar : Type 0 where
  pub year : ℕ → ℕ
  pub month : ℕ → ℕ
  pub day : ℕ → ℕ
  pub date : ℕ → ℕ → ℕ → ℕ
  pub add_years : ℕ → ℕ → ℕ
  pub add_months : ℕ → ℕ → ℕ
  pub add_days : ℕ → ℕ → ℕ
  pub format : ℕ → Bytes

module _ (cal : Calendar) where
  open cal use {year, month, day, date, add_years, add_months, add_days, format}

  -- A loop that goes on to a later time until the end is passed; `none` is out of fuel.
  unfoldable pub steps : (ℕ → ℕ) → (ℕ → List ℕ) → ℕ → ℕ → ℕ → Option (List ℕ)
  steps next emit zero start end = none
  steps next emit (suc fuel) start end =
      let rest = steps next emit fuel (next start) end in
      if leb start end then (rest >>= λ ts. some (emit start ++ ts)) else some []

  -- Each round passes an instant at least.
  abbrev pub enough : ℕ → ℕ → ℕ
  enough start end = suc (suc end - start)

  abbrev pub itself : ℕ → List ℕ
  itself t = t ∷ []

  abbrev pub at_midnight : ℕ → List ℕ
  at_midnight t = date (year t) (month t) (day t) ∷ []

  abbrev pub thirds : ℕ → List ℕ
  thirds t =
      date (year t) (month t) 1 ∷ date (year t) (month t) 11 ∷ date (year t) (month t) 21 ∷ []

  abbrev pub jan1 : ℕ → ℕ
  jan1 y = date y 1 1

  abbrev pub generate_aux : ℕ → ℕ → Option (List ℕ)
  generate_aux start end = steps (λ t. jan1 (year t + 1)) itself (enough start end) start end

  abbrev pub generate_chirps20 : ℕ → ℕ → Option (List ℕ)
  generate_chirps20 start end = steps (λ t. add_months t 1) thirds (enough start end) start end

  abbrev pub generate_monthly : ℕ → ℕ → Option (List ℕ)
  generate_monthly start end = steps (λ t. add_months t 1) at_midnight (enough start end) start end

  abbrev pub generate_yearly : ℕ → ℕ → Option (List ℕ)
  generate_yearly start end = steps (λ t. add_years t 1) at_midnight (enough start end) start end

  abbrev pub generate_regular : ℕ → ℕ → ℤ → Option (List ℕ)
  generate_regular start end (negsuc n) = some []
  generate_regular start end (pos zero) = some []
  generate_regular start end (pos (suc n)) =
      steps (λ t. t + suc n) itself (enough start end) start end

  -- The inner loop of the generators that begin again with each year: its dates, and start.
  unfoldable pub in_year : (ℕ → ℕ) → ℕ → ℕ → ℕ → ℕ → Option (List ℕ × ℕ)
  in_year next zero y start end = none
  in_year next (suc fuel) y start end =
      let rest = in_year next fuel y (next start) end in
      if year start == y && leb start end
      then (rest >>= λ r. some (start ∷ r.0, r.1))
      else some ([], start)

  -- The outer loop. It stops where the inner one passed the end.
  unfoldable pub by_year : (ℕ → ℕ) → ℕ → ℕ → ℕ → ℕ → Option (List ℕ)
  by_year next zero y start end = none
  by_year next (suc fuel) y start end =
      let go_on = λ (t : ℕ). by_year next fuel (year t) (jan1 (year t)) end in
      if leb start end
      then (in_year next (enough start end) y start end >>= λ r.
          if ltb end r.1 then some r.0 else (go_on r.1 >>= λ ts. some (r.0 ++ ts)))
      else some []

  abbrev pub generate_mcd43a4 : ℕ → ℕ → ℤ → Option (List ℕ)
  generate_mcd43a4 start end (negsuc n) = some []
  generate_mcd43a4 start end (pos zero) = some []
  generate_mcd43a4 start end (pos (suc n)) =
      by_year (λ t. t + suc n) (enough start end) (year start) start end

  -- A step, unless four days later it is another month.
  abbrev pub geoglam_next : ℕ → ℕ → ℕ
  geoglam_next step t = if month t == month (add_days t 4) then t + step else add_days t 4

  abbrev pub generate_geoglam : ℕ → ℕ → ℤ → Option (List ℕ)
  generate_geoglam start end (negsuc n) = some []
  generate_geoglam start end (pos zero) = some []
  generate_geoglam start end (pos (suc n)) =
      by_year (geoglam_next (suc n)) (enough start end) (year start) start end

  -- dateGen
  unfoldable pub times : Bytes → ℕ → ℕ → ℤ → Option (List ℕ)
  unfolding steps by_year in_year
  times name start end step =
      if bytes_eq name (codes "aux")
      then generate_aux start end
      else if bytes_eq name (codes "mcd43")
      then generate_mcd43a4 start end step
      else if bytes_eq name (codes "geoglam")
      then generate_geoglam start end step
      else if bytes_eq name (codes "chirps20")
      then generate_chirps20 start end
      else if bytes_eq name (codes "regular")
      then generate_regular start end step
      else if bytes_eq name (codes "monthly")
      then generate_monthly start end
      else if bytes_eq name (codes "yearly")
      then generate_yearly start end
      else some []

  unfoldable pub generate_dates : Bytes → ℕ → ℕ → ℤ → Option (List Bytes)
  unfolding times
  generate_dates name start end step = times name start end step >>= λ ts. some (map format ts)
