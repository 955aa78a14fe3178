-- ===== src/TimeSplitter.antt =====
-- processor/date_splitter.go: a drill request over a long time is split into requests of some years.
-- A time is the number of its instant. `add_years` is AddDate(YearStep, 0, 0) of package time.
use gsky.Prelude.{
  ℕ, zero, suc, ◌+◌, ◌-◌, Option, none, some, List, [], ◌∷◌, ◌++◌, ltb, if◌then◌else◌, ◌>>=◌, Bytes,
}
pub mod Windows
mod Tests

-- GeoDrillRequest: its two times, VRTURL, and the rest of it, which is passed on.
pub record Request (A : Type 0) : Type 0 where
  pub start_time : ℕ
  pub end_time : ℕ
  pub vrt_url : Bytes
  pub rest : A

module _ {A : Type 0} (add_years : ℕ → ℕ) where
  -- The inner loop, from t on; `none` is out of fuel.
  unfoldable pub split_from : ℕ → ℕ → Request A → Option (List (Request A))
  split_from zero t req = none
  split_from (suc fuel) t req =
      let rest = split_from fuel (add_years t) req in
      if ltb t req.end_time
      then (rest >>= λ reqs.
          some (record req { start_time = t; end_time = add_years t; vrt_url = [] } ∷ reqs))
      else some []

  -- The body of the loop over the requests. The fuel is more than the rounds: each one adds at least
  -- one to t.
  unfoldable pub split_request : ℕ → Request A → Option (List (Request A))
  unfolding split_from
  split_request year_step req =
      if ltb 0 year_step
      then split_from (suc (req.end_time - req.start_time)) req.start_time req
      else some (req ∷ [])

  unfoldable pub run : ℕ → List (Request A) → Option (List (Request A))
  unfolding split_request
  run year_step [] = some []
  run year_step (req ∷ reqs) = do
    out ← split_request year_step req
    outs ← run year_step reqs
    some (out ++ outs)
