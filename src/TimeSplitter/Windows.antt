-- ===== src/TimeSplitter/Windows.antt =====
-- The requests that one request is split into cover its time without a gap.
use gsky.Prelude.{
  ℕ, zero, suc, ◌-◌, ◌≤◌, ◌<◌, ◌≡◌, refl, inl, inr, Bool-cases, true, some, List, [], ◌∷◌, arith,
  tests, ltb,
}
use gsky.TimeSplitter.{Request, split_from, split_request}

module _ {A : Type 0} (add_years : ℕ → ℕ) (advances : (t : ℕ) → t < add_years t) where
  -- Requests that start at t, each where the one before ends, and end with the first that reaches
  -- the end of the request.
  abbrev pub Covers : Request A → ℕ → List (Request A) → Type 0
  Covers req t [] = req.end_time ≤ t
  Covers req t (w ∷ ws) =
      (w.start_time ≡ t)
      × (t < req.end_time)
      × (w.end_time ≡ add_years t)
      × (w.rest ≡ req.rest)
      × Covers req w.end_time ws

  split_from-Covers :
      (fuel t : ℕ) (req : Request A)
      → req.end_time - t < fuel
      → (ws : List (Request A)) × (split_from add_years fuel t req ≡ some ws) × Covers req t ws
  unfolding split_from
  split_from-Covers zero t req h = absurd (omega arith)
  split_from-Covers (suc fuel) t req h = elim (Bool-cases (ltb t req.end_time)) [
    | inl more ↦
        let before : t < req.end_time = omega (tests, more) in
        let (ws, run, c) = split_from-Covers fuel (add_years t) req (omega (arith, advances t)) in
        (
          record req { start_time = t; end_time = add_years t; vrt_url = [] } ∷ ws,
          rw (more, run) refl,
          (refl, before, refl, refl, c),
        )
    | inr last ↦ ([], rw last refl, ground arith)
  ]

  -- With a step of some years, and a calendar in which adding them gives a later time, the loop ends,
  -- and it sends requests that follow each other without a gap from the start of the given one; a
  -- next one is sent as long as its end is not reached, and the rest of the request is kept, but for its VRTURL.
  pub split_request-Covers :
      (year_step : ℕ) (req : Request A)
      → 0 < year_step
      → (ws : List (Request A)) × (split_request add_years year_step req ≡ some ws)
        × Covers req req.start_time ws
  unfolding split_request
  split_request-Covers year_step req h =
      let on : ltb 0 year_step ≡ true = ground arith in
      let (ws, run, c) =
        split_from-Covers (suc (req.end_time - req.start_time)) req.start_time req (omega arith) in
      (ws, rw on run, c)
