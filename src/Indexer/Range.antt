-- ===== src/Indexer/Range.antt =====
-- `doSelectionByRange`. The result holds the flag "out of range" and what was picked so far.
use gsky.Prelude.{
  ℕ, zero, suc, ◌+◌, Bool, true, false, ◌&&◌, ◌||◌, Option, none, some, List, [], ◌∷◌, ltb, ◌==◌,
  if◌then◌else◌, length, get_elem?, ◌>>=◌,
}
use gsky.Prelude.Result.{Result, ok, err, or_panic}
use gsky.Indexer.Axes.{Coords, enum, default, unknown, Picked, DatasetAxis, GeoTileAxis, pick}

module _ (co : Coords) where
  open co use {F, lt, le, distance, above, within, max_float, of_time}

  -- minVal, maxVal and isMonotonic
  pub record Spread : Type 0 where
    pub min_val : F
    pub max_val : F
    pub is_monotonic : Bool

  -- The loop over the parameters, with axis.Params[iv-1].
  unfoldable pub spread_of : Option F → List F → Spread → Spread
  spread_of prev [] s = s
  spread_of prev (val ∷ params) s =
      let falls : Bool = elim prev [ some before ↦ lt val before | none ↦ false ] in
      spread_of (some val) params (record {
        min_val = if lt val s.min_val then val else s.min_val;
        max_val = if lt s.max_val val then val else s.max_val;
        is_monotonic = if s.is_monotonic && falls then false else s.is_monotonic;
      })

  -- axis.Params[len(axis.Params)-1]
  unfoldable pub last_of : F → List F → F
  last_of v [] = v
  last_of v (w ∷ params) = last_of w params

  -- inValues
  unfoldable pub in_bounds : Spread → List F → List F
  in_bounds s [] = []
  in_bounds s (val ∷ vals) =
      let rest = in_bounds s vals in
      if above s.min_val val || above val s.max_val then rest else val ∷ rest

  -- sort.Slice of the values
  unfoldable pub insert_value : F → List F → List F
  insert_value v [] = v ∷ []
  insert_value v (w ∷ ws) = let rest = insert_value v ws in if le v w then v ∷ w ∷ ws else w ∷ rest

  unfoldable pub sort_in_values : List F → List F
  unfolding insert_value
  sort_in_values [] = []
  sort_in_values (v ∷ vs) = insert_value v (sort_in_values vs)

  -- axisIdx, with axis.Params[iv-1] where there is one.
  abbrev pub nearer : ℕ → Option F → F → F → ℕ × F
  nearer iv none val start = (iv, val)
  nearer (suc iv) (some before) val start =
      if le (distance start before) (distance start val) then (iv, before) else (suc iv, val)
  nearer zero (some before) val start = (zero, val)

  -- The loop over ascending parameters, of which those from the place iv on are left; startVal is the
  -- value that is looked for, and iVal its place.
  unfoldable pub match_sorted :
      List F → ℕ → Option F → List F → ℕ → F → Picked co → Option (Picked co)
  match_sorted in_values iv prev [] i_val start p = some p
  match_sorted in_values iv prev (val ∷ params) i_val start p =
      let found : Bool = elim params [ [] ↦ within start val | _ ∷ _ ↦ le start val ] in
      let at : ℕ × F = nearer iv prev val start in
      let passed = match_sorted in_values (iv + 1) (some val) params i_val start p in
      let following = match_sorted in_values (iv + 1) (some val) params (i_val + 1) in
      if found
      then (if ltb (i_val + 1) (length in_values)
          then get_elem? in_values (i_val + 1)
            >>= (λ start'. following start' (pick co at.0 at.1 p))
          else some (pick co at.0 at.1 p))
      else passed

  -- minIdx, with axis.Params[minIdx]: axis.Params[0] to begin with.
  unfoldable pub nearest : F → ℕ → List F → F → ℕ → F → ℕ × F
  nearest val iv [] min_diff min_idx min_val = (min_idx, min_val)
  nearest val iv (pv ∷ params) min_diff min_idx min_val =
      if lt (distance pv val) min_diff
      then nearest val (iv + 1) params (distance pv val) iv pv
      else nearest val (iv + 1) params min_diff min_idx min_val

  -- The loop over the values when the parameters are not ascending.
  unfoldable pub match_nearest : F → List F → List F → Picked co → Picked co
  unfolding nearest
  match_nearest first params [] p = p
  match_nearest first params (val ∷ vals) p =
      let at : ℕ × F = nearest val 0 (first ∷ params) max_float 0 first in
      match_nearest first params vals (pick co at.0 at.1 p)

  abbrev pub match_values : F → List F → Spread → List F → Picked co → Result (Bool × Picked co)
  match_values first params s [] p = ok (true, p)
  match_values first params s (start ∷ vals) p =
      if s.is_monotonic
      then or_panic (
          match_sorted (sort_in_values (start ∷ vals)) 0 none (first ∷ params) 0 start p >>= λ p'.
          some (false, p'))
      else ok (false, match_nearest first params (start ∷ vals) p)

  -- The branch for values, or for a start without an end.
  unfoldable pub select_values : F → List F → List F → Picked co → Result (Bool × Picked co)
  unfolding spread_of last_of in_bounds sort_in_values match_sorted match_nearest
  select_values first params in_values p =
      let s =
        spread_of none (first ∷ params)
          (record { min_val = first; max_val = last_of first params; is_monotonic = true }) in
      match_values first params s (in_bounds s in_values) p

  -- The loop over the parameters from a start to an end, from the place iv on.
  unfoldable pub pick_between : F → F → ℕ → List F → Picked co → Picked co
  pick_between start end iv [] p = p
  pick_between start end iv (val ∷ params) p =
      if le start val && lt val end
      then pick_between start end (iv + 1) params (pick co iv val p)
      else pick_between start end (iv + 1) params p

  unfoldable pub select_between : F → List F → F → F → Picked co → Bool × Picked co
  unfolding pick_between last_of
  select_between first params start end p =
      if lt end first || lt (last_of first params) start
      then (true, p)
      else (false, pick_between start end 0 (first ∷ params) p)

  -- An "enum" axis; the appended start of the request's axis stays there and is the same for each file.
  abbrev pub select_enum : List F → GeoTileAxis co → Picked co → Result (Bool × Picked co)
  select_enum [] ta p = err "Indexer error: empty params for 'enum' grid"
  select_enum (first ∷ params) ta p = elim ta.in_values [
    | v ∷ vs ↦ select_values first params (v ∷ vs) p
    | [] ↦ elim ta.start [
      | none ↦ ok (false, p)
      | some start ↦ elim ta.stop [
        | none ↦ select_values first params (start ∷ []) p
        | some end ↦ ok (select_between first params start end p)
      ]
    ]
  ]

  -- The time of a band is wanted.
  abbrev pub is_wanted : ℕ → Option ℕ → ℕ → Bool
  is_wanted start none t = t == start
  is_wanted start (some end) t = t == start || (t == end || (ltb start t && ltb t end))

  -- The loop over the times of a "default" axis, from the place it on.
  unfoldable pub pick_times : Option ℕ → Option ℕ → ℕ → List ℕ → Picked co → Option (Picked co)
  pick_times start end it [] p = some p
  pick_times none end it (t ∷ times) p = none
  pick_times (some start) end it (t ∷ times) p =
      if is_wanted start end t
      then pick_times (some start) end (it + 1) times (pick co it (of_time t) p)
      else pick_times (some start) end (it + 1) times p

  abbrev pub is_empty : List ℕ → Bool
  is_empty [] = true
  is_empty (_ ∷ _) = false

  unfoldable pub do_selection_by_range :
      DatasetAxis co → GeoTileAxis co → Option ℕ → Option ℕ → List ℕ → Result (Bool × Picked co)
  unfolding select_values select_between pick_times
  do_selection_by_range axis ta start_time end_time times = elim axis.grid [
    | enum ↦ select_enum axis.params ta axis.picked
    | default ↦
        or_panic
          (pick_times start_time end_time 0 times axis.picked >>= λ p. some (is_empty p.idx, p))
    | unknown ↦ err "Indexer error: unknown axis grid type"
  ]
