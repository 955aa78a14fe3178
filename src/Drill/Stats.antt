-- ===== src/Drill/Stats.antt =====
-- The statistics of one band in `readData` of worker/gdalprocess/drill.go: one row of the result.
-- Counts are below 2 ^ 30, so that no int32 overflows.
use gsky.Prelude.{
  ℕ, zero, suc, ◌+◌, ◌*◌, Bool, true, false, ◌||◌, Option, none, some, List, [], ◌∷◌, ◌++◌, ltb,
  ◌==◌, if◌then◌else◌, get_elem?, write, ◌>>=◌,
}
use gsky.Drill.Numbers.{Floats}
use gsky.Drill.Deciles.{compute_deciles}

-- pixelStat; any other text is refused before the loop.
pub data PixelStat : Type 0 where
  unset mean sum minmaxmean other : PixelStat

-- pixelStat != "" && pixelStat != "sum"
abbrev pub keeps_values : PixelStat → Bool
keeps_values unset = false
keeps_values sum = false
keeps_values _ = true

module _ (fl : Floats) where
  open fl use {F, D, zero_f, one_f, lt, eq, is_nan, add, div, of_int, widen, zero_d, lt_d}

  -- The arguments of readData that stay the same, with the mask of the polygon.
  pub record Settings : Type 0 where
    pub mask : List ℕ
    pub band_size : ℕ
    pub nodata : F
    pub decile_count : ℕ
    pub count_pixels : Bool
    pub pixel_stat : PixelStat
    pub clip_upper : F
    pub clip_lower : F

  pub record TimeSeries : Type 0 where
    pub value : D
    pub count : ℕ

  -- boundAvgs and avgs: slices of pointers, `none` being nil.
  abbrev pub Row : Type 0
  Row = List (Option TimeSeries)

  pub record Totals : Type 0 where
    pub total_sum : F
    pub total : ℕ
    pub vals : List D

  abbrev pub is_clipped : Settings → F → Bool
  is_clipped st val = lt val st.clip_lower || lt st.clip_upper val

  -- A pixel that is neither clipped nor to be counted only.
  abbrev pub add_value : PixelStat → F → Totals → Totals
  add_value stat val t =
      let t₁ : Totals =
        if keeps_values stat then record t { vals = t.vals ++ (widen val ∷ []) } else t in
      if is_nan val then t₁ else record t₁ { total_sum = add t.total_sum val; total = suc t.total }

  -- The body of the loop over the pixels, for a pixel inside the polygon with data.
  unfoldable pub add_pixel : Settings → F → Totals → Totals
  add_pixel st val t =
      if st.count_pixels
      then (let t₁ = record t { total = suc t.total } in
          if is_clipped st val then t₁ else record t₁ { total_sum = add t.total_sum one_f })
      else if is_clipped st val
      then t
      else add_value st.pixel_stat val t

  -- for i := 0; i < bandSize; i++, with n rounds left
  unfoldable pub scan_band : Settings → List F → ℕ → ℕ → ℕ → Totals → Option Totals
  unfolding add_pixel
  scan_band st buf offset zero i t = some t
  scan_band st buf offset (suc n) i t = do
    inside ← get_elem? st.mask i
    t' ←
        if inside == 255
        then (do
          val ← get_elem? buf (i + offset)
          some (if eq val st.nodata then t else add_pixel st val t))
        else some t
    scan_band st buf offset n (i + 1) t'

  abbrev pub n_cols : Settings → ℕ
  n_cols st = elim st.pixel_stat [ minmaxmean ↦ 3 | _ ↦ 1 + st.decile_count ]

  abbrev pub put : ℕ → D → ℕ → Row → Option Row
  put i value count row = write row i (some (record { value = value; count = count }))

  unfoldable pub greatest : D → List D → D
  greatest m [] = m
  greatest m (v ∷ vs) = greatest (if lt_d m v then v else m) vs

  unfoldable pub least : D → List D → D
  least m [] = m
  least m (v ∷ vs) = least (if lt_d v m then v else m) vs

  abbrev pub mean_of : Totals → D
  mean_of t = widen (div t.total_sum (of_int t.total))

  -- vals[0] of an empty slice is a panic.
  unfoldable pub put_minmaxmean : ℕ → Totals → List D → Row → Option Row
  put_minmaxmean i t [] row = none
  put_minmaxmean i t (v ∷ vs) row = do
    row₁ ← put i (least v (v ∷ vs)) 1 row
    row₂ ← put (i + 1) (greatest v (v ∷ vs)) 1 row₁
    put (i + 2) (mean_of t) 1 row₂

  -- The row and iRes after the statistics.
  unfoldable pub put_stat : PixelStat → ℕ → Totals → Row → Option (Row × ℕ)
  unfolding put_minmaxmean least greatest
  put_stat sum i t row = do row' ← put i (widen t.total_sum) t.total row; some (row', i)
  put_stat minmaxmean i t row = do row' ← put_minmaxmean i t t.vals row; some (row', i + 2)
  put_stat _ i t row = do row' ← put i (mean_of t) t.total row; some (row', i)

  unfoldable pub put_band : PixelStat → ℕ → Totals → Row → Option (Row × ℕ)
  unfolding put_stat
  put_band stat i t row =
      if ltb 0 t.total
      then put_stat stat i t row
      else (put i zero_d 0 row >>= λ row'. some (row', i))

  unfoldable pub put_deciles : ℕ → List F → Row → Option Row
  put_deciles i [] row = some row
  put_deciles i (de ∷ deciles) row = put (i + 1) (widen de) 1 row >>= put_deciles (i + 1) deciles

  unfoldable pub put_blanks : ℕ → ℕ → Row → Option Row
  put_blanks i zero row = some row
  put_blanks i (suc n) row = put (i + 1) zero_d 0 row >>= put_blanks (i + 1) n

  abbrev pub with_deciles : Settings → List F → ℕ → ℕ → ℕ → Row → Option Row
  with_deciles st buf offset i total row =
      if ltb 1 (n_cols st)
      then (if ltb 0 total
          then (compute_deciles fl st.decile_count st.mask buf st.band_size offset st.nodata
              >>= λ deciles. put_deciles i deciles row)
          else put_blanks i st.decile_count row)
      else some row

  -- The body of the loop over the bands that were read.
  unfoldable pub read_band : Settings → List F → ℕ → Row → Option Row
  unfolding scan_band put_band put_deciles put_blanks
  read_band st buf i_band row = do
    let offset = i_band * st.band_size
    t ← scan_band st buf offset st.band_size 0 (record { total_sum = zero_f; total = 0; vals = [] })
    (row', i) ← put_band st.pixel_stat (i_band * n_cols st) t row
    with_deciles st buf offset i t.total row'
