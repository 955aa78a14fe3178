-- ===== src/Drill/Read.antt =====
-- `readData` of worker/gdalprocess/drill.go, from its loop over the groups of bands on. What GDAL
-- reads for some bands is a parameter, `raster_io`.
use gsky.Prelude.{
  ℕ, zero, suc, ◌+◌, ◌-◌, ◌*◌, ◌/◌, Bool, true, false, ◌&&◌, Option, none, some, List, [], ◌∷◌,
  ◌++◌, ltb, leb, ◌==◌, if◌then◌else◌, length, get_elem?, take, drop, replicate, ◌>>=◌,
}
use gsky.Prelude.Result.{Result, err, or_panic}
use gsky.Drill.Numbers.{Floats}
use gsky.Drill.Stats.{PixelStat, other, Settings, TimeSeries, Row, n_cols, read_band}

abbrev pub is_other : PixelStat → Bool
is_other other = true
is_other _ = false

module _ (fl : Floats) where
  open fl use {F, D, add_d, sub_d, mul_d, div_d, of_int_d}

  -- bandsRead
  abbrev pub bands_read : ℕ → List ℕ → ℕ → ℕ → Option (List ℕ)
  bands_read strides bands bgn end_ = do
    first ← get_elem? bands bgn
    last ← get_elem? bands (end_ - 1)
    some (if strides == 1 then first ∷ [] else first ∷ last ∷ [])

  -- The loop over the bands that were read, with n rounds left.
  unfoldable pub read_bands : Settings fl → List F → ℕ → ℕ → Row fl → Option (Row fl)
  read_bands st buf zero i row = some row
  read_bands st buf (suc n) i row = read_band fl st buf i row >>= read_bands st buf n (i + 1)

  -- A pointer that is followed: nil is a panic.
  abbrev pub at : Row fl → ℕ → Option (TimeSeries fl)
  at row i = get_elem? row i >>= λ p. p

  -- math.Round of half the sum of two counts
  abbrev pub mean_count : TimeSeries fl → TimeSeries fl → ℕ
  mean_count a b = (a.count + b.count + 1) / 2

  -- One entry of a row between those of two bands, where beta is the slope.
  abbrev pub between_at : ℕ → ℕ → Row fl → ℕ → ℕ → Option (Option (TimeSeries fl))
  between_at strides cols row ip ic = do
    a ← at row ic
    b ← at row (ic + cols)
    let beta = div_d (sub_d b.value a.value) (of_int_d (strides - 1))
    some
        (some (record { value = add_d a.value (mul_d (of_int_d ip) beta); count = mean_count a b }))

  -- for ic := 0; ic < nCols; ic++, with n rounds left
  unfoldable pub between_cols : ℕ → ℕ → Row fl → ℕ → ℕ → ℕ → Option (Row fl)
  between_cols strides cols row ip zero ic = some []
  between_cols strides cols row ip (suc n) ic = do
    entry ← between_at strides cols row ip ic
    rest ← between_cols strides cols row ip n (ic + 1)
    some (entry ∷ rest)

  -- for ip := 1; ip < bandStrides-1; ip++, with n rounds left
  unfoldable pub between_rows : ℕ → ℕ → Row fl → ℕ → ℕ → Option (Row fl)
  unfolding between_cols
  between_rows strides cols row zero ip = some []
  between_rows strides cols row (suc n) ip = do
    cells ← between_cols strides cols row ip cols 0
    rest ← between_rows strides cols row n (ip + 1)
    some (cells ++ rest)

  -- What a group of bands appends to avgs.
  unfoldable pub rows_of_group : ℕ → ℕ → Row fl → Option (Row fl)
  unfolding between_rows
  rows_of_group strides cols row = do
    let two_bands = ltb cols (length row)
    between ←
        if ltb 2 strides && two_bands
        then between_rows strides cols row (strides - 2) 1
        else some []
    some (take cols row ++ (between ++ (if two_bands then drop (length row - cols) row else [])))

  -- ibEnd
  abbrev pub end_of : ℕ → ℕ → ℕ → ℕ
  end_of strides len bgn = if ltb len (bgn + strides) then len else bgn + strides

  -- The body of the loop over the groups.
  unfoldable pub read_group : Settings fl → (List ℕ → List F) → ℕ → List ℕ → ℕ → Option (Row fl)
  read_group st raster_io strides bands bgn = do
    read ← bands_read strides bands bgn (end_of strides (length bands) bgn)
    row ←
        read_bands st (raster_io read) (length read) 0 (replicate (length read * n_cols fl st) none)
    rows_of_group strides (n_cols fl st) row

  -- for ibBgn := 0; ibBgn < len(bands); ibBgn += bandStrides. The fuel is the number of bands and
  -- one: each round passes at least one band.
  unfoldable pub read_groups :
      ℕ → Settings fl → (List ℕ → List F) → ℕ → List ℕ → ℕ → Option (Row fl)
  read_groups zero st raster_io strides bands bgn = none
  read_groups (suc fuel) st raster_io strides bands bgn =
      let more = (do
        rows ← read_group st raster_io strides bands bgn
        rest ← read_groups fuel st raster_io strides bands (bgn + strides)
        some (rows ++ rest)) in
      if ltb bgn (length bands) then more else some []

  -- TimeSeries and the shape of the result.
  unfoldable pub read_data :
      Settings fl → (List ℕ → List F) → ℕ → List ℕ → Result (Row fl × (ℕ × ℕ))
  unfolding read_groups
  read_data st raster_io band_strides bands =
      let strides : ℕ = if leb band_strides 0 then 1 else band_strides in
      if is_other st.pixel_stat
      then err "Pixel Statistic Method not implemented"
      else or_panic (
          read_groups (suc (length bands)) st raster_io strides bands 0 >>= λ avgs.
          some (avgs, (length avgs / n_cols fl st, n_cols fl st)))
