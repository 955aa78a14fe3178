-- ===== src/Drill/Rows.antt =====
-- How many rows `readData` returns, and where the rows of a group of bands stand.
use gsky.Prelude.{
  ℕ, zero, suc, ◌+◌, ◌-◌, ◌*◌, ◌/◌, ◌≤◌, ◌<◌, ◌≡◌, refl, ap, Bool-cases, true, false, none, some,
  List, [], ◌∷◌, ◌++◌, arith, ltb, leb, ltb→lt, ◌==◌, ◌⊎◌, if◌then◌else◌, inl, inr, length,
  length-append, get_elem?-some, set,
}
use gsky.Prelude.Result.{ok}
use gsky.Drill.Numbers.{Floats}
use gsky.Drill.Stats.{Settings, TimeSeries, Row, Totals, n_cols, read_band}
use gsky.Drill.Read.{
  end_of, read_bands, between_cols, between_rows, rows_of_group, read_group, read_groups, read_data,
}
use gsky.Drill.Single.{is_single, scan_band-some, put_single, not_other, n_cols_single}

module _ (fl : Floats) where
  open fl use {F, eq, zero_f}

  module _ (st : Settings fl) (single : is_single st.pixel_stat ≡ true)
      (no_deciles : st.decile_count ≡ 0) (masked : st.band_size ≤ length st.mask) where
    cols : n_cols fl st ≡ 1
    cols = n_cols_single st.pixel_stat st.decile_count single no_deciles

    read_band-some :
        (buf : List F) (i : ℕ) (row : Row fl)
        → suc i * st.band_size ≤ length buf
        → i < length row
        → (s : TimeSeries fl) × (read_band fl st buf i row ≡ some (set row i (some s)))
    unfolding read_band
    read_band-some buf i row h q =
        let start : Totals fl = record { total_sum = zero_f; total = 0; vals = [] } in
        let (t, run) =
          scan_band-some fl st buf (i * st.band_size) st.band_size 0 start (omega arith)
            (grind arith) in
        let at : i * 1 ≡ i = omega arith in
        let (s, put) = put_single fl st.pixel_stat i t row single q in
        (s, rw (run, cols, at, put) refl)

    two_bands :
        (buf : List F)
        → 2 * st.band_size ≤ length buf
        → (a : TimeSeries fl) × (b : TimeSeries fl) × (read_bands fl st buf 2 0 (none ∷ none ∷ [])
            ≡ some (some a ∷ some b ∷ []))
    unfolding read_bands
    two_bands buf h =
        let (a, ea) = read_band-some buf 0 (none ∷ none ∷ []) (grind arith) (omega arith) in
        let (b, eb) = read_band-some buf 1 (some a ∷ none ∷ []) h (omega arith) in
        (a, b, rw (ea, eb) refl)

    one_band :
        (buf : List F)
        → 1 * st.band_size ≤ length buf
        → (a : TimeSeries fl) × (read_bands fl st buf 1 0 (none ∷ []) ≡ some (some a ∷ []))
    unfolding read_bands
    one_band buf h =
        let (a, ea) = read_band-some buf 0 (none ∷ []) h (omega arith) in (a, rw ea refl)

    between_rows-length :
        (strides n ip : ℕ) (a b : TimeSeries fl)
        → (rows : Row fl) × (between_rows fl strides 1 (some a ∷ some b ∷ []) n ip ≡ some rows)
          × (length rows ≡ n)
    unfolding between_rows between_cols
    between_rows-length strides zero ip a b = ([], refl, refl)
    between_rows-length strides (suc n) ip a b =
        let (rows, run, m) = between_rows-length strides n (ip + 1) a b in
        let beta = fl.div_d (fl.sub_d b.value a.value) (fl.of_int_d (strides - 1)) in
        let mid : TimeSeries fl = record {
          value = fl.add_d a.value (fl.mul_d (fl.of_int_d ip) beta);
          count = (a.count + b.count + 1) / 2;
        } in
        (some mid ∷ rows, rw run refl, ap suc m)

    -- The rows of a group of two bands: theirs at the two ends.
    group_rows :
        (m : ℕ) (a b : TimeSeries fl)
        → (rows : Row fl) × (rows_of_group fl (suc (suc m)) 1 (some a ∷ some b ∷ [])
            ≡ some (some a ∷ (rows ++ (some b ∷ []))))
          × (length rows ≡ m)
    unfolding rows_of_group
    group_rows zero a b = ([], refl, refl)
    group_rows (suc m) a b =
        let (rows, run, n) = between_rows-length (suc (suc (suc m))) (suc m) 1 a b in
        let more : ltb 2 (suc (suc (suc m))) ≡ true = ground arith in
        let less : suc (suc (suc m)) - 2 ≡ suc m = omega arith in
        (rows, rw (more, less, run) refl, n)

    one_row : (a : TimeSeries fl) → rows_of_group fl 1 1 (some a ∷ []) ≡ some (some a ∷ [])
    unfolding rows_of_group
    one_row a = refl

    end_of-lt :
        (strides len bgn : ℕ) → 0 < strides → bgn < len → end_of fl strides len bgn - 1 < len
    end_of-lt strides len bgn h q = ground arith

    module _ (raster_io : List ℕ → List F)
        (reads : (bands : List ℕ) → length bands * st.band_size ≤ length (raster_io bands)) where
      read_group-some :
          (strides : ℕ) (bands : List ℕ) (bgn : ℕ)
          → 0 < strides
          → bgn < length bands
          → (rows : Row fl) × (read_group fl st raster_io strides bands bgn ≡ some rows)
            × (length rows ≡ strides)
      unfolding read_group
      read_group-some zero bands bgn h q = absurd (omega arith)
      read_group-some (suc zero) bands bgn h q =
          let (first, ef) = get_elem?-some bands bgn q in
          let (last, el) =
            get_elem?-some bands (end_of fl 1 (length bands) bgn - 1)
              (end_of-lt 1 (length bands) bgn h q) in
          let (a, run) = one_band (raster_io (first ∷ [])) (reads (first ∷ [])) in
          (some a ∷ [], rw (ef, el, cols, run) (one_row a), refl)
      read_group-some (suc (suc m)) bands bgn h q =
          let s : ℕ = suc (suc m) in
          let (first, ef) = get_elem?-some bands bgn q in
          let (last, el) =
            get_elem?-some bands (end_of fl s (length bands) bgn - 1)
              (end_of-lt s (length bands) bgn h q) in
          let (a, b, run) = two_bands (raster_io (first ∷ last ∷ [])) (reads (first ∷ last ∷ [])) in
          let (rows, made, n) = group_rows m a b in
          let two : (suc (suc m) == 1) ≡ false = ground arith in
          (
            some a ∷ (rows ++ (some b ∷ [])),
            rw (ef, el, two, cols, run) made,
            omega (arith, n, length-append rows (some b ∷ [])),
          )

      read_groups-some :
          (fuel strides : ℕ) (bands : List ℕ) (bgn : ℕ)
          → 0 < strides
          → length bands - bgn < fuel
          → (avgs : Row fl) × (k : ℕ) × (read_groups fl fuel st raster_io strides bands bgn
              ≡ some avgs)
            × (length avgs ≡ k * strides)
            × (length bands ≤ bgn + k * strides)
            × (bgn + k * strides < length bands + strides ⊎ k ≡ 0)
      unfolding read_groups
      read_groups-some zero strides bands bgn h q = absurd (omega arith)
      read_groups-some (suc fuel) strides bands bgn h q =
          elim (Bool-cases (ltb bgn (length bands))) [
            | inl more ↦
                let (rows, group, m) =
                  read_group-some strides bands bgn h (ltb→lt bgn (length bands) more) in
                let (rest, k, run, n, covered, tight) =
                  read_groups-some fuel strides bands (bgn + strides) h (ground arith) in
                (
                  rows ++ rest,
                  suc k,
                  rw (more, group, run) refl,
                  omega (arith, length-append rows rest),
                  omega arith,
                  inl (elim tight [ inl p ↦ omega (arith, p) | inr z ↦ rw z (ground arith) ]),
                )
            | inr done ↦ ([], 0, rw done refl, omega arith, ground arith, inr refl)
          ]

      -- `readData` for a statistic with one value for each band and no deciles, when GDAL reads whole
      -- bands and the mask covers a band: it does not fail. It returns a whole number k of groups of
      -- bandStrides rows each (of one row when bandStrides is 0 or less), where k is the least number
      -- of groups that cover the bands, and reports one column and as many rows as it returns.
      pub read_data-rows :
          (band_strides : ℕ) (bands : List ℕ)
          → let strides : ℕ = if leb band_strides 0 then 1 else band_strides in
            (avgs : Row fl) × (k : ℕ) × (read_data fl st raster_io band_strides bands
              ≡ ok (avgs, (length avgs, 1)))
            × (length avgs ≡ k * strides)
            × (length bands ≤ k * strides)
            × (k * strides < length bands + strides)
      unfolding read_data
      read_data-rows band_strides bands =
          let strides : ℕ = if leb band_strides 0 then 1 else band_strides in
          let some_stride : 0 < strides = ground arith in
          let (avgs, k, run, n, covered, tight) =
            read_groups-some (suc (length bands)) strides bands 0 some_stride (ground arith) in
          (
            avgs,
            k,
            rw (not_other st.pixel_stat single, run, cols)
                (ap (λ r. ok (avgs, (r, 1))) (omega arith)),
            n,
            omega (arith, covered),
            elim tight [ inl p ↦ omega (arith, p) | inr z ↦ rw z (ground arith) ],
          )
