-- ===== src/Drill/Single.antt =====
-- The statistics with one value for each band: a band is scanned, and its value stored.
use gsky.Prelude.{
  ℕ, zero, suc, ◌+◌, ◌≤◌, ◌<◌, ◌≡◌, refl, Bool, Bool-cases, true, false, some, List, arith, ltb,
  ◌==◌, if◌then◌else◌, inl, inr, length, get_elem?-some, set, write-set,
}
use gsky.Prelude.Result.{}
use gsky.Drill.Numbers.{Floats}
use gsky.Drill.Stats.{
  PixelStat, unset, mean, sum, minmaxmean, other, Settings, TimeSeries, Row, Totals, add_pixel,
  scan_band, put_band, put_stat,
}
use gsky.Drill.Read.{is_other}

-- The statistics that have one value for each band.
abbrev pub is_single : PixelStat → Bool
is_single unset = true
is_single mean = true
is_single sum = true
is_single _ = false

pub not_other : (stat : PixelStat) → is_single stat ≡ true → is_other stat ≡ false
not_other unset h = refl
not_other mean h = refl
not_other sum h = refl
not_other minmaxmean h = refl
not_other other h = absurd (cc)

pub n_cols_single :
    (stat : PixelStat) (dc : ℕ)
    → is_single stat ≡ true
    → dc ≡ 0
    → (elim stat as (λ s. ℕ) [
      | minmaxmean ↦ 3
      | unset ↦ 1 + dc
      | mean ↦ 1 + dc
      | sum ↦ 1 + dc
      | other ↦ 1 + dc
    ])
      ≡ 1
n_cols_single unset dc h e = omega arith
n_cols_single mean dc h e = omega arith
n_cols_single sum dc h e = omega arith
n_cols_single minmaxmean dc h e = absurd (cc)
n_cols_single other dc h e = absurd (cc)

module _ (fl : Floats) where
  open fl use {F, eq, zero_f}

  pub scan_band-some :
      (st : Settings fl) (buf : List F) (offset n i : ℕ) (t : Totals fl)
      → i + n ≤ length st.mask
      → offset + (i + n) ≤ length buf
      → (t' : Totals fl) × (scan_band fl st buf offset n i t ≡ some t')
  unfolding scan_band
  scan_band-some st buf offset zero i t h hb = (t, refl)
  scan_band-some st buf offset (suc n) i t h hb =
      let (inside, e) = get_elem?-some st.mask i (omega arith) in
      let (val, ev) = get_elem?-some buf (i + offset) (omega arith) in
      elim (Bool-cases (inside == 255)) [
        | inl q ↦
            let (t', run) =
              scan_band-some st buf offset n (i + 1)
                (if eq val st.nodata then t else add_pixel fl st val t) (omega arith)
                (omega arith) in
            (t', rw (e, q, ev) run)
        | inr q ↦
            let (t', run) = scan_band-some st buf offset n (i + 1) t (omega arith) (omega arith) in
            (t', rw (e, q) run)
      ]

  pub put_single :
      (stat : PixelStat) (i : ℕ) (t : Totals fl) (row : Row fl)
      → is_single stat ≡ true
      → i < length row
      → (s : TimeSeries fl) × (put_band fl stat i t row ≡ some (set row i (some s), i))
  unfolding put_band
  put_single stat i t row h q = elim (Bool-cases (ltb 0 t.total)) [
    | inl some_pixels ↦ let (s, e) = by_stat stat h in (s, rw some_pixels e)
    | inr no_pixels ↦ (
      record { value = fl.zero_d; count = 0 },
      rw (no_pixels, write-set row i (some (record { value = fl.zero_d; count = 0 })) q),
    )
  ]
    where
      average : TimeSeries fl
      average = record {
        value = fl.widen (fl.div t.total_sum (fl.of_int t.total));
        count = t.total;
      }

      added : TimeSeries fl
      added = record { value = fl.widen t.total_sum; count = t.total }

      by_stat :
          (stat : PixelStat)
          → is_single stat ≡ true
          → (s : TimeSeries fl) × (put_stat fl stat i t row ≡ some (set row i (some s), i))
      by_stat unset h = (average, rw (write-set row i (some average) q) refl)
      by_stat mean h = (average, rw (write-set row i (some average) q) refl)
      by_stat sum h = (added, rw (write-set row i (some added) q) refl)
      by_stat minmaxmean h = absurd (cc)
      by_stat other h = absurd (cc)
