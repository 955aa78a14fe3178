-- ===== src/Drill/Tests.antt =====
-- Whole numbers for the floats.
use gsky.Prelude.{
  ℕ, ◌+◌, ◌-◌, ◌*◌, ◌/◌, ◌≤◌, ◌<◌, ◌≡◌, refl, true, false, none, some, List, [], ◌∷◌, inl, arith,
  ltb, leb, ◌==◌, length,
}
use gsky.Prelude.Result.{ok}
use gsky.Drill.Numbers.{Floats}
use gsky.Drill.Deciles.{valid_pixels, compute_deciles}
use gsky.Drill.Quantiles.{compute_deciles-some, compute_deciles_panics}
use gsky.Drill.Stats.{mean, minmaxmean, Settings, TimeSeries, Row, read_band}
use gsky.Drill.Read.{read_bands, rows_of_group, read_group, read_data}
use gsky.Drill.Rows.{read_data-rows}

-- Division by zero is not asked for below.
abbrev whole : Floats
whole = record {
  F = ℕ;
  D = ℕ;
  zero_f = 0;
  one_f = 1;
  two_f = 2;
  lt = ltb;
  le = leb;
  eq = ◌==◌;
  is_nan = λ x. false;
  add = ◌+◌;
  div = ◌/◌;
  of_int = λ n. n;
  widen = λ x. x;
  zero_d = 0;
  lt_d = ltb;
  add_d = ◌+◌;
  sub_d = ◌-◌;
  mul_d = ◌*◌;
  div_d = ◌/◌;
  of_int_d = λ n. n;
}

-- Four pixels inside the polygon, one of them no data.
abbrev inside : List ℕ
inside = 255 ∷ 255 ∷ 0 ∷ 255 ∷ 255 ∷ []

abbrev pixels : List ℕ
pixels = 8 ∷ 2 ∷ 7 ∷ 0 ∷ 5 ∷ []

abbrev kept : List ℕ
kept = 8 ∷ 2 ∷ 5 ∷ []

pixels_kept : valid_pixels whole 0 inside pixels 0 5 0 ≡ some kept
unfolding valid_pixels
pixels_kept = refl

median : compute_deciles whole 1 inside pixels 5 0 0 ≡ some (5 ∷ [])
unfolding compute_deciles
median = refl

compute_deciles-some_example :
    (ds : List ℕ) × (compute_deciles whole 1 inside pixels 5 0 0 ≡ some ds) × (length ds ≡ 1)
compute_deciles-some_example =
    compute_deciles-some whole 1 inside pixels 5 0 0 kept pixels_kept (omega arith)
      (inl (omega arith))

compute_deciles_panics_example : compute_deciles whole 2 inside pixels 5 0 0 ≡ none
compute_deciles_panics_example =
    compute_deciles_panics whole 2 inside pixels 5 0 0 kept pixels_kept (omega arith) (omega arith)

abbrev means : Settings whole
means = record {
  mask = 255 ∷ 255 ∷ [];
  band_size = 2;
  nodata = 0;
  decile_count = 0;
  count_pixels = false;
  pixel_stat = mean;
  clip_upper = 100;
  clip_lower = 0;
}

-- Every band b reads as the two pixels b and b + 2.
abbrev two_pixels : List ℕ → List ℕ
two_pixels [] = []
two_pixels (b ∷ bands) = b ∷ (b + 2) ∷ two_pixels bands

two_pixels-reads : (bands : List ℕ) → length bands * 2 ≤ length (two_pixels bands)
two_pixels-reads [] = omega arith
two_pixels-reads (b ∷ bands) = omega (arith, two_pixels-reads bands)

abbrev point : ℕ → TimeSeries whole
point v = record { value = v; count = 2 }

-- The last of five bands in groups of two is alone in its group and fills both rows.
five_bands :
    read_data whole means two_pixels 2 (1 ∷ 2 ∷ 3 ∷ 4 ∷ 5 ∷ [])
    ≡ ok (
      some (point 2)
          ∷ some (point 3)
          ∷ some (point 4)
          ∷ some (point 5)
          ∷ some (point 6)
          ∷ some (point 6)
          ∷ [],
      (6, 1),
    )
unfolding read_data read_group read_bands read_band rows_of_group
five_bands = refl

read_data-rows_example :
    (avgs : Row whole) × (k : ℕ) × (read_data whole means two_pixels 2 (1 ∷ 2 ∷ 3 ∷ 4 ∷ 5 ∷ [])
      ≡ ok (avgs, (length avgs, 1)))
    × (length avgs ≡ k * 2)
    × (5 ≤ k * 2)
    × (k * 2 < 5 + 2)
read_data-rows_example =
    read_data-rows whole means refl refl (omega arith) two_pixels two_pixels-reads 2
      (1 ∷ 2 ∷ 3 ∷ 4 ∷ 5 ∷ [])

-- The least, the greatest and the mean value need a value that was kept: with count_pixels there is
-- none.
counted_extremes :
    read_band whole
      (record means { count_pixels = true; pixel_stat = minmaxmean })
      (1 ∷ 3 ∷ [])
      0
      (none ∷ none ∷ none ∷ [])
    ≡ none
unfolding read_band
counted_extremes = refl
