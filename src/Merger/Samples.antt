-- ===== src/Merger/Samples.antt =====
-- Rasters of two samples for the tests, whose values are whole numbers.
use gsky.Prelude.{ℕ, ◌+◌, none, List, [], ◌∷◌, ltb, ◌==◌}
use gsky.Merger.Types.{Float64, FlexRaster, byte}

-- Whole numbers in place of the floating point ones.
abbrev pub whole : Float64
whole = record {
  F = ℕ;
  zero_f = 0;
  lt = ltb;
  eq = λ a b. a == b;
  add = λ a b. a + b;
  of_uint = λ n. n;
  sample = λ t n. n;
}

abbrev pub raster : ℕ → List ℕ → FlexRaster ℕ
raster time samples = record {
  bytes = samples;
  data_height = 2;
  data_width = 1;
  height = 2;
  width = 2;
  off_x = 1;
  off_y = 0;
  raster_type = byte;
  no_data = 9;
  namespace = "b1";
  time_stamp = time;
  polygon = [];
  geom_mask = none;
  mask = none;
  namespaces = "b1" ∷ [];
}

abbrev pub newer : FlexRaster ℕ
newer = raster 5 (1 ∷ 9 ∷ [])

abbrev pub older : FlexRaster ℕ
older = raster 3 (7 ∷ 8 ∷ [])
