-- ===== src/Scaler/Tests.antt =====
-- Small whole numbers for the floats.
use gsky.Prelude.{ℕ, ◌+◌, ◌-◌, ◌*◌, ◌/◌, ◌≡◌, refl, true, false, [], ◌∷◌, ltb, leb, ◌==◌}
use gsky.Prelude.Int.{ℤ, pos, negsuc}
use gsky.Prelude.Result.{ok, panic}
use gsky.Scaler.{
  Floats, ScaleParams, Shading, Raster, int16s, float32s, int_kind, float_kind, clamped,
  scale_raster, scale_all,
}

abbrev to_nat : ℤ → ℕ
to_nat (pos n) = n
to_nat (negsuc n) = 0

abbrev whole : Floats
whole = record {
  F = ℕ;
  zero_f = 0;
  one_f = 1;
  half_f = 0;
  tenth_f = 1;
  shades_f = 254;
  lt = ltb;
  le = leb;
  eq = ◌==◌;
  add = ◌+◌;
  sub = ◌-◌;
  mul = ◌*◌;
  div = ◌/◌;
  neg = λ n. 0;
  to_byte = λ n. n;
  of_int = to_nat;
  int_of = λ signed w n. pos n;
  D = ℕ;
  zero_d = 0;
  eq_d = ◌==◌;
  le_d = leb;
  log10 = λ n. n / 10;
  is_odd = λ n. false;
  narrow = λ n. n;
  widen = λ n. n;
  int_of_d = λ signed w n. pos n;
}

abbrev by_two : ScaleParams whole
by_two = record {
  offset = 1;
  scale = 2;
  clip = 100;
  has_colour_scale = false;
  is_log_scale = false;
}

abbrev auto : ScaleParams whole
auto = record { offset = 0; scale = 0; clip = 0; has_colour_scale = false; is_log_scale = false }

abbrev levels : Raster whole
levels = record {
  namespace = [];
  samples = int16s (pos 3 ∷ pos 7 ∷ pos 200 ∷ negsuc 4 ∷ []);
  height = 1;
  width = 5;
  no_data = 7;
}

scaled_levels :
    scale_all whole by_two (levels ∷ [])
    ≡ ok (
        record {
          namespace = [];
          pixels = 8 ∷ 255 ∷ 200 ∷ 0 ∷ 0 ∷ [];
          height = 1;
          width = 5;
          no_data = 7;
        }
        ∷ [])
unfolding scale_all
scaled_levels = refl

-- A raster with more samples than it has room for.
too_long : scale_raster whole by_two (record levels { width = 3 }) ≡ panic
unfolding scale_raster
too_long = refl

-- The least sample is 20, but the first is no data, and the least value stays 0.
least_is_zero :
    scale_raster whole auto (record levels { samples = float32s (7 ∷ 20 ∷ 40 ∷ []); width = 3 })
    ≡ ok (record {
      namespace = [];
      pixels = 255 ∷ 120 ∷ 240 ∷ [];
      height = 1;
      width = 3;
      no_data = 7;
    })
unfolding scale_raster
least_is_zero = refl

abbrev shade : Shading whole (float_kind whole by_two 7)
shade = record { factor = 2; offset = 1; clip = 100 }

-- With an offset of 100 the signed byte 100 becomes -56, and then 0.
wraps :
    clamped whole
      (int_kind whole true 8)
      (record { factor = 1; offset = pos 100; clip = pos 120 })
      (pos 100)
    ≡ pos 0
unfolding clamped
wraps = refl
