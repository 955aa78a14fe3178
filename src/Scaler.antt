-- ===== src/Scaler.antt =====
-- utils/raster_scaler.go: `scale` and `Scale`, which turn the samples of a raster into bytes. The five
-- typed cases have one body, which a `Kind` tells apart. Integers hold what their bits hold; the
-- floats, with Go's conversions from them, are a parameter.
use gsky.Prelude.{
  ℕ, zero, suc, ◌+◌, ◌*◌, Bool, true, false, ◌&&◌, Option, none, some, List, [], ◌∷◌, ltb,
  if◌then◌else◌, length, write, replicate, Bytes,
}
use gsky.Prelude.Int.{ℤ, pos, ◌+ℤ◌, lt_ℤ, eq_ℤ, signed_of, unsigned_of}
use gsky.Prelude.Result.{Result, ok, err, or_panic, ◌>>=◌}
pub mod Formula
pub mod Shades
mod Tests

-- float32 and float64. `to_byte` is uint8(x), `int_of` and `int_of_d` the conversions to an integer
-- of some bits, signed or not; `tenth` is 0.1, and so on.
pub record Floats : Type 1 where
  pub F : Type 0
  pub zero_f : F
  pub one_f : F
  pub half_f : F
  pub tenth_f : F
  pub shades_f : F
  pub lt : F → F → Bool
  pub le : F → F → Bool
  pub eq : F → F → Bool
  pub add : F → F → F
  pub sub : F → F → F
  pub mul : F → F → F
  pub div : F → F → F
  pub neg : F → F
  pub to_byte : F → ℕ
  pub of_int : ℤ → F
  pub int_of : Bool → ℕ → F → ℤ
  pub D : Type 0
  pub zero_d : D
  pub eq_d : D → D → Bool
  pub le_d : D → D → Bool
  pub log10 : D → D
  -- math.IsInf(v, 0) || math.IsNaN(v)
  pub is_odd : D → Bool
  pub narrow : D → F
  pub widen : F → D
  pub int_of_d : Bool → ℕ → D → ℤ

module _ (fl : Floats) where
  open fl use {
    F, zero_f, one_f, half_f, tenth_f, shades_f, lt, le, eq, add, sub, mul, div, neg, to_byte,
    of_int, int_of, D, zero_d, eq_d, le_d, log10, is_odd, narrow, widen, int_of_d,
  }

  -- ScaleParams; the colour scale is 0, ColourLogScale or another.
  pub record ScaleParams : Type 0 where
    pub offset : D
    pub scale : D
    pub clip : D
    pub has_colour_scale : Bool
    pub is_log_scale : Bool

  -- normalise
  abbrev pub normalise : D → Bool → D → D
  normalise val is_log nodata =
      if eq_d val nodata
      then val
      else (let v = if is_log then log10 val else val in if is_odd v then nodata else v)

  -- The samples of one case: `prepare` is what is done to a sample before it is used; it may turn out
  -- to be no data.
  pub record Kind : Type 1 where
    pub V : Type 0
    pub eq_v : V → V → Bool
    pub lt_v : V → V → Bool
    pub add_v : V → V → V
    pub zero_v : V
    pub of_f : F → V
    pub of_d : D → V
    pub to_f : V → F
    pub prepare : V → Option V

  abbrev pub int_kind : Bool → ℕ → Kind
  int_kind signed w = record {
    V = ℤ;
    eq_v = eq_ℤ;
    lt_v = lt_ℤ;
    add_v = λ a b. if signed then signed_of w (a +ℤ b) else unsigned_of w (a +ℤ b);
    zero_v = pos 0;
    of_f = int_of signed w;
    of_d = int_of_d signed w;
    to_f = of_int;
    prepare = λ v. some v;
  }

  abbrev pub float_kind : ScaleParams → D → Kind
  float_kind params nodata = record {
    V = F;
    eq_v = eq;
    lt_v = lt;
    add_v = add;
    zero_v = zero_f;
    of_f = λ x. x;
    of_d = narrow;
    to_f = λ x. x;
    prepare = λ v.
        if params.has_colour_scale
        then (let n = normalise (widen v) params.is_log_scale nodata in
            if eq_d n nodata then none else some (narrow n))
        else some v;
  }

  -- scale, before the cases
  abbrev pub scale_of : ScaleParams → F
  scale_of params =
      let s = narrow params.scale in
      if le s zero_f
      then (if le_d params.clip zero_d then one_f else div shades_f (narrow params.clip))
      else s

  module _ (k : Kind) where
    open k use {V, eq_v, lt_v, add_v, zero_v, of_f, of_d, to_f, prepare}

    -- A sample that is used, or no data.
    abbrev pub used : V → V → Option V
    used nodata value = if eq_v value nodata then none else prepare value

    -- minVal and maxVal, with the flag i == 0.
    unfoldable pub extremes : V → Bool → List V → F → F → F × F
    extremes nodata is_first [] min_val max_val = (min_val, max_val)
    extremes nodata is_first (value ∷ data_) min_val max_val = elim (used nodata value) [
      | none ↦ extremes nodata false data_ min_val max_val
      | some v ↦
          if is_first
          then extremes nodata false data_ (to_f v) (to_f v)
          else extremes nodata false data_ (if lt (to_f v) min_val then to_f v else min_val)
              (if lt max_val (to_f v) then to_f v else max_val)
    ]

    -- scale, offset and clip
    pub record Shading : Type 0 where
      pub factor : F
      pub offset : V
      pub clip : V

    abbrev pub is_auto : ScaleParams → Bool
    is_auto params =
        eq_d params.scale zero_d && (eq_d params.clip zero_d && eq_d params.offset zero_d)

    abbrev pub auto_shading : F × F → Shading
    auto_shading (min_val, max_val) =
        let max_val' = if eq min_val max_val then add max_val tenth_f else max_val in
        record {
          factor = div shades_f (sub max_val' min_val);
          offset = of_f (neg min_val);
          clip = of_f (add max_val' (neg min_val));
        }

    unfoldable pub shading : ScaleParams → V → List V → Shading
    unfolding extremes
    shading params nodata data_ =
        if is_auto params then auto_shading (extremes nodata true data_ zero_f zero_f) else record {
          factor = scale_of params;
          offset = of_d params.offset;
          clip = of_d params.clip;
        }

    -- value += offset, and the two bounds
    unfoldable pub clamped : Shading → V → V
    clamped sh value =
        let v₁ = add_v value sh.offset in
        let v₂ = if lt_v sh.clip v₁ then sh.clip else v₁ in if lt_v v₂ zero_v then zero_v else v₂

    unfoldable pub pixel : Shading → V → V → ℕ
    unfolding clamped
    pixel sh nodata value = elim (used nodata value) [
      | none ↦ 255
      | some v ↦ to_byte (add (mul (to_f (clamped sh v)) sh.factor) half_f)
    ]

    -- The loop that writes out.Data, from the place i on.
    unfoldable pub write_pixels : Shading → V → ℕ → List V → List ℕ → Option (List ℕ)
    unfolding pixel
    write_pixels sh nodata i [] out = some out
    write_pixels sh nodata i (value ∷ data_) out = elim (write out i (pixel sh nodata value)) [
      | none ↦ none
      | some out' ↦ write_pixels sh nodata (i + 1) data_ out'
    ]

    abbrev pub scale_as : ScaleParams → D → List V → List ℕ → Option (List ℕ)
    scale_as params no_data data_ out =
        let nodata = of_d no_data in write_pixels (shading params nodata data_) nodata 0 data_ out

  -- A raster's samples; `other_samples` is any other type.
  pub data Samples : Type 0 where
    signed_bytes bytes int16s uint16s : List ℤ → Samples
    float32s : List F → Samples
    other_samples : Samples

  pub record Raster : Type 0 where
    pub namespace : Bytes
    pub samples : Samples
    pub height : ℕ
    pub width : ℕ
    pub no_data : D

  pub record ByteRaster : Type 0 where
    pub namespace : Bytes
    pub pixels : List ℕ
    pub height : ℕ
    pub width : ℕ
    pub no_data : D

  -- The types of the cases. The bytes are written over the raster's own, which all are written.
  abbrev pub scale_samples : ScaleParams → D → ℕ → Samples → Result (List ℕ)
  scale_samples params no_data size (signed_bytes vs) =
      or_panic (scale_as (int_kind true 8) params no_data vs (replicate size 0))
  scale_samples params no_data size (bytes vs) =
      or_panic (scale_as (int_kind false 8) params no_data vs (replicate (length vs) 0))
  scale_samples params no_data size (int16s vs) =
      or_panic (scale_as (int_kind true 16) params no_data vs (replicate size 0))
  scale_samples params no_data size (uint16s vs) =
      or_panic (scale_as (int_kind false 16) params no_data vs (replicate size 0))
  scale_samples params no_data size (float32s vs) =
      or_panic (scale_as (float_kind params no_data) params no_data vs (replicate size 0))
  scale_samples params no_data size other_samples = err "Raster type not implemented"

  unfoldable pub scale_raster : ScaleParams → Raster → Result ByteRaster
  unfolding shading write_pixels
  scale_raster params r =
      scale_samples params r.no_data (r.height * r.width) r.samples >>= λ pixels. ok (record {
        namespace = r.namespace;
        pixels = pixels;
        height = r.height;
        width = r.width;
        no_data = r.no_data;
      })

  -- Scale
  unfoldable pub scale_all : ScaleParams → List Raster → Result (List ByteRaster)
  unfolding scale_raster
  scale_all params [] = ok []
  scale_all params (r ∷ rs) =
      scale_raster params r >>= λ b. scale_all params rs >>= λ bs. ok (b ∷ bs)
