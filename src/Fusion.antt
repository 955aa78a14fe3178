-- ===== src/Fusion.antt =====
-- processor/tile_pipeline.go: a layer that is fused from others. `getFlexRaster` takes a raster of such
-- a layer for the merger, and `processDeps` does so for all layers. What the pipeline of a layer answers,
-- utils.Scale, the names of the bands and float64(t) of a time are parameters.
use gsky.Prelude.{
  ℕ, zero, suc, ◌+◌, ◌*◌, Bool, true, false, not, ◌&&◌, ◌||◌, Option, none, some, List, [], ◌∷◌,
  ◌++◌, ltb, ◌==◌, if◌then◌else◌, length, map, replicate, String, Bytes, bytes_eq, codes,
}
use gsky.Prelude.Int.{ℤ, pos, negsuc, sub_ℕ, ◌+ℤ◌, lt_ℤ}
use gsky.Prelude.Result.{Result, ok, err, ◌>>=◌}
use gsky.Merger.Types.{
  RasterType, signed_byte, byte, int16, uint16, float32, other, Float64, FlexRaster, words, overlay,
  sample_eq,
}
pub mod Layers
pub mod Resolved
pub mod Normal
pub mod Stacked
mod Tests

abbrev pub same_type : RasterType → RasterType → Bool
same_type signed_byte signed_byte = true
same_type byte byte = true
same_type int16 int16 = true
same_type uint16 uint16 = true
same_type float32 float32 = true
same_type _ _ = false

-- utils.EmptyTileNS
abbrev pub empty_tile_ns : Bytes
empty_tile_ns = codes "EmptyTile"

-- A raster of package utils: its kind, and its samples as they lie in memory.
pub record Raster (F : Type 0) : Type 0 where
  pub raster_type : RasterType
  pub bytes : Bytes
  pub height : ℕ
  pub width : ℕ
  pub no_data : F
  pub namespace : Bytes

-- The loop over the samples: whether one is no data, and the samples with no data replaced.
unfoldable pub has_no_data : (ℕ → ℕ → Bool) → ℕ → List ℕ → Bool
has_no_data eq no_data [] = false
has_no_data eq no_data (s ∷ ss) = eq s no_data || has_no_data eq no_data ss

unfoldable pub replace_no_data : (ℕ → ℕ → Bool) → ℕ → ℕ → List ℕ → List ℕ
replace_no_data eq no_data new [] = []
replace_no_data eq no_data new (s ∷ ss) =
    (if eq s no_data then new else s) ∷ replace_no_data eq no_data new ss

abbrev pub is_empty_tile : RasterType → Bytes → Bool
is_empty_tile byte ns = bytes_eq ns empty_tile_ns
is_empty_tile _ ns = false

abbrev pub le_ℤ : ℤ → ℤ → Bool
le_ℤ a b = not (lt_ℤ b a)

module _ (fl : Float64) where
  open fl use {F, zero_f, eq, of_uint, sample}

  -- What processDeps reads of its request.
  pub record Request : Type 0 where
    pub height : ℕ
    pub width : ℕ
    pub namespaces : List String
    pub start_time : Option ℤ
    pub end_time : Option ℤ
    pub expr_names : ℕ

  -- normNoData, if normalise
  abbrev pub new_no_data : RasterType → F → Option (Raster F) → Option F
  new_no_data t no_data none = none
  new_no_data t no_data (some norm) =
      if same_type norm.raster_type t
        && not (sample_eq t (sample t norm.no_data) (sample t no_data))
      then some norm.no_data
      else none

  abbrev pub no_data_or : F → Option F → F
  no_data_or no_data none = no_data
  no_data_or no_data (some new) = new

  -- The memory of the samples after the loop over them.
  abbrev pub normal_bytes : RasterType → F → Option F → Bytes → Bytes
  normal_bytes t no_data none bytes = bytes
  normal_bytes t no_data (some new) bytes =
      overlay t (replace_no_data (sample_eq t) (sample t no_data) (sample t new) (words t bytes))
        bytes

  -- What comes first from the pipeline of a layer, its channel of errors and its context.
  pub data Answer : Type 0 where
    rasters : List (Raster F) → Answer
    failed : Answer
    cancelled : Answer

  -- A GeoReqContext: the seconds of its effective dates, if both are dates; its scale parameters
  -- and FusionUnscale; and the answer of its pipeline.
  pub record Dep : Type 0 where
    pub extent : Option (ℤ × ℤ)
    pub offset : F
    pub scale : F
    pub clip : F
    pub fusion_unscale : ℕ
    pub answer : Answer

  -- reqT0 and reqT1
  abbrev pub unix_or : Option ℤ → ℤ
  unix_or none = negsuc 0
  unix_or (some t) = t

  abbrev pub between : ℤ → ℤ × ℤ → Bool
  between t (ts0, ts1) = le_ℤ ts0 t && le_ℤ t ts1

  unfoldable pub is_in_range : Request → Option (ℤ × ℤ) → Bool
  is_in_range req none = true
  is_in_range req (some extent) =
      between (unix_or req.start_time) extent || between (unix_or req.end_time) extent

  abbrev pub has_scale_params : Dep → Bool
  has_scale_params d = not (eq d.offset zero_f && (eq d.scale zero_f && eq d.clip zero_f))

  -- "Empty tile": nothing is taken from the layer.
  abbrev pub is_blank : List (Raster F) → Bool
  is_blank [] = true
  is_blank (r ∷ rs) = r.width == 0 || (r.height == 0 || bytes_eq r.namespace empty_tile_ns)

  -- norm[j].NoData = 0xFF
  abbrev pub whitened : Raster F → Raster F
  whitened r = record r { no_data = of_uint 255 }

  -- normRaster: set by the first raster of the first layer.
  abbrev pub set_norm : ℕ → Bool → List (Raster F) → Option (Raster F) → Option (Raster F)
  set_norm zero true (r ∷ rs) norm = some r
  set_norm _ _ _ norm = norm

  abbrev pub norm_for : Bool → Option (Raster F) → Option (Raster F)
  norm_for true norm = norm
  norm_for false norm = none

  -- emptyRaster
  abbrev pub empty_raster : Request → Raster F
  empty_raster req = record {
    raster_type = byte;
    bytes = replicate (req.height * req.width) 0;
    height = req.height;
    width = req.width;
    no_data = zero_f;
    namespace = codes "EmptyTile_dummy";
  }

  -- timestamp, where `now` is the time of the call
  abbrev pub timestamp : ℤ → Option ℤ → ℤ
  timestamp now none = now
  timestamp now (some t) = t

  module _ (scale : F → F → F → List (Raster F) → Result (List (Raster F))) where
    -- The rasters of a layer, with whether they are normalised by normRaster.
    unfoldable pub scaled_rasters : Dep → List (Raster F) → Result (Bool × List (Raster F))
    scaled_rasters d res =
        if d.fusion_unscale == 0 && has_scale_params d
        then (scale d.offset d.scale d.clip res >>= λ scaled.
            if is_blank scaled then ok (false, []) else ok (false, map whitened scaled))
        else ok (true, res)

    abbrev pub layer_rasters : Dep → Answer → Result (Bool × List (Raster F))
    layer_rasters d (rasters res) = scaled_rasters d res
    layer_rasters d failed = err "Error in the fusion pipeline"
    layer_rasters d cancelled = err "Context cancelled in fusion pipeline"

  -- float64(timestamp.Unix()) and the names "fuse0", "fuse1" and so on
  module _ (of_unix : ℤ → F) (band_name : ℕ → String) where
    abbrev pub flex_of : ℕ → ℤ → Request → RasterType → Bytes → F → FlexRaster F
    flex_of idx time req t bytes no_data = record {
      bytes = bytes;
      data_height = req.height;
      data_width = req.width;
      height = req.height;
      width = req.width;
      off_x = 0;
      off_y = 0;
      raster_type = t;
      no_data = no_data;
      namespace = band_name idx;
      time_stamp = of_unix time;
      polygon = codes "dummy_polygon";
      geom_mask = none;
      mask = none;
      namespaces = req.namespaces;
    }

    -- The body of the five cases of getFlexRaster. A raster of another kind has no samples.
    abbrev pub flex_case :
        ℕ → ℤ → Request → RasterType → Bytes → F → Option F → Option (FlexRaster F) × Bool
    flex_case idx time req other bytes no_data new =
        (some (flex_of idx time req other [] zero_f), true)
    flex_case idx time req t bytes no_data new = (
      some (flex_of idx time req t (normal_bytes t no_data new bytes) (no_data_or no_data new)),
      not (has_no_data (sample_eq t) (sample t no_data) (words t bytes)),
    )

    unfoldable pub get_flex_raster :
        ℕ → ℤ → Request → Raster F → Option (Raster F) → Option (FlexRaster F) × Bool
    unfolding has_no_data replace_no_data
    get_flex_raster idx time req r norm =
        if is_empty_tile r.raster_type r.namespace
        then (none, false)
        else flex_case idx time req r.raster_type r.bytes r.no_data
            (new_no_data r.raster_type r.no_data norm)

    -- The loops over j: the rasters so far, and allFilled.
    abbrev pub push_flex :
        Option (FlexRaster F) × Bool → List (FlexRaster F) × Bool → List (FlexRaster F) × Bool
    push_flex (none, filled) done = done
    push_flex (some flex, filled) (rs, all_filled) =
        (rs ++ (flex ∷ []), if filled then all_filled else filled)

    unfoldable pub push_all :
        ℕ
        → ℤ
        → Request
        → Option (Raster F)
        → List (Raster F)
        → List (FlexRaster F) × Bool
        → List (FlexRaster F) × Bool
    unfolding get_flex_raster
    push_all j time req norm [] done = done
    push_all j time req norm (r ∷ rs) done =
        push_all (suc j) time req norm rs (push_flex (get_flex_raster j time req r norm) done)

    -- One for each expression, with idx of them made.
    unfoldable pub empty_rasters : ℤ → Request → ℕ → ℕ → List (FlexRaster F)
    unfolding get_flex_raster
    empty_rasters time req idx zero = []
    empty_rasters time req idx (suc n) =
        elim ((get_flex_raster idx time req (empty_raster req) none).0) [
          | none ↦ empty_rasters time req (suc idx) n
          | some flex ↦ flex ∷ empty_rasters time req (suc idx) n
        ]

    abbrev pub or_empty : ℤ → Request → List (FlexRaster F) → List (FlexRaster F)
    or_empty time req [] = empty_rasters time req 0 req.expr_names
    or_empty time req (r ∷ rs) = r ∷ rs

    module _ (scale : F → F → F → List (Raster F) → Result (List (Raster F))) where
      -- The loop over the layers. `time` is timestamp.Unix(), and a layer is dated by as many seconds
      -- before it as layers stand before the layer.
      unfoldable pub deps_loop :
          ℤ
          → Request
          → ℕ
          → Option (Raster F)
          → List (FlexRaster F)
          → List Dep
          → Result (List (FlexRaster F))
      unfolding is_in_range scaled_rasters push_all
      deps_loop time req idx norm done [] = ok done
      deps_loop time req idx norm done (d ∷ ds) =
          let next = λ (norm' : Option (Raster F)) (done' : List (FlexRaster F)).
            deps_loop time req (suc idx) norm' done' ds in
          if not (is_in_range req d.extent)
          then next norm done
          else (layer_rasters scale d d.answer >>= λ res.
              let norm' = set_norm idx res.0 res.1 norm in
              let pushed =
                push_all 0 (time +ℤ sub_ℕ 0 idx) req (norm_for res.0 norm') res.1 (done, false) in
              if pushed.1 then ok pushed.0 else next norm' pushed.0)

      unfoldable pub process_deps : ℤ → Request → List Dep → Result (List (FlexRaster F))
      unfolding deps_loop empty_rasters
      process_deps now req ds = deps_loop (timestamp now req.start_time) req 0 none [] ds >>= λ rs.
          ok (or_empty (timestamp now req.start_time) req rs)
