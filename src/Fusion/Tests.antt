-- ===== src/Fusion/Tests.antt =====
-- Tests of processor/tile_pipeline.go on two layers of rasters of two bytes, with whole numbers as floats.
use gsky.Prelude.{
  ℕ, ◌≡◌, refl, true, false, Option, none, some, List, [], ◌∷◌, String, Bytes, codes,
}
use gsky.Prelude.Int.{ℤ, pos}
use gsky.Prelude.Result.{Result, ok, err, ◌>>=◌}
use gsky.Merger.Types.{FlexRaster, byte, words, overlay, overlay1, sample_eq}
use gsky.Merger.Samples.{whole}
use gsky.Fusion.{
  Raster, Request, rasters, Dep, get_flex_raster, is_in_range, scaled_rasters, or_empty,
  process_deps,
}
use gsky.Dap4.{parse_decimal}
use gsky.Fusion.Layers.{LayerRef, DepLayer, Configs, find_dep_layers, check_fused_band_names}
use gsky.Fusion.Normal.{get_flex_raster-normal}
use gsky.Fusion.Resolved.{AllResolve, find_dep_layers-AllResolve}
use gsky.Fusion.Stacked.{layers, process_deps-layers}

abbrev unix : ℤ → ℕ
unix (pos n) = n
unix _ = 0

abbrev band : ℕ → String
band n = "fuse"

abbrev request : Request whole
request = record {
  height = 1;
  width = 2;
  namespaces = [];
  start_time = some (pos 50);
  end_time = none;
  expr_names = 1;
}

abbrev grid : ℕ → ℕ → ℕ → Raster ℕ
grid a b no_data = record {
  raster_type = byte;
  bytes = a ∷ b ∷ [];
  height = 1;
  width = 2;
  no_data = no_data;
  namespace = [];
}

get_flex_raster-normal_example :
    (flex : FlexRaster ℕ) × (get_flex_raster whole unix band 0
        (pos 50)
        request
        (grid 3 9 9)
        (some (grid 1 1 7))
      ≡ (some flex, false))
    × (flex.raster_type ≡ byte)
    × (flex.height ≡ 1)
    × (flex.width ≡ 2)
    × (flex.no_data ≡ 7)
    × (words byte flex.bytes ≡ 3 ∷ 7 ∷ [])
unfolding words sample_eq
get_flex_raster-normal_example =
    get_flex_raster-normal whole unix band 0 (pos 50) request (grid 3 9 9) (some (grid 1 1 7)) refl
      refl

-- A layer with its effective dates and its rasters.
abbrev dep : Option (ℤ × ℤ) → List (Raster ℕ) → Dep whole
dep extent rs = record {
  extent = extent;
  offset = 0;
  scale = 0;
  clip = 0;
  fusion_unscale = 0;
  answer = rasters rs;
}

abbrev no_scale : ℕ → ℕ → ℕ → List (Raster ℕ) → Result (List (Raster ℕ))
no_scale offset scale clip rs = err "scale"

abbrev deps : List (Dep whole)
deps = dep none (grid 1 2 9 ∷ []) ∷ dep (some (pos 60, pos 70)) [] ∷ dep none (grid 3 9 8 ∷ []) ∷ []

abbrev times : Result (List (FlexRaster ℕ)) → List (ℕ × Bytes)
times (ok rs) = entries rs
  where
    entries : List (FlexRaster ℕ) → List (ℕ × Bytes)
    entries [] = []
    entries (r ∷ rs) = (r.time_stamp, r.bytes) ∷ entries rs
times _ = []

-- The first layer has no gap, and the third one is read all the same.
third_layer_read :
    times (process_deps whole unix band no_scale (pos 0) request deps)
    ≡ (50, 1 ∷ 2 ∷ []) ∷ (48, 3 ∷ 9 ∷ []) ∷ []
unfolding process_deps words sample_eq overlay overlay1
third_layer_read = refl

process_deps-layers_example : process_deps whole unix band no_scale (pos 0) request deps ≡ (
    layers whole unix band no_scale (pos 50) request 0 (some (grid 1 2 9)) deps >>= λ fs.
    ok (or_empty whole unix band (pos 50) request fs))
unfolding is_in_range scaled_rasters
process_deps-layers_example = process_deps-layers whole unix band no_scale (pos 0) request deps

abbrev configs : Configs
configs =
    (codes ".", record { name = codes "rain"; styles = codes "blue" ∷ codes "grey" ∷ [] } ∷ [])
    ∷ (codes "sea", record { name = codes "wave"; styles = [] } ∷ [])
    ∷ []

abbrev refs : List LayerRef
refs =
    record { name = codes "rain"; namespace = []; styles = codes " grey" ∷ [] }
    ∷ record { name = codes "wave"; namespace = codes "sea"; styles = [] }
    ∷ []

abbrev resolved : List DepLayer
resolved =
    record { namespace = codes "."; layer_idx = 0; style_idx = some 1 }
    ∷ record { namespace = codes "sea"; layer_idx = 0; style_idx = none }
    ∷ []

refs_found : find_dep_layers [] configs refs ≡ ok resolved
unfolding find_dep_layers
refs_found = refl

find_dep_layers-AllResolve_example : AllResolve [] configs refs resolved
find_dep_layers-AllResolve_example = find_dep_layers-AllResolve [] configs refs refs_found

band_names :
    check_fused_band_names (codes "fuse0" ∷ codes "rain" ∷ codes "fuse1_2" ∷ [])
    ≡ ok
        (record { other_vars = codes "rain" ∷ []; has_fused_band = true; is_time_weighted = false })
unfolding check_fused_band_names parse_decimal
band_names = refl

band_without_number : check_fused_band_names (codes "fused" ∷ []) ≡ err "invalid namespace"
unfolding check_fused_band_names parse_decimal
band_without_number = refl
