-- ===== src/Fusion/Layers.antt =====
-- The layers that a fused layer refers to: `findDepLayers` and `checkFusedBandNames` of
-- processor/tile_pipeline.go, with `GetLayerIndex` and `GetLayerStyleIndex` of utils/wms.go. A layer
-- found is given by its namespace, its index and that of its style. Texts are ASCII.
use gsky.Prelude.{
  ℕ, suc, Bool, true, false, not, ◌&&◌, Option, none, some, List, [], ◌∷◌, ◌++◌, ltb, ◌==◌,
  if◌then◌else◌, length, drop, get_elem?, Bytes, bytes_eq, codes,
}
use gsky.Prelude.Result.{Result, ok, err, panic, ◌>>=◌}
use gsky.Dap4.{
  trim_space, trim_left, trim_right, split, parse_index, Index, index, negative, invalid,
}
use gsky.DrillMerger.{lookup}

-- What is read of a Layer: its name, and the names of its styles.
pub record Layer : Type 0 where
  pub name : Bytes
  pub styles : List Bytes

-- A loop that looks for an entry with a name, from index i on.
unfoldable pub find_name : Bytes → ℕ → List Bytes → Option ℕ
find_name name i [] = none
find_name name i (s ∷ ss) =
    let rest = find_name name (suc i) ss in if bytes_eq s name then some i else rest

abbrev pub layer_names : List Layer → List Bytes
layer_names [] = []
layer_names (l ∷ ls) = l.name ∷ layer_names ls

abbrev pub found_layer : Option ℕ → Result ℕ
found_layer none = err "not found in config Layers"
found_layer (some i) = ok i

-- params.Layers is nil or a slice, whose first entry is read.
unfoldable pub get_layer_index : Option (List Bytes) → List Layer → Result ℕ
unfolding find_name
get_layer_index none layers = err "WMS request doesn't specify a product"
get_layer_index (some []) layers = panic
get_layer_index (some (product ∷ _)) layers = found_layer (find_name product 0 (layer_names layers))

unfoldable pub has_prefix : Bytes → Bytes → Bool
has_prefix [] s = true
has_prefix (p ∷ ps) [] = false
has_prefix (p ∷ ps) (c ∷ s) = p == c && has_prefix ps s

-- The style that is looked for. `axes` are the names of the axes of the request.
abbrev pub is_weighted : List Bytes → Bool
is_weighted [] = false
is_weighted (axis ∷ axes) = if bytes_eq axis (codes "weighted_time") then true else is_weighted axes

abbrev pub tw_prefix : Bytes
tw_prefix = codes "__tw__"

unfoldable pub wanted_style : List Bytes → Bytes → Bytes
unfolding has_prefix trim_left trim_right
wanted_style axes style =
    let s = trim_space style in
    if not (has_prefix tw_prefix s) && is_weighted axes then tw_prefix ++ s else s

-- The first style, if there is one; `none` is -1.
abbrev pub first_style : List Bytes → Option ℕ
first_style [] = none
first_style (s ∷ ss) = some 0

abbrev pub found_style : Option ℕ → Result (Option ℕ)
found_style none = err "style not found in this layer"
found_style (some i) = ok (some i)

abbrev pub style_index : Bytes → List Bytes → Result (Option ℕ)
style_index [] styles = ok (first_style styles)
style_index (c ∷ s) styles = found_style (find_name (c ∷ s) 0 styles)

unfoldable pub get_layer_style_index : Option (List Bytes) → List Bytes → Layer → Result (Option ℕ)
unfolding wanted_style find_name
get_layer_style_index none axes layer = ok (first_style layer.styles)
get_layer_style_index (some []) axes layer = panic
get_layer_style_index (some (style ∷ _)) axes layer =
    style_index (wanted_style axes style) layer.styles

-- An entry of InputLayers.
pub record LayerRef : Type 0 where
  pub name : Bytes
  pub namespace : Bytes
  pub styles : List Bytes

-- A GeoReqContext, as far as findDepLayers sets it.
pub record DepLayer : Type 0 where
  pub namespace : Bytes
  pub layer_idx : ℕ
  pub style_idx : Option ℕ

abbrev pub Configs : Type 0
Configs = List (Bytes × List Layer)

-- refNameSpace
abbrev pub or_default : Bytes → Bytes → Bytes
or_default (c ∷ s) ns = c ∷ s
or_default [] (c ∷ s) = c ∷ s
or_default [] [] = codes "."

-- styleLayer
abbrev pub only_style : List Bytes → Result (Option ℕ)
only_style [] = ok none
only_style (s ∷ []) = ok (some 0)
only_style (s ∷ t ∷ ss) = err "referenced layer has multiple styles"

abbrev pub ref_style : List Bytes → Layer → Result (Option ℕ)
ref_style [] layer = only_style layer.styles
ref_style (style ∷ _) layer = get_layer_style_index (some (style ∷ [])) [] layer

abbrev pub or_error {ℓ} : {A : Type ℓ} → Option A → Result A
or_error none = err "namespace not found"
or_error (some a) = ok a

-- config.Layers[i], which panics out of range.
abbrev pub layer_at : List Layer → ℕ → Result Layer
layer_at ls i = elim (get_elem? ls i) [ none ↦ panic | some l ↦ ok l ]

-- The body of the loop.
unfoldable pub find_dep_layer : Bytes → Configs → LayerRef → Result DepLayer
unfolding lookup get_layer_index get_layer_style_index
find_dep_layer current configs ref =
    or_error (lookup (or_default ref.namespace current) configs) >>= λ layers.
    get_layer_index (some (ref.name ∷ [])) layers >>= λ i. layer_at layers i >>= λ layer.
    ref_style ref.styles layer >>= λ style.
    ok (record { namespace = or_default ref.namespace current; layer_idx = i; style_idx = style })

unfoldable pub find_dep_layers : Bytes → Configs → List LayerRef → Result (List DepLayer)
unfolding find_dep_layer
find_dep_layers current configs [] = ok []
find_dep_layers current configs (ref ∷ refs) = find_dep_layer current configs ref >>= λ d.
    find_dep_layers current configs refs >>= λ ds. ok (d ∷ ds)

-- otherVars, hasFusedBand and isTimeWeighted.
pub record BandNames : Type 0 where
  pub other_vars : List Bytes
  pub has_fused_band : Bool
  pub is_time_weighted : Bool

-- len(ns) > len(fusedBandName), with that prefix: what follows it.
unfoldable pub fused_number : Bytes → Option (List Bytes)
unfolding has_prefix split
fused_number ns =
    if ltb 4 (length ns) && has_prefix (codes "fuse") ns
    then some (split b'_' (drop 4 ns))
    else none

abbrev pub is_number : Index → Bool
is_number (index _) = true
is_number negative = true
is_number invalid = false

abbrev pub starts_with_number : List Bytes → Bool
starts_with_number [] = false
starts_with_number (part ∷ parts) = is_number (parse_index part)

abbrev pub check_band : Bytes → Option (List Bytes) → BandNames → Result BandNames
check_band ns none found = ok (record found { other_vars = found.other_vars ++ (ns ∷ []) })
check_band ns (some parts) found =
    if starts_with_number parts
    then ok (record found {
      has_fused_band = true;
      is_time_weighted = if length parts == 2 then found.is_time_weighted else false;
    })
    else err "invalid namespace"

unfoldable pub check_bands : List Bytes → BandNames → Result BandNames
unfolding fused_number parse_index
check_bands [] found = ok found
check_bands (ns ∷ var_list) found = check_band ns (fused_number ns) found >>= check_bands var_list

unfoldable pub check_fused_band_names : List Bytes → Result BandNames
unfolding check_bands
check_fused_band_names var_list =
    check_bands var_list
      (record { other_vars = []; has_fused_band = false; is_time_weighted = true })
