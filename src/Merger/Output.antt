-- ===== src/Merger/Output.antt =====
-- `RasterMerger.Run` of processor/tile_merger.go behind its loop: the canvases become the rasters that
-- are sent on, or the variables of the band expressions.
use text.Mathlib.Text.{◌==◌ as str_eq}
use Prim.Native.String.{◌++◌ as append_str}
use gsky.Prelude.{
  ℕ, ◌+◌, ◌*◌, Bool, true, false, not, Option, none, some, List, [], ◌∷◌, ◌++◌, String,
  if◌then◌else◌, get_elem?, map, replicate, ◌>>=◌ as bind,
}
use gsky.Prelude.Result.{Result, ok, err, panic, or_panic, ◌>>=◌}
use gsky.Merger.Types.{RasterType, other, byte, Float64, FlexRaster, words}
use gsky.Merger.Merge.{CanvasMap, find_canvas}
use gsky.Merger.Namespaces.{var_part, axis_part}

abbrev pub empty_tile_ns : String
empty_tile_ns = "EmptyTile"

-- nameSpaces. Which canvas comes first in the map is open; here it is the first of the list.
unfoldable pub namespaces_of : {F : Type 0} → CanvasMap F → List String
namespaces_of canvases = elim (find_canvas empty_tile_ns canvases) [
  | some _ ↦ empty_tile_ns ∷ []
  | none ↦ elim canvases [ [] ↦ [] | (c ∷ _) ↦ c.1.namespaces ]
]

-- Axis2BandVar
pub record BandVar : Type 0 where
  pub name : String
  pub idx : ℕ

-- axisNsLookup, in the order of axisList
abbrev pub AxisLookup : Type 0
AxisLookup = List (String × List BandVar)

unfoldable pub push_var : String → BandVar → AxisLookup → AxisLookup
push_var axis v [] = (axis, v ∷ []) ∷ []
push_var axis v ((a, vs) ∷ lookup) =
    let rest = push_var axis v lookup in
    if str_eq a axis then (a, vs ++ (v ∷ [])) ∷ lookup else (a, vs) ∷ rest

abbrev pub push_namespace : String → ℕ → Option String → AxisLookup → AxisLookup
push_namespace ns i (some axis) lookup =
    push_var axis (record { name = var_part ns; idx = i }) lookup
push_namespace ns i none lookup = push_var "singular" (record { name = ns; idx = i }) lookup

-- The loop over the namespaces, from the place i on.
unfoldable pub axis_lookup : ℕ → List String → AxisLookup → AxisLookup
unfolding push_var
axis_lookup i [] lookup = lookup
axis_lookup i (ns ∷ namespaces) lookup =
    axis_lookup (i + 1) namespaces (push_namespace ns i (axis_part ns) lookup)

-- float32, with what is done to its values; `to_float32` reads a sample's bits, `is_value` is
-- float64(x) == noData, and `is_odd` is math.IsInf or math.IsNaN.
pub record Float32 (F : Type 0) : Type 1 where
  pub S : Type 0
  pub to_float32 : RasterType → ℕ → S
  pub is_value : S → F → Bool
  pub narrow : F → S
  pub is_odd : S → Bool

module _ (fl : Float64) (fs : Float32 fl.F) where
  open fl use {F}
  open fs use {S, to_float32, is_value, narrow, is_odd}

  -- The rasters that are sent on, with the samples as the words of their type, and those of the
  -- expressions.
  pub data OutRaster : Type 0 where
    samples : RasterType → F → List ℕ → ℕ → ℕ → String → OutRaster
    values : F → List S → ℕ → ℕ → String → OutRaster

  -- bandVars[i], as far as it is read
  pub record Variable : Type 0 where
    pub no_data : F
    pub cells : List S

  -- What Evaluate of the library govaluate returns.
  pub data Evaluated : Type 0 where
    scalar : S → Evaluated
    array : List S → Evaluated
    other_value : Evaluated
    failed : Evaluated

  -- An entry of ExprNames with the one of Expressions, which is a parameter.
  pub record Expression : Type 0 where
    pub name : String
    pub evaluate : List (String × List S) → Evaluated

  -- One round of the loop over the namespaces, for a canvas of a known type.
  abbrev pub out_raster : String → FlexRaster F → OutRaster
  out_raster ns c =
      samples c.raster_type c.no_data (words c.raster_type c.bytes) c.width c.height ns

  abbrev pub variable : FlexRaster F → Variable
  variable c = record {
    no_data = c.no_data;
    cells = map (to_float32 c.raster_type) (words c.raster_type c.bytes);
  }

  -- The lookup of a canvas, and the default of the switch.
  abbrev pub is_known : RasterType → Bool
  is_known other = false
  is_known _ = true

  abbrev pub known_canvas : Option (FlexRaster F) → Result (FlexRaster F)
  known_canvas none = err "unknown namespace"
  known_canvas (some c) = if is_known c.raster_type then ok c else err "raster type not recognised"

  unfoldable pub canvases_of : CanvasMap F → List String → Result (List (String × FlexRaster F))
  canvases_of canvases [] = ok []
  canvases_of canvases (ns ∷ namespaces) = known_canvas (find_canvas ns canvases) >>= λ c.
      canvases_of canvases namespaces >>= λ cs. ok ((ns, c) ∷ cs)

  -- noDataMasks[j] = false where a variable has no data
  unfoldable pub mask_cells : F → List S → List Bool → Option (List Bool)
  mask_cells no_data cells [] = some []
  mask_cells no_data [] (b ∷ mask) = none
  mask_cells no_data (s ∷ cells) (b ∷ mask) =
      bind (mask_cells no_data cells mask)
        (λ rest. some ((if is_value s no_data then false else b) ∷ rest))

  -- parameters[v.Name] = data
  unfoldable pub put_parameter : String → List S → List (String × List S) → List (String × List S)
  put_parameter name cells [] = (name, cells) ∷ []
  put_parameter name cells ((n, old) ∷ ps) =
      let rest = put_parameter name cells ps in
      if str_eq n name then (n, cells) ∷ ps else (n, old) ∷ rest

  -- The loop over the variables of an axis.
  unfoldable pub add_vars :
      List Variable
      → List BandVar
      → List Bool
      → List (String × List S)
      → Option (List Bool × List (String × List S))
  unfolding mask_cells put_parameter
  add_vars vars [] mask ps = some (mask, ps)
  add_vars vars (v ∷ vs) mask ps = bind (get_elem? vars v.idx) (λ var.
      bind (mask_cells var.no_data var.cells mask)
        (λ mask'. add_vars vars vs mask' (put_parameter v.name var.cells ps)))

  -- outRaster.Data for a scalar, and for an array.
  abbrev pub put_scalar : F → S → List Bool → List S
  put_scalar no_data s mask = map (λ b. if b then s else narrow no_data) mask

  unfoldable pub put_array : F → List S → List Bool → Option (List S)
  put_array no_data cells [] = some []
  put_array no_data [] (true ∷ mask) = none
  put_array no_data [] (false ∷ mask) =
      bind (put_array no_data [] mask) (λ rest. some (narrow no_data ∷ rest))
  put_array no_data (s ∷ cells) (b ∷ mask) = bind (put_array no_data cells mask) (λ rest.
      some ((if b then (if is_odd s then narrow no_data else s) else narrow no_data) ∷ rest))

  unfoldable pub put_result : F → Evaluated → List Bool → Result (List S)
  unfolding put_array
  put_result no_data (scalar s) mask = ok (put_scalar no_data s mask)
  put_result no_data (array cells) mask = or_panic (put_array no_data cells mask)
  put_result no_data other_value mask = err "unknown data type for returned value"
  put_result no_data failed mask = err "bandExpr error"

  -- outNameSpace
  abbrev pub out_namespace : String → String → String
  out_namespace name axis =
      if str_eq axis "singular" then name else append_str name (append_str "#" axis)

  -- The body of the loop over the axes.
  unfoldable pub evaluate_axis :
      ℕ → ℕ → F → List Variable → Expression → String → List BandVar → Result OutRaster
  unfolding add_vars put_result
  evaluate_axis width height no_data vars expr axis vs =
      or_panic (add_vars vars vs (replicate (width * height) true) []) >>= λ (mask, ps).
      put_result no_data (expr.evaluate ps) mask >>= λ cells.
      ok (values no_data cells width height (out_namespace expr.name axis))

  unfoldable pub evaluate_axes :
      ℕ → ℕ → F → List Variable → Expression → AxisLookup → Result (List OutRaster)
  evaluate_axes width height no_data vars expr [] = ok []
  evaluate_axes width height no_data vars expr ((axis, vs) ∷ lookup) =
      evaluate_axis width height no_data vars expr axis vs >>= λ r.
      evaluate_axes width height no_data vars expr lookup >>= λ rs. ok (r ∷ rs)

  unfoldable pub evaluate_all :
      ℕ → ℕ → F → List Variable → List Expression → AxisLookup → Result (List OutRaster)
  unfolding evaluate_axes
  evaluate_all width height no_data vars [] lookup = ok []
  evaluate_all width height no_data vars (expr ∷ exprs) lookup =
      evaluate_axes width height no_data vars expr lookup >>= λ rs.
      evaluate_all width height no_data vars exprs lookup >>= λ rest. ok (rs ++ rest)

  -- hasExpr
  abbrev pub has_expr : String → List Expression → Bool
  has_expr ns [] = false
  has_expr ns (_ ∷ _) = not (str_eq ns empty_tile_ns)

  abbrev pub with_expressions :
      List Expression → List String → List (String × FlexRaster F) → Result (List OutRaster)
  with_expressions exprs namespaces [] = panic
  with_expressions exprs namespaces ((ns, first) ∷ rest) =
      evaluate_all first.width first.height first.no_data
        (map (λ c. variable c.1) ((ns, first) ∷ rest)) exprs (axis_lookup 0 namespaces [])

  -- What is sent to enc.Out, if nothing was cancelled.
  unfoldable pub outputs : List Expression → CanvasMap F → List String → Result (List OutRaster)
  unfolding canvases_of evaluate_all axis_lookup
  outputs exprs canvases [] = ok (samples byte fl.zero_f [] 0 0 empty_tile_ns ∷ [])
  outputs exprs canvases (ns ∷ namespaces) = canvases_of canvases (ns ∷ namespaces) >>= λ cs.
      if has_expr ns exprs
      then with_expressions exprs (ns ∷ namespaces) cs
      else ok (map (λ c. out_raster c.0 c.1) cs)
