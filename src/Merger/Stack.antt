-- ===== src/Merger/Stack.antt =====
-- `ProcessRasterStack` of processor/tile_merger.go: the rasters of one batch, newest time first.
use gsky.Prelude.{
  ◌*◌, Bool, false, Option, none, some, List, [], ◌∷◌, if◌then◌else◌, replicate, map,
}
use gsky.Prelude.Result.{Result, ok, ◌>>=◌}
use gsky.Merger.Types.{Float64, FlexRaster}
use gsky.Merger.Merge.{CanvasMap, find_canvas, set_canvas, init_no_data_slice, merge_masked_raster}

module _ (fl : Float64) where
  open fl use {F, lt, eq, zero_f}

  -- The maps of a batch, by time: each key stands once.
  abbrev pub Stack : Type 0
  Stack = List (F × List (FlexRaster F))

  abbrev pub MaskMap : Type 0
  MaskMap = List (F × List Bool)

  unfoldable pub rasters_at : F → Stack → List (FlexRaster F)
  rasters_at k [] = []
  rasters_at k ((j, rs) ∷ m) = if eq j k then rs else rasters_at k m

  unfoldable pub mask_at : F → MaskMap → Option (List Bool)
  mask_at k [] = none
  mask_at k ((j, mask) ∷ m) = if eq j k then some mask else mask_at k m

  -- delete(rasterStack, geoStamp)
  unfoldable pub delete_at : F → Stack → Stack
  delete_at k [] = []
  delete_at k ((j, rs) ∷ m) = if eq j k then m else (j, rs) ∷ delete_at k m

  -- sort.Slice with keys[i] > keys[j], for keys that differ.
  unfoldable pub insert_key : F → List F → List F
  insert_key k [] = k ∷ []
  insert_key k (j ∷ ks) = if lt j k then k ∷ j ∷ ks else j ∷ insert_key k ks

  unfoldable pub sort_keys : List F → List F
  unfolding insert_key
  sort_keys [] = []
  sort_keys (k ∷ ks) = insert_key k (sort_keys ks)

  -- The canvas of a namespace that has none yet: no data everywhere, at time 0.
  unfoldable pub new_canvas : FlexRaster F → FlexRaster F
  new_canvas r = record {
    bytes = init_no_data_slice fl r.raster_type r.no_data (r.width * r.height);
    data_height = 0;
    data_width = 0;
    height = r.height;
    width = r.width;
    off_x = r.off_x;
    off_y = r.off_y;
    raster_type = r.raster_type;
    no_data = r.no_data;
    namespace = r.namespace;
    time_stamp = zero_f;
    polygon = [];
    geom_mask = none;
    mask = r.mask;
    namespaces = r.namespaces;
  }

  abbrev pub ensure_canvas : FlexRaster F → CanvasMap F → Option (FlexRaster F) → CanvasMap F
  ensure_canvas r canvases none = set_canvas r.namespace (new_canvas r) canvases
  ensure_canvas r canvases (some _) = canvases

  unfoldable pub with_canvas : FlexRaster F → CanvasMap F → CanvasMap F
  with_canvas r canvases = ensure_canvas r canvases (find_canvas r.namespace canvases)

  abbrev pub mask_for : FlexRaster F → Option (List Bool) → List Bool
  mask_for r none = replicate (r.height * r.width) false
  mask_for r (some mask) = mask

  -- The loop over rasterStack[geoStamp].
  unfoldable pub process_group :
      List (FlexRaster F) → Option (List Bool) → CanvasMap F → Result (CanvasMap F)
  process_group [] mask canvases = ok canvases
  process_group (r ∷ rs) mask canvases =
      merge_masked_raster fl r (with_canvas r canvases) (mask_for r mask) >>= process_group rs mask

  -- The loop over the keys, with what is left of the stack.
  unfoldable pub process_keys :
      List F → Stack → MaskMap → CanvasMap F → Result (CanvasMap F × Stack)
  process_keys [] stack masks canvases = ok (canvases, stack)
  process_keys (k ∷ ks) stack masks canvases =
      process_group (rasters_at k stack) (mask_at k masks) canvases
      >>= process_keys ks (delete_at k stack) masks

  unfoldable pub process_raster_stack : Stack → MaskMap → CanvasMap F → Result (CanvasMap F × Stack)
  unfolding process_keys process_group sort_keys
  process_raster_stack stack masks canvases =
      process_keys (sort_keys (map (λ e. e.0) stack)) stack masks canvases
