-- ===== src/Merger/Run.antt =====
-- `RasterMerger.Run` of processor/tile_merger.go up to the end of its loop: each batch of rasters is
-- sorted into masks and a stack, and the stack is merged.
use text.Mathlib.Text.{◌==◌ as str_eq}
use Prim.Native.Nat.{bit_xor}
use gsky.Prelude.{
  ℕ, ◌*◌, ◌%◌, ◌^◌, Bool, not, ◌==◌, Option, none, some, List, [], ◌∷◌, ◌++◌, String, if◌then◌else◌,
  length, map, Bytes,
}
use gsky.Prelude.Result.{Result, ok, err, ◌>>=◌}
use gsky.Merger.Types.{Float64, FlexRaster, Mask}
use gsky.Merger.Merge.{CanvasMap}
use gsky.Merger.Mask.{compute_mask}
use gsky.Merger.Stack.{Stack, MaskMap, process_raster_stack}

-- hash/fnv's New32a, which takes the bytes one after another.
unfoldable pub fnv32a : ℕ → Bytes → ℕ
fnv32a h [] = h
fnv32a h (c ∷ s) = fnv32a (bit_xor h c * 16777619 % 2 ^ 32) s

-- What the select at the head of the loop finds: nothing to stop it, a cancelled context, or an
-- error of another stage.
pub data Poll : Type 0 where
  ready : Poll
  cancelled : Poll
  failed : String → Poll

-- A mask of the source masks the raster of its own name.
abbrev pub own_mask : String → Option Mask → Option Mask
own_mask ns none = none
own_mask ns (some m) = if str_eq m.id ns then some m else none

abbrev pub geom_bits : List ℕ → List Bool
geom_bits ms = map (λ m. not (m == 255)) ms

module _ (fl : Float64) where
  open fl use {F, eq, add, of_uint}

  unfoldable pub geo_stamp : FlexRaster F → F
  geo_stamp r = add r.time_stamp (of_uint (fnv32a 2166136261 r.polygon))

  -- maskMap[geoStamp] = mask
  unfoldable pub put_mask : F → List Bool → MaskMap fl → MaskMap fl
  put_mask k mask [] = (k, mask) ∷ []
  put_mask k mask ((j, old) ∷ m) = if eq j k then (j, mask) ∷ m else (j, old) ∷ put_mask k mask m

  -- rasterStack[geoStamp] = append(rasterStack[geoStamp], r)
  unfoldable pub push_raster : F → FlexRaster F → Stack fl → Stack fl
  push_raster k r [] = (k, r ∷ []) ∷ []
  push_raster k r ((j, rs) ∷ m) =
      if eq j k then (j, rs ++ (r ∷ [])) ∷ m else (j, rs) ∷ push_raster k r m

  abbrev pub put_geom_mask : F → Option (List ℕ) → MaskMap fl → MaskMap fl
  put_geom_mask k none masks = masks
  put_geom_mask k (some ms) masks = put_mask k (geom_bits ms) masks

  abbrev pub Sorted : Type 0
  Sorted = MaskMap fl × Stack fl

  abbrev pub push : FlexRaster F → MaskMap fl → Stack fl → Sorted
  push r masks stack =
      (put_geom_mask (geo_stamp r) r.geom_mask masks, push_raster (geo_stamp r) r stack)

  -- The body of the inner loop, for a raster that is not nil, with its own mask.
  unfoldable pub sort_masked : FlexRaster F → Option Mask → MaskMap fl → Stack fl → Result Sorted
  sort_masked r none masks stack = ok (push r masks stack)
  sort_masked r (some m) masks stack = compute_mask m r.bytes r.raster_type >>= λ mask.
      let masks' = put_mask (geo_stamp r) mask masks in
      if m.inclusive then ok (push r masks' stack) else ok (masks', stack)

  unfoldable pub sort_raster : FlexRaster F → MaskMap fl → Stack fl → Result Sorted
  unfolding sort_masked
  sort_raster r masks stack = sort_masked r (own_mask r.namespace r.mask) masks stack

  -- for _, r := range inRasters
  unfoldable pub sort_batch : List (Option (FlexRaster F)) → MaskMap fl → Stack fl → Result Sorted
  sort_batch [] masks stack = ok (masks, stack)
  sort_batch (none ∷ rs) masks stack = sort_batch rs masks stack
  sort_batch (some r ∷ rs) masks stack = sort_raster r masks stack >>= λ s. sort_batch rs s.0 s.1

  unfoldable pub run_batch : List (Option (FlexRaster F)) → CanvasMap F → Result (CanvasMap F)
  run_batch rs canvases = sort_batch rs [] [] >>= λ s.
      if length s.1 == 0
      then ok canvases
      else process_raster_stack fl s.1 s.0 canvases >>= λ out. ok out.0

  -- for inRasters := range enc.In, with what the select finds before each batch.
  unfoldable pub run :
      List (Poll × List (Option (FlexRaster F))) → CanvasMap F → Result (CanvasMap F)
  unfolding run_batch
  run [] canvases = ok canvases
  run ((cancelled, rs) ∷ batches) canvases = err "tile merger: context has been cancel"
  run ((failed e, rs) ∷ batches) canvases = err e
  run ((ready, rs) ∷ batches) canvases = run_batch rs canvases >>= run batches
