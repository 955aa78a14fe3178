-- ===== src/Merger/Merge.antt =====
-- `MergeMaskedRaster` and `initNoDataSlice` of processor/tile_merger.go. The five typed cases of
-- each have one body, which is written here once over the type.
use gsky.Prelude.{
  ℕ, zero, suc, ◌+◌, ◌*◌, ◌%◌, ◌/◌, Bool, Option, none, some, List, [], ◌∷◌, ◌++◌, String,
  if◌then◌else◌, get_elem?, write, ◌>>=◌, Bytes,
}
use gsky.Prelude.Result.{Result, err, or_panic}
use gsky.Merger.Types.{
  RasterType, int16, uint16, float32, other, Float64, FlexRaster, words, overlay, sample_eq,
}
use text.Mathlib.Text.{◌==◌ as str_eq}

-- The test of an older raster: only a gap of the canvas is filled.
unfoldable pub fill_gap : (ℕ → ℕ → Bool) → ℕ → ℕ → ℕ → List ℕ → Option (List ℕ)
fill_gap same no_data val i_dst canvas = do
  old ← get_elem? canvas i_dst
  if same old no_data then write canvas i_dst val else some canvas

-- One round of the inner loop, at iSrc and iDst, where `same` is == on the samples.
-- `none` is an index out of range.
unfoldable pub put_pixel :
    (ℕ → ℕ → Bool) → Bool → ℕ → List ℕ → List Bool → ℕ → ℕ → List ℕ → Option (List ℕ)
unfolding fill_gap
put_pixel same older no_data samples mask i_src i_dst canvas = do
  val ← get_elem? samples i_src
  if same val no_data then some canvas else do
    masked ← get_elem? mask i_src
    if masked
        then some canvas
        else if older
        then fill_gap same no_data val i_dst canvas
        else write canvas i_dst val

-- for ic := ...: n rounds left, where `row` is (ir+r.OffY)*r.Width. It returns iSrc too.
unfoldable pub merge_row :
    (ℕ → ℕ → List ℕ → Option (List ℕ)) → (row off_x n ic i_src : ℕ) → List ℕ → Option (List ℕ × ℕ)
merge_row put row off_x zero ic i_src canvas = some (canvas, i_src)
merge_row put row off_x (suc n) ic i_src canvas =
    put i_src (row + ic + off_x) canvas >>= merge_row put row off_x n (ic + 1) (i_src + 1)

-- for ir := ...: n rounds left.
unfoldable pub merge_rows :
    (ℕ → ℕ → List ℕ → Option (List ℕ))
    → (width off_x off_y data_width n ir i_src : ℕ) → List ℕ
    → Option (List ℕ)
merge_rows put width off_x off_y data_width zero ir i_src canvas = some canvas
merge_rows put width off_x off_y data_width (suc n) ir i_src canvas =
    merge_row put ((ir + off_y) * width) off_x data_width 0 i_src canvas >>= λ s.
    merge_rows put width off_x off_y data_width n (ir + 1) s.1 s.0

-- canvasMap, by namespace. Its entries are pointers: each namespace has its own canvas.
abbrev pub CanvasMap : Type 0 → Type 0
CanvasMap F = List (String × FlexRaster F)

module _ {F : Type 0} where
  unfoldable pub find_canvas : String → CanvasMap F → Option (FlexRaster F)
  find_canvas ns [] = none
  find_canvas ns ((k, c) ∷ m) = if str_eq k ns then some c else find_canvas ns m

  unfoldable pub set_canvas : String → FlexRaster F → CanvasMap F → CanvasMap F
  set_canvas ns canvas [] = (ns, canvas) ∷ []
  set_canvas ns canvas ((k, c) ∷ m) =
      if str_eq k ns then (k, canvas) ∷ m else (k, c) ∷ set_canvas ns canvas m

-- make([]T, size) with every sample set, as bytes
unfoldable pub sample_bytes : RasterType → ℕ → Bytes
sample_bytes int16 w = w % 256 ∷ w / 256 ∷ []
sample_bytes uint16 w = w % 256 ∷ w / 256 ∷ []
sample_bytes float32 w = w % 256 ∷ w / 256 % 256 ∷ w / 65536 % 256 ∷ w / 16777216 ∷ []
sample_bytes _ w = w ∷ []

unfoldable pub fill_bytes : RasterType → ℕ → ℕ → Bytes
unfolding sample_bytes
fill_bytes t w zero = []
fill_bytes t w (suc n) = sample_bytes t w ++ fill_bytes t w n

module _ (fl : Float64) where
  open fl use {F, lt, sample}

  unfoldable pub init_no_data_slice : RasterType → F → ℕ → Bytes
  unfolding fill_bytes
  init_no_data_slice other no_data size = []
  init_no_data_slice t no_data size = fill_bytes t (sample t no_data) size

  -- The samples of the canvas after the loops over the raster.
  unfoldable pub merge_samples : FlexRaster F → FlexRaster F → List Bool → Option (List ℕ)
  unfolding put_pixel merge_row merge_rows
  merge_samples r canvas mask =
      let t = r.raster_type in
      merge_rows
        (put_pixel (sample_eq t) (lt r.time_stamp canvas.time_stamp) (sample t r.no_data)
          (words t r.bytes) mask)
        r.width r.off_x r.off_y r.data_width r.data_height 0 0 (words t canvas.bytes)

  -- The samples are written to the canvas's own bytes, and it takes the time of a raster that is
  -- not older.
  unfoldable pub merge_into : FlexRaster F → FlexRaster F → List Bool → Option (FlexRaster F)
  unfolding merge_samples
  merge_into r canvas mask = do
    ws ← merge_samples r canvas mask
    some (record canvas {
      bytes = overlay r.raster_type ws canvas.bytes;
      time_stamp = if lt r.time_stamp canvas.time_stamp then canvas.time_stamp else r.time_stamp;
    })

  -- A namespace with no canvas is a nil pointer.
  unfoldable pub merge_typed : FlexRaster F → CanvasMap F → List Bool → Result (CanvasMap F)
  unfolding merge_into
  merge_typed r canvases mask = or_panic (do
    canvas ← find_canvas r.namespace canvases
    canvas' ← merge_into r canvas mask
    some (set_canvas r.namespace canvas' canvases))

  -- The switch on the type, whose default is an error.
  unfoldable pub by_type : RasterType → Result (CanvasMap F) → Result (CanvasMap F)
  by_type other merged = err "MergeMaskedRaster hasn't been implemented for this raster type"
  by_type _ merged = merged

  unfoldable pub merge_masked_raster : FlexRaster F → CanvasMap F → List Bool → Result (CanvasMap F)
  unfolding merge_typed by_type
  merge_masked_raster r canvases mask =
      let merged = merge_typed r canvases mask in by_type r.raster_type merged
