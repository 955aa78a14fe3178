-- ===== src/Merger/Cells.antt =====
-- A merge as a whole: each cell of the canvas after `MergeMaskedRaster`.
use gsky.Prelude.{
  ℕ, ◌+◌, ◌-◌, ◌*◌, ◌≤◌, ◌<◌, ◌≡◌, refl, sym, ap, fun_ext, ◌∙◌, ◌⊎◌, inl, inr, Bool, Bool-cases,
  true, false, not, ◌&&◌, ◌||◌, Option, none, some, List, arith, ltb, leb, if◌then◌else◌, length,
  get_elem?, get_or,
}
use gsky.Merger.Types.{Float64, FlexRaster, RasterType, words, sample_eq}
use gsky.Merger.Merge.{merge_samples}
use gsky.Merger.Pixels.{Block, merge_rows-Block}
use gsky.Merger.Puts.{merged_pixel, through, put_pixel-Puts}

-- What becomes of a cell of the canvas that is old, where a raster shows something or nothing; a
-- raster older than the canvas only fills gaps.
unfoldable pub merged_cell : RasterType → ℕ → Bool → Option ℕ → ℕ → ℕ
merged_cell t no_data older none old = old
merged_cell t no_data older (some val) old =
    if older && not (sample_eq t old no_data) then old else val

module _ (fl : Float64) where
  open fl use {F, lt, sample}

  -- The raster lies within a canvas of its size, and the mask and the samples cover it.
  pub record Fits (r canvas : FlexRaster F) (mask : List Bool) : Type 0 where
    pub columns : r.off_x + r.data_width ≤ r.width
    pub rows : (r.data_height + r.off_y) * r.width ≤ length (words r.raster_type canvas.bytes)
    pub samples : r.data_height * r.data_width ≤ length (words r.raster_type r.bytes)
    pub masks : r.data_height * r.data_width ≤ length mask

  abbrev pub covers : FlexRaster F → ℕ → ℕ → Bool
  covers r y x =
      leb r.off_y y
      && ltb y (r.off_y + r.data_height)
      && (leb r.off_x x && ltb x (r.off_x + r.data_width))

  -- What the raster has to show at a cell: its sample there, unless that is no data or masked.
  unfoldable pub shown : FlexRaster F → List Bool → ℕ → ℕ → Option ℕ
  shown r mask y x =
      let i : ℕ = (y - r.off_y) * r.data_width + (x - r.off_x) in
      let val : ℕ = get_or (words r.raster_type r.bytes) i 0 in
      if covers r y x
        && not (sample_eq r.raster_type val (sample r.raster_type r.no_data) || get_or mask i false)
      then some val
      else none

  module _ (r canvas : FlexRaster F) (mask : List Bool) (fits : Fits r canvas mask) where
    abbrev older : Bool
    older = lt r.time_stamp canvas.time_stamp

    abbrev pixel : ℕ → ℕ → ℕ
    pixel i old =
        merged_pixel (sample_eq r.raster_type) older (sample r.raster_type r.no_data)
          (get_or (words r.raster_type r.bytes) i 0) (get_or mask i false) old

    samples-Block :
        (ws : List ℕ) × (merge_samples fl r canvas mask ≡ some ws)
        × Block pixel r.width r.off_x r.off_y r.data_width r.data_height 0 0
            (words r.raster_type canvas.bytes)
            ws
    unfolding merge_samples
    samples-Block =
        merge_rows-Block _ pixel (r.data_height * r.data_width)
          (put_pixel-Puts (sample_eq r.raster_type) older (sample r.raster_type r.no_data)
            (words r.raster_type r.bytes) mask (r.data_height * r.data_width) fits.samples
            fits.masks)
          r.width r.off_x r.off_y r.data_width r.data_height 0 0 (words r.raster_type canvas.bytes)
          fits.columns (omega (arith, fits.rows)) (omega arith)

    cell-outside :
        (y x old : ℕ)
        → covers r y x ≡ false
        → merged_cell r.raster_type (sample r.raster_type r.no_data) older (shown r mask y x) old
          ≡ old
    unfolding shown merged_cell
    cell-outside y x old h = rw h

    cell-inside :
        (y x old : ℕ)
        → covers r y x ≡ true
        → merged_cell r.raster_type (sample r.raster_type r.no_data) older (shown r mask y x) old
          ≡ pixel ((y - r.off_y) * r.data_width + (x - r.off_x)) old
    unfolding shown merged_cell merged_pixel
    cell-inside y x old h = rw h (ground arith)

    not_covers :
        (y x : ℕ)
        → covers r y x ≡ false
        → (y < r.off_y)
          ⊎ (r.data_height + r.off_y ≤ y)
          ⊎ (x < r.off_x)
          ⊎ (r.off_x + r.data_width ≤ x)
    not_covers y x h = ground arith

    is_covered :
        (y x : ℕ)
        → covers r y x ≡ true
        → (r.off_y ≤ y)
          × (y < r.off_y + r.data_height)
          × (r.off_x ≤ x)
          × (x < r.off_x + r.data_width)
    is_covered y x h = ground arith

    Block-cell :
        (ws : List ℕ) (y x : ℕ)
        → Block pixel r.width r.off_x r.off_y r.data_width r.data_height 0 0
            (words r.raster_type canvas.bytes)
            ws
        → x < r.width
        → get_elem? ws (y * r.width + x)
          ≡ through
              (merged_cell r.raster_type (sample r.raster_type r.no_data) older (shown r mask y x))
              (get_elem? (words r.raster_type canvas.bytes) (y * r.width + x))
    Block-cell ws y x b lt = elim (Bool-cases (covers r y x)) [
      | inl h ↦
          let (top, bottom, left, right) = is_covered y x h in
          let j : ℕ = y - r.off_y in
          let k : ℕ = x - r.off_x in
          let row : 0 + j + r.off_y ≡ y = omega arith in
          let cell : (0 + j + r.off_y) * r.width + r.off_x + k ≡ y * r.width + x =
            rw row (omega arith) in
          let e : 0 + (j * r.data_width + k) ≡ j * r.data_width + k = omega arith in
          rw (fun_ext (λ old. cell-inside y x old h), ← cell, ← e)
            (b.inside j k (omega arith) (omega arith))
      | inr h ↦
          b.outside y x lt (ground (arith, not_covers y x h))
          ∙ unchanged (get_elem? (words r.raster_type canvas.bytes) (y * r.width + x))
              (λ old. cell-outside y x old h)
    ]
      where
        unchanged :
            (o : Option ℕ)
            → ((old : ℕ)
                → merged_cell r.raster_type
                    (sample r.raster_type r.no_data)
                    older
                    (shown r mask y x)
                    old
                  ≡ old)
            → o
              ≡ through
                  (merged_cell r.raster_type
                    (sample r.raster_type r.no_data)
                    older
                    (shown r mask y x))
                  o
        unchanged none h = refl
        unchanged (some old) h = ap some (sym (h old))

    -- A raster that fits is merged with no index out of range. Every cell of the canvas then shows
    -- what it showed before, but where the raster covers the cell with a sample that is neither no
    -- data nor masked: that sample replaces it, unless the raster is older than the canvas and the
    -- cell showed data.
    pub merge_samples-cell :
        (ws : List ℕ) × (merge_samples fl r canvas mask ≡ some ws)
        × (length ws ≡ length (words r.raster_type canvas.bytes))
        × ((y x : ℕ)
            → x < r.width
            → get_elem? ws (y * r.width + x)
              ≡ through
                  (merged_cell r.raster_type
                    (sample r.raster_type r.no_data)
                    older
                    (shown r mask y x))
                  (get_elem? (words r.raster_type canvas.bytes) (y * r.width + x)))
    merge_samples-cell =
        let (ws, run, b) = samples-Block in
        (ws, run, b.same_length, λ y x lt. Block-cell ws y x b lt)
