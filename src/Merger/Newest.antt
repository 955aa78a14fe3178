-- ===== src/Merger/Newest.antt =====
-- Merging rasters one after another: the newest one that has something to show is seen, and of several
-- that are as new the last.
use gsky.Prelude.{
  ◌++◌, inl, inr, Option-cases, ℕ, ◌+◌, ◌*◌, ◌≤◌, ◌<◌, ◌≡◌, refl, ap, subst, ◌∙◌, Bool, true, false,
  Option, none, some, List, [], ◌∷◌, arith, if◌then◌else◌, length, get_elem?, All, ◌>>=◌,
}
use gsky.Merger.Types.{Float64, FlexRaster, RasterType, words, overlay, sample_eq}
use gsky.Merger.Merge.{merge_into}
use gsky.Merger.Overlay.{words-overlay}
use gsky.Merger.Puts.{through}
use gsky.Merger.Cells.{Fits, shown, merged_cell, merge_samples-cell}
use gsky.Merger.Filled.{
  or_else, or_no_data, filled_cell, through-merged, through-none, merged-blank, through-replaced,
  through-id, IsData, or_else-IsData, filled-or_no_data, or_no_data-or_else,
}

module _ (fl : Float64) where
  open fl use {F, lt, sample}

  abbrev pub Layer : Type 0
  Layer = FlexRaster F × List Bool

  -- Rasters merged into one canvas, each with its mask.
  unfoldable pub merge_layers : List Layer → FlexRaster F → Option (FlexRaster F)
  merge_layers [] canvas = some canvas
  merge_layers ((r, mask) ∷ layers) canvas = merge_into fl r canvas mask >>= merge_layers layers

  -- The sample that the first of the layers with something to show at a cell has there.
  unfoldable pub first_shown : List Layer → ℕ → ℕ → Option ℕ
  first_shown [] y x = none
  first_shown ((r, mask) ∷ layers) y x = or_else (shown fl r mask y x) (first_shown layers y x)

  -- The sample that the last of the layers with something to show at a cell has there.
  unfoldable pub last_shown : List Layer → ℕ → ℕ → Option ℕ
  last_shown [] y x = none
  last_shown ((r, mask) ∷ layers) y x = or_else (last_shown layers y x) (shown fl r mask y x)

  abbrev pub cell : RasterType → ℕ → FlexRaster F → ℕ → ℕ → Option ℕ
  cell t width canvas y x = get_elem? (words t canvas.bytes) (y * width + x)

  module _ (t : RasterType) (no_data width size : ℕ) where
    -- A layer of a canvas of `size` samples in rows of `width`, with its type and no-data value.
    pub record IsLayer (l : Layer) : Type 0 where
      pub same_type : l.0.raster_type ≡ t
      pub same_width : l.0.width ≡ width
      pub same_no_data : sample t l.0.no_data ≡ no_data
      pub columns : l.0.off_x + l.0.data_width ≤ width
      pub rows : (l.0.data_height + l.0.off_y) * width ≤ size
      pub samples : l.0.data_height * l.0.data_width ≤ length (words t l.0.bytes)
      pub masks : l.0.data_height * l.0.data_width ≤ length l.1

    pub record Merged (r : FlexRaster F) (mask : List Bool) (canvas canvas' : FlexRaster F)
        : Type 0 where
      pub time :
          canvas'.time_stamp
          ≡ (if lt r.time_stamp canvas.time_stamp then canvas.time_stamp else r.time_stamp)
      pub same_size : length (words t canvas'.bytes) ≡ size
      pub cells :
          (y x : ℕ)
          → x < width
          → cell t width canvas' y x
            ≡ through
                (merged_cell t no_data (lt r.time_stamp canvas.time_stamp) (shown fl r mask y x))
                (cell t width canvas y x)

  -- The step at the raster's own type, width and no-data value.
  Merged-own :
      (r canvas : FlexRaster F) (mask : List Bool)
      → Fits fl r canvas mask
      → (canvas' : FlexRaster F) × (merge_into fl r canvas mask ≡ some canvas')
        × Merged r.raster_type
            (sample r.raster_type r.no_data)
            r.width
            (length (words r.raster_type canvas.bytes))
            r
            mask
            canvas
            canvas'
  unfolding merge_into
  Merged-own r canvas mask fits =
      let (ws, run, n, all) = merge_samples-cell fl r canvas mask fits in
      let back = words-overlay r.raster_type ws canvas.bytes n in
      (
        record canvas {
          bytes = overlay r.raster_type ws canvas.bytes;
          time_stamp =
              if lt r.time_stamp canvas.time_stamp then canvas.time_stamp else r.time_stamp;
        },
        rw run,
        record {
          time = refl;
          same_size = ap length back ∙ n;
          cells = λ y x q. rw back (all y x q);
        },
      )

  merge_into-Merged :
      (t : RasterType) (no_data width size : ℕ) (r : FlexRaster F) (mask : List Bool)
      (canvas : FlexRaster F)
      → IsLayer t no_data width size (r, mask)
      → length (words t canvas.bytes) ≡ size
      → (canvas' : FlexRaster F) × (merge_into fl r canvas mask ≡ some canvas')
        × Merged t no_data width size r mask canvas canvas'
  merge_into-Merged t no_data width size r mask canvas h e =
      let fits : Fits fl r canvas mask = record {
        columns = omega (arith, h.same_width);
        rows = rw (h.same_width, h.same_type) (omega arith);
        samples = rw h.same_type h.samples;
        masks = h.masks;
      } in
      let (canvas', run, m) = Merged-own r canvas mask fits in
      (
        canvas',
        run,
        subst
            (λ t'.
              sample t' r.no_data ≡ no_data
              → length (words t' canvas.bytes) ≡ size
              → Merged t' no_data width size r mask canvas canvas')
            h.same_type
            (λ e₁ e₂.
              subst (λ n. Merged r.raster_type n width size r mask canvas canvas') e₁
                (subst
                  (λ n.
                    Merged r.raster_type (sample r.raster_type r.no_data) width n r mask canvas
                      canvas')
                  e₂
                  (subst
                    (λ w.
                      Merged r.raster_type (sample r.raster_type r.no_data) w
                        (length (words r.raster_type canvas.bytes)) r mask canvas canvas')
                    h.same_width m)))
            h.same_no_data e,
      )

  -- A sample that is shown is no gap.
  shown-data :
      (r : FlexRaster F) (mask : List Bool) (y x v : ℕ)
      → shown fl r mask y x ≡ some v
      → sample_eq r.raster_type v (sample r.raster_type r.no_data) ≡ false
  unfolding shown
  shown-data r mask y x v h = ground arith

  shown-data_at :
      (t : RasterType) (no_data width size : ℕ) (r : FlexRaster F) (mask : List Bool) (y x v : ℕ)
      → IsLayer t no_data width size (r, mask)
      → shown fl r mask y x ≡ some v
      → sample_eq t v no_data ≡ false
  shown-data_at t no_data width size r mask y x v h e =
      rw (← h.same_no_data, ← h.same_type) (shown-data r mask y x v e)

  module _ (t : RasterType) (no_data width size : ℕ) where
    abbrev pub IsOlder : F → Layer → Type 0
    IsOlder time l = lt l.0.time_stamp time ≡ true

    pub record Filled (layers : List Layer) (canvas canvas' : FlexRaster F) : Type 0 where
      pub time : canvas'.time_stamp ≡ canvas.time_stamp
      pub cells :
          (y x : ℕ)
          → x < width
          → cell t width canvas' y x
            ≡ through (filled_cell t no_data (first_shown layers y x)) (cell t width canvas y x)

    merge_layers-Filled :
        (layers : List Layer) (canvas : FlexRaster F)
        → length (words t canvas.bytes) ≡ size
        → All (IsLayer t no_data width size) layers
        → All (IsOlder canvas.time_stamp) layers
        → (canvas' : FlexRaster F) × (merge_layers layers canvas ≡ some canvas')
          × Filled layers canvas canvas'
    unfolding merge_layers first_shown
    merge_layers-Filled [] canvas e hl ho = (
      canvas,
      refl,
      record { time = refl; cells = λ y x q. through-none t no_data (cell t width canvas y x) },
    )
    merge_layers-Filled ((r, mask) ∷ layers) canvas e (hr, hl) (older, ho) =
        let (middle, run, m) = merge_into-Merged t no_data width size r mask canvas hr e in
        let same_time : middle.time_stamp ≡ canvas.time_stamp = m.time ∙ rw older refl in
        let (canvas', runs, f) =
          merge_layers-Filled layers middle m.same_size hl (rw same_time ho) in
        (
          canvas',
          rw run runs,
          record {
            time = f.time ∙ same_time;
            cells = λ y x q.
                f.cells y x q
                ∙ ap (through (filled_cell t no_data (first_shown layers y x))) (
                    m.cells y x q
                    ∙ ap
                        (λ o.
                          through (merged_cell t no_data o (shown fl r mask y x))
                            (cell t width canvas y x))
                        older)
                ∙ through-merged t no_data (shown fl r mask y x) (first_shown layers y x)
                    (cell t width canvas y x)
                    (λ v e'. shown-data_at t no_data width size r mask y x v hr e');
          },
        )

    -- A layer of the time, which is a number.
    abbrev pub IsSame : F → Layer → Type 0
    IsSame time l = (l.0.time_stamp ≡ time) × (lt time time ≡ false)

    record Replaced (layers : List Layer) (canvas canvas' : FlexRaster F) : Type 0 where
      time : canvas'.time_stamp ≡ canvas.time_stamp
      same_size : length (words t canvas'.bytes) ≡ size
      cells :
          (y x : ℕ)
          → x < width
          → cell t width canvas' y x
            ≡ through (or_no_data (last_shown layers y x)) (cell t width canvas y x)

    merge_layers-Replaced :
        (layers : List Layer) (canvas : FlexRaster F)
        → length (words t canvas.bytes) ≡ size
        → All (IsLayer t no_data width size) layers
        → All (IsSame canvas.time_stamp) layers
        → (canvas' : FlexRaster F) × (merge_layers layers canvas ≡ some canvas')
          × Replaced layers canvas canvas'
    unfolding merge_layers last_shown
    merge_layers-Replaced [] canvas e hl hs = (
      canvas,
      refl,
      record { time = refl; same_size = e; cells = λ y x q. through-id (cell t width canvas y x) },
    )
    merge_layers-Replaced ((r, mask) ∷ layers) canvas e (hr, hl) ((same, number), hs) =
        let (middle, run, m) = merge_into-Merged t no_data width size r mask canvas hr e in
        let newer : lt r.time_stamp canvas.time_stamp ≡ false = rw same number in
        let same_time : middle.time_stamp ≡ canvas.time_stamp = m.time ∙ rw newer same in
        let (canvas', runs, f) =
          merge_layers-Replaced layers middle m.same_size hl (rw same_time hs) in
        (
          canvas',
          rw run runs,
          record {
            time = f.time ∙ same_time;
            same_size = f.same_size;
            cells = λ y x q.
                f.cells y x q
                ∙ ap (through (or_no_data (last_shown layers y x))) (
                    m.cells y x q
                    ∙ ap
                        (λ o.
                          through (merged_cell t no_data o (shown fl r mask y x))
                            (cell t width canvas y x))
                        newer)
                ∙ through-replaced t no_data (last_shown layers y x) (shown fl r mask y x)
                    (cell t width canvas y x);
          },
        )

    last_shown-IsData :
        (layers : List Layer) (y x : ℕ)
        → All (IsLayer t no_data width size) layers
        → IsData t no_data (last_shown layers y x)
    unfolding last_shown
    last_shown-IsData [] y x h = λ v e. absurd (cc)
    last_shown-IsData ((r, mask) ∷ layers) y x (hr, h) =
        or_else-IsData t no_data (last_shown layers y x) (shown fl r mask y x)
          (last_shown-IsData layers y x h)
          (λ v e. shown-data_at t no_data width size r mask y x v hr e)

    merge_layers-append :
        (xs ys : List Layer) (c c₁ c₂ : FlexRaster F)
        → merge_layers xs c ≡ some c₁
        → merge_layers ys c₁ ≡ some c₂
        → merge_layers (xs ++ ys) c ≡ some c₂
    unfolding merge_layers
    merge_layers-append [] ys c c₁ c₂ e e' = let same : c ≡ c₁ = cc in rw same e'
    merge_layers-append ((r, mask) ∷ xs) ys c c₁ c₂ e e' =
        elim (Option-cases (merge_into fl r c mask)) [
          | inl bad ↦ (let e₁ = rw bad at e in absurd (cc))
          | inr (middle, good) ↦ rw good (merge_layers-append xs ys middle c₁ c₂ (rw good at e) e')
        ]

    -- The time of a canvas after a raster was merged into it.
    abbrev pub time_after : Layer → FlexRaster F → F
    time_after l canvas =
        if lt l.0.time_stamp canvas.time_stamp then canvas.time_stamp else l.0.time_stamp

    -- Layers merged into a blank canvas, first those of the time that the canvas has after the first
    -- of them, and then older ones: every cell shows the sample of the last layer of that time that
    -- has one to show there, where none has, that of the first older one that has, and else no data.
    -- The no-data sample has to equal itself, so it is no NaN.
    pub merge_layers-newest :
        (l : Layer) (newest olders : List Layer) (canvas : FlexRaster F)
        → length (words t canvas.bytes) ≡ size
        → sample_eq t no_data no_data ≡ true
        → ((y x : ℕ) → x < width → y * width + x < size → cell t width canvas y x ≡ some no_data)
        → All (IsLayer t no_data width size) (l ∷ newest)
        → All (IsLayer t no_data width size) olders
        → All (IsSame (time_after l canvas)) newest
        → All (IsOlder (time_after l canvas)) olders
        → (canvas' : FlexRaster F) × (merge_layers (l ∷ (newest ++ olders)) canvas ≡ some canvas')
          × ((y x : ℕ)
              → x < width
              → y * width + x < size
              → cell t width canvas' y x
                ≡ some (
                    or_no_data
                      (or_else (last_shown (l ∷ newest) y x) (first_shown olders y x))
                      no_data))
    unfolding merge_layers last_shown
    merge_layers-newest (r, mask) newest olders canvas e self blank (hr, hn) hl hs ho =
        let (first, run, m) = merge_into-Merged t no_data width size r mask canvas hr e in
        let (middle, run₁, f) = merge_layers-Replaced newest first m.same_size hn (rw m.time hs) in
        let (canvas', run₂, g) =
          merge_layers-Filled olders middle f.same_size hl (rw (f.time, m.time) ho) in
        (
          canvas',
          rw run (merge_layers-append newest olders first middle canvas' run₁ run₂),
          λ y x q inside.
              let s = shown fl r mask y x in
              let later = last_shown newest y x in
              g.cells y x q
              ∙ ap (through (filled_cell t no_data (first_shown olders y x))) (
                  f.cells y x q
                  ∙ ap (through (or_no_data later)) (
                      m.cells y x q
                      ∙ ap (through (merged_cell t no_data (lt r.time_stamp canvas.time_stamp) s))
                          (blank y x q inside)
                      ∙ ap some (merged-blank t no_data (lt r.time_stamp canvas.time_stamp) s self))
                  ∙ ap some (or_no_data-or_else later s no_data))
              ∙ ap some (
                  filled-or_no_data t no_data (or_else later s) (first_shown olders y x) self (
                    or_else-IsData t no_data later s (last_shown-IsData newest y x hn)
                      (λ v e'. shown-data_at t no_data width size r mask y x v hr e'))),
        )
