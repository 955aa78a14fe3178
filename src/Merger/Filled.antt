-- ===== src/Merger/Filled.antt =====
-- What a cell shows after rasters that are older than its canvas, which fill gaps only, and after
-- others, which replace what is there.
use gsky.Prelude.{
  ◌∙◌, ℕ, ◌≡◌, refl, ap, Bool, true, false, Option, none, some, arith, if◌then◌else◌,
}
use gsky.Merger.Types.{RasterType, sample_eq}
use gsky.Merger.Puts.{through}
use gsky.Merger.Cells.{merged_cell}

abbrev pub or_else : Option ℕ → Option ℕ → Option ℕ
or_else none later = later
or_else (some v) later = some v

abbrev pub or_no_data : Option ℕ → ℕ → ℕ
or_no_data none no_data = no_data
or_no_data (some v) no_data = v

-- What a canvas shows at a cell that is old, after older layers: they fill a gap only.
unfoldable pub filled_cell : RasterType → ℕ → Option ℕ → ℕ → ℕ
filled_cell t no_data none old = old
filled_cell t no_data (some v) old = if sample_eq t old no_data then v else old

-- Nothing replaces what the layer showed.
filled-merged :
    (t : RasterType) (no_data : ℕ) (s later : Option ℕ) (old : ℕ)
    → ((v : ℕ) → s ≡ some v → sample_eq t v no_data ≡ false)
    → filled_cell t no_data later (merged_cell t no_data true s old)
      ≡ filled_cell t no_data (or_else s later) old
unfolding filled_cell merged_cell
filled-merged t no_data none later old h = refl
filled-merged t no_data (some v) none old h = ground arith
filled-merged t no_data (some v) (some w) old h = ground (arith, h v refl)

pub through-merged :
    (t : RasterType) (no_data : ℕ) (s later o : Option ℕ)
    → ((v : ℕ) → s ≡ some v → sample_eq t v no_data ≡ false)
    → through (filled_cell t no_data later) (through (merged_cell t no_data true s) o)
      ≡ through (filled_cell t no_data (or_else s later)) o
through-merged t no_data s later none h = refl
through-merged t no_data s later (some old) h = ap some (filled-merged t no_data s later old h)

pub through-none :
    (t : RasterType) (no_data : ℕ) (o : Option ℕ) → o ≡ through (filled_cell t no_data none) o
unfolding filled_cell
through-none t no_data none = refl
through-none t no_data (some old) = refl

pub merged-newer :
    (t : RasterType) (no_data : ℕ) (s : Option ℕ) (old : ℕ)
    → merged_cell t no_data false s old ≡ or_no_data s old
unfolding merged_cell
merged-newer t no_data none old = refl
merged-newer t no_data (some v) old = refl

pub or_no_data-or_else :
    (later s : Option ℕ) (old : ℕ)
    → or_no_data later (or_no_data s old) ≡ or_no_data (or_else later s) old
or_no_data-or_else none s old = refl
or_no_data-or_else (some v) s old = refl

pub through-replaced :
    (t : RasterType) (no_data : ℕ) (later s o : Option ℕ)
    → through (or_no_data later) (through (merged_cell t no_data false s) o)
      ≡ through (or_no_data (or_else later s)) o
through-replaced t no_data later s none = refl
through-replaced t no_data later s (some old) =
    ap some (ap (or_no_data later) (merged-newer t no_data s old) ∙ or_no_data-or_else later s old)

pub through-id : (o : Option ℕ) → o ≡ through (or_no_data none) o
through-id none = refl
through-id (some old) = refl

-- What is shown is no gap.
abbrev pub IsData : RasterType → ℕ → Option ℕ → Type 0
IsData t no_data s = (v : ℕ) → s ≡ some v → sample_eq t v no_data ≡ false

pub or_else-IsData :
    (t : RasterType) (no_data : ℕ) (s later : Option ℕ)
    → IsData t no_data s
    → IsData t no_data later
    → IsData t no_data (or_else s later)
or_else-IsData t no_data none later h h' = h'
or_else-IsData t no_data (some v) later h h' = h

pub filled-or_no_data :
    (t : RasterType) (no_data : ℕ) (s later : Option ℕ)
    → sample_eq t no_data no_data ≡ true
    → IsData t no_data s
    → filled_cell t no_data later (or_no_data s no_data) ≡ or_no_data (or_else s later) no_data
unfolding filled_cell
filled-or_no_data t no_data none none self h = refl
filled-or_no_data t no_data none (some w) self h = rw self refl
filled-or_no_data t no_data (some v) none self h = refl
filled-or_no_data t no_data (some v) (some w) self h = rw (h v refl) refl

pub merged-blank :
    (t : RasterType) (no_data : ℕ) (older : Bool) (s : Option ℕ)
    → sample_eq t no_data no_data ≡ true
    → merged_cell t no_data older s no_data ≡ or_no_data s no_data
unfolding merged_cell
merged-blank t no_data older none self = refl
merged-blank t no_data true (some v) self = rw self refl
merged-blank t no_data false (some v) self = refl
