-- ===== src/Merger/Pixels.antt =====
-- The loops of `MergeMaskedRaster`, pixel by pixel.
use native.Mathlib.Nat.{add-zero, mul-le-mul_right}
use native.Mathlib.Decide.{dec_lt}
use gsky.Prelude.{
  get_elem?-lt, ℕ, zero, suc, ◌+◌, ◌*◌, ◌≤◌, ◌<◌, ◌≡◌, refl, sym, ap, ◌∙◌, ◌⊎◌, inl, inr, Option,
  some, List, arith, length, get_elem?, get_elem?-some, set, length-set, get_elem?-set_self,
  get_elem?-set_ne,
}
use gsky.Merger.Merge.{merge_row, merge_rows}
use gsky.Merger.Puts.{through, Puts}

-- canvas' is canvas but for n pixels from lo on, of which the k-th went through f (src + k).
pub record Updated (lo n : ℕ) (f : ℕ → ℕ → ℕ) (src : ℕ) (canvas canvas' : List ℕ) : Type 0 where
  pub same_length : length canvas' ≡ length canvas
  pub inside :
      (k : ℕ)
      → k < n
      → get_elem? canvas' (lo + k) ≡ through (f (src + k)) (get_elem? canvas (lo + k))
  pub outside : (p : ℕ) → (p < lo) ⊎ (lo + n ≤ p) → get_elem? canvas' p ≡ get_elem? canvas p

Updated-cons :
    (lo n : ℕ) (f : ℕ → ℕ → ℕ) (src : ℕ) (canvas canvas' : List ℕ) (v : ℕ)
    → get_elem? canvas lo ≡ some v
    → Updated (lo + 1) n f (src + 1) (set canvas lo (f src v)) canvas'
    → Updated lo (suc n) f src canvas canvas'
Updated-cons lo n f src canvas canvas' v here rest = record {
  same_length = rest.same_length ∙ length-set canvas lo (f src v);
  inside = inside;
  outside = λ p h.
      rest.outside p (omega arith)
      ∙ get_elem?-set_ne canvas {i = lo} {j = p} (f src v) (omega arith);
}
  where
    inside :
        (k : ℕ)
        → k < suc n
        → get_elem? canvas' (lo + k) ≡ through (f (src + k)) (get_elem? canvas (lo + k))
    inside zero h =
        rw (add-zero, add-zero, here)
          (rest.outside lo (omega arith)
            ∙ get_elem?-set_self canvas lo (f src v) (get_elem?-lt canvas lo v here))
    inside (suc k) h =
        let e : lo + suc k ≡ lo + 1 + k = omega arith in
        let e' : src + suc k ≡ src + 1 + k = omega arith in
        rw (e, e')
          (rest.inside k (omega arith)
            ∙ ap (through (f (src + 1 + k)))
                (get_elem?-set_ne canvas {i = lo} {j = lo + 1 + k} (f src v) (omega arith)))

-- canvas' is canvas but for the rows from ir on and the columns of a raster, at its offset.
pub record Block (f : ℕ → ℕ → ℕ) (width off_x off_y data_width n ir src : ℕ)
    (canvas canvas' : List ℕ) : Type 0 where
  pub same_length : length canvas' ≡ length canvas
  pub inside :
      (j k : ℕ)
      → j < n
      → k < data_width
      → get_elem? canvas' ((ir + j + off_y) * width + off_x + k)
        ≡ through
            (f (src + (j * data_width + k)))
            (get_elem? canvas ((ir + j + off_y) * width + off_x + k))
  pub outside :
      (y x : ℕ)
      → x < width
      → (y < ir + off_y) ⊎ (ir + n + off_y ≤ y) ⊎ (x < off_x) ⊎ (off_x + data_width ≤ x)
      → get_elem? canvas' (y * width + x) ≡ get_elem? canvas (y * width + x)

-- A cell of the canvas that is in another row, or in no column of the raster, is none of a row's.
cell_apart :
    (width off_x data_width row y x : ℕ)
    → off_x + data_width ≤ width
    → x < width
    → (y < row) ⊎ (row < y) ⊎ (x < off_x) ⊎ (off_x + data_width ≤ x)
    → (y * width + x < row * width + off_x) ⊎ (row * width + off_x + data_width ≤ y * width + x)
cell_apart width off_x data_width row y x fits lt h = elim (dec_lt y row) [
  | yes below ↦ inl (omega (arith, mul-le-mul_right width below))
  | no reached ↦ elim (dec_lt row y) [
    | yes above ↦ inr (omega (arith, mul-le-mul_right width above))
    | no same ↦ let e : y ≡ row = omega arith in omega (arith, ap (λ r. r * width) e)
  ]
]

Block-cons :
    (f : ℕ → ℕ → ℕ) (width off_x off_y data_width n ir src : ℕ) (canvas middle canvas' : List ℕ)
    → off_x + data_width ≤ width
    → Updated ((ir + off_y) * width + off_x) data_width f src canvas middle
    → Block f width off_x off_y data_width n (ir + 1) (src + data_width) middle canvas'
    → Block f width off_x off_y data_width (suc n) ir src canvas canvas'
Block-cons f width off_x off_y data_width n ir src canvas middle canvas' fits first rest = record {
  same_length = rest.same_length ∙ first.same_length;
  inside = inside;
  outside = λ y x lt h.
      rest.outside y x lt (omega arith)
      ∙ first.outside (y * width + x)
          (cell_apart width off_x data_width (ir + off_y) y x fits lt (omega arith));
}
  where
    inside :
        (j k : ℕ)
        → j < suc n
        → k < data_width
        → get_elem? canvas' ((ir + j + off_y) * width + off_x + k)
          ≡ through
              (f (src + (j * data_width + k)))
              (get_elem? canvas ((ir + j + off_y) * width + off_x + k))
    inside zero k lt h =
        let row : (ir + 0 + off_y) * width + off_x + k ≡ (ir + off_y) * width + off_x + k =
          omega arith in
        let at : src + (0 * data_width + k) ≡ src + k = omega arith in
        let cell : (ir + off_y) * width + off_x + k ≡ (ir + off_y) * width + (off_x + k) =
          omega arith in
        rw (row, at)
          (ap (get_elem? canvas') cell
            ∙ rest.outside (ir + off_y) (off_x + k) (omega arith) (omega arith)
            ∙ ap (get_elem? middle) (sym cell)
            ∙ first.inside k h)
    inside (suc j) k lt h =
        let row : (ir + suc j + off_y) * width + off_x + k
            ≡ (ir + 1 + j + off_y) * width + off_x + k =
          omega arith in
        let at : src + (suc j * data_width + k) ≡ src + data_width + (j * data_width + k) =
          omega arith in
        let cell : (ir + 1 + j + off_y) * width + off_x + k
            ≡ (ir + 1 + j + off_y) * width + (off_x + k) =
          omega arith in
        rw (row, at)
          (rest.inside j k (omega arith) h
            ∙ ap (through (f (src + data_width + (j * data_width + k)))) (
                ap (get_elem? middle) cell
                ∙ first.outside ((ir + 1 + j + off_y) * width + (off_x + k)) (
                    cell_apart width off_x data_width (ir + off_y) (ir + 1 + j + off_y) (off_x + k)
                      fits (omega arith) (omega arith))
                ∙ ap (get_elem? canvas) (sym cell)))

module _ (put : ℕ → ℕ → List ℕ → Option (List ℕ)) (f : ℕ → ℕ → ℕ) (n_src : ℕ)
    (puts : Puts put f n_src) where
  -- A row of the raster goes through f, from its first pixel at lo on.
  merge_row-Updated :
      (row off_x n ic i_src lo : ℕ) (canvas : List ℕ)
      → lo ≡ row + ic + off_x
      → lo + n ≤ length canvas
      → i_src + n ≤ n_src
      → (canvas' : List ℕ) × (merge_row put row off_x n ic i_src canvas ≡ some (canvas', i_src + n))
        × Updated lo n f i_src canvas canvas'
  unfolding merge_row
  merge_row-Updated row off_x zero ic i_src lo canvas e fits enough = (
    canvas,
    rw add-zero,
    record { same_length = refl; inside = λ k h. elim h [ ]; outside = λ p h. refl },
  )
  merge_row-Updated row off_x (suc n) ic i_src lo canvas e fits enough =
      let (old, here) = get_elem?-some canvas lo (omega arith) in
      let (canvas', run, rest) =
        merge_row-Updated row off_x n (ic + 1) (i_src + 1) (lo + 1) (set canvas lo (f i_src old))
          (omega arith) (omega (arith, length-set canvas lo (f i_src old))) (omega arith) in
      let next : i_src + 1 + n ≡ i_src + suc n = omega arith in
      (
        canvas',
        rw (← e, puts i_src lo canvas old (omega arith) here, ← next) run,
        Updated-cons lo n f i_src canvas canvas' old here rest,
      )

  pub merge_rows-Block :
      (width off_x off_y data_width n ir src : ℕ) (canvas : List ℕ)
      → off_x + data_width ≤ width
      → (ir + n + off_y) * width ≤ length canvas
      → src + n * data_width ≤ n_src
      → (canvas' : List ℕ) × (merge_rows put width off_x off_y data_width n ir src canvas
          ≡ some canvas')
        × Block f width off_x off_y data_width n ir src canvas canvas'
  unfolding merge_rows
  merge_rows-Block width off_x off_y data_width zero ir src canvas cols fits enough = (
    canvas,
    refl,
    record { same_length = refl; inside = λ j k h. elim h [ ]; outside = λ y x lt h. refl },
  )
  merge_rows-Block width off_x off_y data_width (suc n) ir src canvas cols fits enough =
      let (middle, run, first) =
        merge_row-Updated ((ir + off_y) * width) off_x data_width 0 src
          ((ir + off_y) * width + off_x) canvas (omega arith) (omega arith) (omega arith) in
      let (canvas', runs, rest) =
        merge_rows-Block width off_x off_y data_width n (ir + 1) (src + data_width) middle cols
          (omega (arith, first.same_length)) (omega arith) in
      (
        canvas',
        rw run runs,
        Block-cons f width off_x off_y data_width n ir src canvas middle canvas' cols first rest,
      )
