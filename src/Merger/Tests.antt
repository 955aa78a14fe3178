-- ===== src/Merger/Tests.antt =====
-- Small rasters of two by two samples, merged into one canvas.
use gsky.Prelude.{
  ℕ, ◌+◌, ◌*◌, ◌<◌, ◌≡◌, ◌≢◌, refl, Bool, true, false, some, List, [], ◌∷◌, arith, ltb, Bool,
  replicate, length, get_elem?,
}
use gsky.Prelude.Result.{ok}
use gsky.Merger.Types.{FlexRaster, byte, other, int16, words, words2, sample_eq}
use gsky.Merger.Merge.{merge_samples}
use gsky.Merger.Puts.{through}
use gsky.Merger.Cells.{Fits, shown, merged_cell, merge_samples-cell}
use gsky.Merger.Newest.{Layer, IsLayer, first_shown, last_shown, cell}
use gsky.Merger.Filled.{or_else, or_no_data}
use gsky.Merger.Stack.{
  Stack, rasters_at, mask_at, delete_at, sort_keys, new_canvas, process_raster_stack,
}
use gsky.Merger.Keys.{}
use gsky.Merger.Overlay.{}
use gsky.Merger.Order.{key_layers, group_layers, process_raster_stack-newest}
use gsky.Merger.Samples.{whole, raster, newer, older}

abbrev canvas : FlexRaster ℕ
canvas = record newer { bytes = 9 ∷ 9 ∷ 9 ∷ 9 ∷ []; time_stamp = 0 }

abbrev no_mask : List Bool
no_mask = replicate 4 false

-- A second raster of the newest time, whose first sample is data.
abbrev as_new : FlexRaster ℕ
as_new = raster 5 (4 ∷ 9 ∷ [])

abbrev batch : Stack whole
batch = (3, older ∷ []) ∷ (5, newer ∷ as_new ∷ []) ∷ []

merges_newer : merge_samples whole newer canvas no_mask ≡ some (9 ∷ 1 ∷ 9 ∷ 9 ∷ [])
unfolding merge_samples words sample_eq
merges_newer = refl

sorts_newest_first : sort_keys whole (3 ∷ 5 ∷ 4 ∷ []) ≡ 5 ∷ 4 ∷ 3 ∷ []
unfolding sort_keys
sorts_newest_first = refl

one_word : 1 ≡ length (words int16 (0 ∷ 0 ∷ 7 ∷ []))
unfolding words words2
one_word = refl

fits : Fits whole newer canvas no_mask
unfolding words
fits = record {
  columns = omega arith;
  rows = omega arith;
  samples = omega arith;
  masks = omega arith;
}

merge_samples-cell_example :
    (ws : List ℕ) × (merge_samples whole newer canvas no_mask ≡ some ws)
    × (length ws ≡ length (words byte canvas.bytes))
    × ((y x : ℕ)
        → x < 2
        → get_elem? ws (y * 2 + x)
          ≡ through
              (merged_cell byte 9 false (shown whole newer no_mask y x))
              (get_elem? (words byte canvas.bytes) (y * 2 + x)))
merge_samples-cell_example = merge_samples-cell whole newer canvas no_mask fits

abbrev layers : List (Layer whole)
layers = (newer, no_mask) ∷ (as_new, no_mask) ∷ (older, no_mask) ∷ []

is_layer : (time : ℕ) (a b : ℕ) → IsLayer whole byte 9 2 4 (raster time (a ∷ b ∷ []), no_mask)
unfolding words
is_layer time a b = record {
  same_type = refl;
  same_width = refl;
  same_no_data = refl;
  columns = omega arith;
  rows = omega arith;
  samples = omega arith;
  masks = omega arith;
}

same_key : sample_eq byte 9 9 ≡ true
unfolding sample_eq
same_key = refl

newest_first : key_layers whole (sort_keys whole (3 ∷ 5 ∷ [])) batch [] ≡ layers
unfolding key_layers sort_keys rasters_at mask_at delete_at group_layers
newest_first = refl

byte-other : byte ≢ other
byte-other e = ground arith

process_raster_stack-newest_example :
    (canvas' : FlexRaster ℕ) × (rest : Stack whole) × (process_raster_stack whole batch [] []
      ≡ ok (("b1", canvas') ∷ [], rest))
    × ((y x : ℕ)
        → x < 2
        → y * 2 + x < 4
        → cell whole byte 2 canvas' y x
          ≡ some (
              or_no_data
                (or_else
                  (last_shown whole ((newer, no_mask) ∷ (as_new, no_mask) ∷ []) y x)
                  (first_shown whole ((older, no_mask) ∷ []) y x))
                9))
unfolding new_canvas
process_raster_stack-newest_example =
    process_raster_stack-newest whole byte 9 2 4 "b1" batch [] (newer, no_mask)
      ((as_new, no_mask) ∷ []) ((older, no_mask) ∷ []) newest_first refl same_key
      ((refl, byte-other), ((refl, byte-other), ((refl, byte-other), record {})))
      (is_layer 5 1 9, (is_layer 5 4 9, record {})) (is_layer 3 7 8, record {})
      ((refl, refl), record {}) (older_stamp, record {})
  where
    older_stamp : ltb 3 5 ≡ true
    older_stamp = refl

ltb_trans : (a b c : ℕ) → ltb a b ≡ true → ltb b c ≡ true → ltb a c ≡ true
ltb_trans a b c h h' = ground arith

ltb_asym : (a b : ℕ) → ltb a b ≡ true → ltb b a ≡ false
ltb_asym a b h = ground arith
