-- ===== src/Merger/MaskTests.antt =====
-- Masks in binary digits over a few samples, and a batch that is sorted.
use gsky.Prelude.{ℕ, ◌^◌, ◌<◌, ◌≡◌, refl, true, false, none, some, [], ◌∷◌, arith, map, codes, ◌==◌}
use gsky.Prelude.Result.{ok}
use gsky.Merger.Types.{FlexRaster, byte, Mask, words}
use gsky.Merger.Mask.{bits, parse_int, compute_mask}
use gsky.Merger.Masking.{Binary, text, value, shares, compute_mask-value}
use gsky.Merger.Stack.{Stack, MaskMap, rasters_at}
use gsky.Merger.Run.{sort_batch, fnv32a, geo_stamp}
use gsky.Merger.Sorting.{stamped, sort_batch-stamped}
use gsky.Merger.Samples.{whole, newer, older}

abbrev five : Binary
five = (true, false ∷ true ∷ [])

reads_digits : codes "101" ≡ text five
reads_digits = refl

-- Eight digits with the top bit set are read as 127.
saturates : parse_int 8 (codes "10000001") ≡ 127
unfolding parse_int
saturates = refl

hash_of_a : fnv32a 2166136261 (codes "a") ≡ 3826002220
unfolding fnv32a
hash_of_a = refl

abbrev tested : Mask
tested = record {
  id = "m";
  value = [];
  inclusive = false;
  bit_tests = codes "101" ∷ codes "101" ∷ [];
}

abbrev valued : Mask
valued = record tested { value = codes "101" }

five_fits : value five < 2 ^ bits byte
unfolding bits
five_fits = omega arith

compute_mask-value_example :
    compute_mask valued (4 ∷ 2 ∷ []) byte
    ≡ ok (map (λ val. shares (bits byte) val (value five)) (words byte (4 ∷ 2 ∷ [])))
compute_mask-value_example = compute_mask-value valued (4 ∷ 2 ∷ []) byte five refl refl five_fits

==_sym : (a b : ℕ) → (a == b) ≡ true → (b == a) ≡ true
==_sym a b h = ground arith

==_trans : (a b c : ℕ) → (a == b) ≡ true → (b == c) ≡ true → (a == c) ≡ true
==_trans a b c h h' = ground arith

-- A raster that is only a mask, and one that is drawn with its mask.
abbrev mask_only : FlexRaster ℕ
mask_only = record older { mask = some (record valued { id = "b1" }) }

abbrev drawn : FlexRaster ℕ
drawn = record older { mask = some (record valued { id = "b1"; inclusive = true }) }

sort_batch-stamped_example :
    (masks : MaskMap whole) × (stack : Stack whole) × (sort_batch whole
        (some mask_only ∷ some newer ∷ none ∷ some drawn ∷ some older ∷ [])
        []
        []
      ≡ ok (masks, stack))
    × ((k : ℕ)
        → rasters_at whole k stack
          ≡ stamped whole k (some mask_only ∷ some newer ∷ none ∷ some drawn ∷ some older ∷ []))
sort_batch-stamped_example =
    sort_batch-stamped whole ==_sym ==_trans
      (some mask_only ∷ some newer ∷ none ∷ some drawn ∷ some older ∷ [])
      (
        (
          map (λ val. shares (bits byte) val (value five)) (words byte older.bytes),
          compute_mask-value (record valued { id = "b1" }) older.bytes byte five refl refl
              five_fits,
        ),
        (
          record {},
          (
            record {},
            (
              (
                map (λ val. shares (bits byte) val (value five)) (words byte older.bytes),
                compute_mask-value (record valued { id = "b1"; inclusive = true }) older.bytes byte
                    five refl refl five_fits,
              ),
              (record {}, record {}),
            ),
          ),
        ),
      )

-- The raster that is only a mask is left out.
two_older :
    stamped whole (geo_stamp whole older) (some mask_only ∷ some drawn ∷ some older ∷ [])
    ≡ drawn ∷ older ∷ []
unfolding stamped geo_stamp fnv32a
two_older = refl
