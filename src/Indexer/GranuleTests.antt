-- ===== src/Indexer/GranuleTests.antt =====
-- Two axes of two values, with whole numbers for the floats.
use gsky.Prelude.{
  ℕ, ◌<◌, ◌≡◌, refl, false, none, some, List, [], ◌∷◌, length, get_elem?, arith, Bytes,
}
use gsky.Indexer.Axes.{DatasetAxis}
use gsky.Indexer.Granules.{Granule, Names, granules, start_wheels, combinations, granules_of}
use gsky.Indexer.Odometer.{At, granules_of-combinations}
use gsky.Indexer.Tests.{whole, levels}

abbrev pub shown : Bytes → ℕ → Bytes
shown name v = v ∷ []

abbrev depth : DatasetAxis whole
depth = record levels {
  name = b'd' ∷ [];
  picked = record { idx = 0 ∷ 2 ∷ []; values = 10 ∷ 30 ∷ [] };
}

-- The strides of this axis were taken into its indices.
abbrev time : DatasetAxis whole
time = record levels {
  name = b't' ∷ [];
  picked = record { idx = 0 ∷ 4 ∷ []; values = 100 ∷ 200 ∷ [] };
  aggregate = 1;
  order = 1;
}

four_bands :
    granules_of whole shown (b'v' ∷ []) false (depth ∷ time ∷ []) []
    ≡ some (
      record {
        namespace = b'v' ∷ b'#' ∷ b'd' ∷ b'=' ∷ 10 ∷ [];
        time_stamp = 210;
        band_idx = 1;
        is_null = false;
      }
          ∷ record {
            namespace = b'v' ∷ b'#' ∷ b'd' ∷ b'=' ∷ 10 ∷ [];
            time_stamp = 110;
            band_idx = 5;
            is_null = false;
          }
          ∷ record {
            namespace = b'v' ∷ b'#' ∷ b'd' ∷ b'=' ∷ 30 ∷ [];
            time_stamp = 230;
            band_idx = 3;
            is_null = false;
          }
          ∷ record {
            namespace = b'v' ∷ b'#' ∷ b'd' ∷ b'=' ∷ 30 ∷ [];
            time_stamp = 130;
            band_idx = 7;
            is_null = false;
          }
          ∷ [],
      (b'v' ∷ b'#' ∷ b'd' ∷ b'=' ∷ 10 ∷ [], 110) ∷ (b'v' ∷ b'#' ∷ b'd' ∷ b'=' ∷ 30 ∷ [], 130) ∷ [],
    )
unfolding granules start_wheels combinations
four_bands = refl

granules_of-combinations_example :
    (gs : List (Granule whole shown)) × (names' : Names whole shown) × (granules_of whole shown
        (b'v' ∷ [])
        false
        (depth ∷ time ∷ [])
        []
      ≡ some (gs, names'))
    × (length gs ≡ combinations whole (depth ∷ time ∷ []))
    × ((k : ℕ)
        → k < combinations whole (depth ∷ time ∷ [])
        → At whole shown (b'v' ∷ []) (depth ∷ time ∷ []) k (get_elem? gs k))
granules_of-combinations_example =
    granules_of-combinations whole shown (b'v' ∷ []) depth (time ∷ []) [] (refl, (refl, record {}))
      (omega arith, record {})

-- An axis behind the first on which nothing was picked, though it is not out of range.
nothing_picked :
    granules_of whole shown [] false
      (depth ∷ record time { picked = record { idx = []; values = [] } } ∷ [])
      []
    ≡ none
unfolding granules start_wheels combinations
nothing_picked = refl
