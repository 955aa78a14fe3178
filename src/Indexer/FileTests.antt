-- ===== src/Indexer/FileTests.antt =====
-- Files with two axes, with whole numbers for the floats.
use gsky.Prelude.{ℕ, ◌≡◌, refl, none, some, List, [], ◌∷◌, arith, false}
use gsky.Prelude.Result.{ok, panic}
use gsky.Indexer.Axes.{DatasetAxis, GeoTileAxis, default}
use gsky.Indexer.Granules.{Granule, granules, start_wheels}
use gsky.Indexer.Files.{GdalDataset, Request, BandNamespaces, index_files}
use gsky.Indexer.Unnamed.{FileGranules, IsReadyFile, index_files-unnamed}
use gsky.Indexer.Tests.{whole, levels}
use gsky.Indexer.GranuleTests.{shown}

abbrev time : DatasetAxis whole
time = record levels {
  name = b't' ∷ b'i' ∷ b'm' ∷ b'e' ∷ [];
  params = [];
  strides = 4 ∷ [];
  grid = default;
}

abbrev file : GdalDataset whole
file = record {
  namespace = b'v' ∷ [];
  time_stamps = 100 ∷ 200 ∷ [];
  axes = time ∷ record levels { name = b'd' ∷ [] } ∷ [];
}

abbrev unnamed : Request whole
unnamed = record { axes = []; start_time = none; end_time = none; axis_mapping = 1 }

file_IsReady : IsReadyFile whole file
file_IsReady = (
  omega arith,
  ((refl, (omega arith, omega arith)), ((refl, (omega arith, omega arith)), record {})),
)

index_files-unnamed_example :
    (gs : List (Granule whole shown)) × (bands : BandNamespaces whole shown) × (index_files whole
        shown unnamed false
        (file ∷ file ∷ [])
      ≡ ok (gs, bands))
    × FileGranules whole shown 1 (file ∷ file ∷ []) gs
index_files-unnamed_example =
    index_files-unnamed whole shown none none 1 (file ∷ file ∷ [])
      (file_IsReady, (file_IsReady, record {}))

abbrev from_to : ℕ → ℕ → GeoTileAxis whole
from_to a b = record {
  start = some a;
  stop = some b;
  in_values = [];
  order = 1;
  aggregate = 1;
  idx_selectors = [];
}

abbrev second : DatasetAxis whole
second = record levels { name = b'e' ∷ []; strides = 4 ∷ [] }

-- The request is out of range on the second of three axes, but not on the third, and the file is kept:
-- nothing was picked on the second axis, so that the loop over the counters panics.
abbrev far_off : Request whole
far_off = record {
  axes = (b'd' ∷ [], from_to 90 95) ∷ (b'e' ∷ [], from_to 15 25) ∷ [];
  start_time = none;
  end_time = none;
  axis_mapping = 0;
}

kept_out_of_range :
    index_files whole shown far_off false
      (record file { axes = time ∷ record levels { name = b'd' ∷ [] } ∷ second ∷ [] } ∷ [])
    ≡ panic
unfolding index_files granules start_wheels
kept_out_of_range = refl

-- With the axes the other way round the file is dropped.
dropped :
    index_files whole shown far_off false
      (record file { axes = time ∷ second ∷ record levels { name = b'd' ∷ [] } ∷ [] } ∷ [])
    ≡ ok ([], [])
unfolding index_files
dropped = refl
