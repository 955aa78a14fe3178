-- ===== src/Indexer/RangeTests.antt =====
-- Selections by value, with whole numbers for the floats.
use gsky.Prelude.{
  ℕ, ◌≡◌, refl, false, ◌&&◌, ◌||◌, Option, none, some, List, [], ◌∷◌, ltb, leb, get_elem?, arith,
}
use gsky.Prelude.Result.{ok}
use gsky.Indexer.Axes.{Picked, DatasetAxis, GeoTileAxis, default}
use gsky.Indexer.Indices.{is_in}
use gsky.Indexer.Chosen.{Looks}
use gsky.Indexer.Range.{
  spread_of, last_of, in_bounds, select_values, select_between, pick_times, do_selection_by_range,
}
use gsky.Indexer.Between.{holds, IsIncreasing, do_selection_by_range-between}
use gsky.Indexer.Nearest.{AreNearest, spread, do_selection_by_range-nearest}
use gsky.Indexer.Tests.{whole, levels}

abbrev between : Option ℕ → Option ℕ → List ℕ → GeoTileAxis whole
between start stop vs = record {
  start = start;
  stop = stop;
  in_values = vs;
  order = 0;
  aggregate = 0;
  idx_selectors = [];
}

from_fifteen :
    do_selection_by_range whole levels (between (some 15) (some 40) []) none none []
    ≡ ok (false, record { idx = 1 ∷ 2 ∷ []; values = 20 ∷ 30 ∷ [] })
unfolding do_selection_by_range select_values select_between pick_times
from_fifteen = refl

far : ltb 40 10 || ltb (last_of whole 10 (20 ∷ 30 ∷ 40 ∷ [])) 15 ≡ false
unfolding last_of
far = refl

do_selection_by_range-between_example :
    (p : Picked whole) × (do_selection_by_range whole levels
        (between (some 15) (some 40) [])
        none
        none
        []
      ≡ ok (false, p))
    × Looks whole (10 ∷ 20 ∷ 30 ∷ 40 ∷ []) p.idx p.values
    × IsIncreasing p.idx
    × ((j : ℕ)
        → is_in j p.idx ≡ holds (λ v. leb 15 v && ltb v 40) (get_elem? (10 ∷ 20 ∷ 30 ∷ 40 ∷ []) j))
do_selection_by_range-between_example =
    do_selection_by_range-between whole levels (between (some 15) (some 40) []) none none [] 10
      (20 ∷ 30 ∷ 40 ∷ []) 15 40 refl refl refl refl refl refl far

-- Nothing is picked, and the axis is not out of range.
nothing_between :
    do_selection_by_range whole levels (between (some 21) (some 29) []) none none []
    ≡ ok (false, record { idx = []; values = [] })
unfolding do_selection_by_range select_values select_between pick_times
nothing_between = refl

-- 11 and 12 are both nearest to 10, but each parameter serves one value only.
one_each :
    do_selection_by_range whole levels (between none none (11 ∷ 12 ∷ [])) none none []
    ≡ ok (false, record { idx = 0 ∷ 1 ∷ []; values = 10 ∷ 20 ∷ [] })
unfolding do_selection_by_range select_values select_between pick_times
one_each = refl

-- The search starts at the value that was given first, not at the least.
unsorted_values :
    do_selection_by_range whole levels (between none none (40 ∷ 10 ∷ [])) none none []
    ≡ ok (false, record { idx = 3 ∷ []; values = 40 ∷ [] })
unfolding do_selection_by_range select_values select_between pick_times
unsorted_values = refl

abbrev time : DatasetAxis whole
time = record levels { params = []; grid = default }

abbrev mixed : DatasetAxis whole
mixed = record levels { params = 30 ∷ 10 ∷ 20 ∷ [] }

mixed_up : (spread whole 30 (10 ∷ 20 ∷ [])).is_monotonic ≡ false
unfolding spread_of
mixed_up = refl

kept : in_bounds whole (spread whole 30 (10 ∷ 20 ∷ [])) (12 ∷ 90 ∷ 29 ∷ []) ≡ 12 ∷ 29 ∷ []
unfolding spread_of last_of in_bounds
kept = refl

do_selection_by_range-nearest_example :
    (p : Picked whole) × (do_selection_by_range whole mixed
        (between none none (12 ∷ 90 ∷ 29 ∷ []))
        none
        none
        []
      ≡ ok (false, p))
    × AreNearest whole (30 ∷ 10 ∷ 20 ∷ []) (12 ∷ 29 ∷ []) p.idx
    × Looks whole (30 ∷ 10 ∷ 20 ∷ []) p.idx p.values
do_selection_by_range-nearest_example =
    do_selection_by_range-nearest whole (λ a. ground arith) (λ a b c h q. ground arith) 30
      (10 ∷ 20 ∷ []) mixed (between none none (12 ∷ 90 ∷ 29 ∷ [])) none none [] 12 (90 ∷ 29 ∷ []) 12
      (29 ∷ []) refl refl refl refl mixed_up kept (refl, (refl, record {}))
