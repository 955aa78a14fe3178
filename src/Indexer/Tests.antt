-- ===== src/Indexer/Tests.antt =====
-- An axis of four values, with whole numbers for the floats.
use gsky.Prelude.{ℕ, ◌+◌, ◌-◌, ◌<◌, ◌≡◌, refl, true, false, none, some, [], ◌∷◌, ltb, leb, ◌==◌}
use gsky.Prelude.Result.{ok, panic}
use gsky.Dap4.{Selector}
use gsky.Indexer.Axes.{Coords, enum, Picked, DatasetAxis}
use gsky.Indexer.Indices.{is_in, do_selection_by_indices}
use gsky.Indexer.Chosen.{any_chooses, Looks}
use gsky.Indexer.Ascending.{IsAscending}
use gsky.Indexer.Selected.{do_selection_by_indices-chosen}

abbrev pub whole : Coords
whole = record {
  F = ℕ;
  lt = ltb;
  le = leb;
  eq = ◌==◌;
  zero_f = 0;
  add = ◌+◌;
  distance = λ a b. (a - b) + (b - a);
  above = λ a b. ltb b a;
  within = leb;
  max_float = 1000000;
  of_time = λ t. t;
}

abbrev pub levels : DatasetAxis whole
levels = record {
  name = [];
  params = 10 ∷ 20 ∷ 30 ∷ 40 ∷ [];
  strides = 1 ∷ [];
  grid = enum;
  picked = record { idx = []; values = [] };
  order = 0;
  aggregate = 0;
}

-- 3 and 0:2:2
abbrev third : Selector
third = record { start = some 3; stop = none; step = none; is_range = false; is_all = false }

abbrev even : Selector
even = record { start = some 0; stop = some 2; step = some 2; is_range = true; is_all = false }

three_levels :
    do_selection_by_indices whole levels (third ∷ even ∷ [])
    ≡ ok (false, record { idx = 0 ∷ 2 ∷ 3 ∷ []; values = 10 ∷ 30 ∷ 40 ∷ [] })
unfolding do_selection_by_indices
three_levels = refl

do_selection_by_indices-chosen_example :
    (p : Picked whole) × (do_selection_by_indices whole levels (third ∷ even ∷ []) ≡ ok (false, p))
    × Looks whole (10 ∷ 20 ∷ 30 ∷ 40 ∷ []) p.idx p.values
    × IsAscending p.idx
    × ((j : ℕ) → j < 4 → is_in j p.idx ≡ any_chooses 4 (third ∷ even ∷ []) j)
do_selection_by_indices-chosen_example =
    do_selection_by_indices-chosen whole levels (third ∷ even ∷ []) refl refl
      (refl, (refl, record {}))

-- Two ranges that overlap pick an index twice.
picked_twice :
    do_selection_by_indices whole levels (even ∷ even ∷ [])
    ≡ ok (false, record { idx = 0 ∷ 0 ∷ 2 ∷ 2 ∷ []; values = 10 ∷ 10 ∷ 30 ∷ 30 ∷ [] })
unfolding do_selection_by_indices
picked_twice = refl

-- 1:9223372036854775807:3
abbrev great_step : Selector
great_step = record {
  start = some 1;
  stop = some 3;
  step = some 9223372036854775807;
  is_range = true;
  is_all = false;
}

overflow_panics : do_selection_by_indices whole levels (great_step ∷ []) ≡ panic
unfolding do_selection_by_indices
overflow_panics = refl
