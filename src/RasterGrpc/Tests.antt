-- ===== src/RasterGrpc/Tests.antt =====
-- Tests of processor/tile_grpc.go on a granule of 5 by 3 pixels, with whole numbers as its floats.
use gsky.Prelude.{
  ℕ, ◌+◌, ◌-◌, ◌*◌, ◌/◌, ◌<◌, ◌≡◌, refl, false, Option, none, some, List, [], ◌∷◌, ltb, leb, arith,
  map, Bytes, codes,
}
use Prim.Native.Nat.{min}
use gsky.Prelude.Int.{pos}
use gsky.Prelude.Result.{Result, ok, err}
use gsky.RasterGrpc.{Floats, Granule, Geot, edge, axis_res, tiles_of}
use gsky.RasterGrpc.Stage.{Warped, FlexRaster, run}
use gsky.RasterGrpc.Tiles.{IsExact, count_covering, tiles_of-count}

abbrev whole_numbers : Floats
whole_numbers = record {
  F = ℕ;
  zero_f = 0;
  one_f = 1;
  half = 0;
  minus_one = 255;
  add = λ a b. a + b;
  sub = λ a b. a - b;
  mul = λ a b. a * b;
  div = λ a b. a / b;
  min_f = λ a b. min a b;
  lt = ltb;
  le = leb;
  of_size = λ n. n;
  to_size = λ a. a;
}

abbrev field : Bytes → ℕ → Bytes → Granule whole_numbers ℕ
field path band variable = record {
  path = path;
  band_idx = band;
  namespace = variable;
  var_namespace = variable;
  raster_type = codes "Byte";
  time_stamp = 7;
  polygon = [];
  tile_x_size = 2;
  tile_y_size = 0;
  box = record { x_min = 0; y_min = 0; x_max = 5; y_max = 3 };
  height = 3;
  width = 5;
  raw_height = 0;
  raw_width = 0;
  off_x = pos 0;
  off_y = pos 0;
  dst_geot = none;
  clip_feature = some (codes "clip");
  rest = 0;
}

abbrev rain : Granule whole_numbers ℕ
rain = field (codes "rain.nc") 1 (codes "rain")

x-IsExact : IsExact whole_numbers 0 5 5
unfolding edge axis_res
x-IsExact = record {
  inside = λ b h. omega arith;
  outside = λ b h. omega arith;
  between = λ a b h k. omega arith;
  last = λ a h. omega arith;
}

y-IsExact : IsExact whole_numbers 0 3 3
unfolding edge axis_res
y-IsExact = record {
  inside = λ b h. omega arith;
  outside = λ b h. omega arith;
  between = λ a b h k. omega arith;
  last = λ a h. omega arith;
}

abbrev widths : Option (List (Granule whole_numbers ℕ)) → List ℕ
widths none = []
widths (some ts) = map (λ t. t.width) ts

tile_widths : widths (tiles_of whole_numbers rain rain) ≡ 2 ∷ 2 ∷ 1 ∷ []
unfolding tiles_of
tile_widths = refl

tiles_of-count_example :
    (ts : List (Granule whole_numbers ℕ)) × (tiles_of whole_numbers rain rain ≡ some ts)
    × ((i j : ℕ) → i < 5 → j < 3 → count_covering whole_numbers i j ts ≡ 1)
tiles_of-count_example =
    tiles_of-count whole_numbers rain rain x-IsExact y-IsExact refl (omega arith) (omega arith)

-- A worker that answers with the number of its connection.
abbrev worker :
    ℕ → Granule whole_numbers ℕ → Option (Geot whole_numbers) → Option (Warped whole_numbers)
worker n g t =
    some
      (record { bytes = n ∷ []; raster_type = codes "Byte"; no_data = 0; place = none; mask = [] })

abbrev wind : Granule whole_numbers ℕ
wind = field (codes "wind.nc") 1 (codes "wind")

abbrev missing : Granule whole_numbers ℕ
missing = field (codes "NULL") 0 (codes "EmptyTile")

abbrev found : List (Granule whole_numbers ℕ)
found = missing ∷ rain ∷ wind ∷ rain ∷ []

abbrev wanted : List Bytes
wanted = codes "wind" ∷ codes "rain" ∷ []

-- What is sent: six tiles, which two connections take in turn.
abbrev sent : Result (Option (List (FlexRaster whole_numbers ℕ))) → List (Bytes × Bytes)
sent (ok (some rs)) = map (λ r. (r.namespace, r.bytes)) rs
sent _ = []

rasters_sent :
    sent (run whole_numbers worker 2 false wanted found)
    ≡ (codes "rain", 0 ∷ [])
      ∷ (codes "rain", 1 ∷ [])
      ∷ (codes "rain", 0 ∷ [])
      ∷ (codes "wind", 1 ∷ [])
      ∷ (codes "wind", 0 ∷ [])
      ∷ (codes "wind", 1 ∷ [])
      ∷ []
unfolding run
rasters_sent = refl

band_missing : run whole_numbers worker 2 false (codes "snow" ∷ []) found ≡ err "band not found"
unfolding run
band_missing = refl

nobody_online : run whole_numbers worker 0 false wanted found ≡ err "All gRPC servers offline"
unfolding run
nobody_online = refl
