-- ===== src/RasterGrpc.antt =====
-- processor/tile_grpc.go: the stage between the indexer and the merger, which drops granules that
-- came twice, cuts the others into tiles, and has a worker warp each tile into a raster.
-- A FlexRaster is one of processor/tile_types.go. Sizes are not negative; a box has four entries.
use gsky.Prelude.{
  ℕ, zero, suc, ◌+◌, ◌*◌, ◌%◌, Bool, true, false, not, ◌&&◌, ◌||◌, Option, none, some, List, [],
  ◌∷◌, ◌++◌, ltb, ◌==◌, if◌then◌else◌, length, replicate, ◌>>=◌, Bytes, bytes_eq, codes,
}
use gsky.Prelude.Int.{ℤ, pos, sub_ℕ, ◌+ℤ◌}
use gsky.Prelude.Result
use gsky.Prelude.Result.{Result, ok, err, panic}
pub mod Stage
pub mod Tiles
pub mod Distinct
pub mod Dispatch
mod Tests

-- float64. `of_size` is float64(n), `to_size` is int(x), of values that are not negative.
pub record Floats : Type 1 where
  pub F : Type 0
  pub zero_f : F
  pub one_f : F
  pub half : F
  pub minus_one : F
  pub add : F → F → F
  pub sub : F → F → F
  pub mul : F → F → F
  pub div : F → F → F
  pub min_f : F → F → F
  pub lt : F → F → Bool
  pub le : F → F → Bool
  pub of_size : ℕ → F
  pub to_size : F → ℕ

module _ (fl : Floats) where
  open fl use {
    F, zero_f, one_f, half, minus_one, add, sub, mul, div, min_f, lt, le, of_size, to_size,
  }

  pub record Box : Type 0 where
    pub x_min : F
    pub y_min : F
    pub x_max : F
    pub y_max : F

  -- The entries of a geotransform that are not constant.
  pub record Geot : Type 0 where
    pub left : F
    pub x_step : F
    pub top : F
    pub y_step : F

  -- GeoTileGranule. `rest` is what a tile takes over unchanged and this stage does not read: the
  -- configuration but for its tile sizes, RawPath, CRS, SrcSRS, SrcGeoTransform and GeoLocation.
  pub record Granule (A : Type 0) : Type 0 where
    pub path : Bytes
    pub band_idx : ℕ
    pub namespace : Bytes
    pub var_namespace : Bytes
    pub raster_type : Bytes
    pub time_stamp : F
    pub polygon : Bytes
    pub tile_x_size : F
    pub tile_y_size : F
    pub box : Box
    pub height : ℕ
    pub width : ℕ
    pub raw_height : ℕ
    pub raw_width : ℕ
    pub off_x : ℤ
    pub off_y : ℤ
    pub dst_geot : Option Geot
    pub clip_feature : Option Bytes
    pub rest : A

  unfoldable pub bbox2geot : ℕ → ℕ → Box → Geot
  bbox2geot width height b = record {
    left = b.x_min;
    x_step = div (sub b.x_max b.x_min) (of_size width);
    top = b.y_max;
    y_step = div (sub b.y_min b.y_max) (of_size height);
  }

  -- maxXTileSize and maxYTileSize, of the size s that is asked for and the n pixels there are.
  abbrev pub or_whole : ℕ → ℕ → ℕ
  or_whole n zero = n
  or_whole n (suc m) = suc m

  unfoldable pub max_tile_size : F → ℕ → ℕ
  max_tile_size s n = or_whole n (
      if le s zero_f
      then n
      else if le s one_f
      then to_size (mul (of_size n) s)
      else if lt s (of_size n)
      then to_size s
      else n)

  -- One axis of a box from lo to hi with n pixels: xRes, the place of a pixel's edge, the end of a
  -- tile, and the pixels of a tile from a to b.
  unfoldable pub axis_res : F → F → ℕ → F
  axis_res lo hi n = div (sub hi lo) (of_size n)

  unfoldable pub edge : F → F → ℕ → ℕ → F
  unfolding axis_res
  edge lo hi n k = add lo (mul (of_size k) (axis_res lo hi n))

  unfoldable pub tile_end : F → F → ℕ → ℕ → F
  unfolding edge
  tile_end lo hi n k = min_f (edge lo hi n k) hi

  unfoldable pub tile_pixels : F → F → ℕ → ℕ → ℕ → ℕ
  unfolding edge tile_end axis_res
  tile_pixels lo hi n a b =
      to_size (add half (div (sub (tile_end lo hi n b) (edge lo hi n a)) (axis_res lo hi n)))

  module _ {A : Type 0} where
    -- tileGran. Its ClipFeature is not set.
    unfoldable pub tile_at : Granule A → ℕ → ℕ → ℕ → ℕ → Granule A
    unfolding bbox2geot edge tile_end tile_pixels
    tile_at g mx my y x =
        let b = g.box in
        let tile_box : Box = record {
          x_min = edge b.x_min b.x_max g.width x;
          y_min = edge b.y_min b.y_max g.height y;
          x_max = tile_end b.x_min b.x_max g.width (x + mx);
          y_max = tile_end b.y_min b.y_max g.height (y + my);
        } in
        let w = tile_pixels b.x_min b.x_max g.width x (x + mx) in
        let h = tile_pixels b.y_min b.y_max g.height y (y + my) in
        record g {
          box = tile_box;
          height = h;
          width = w;
          raw_height = g.height;
          raw_width = g.width;
          off_x = pos x;
          off_y = sub_ℕ g.height (y + h);
          dst_geot = some (bbox2geot w h tile_box);
          clip_feature = none;
        }

    -- The loops over x and y, on fuel; `none` is out of fuel.
    unfoldable pub tile_row : ℕ → Granule A → ℕ → ℕ → ℕ → ℕ → Option (List (Granule A))
    unfolding tile_at
    tile_row zero g mx my y x = none
    tile_row (suc fuel) g mx my y x =
        let later = tile_row fuel g mx my y (x + mx) in
        if ltb x g.width then (later >>= λ ts. some (tile_at g mx my y x ∷ ts)) else some []

    unfoldable pub tile_rows : ℕ → Granule A → ℕ → ℕ → ℕ → Option (List (Granule A))
    unfolding tile_row
    tile_rows zero g mx my y = none
    tile_rows (suc fuel) g mx my y =
        let later = tile_rows fuel g mx my (y + my) in
        if ltb y g.height
        then (tile_row (suc g.width) g mx my y 0 >>= λ ts. later >>= λ us. some (ts ++ us))
        else some []

    -- The tiles of a granule, of the sizes that the first granule g0 asks for.
    unfoldable pub tiles_of : Granule A → Granule A → Option (List (Granule A))
    unfolding max_tile_size tile_rows
    tiles_of g0 g =
        if lt zero_f g0.tile_x_size || lt zero_f g0.tile_y_size
        then tile_rows (suc g.height) g (max_tile_size g0.tile_x_size g0.width)
            (max_tile_size g0.tile_y_size g0.height) 0
        else some (g ∷ [])
