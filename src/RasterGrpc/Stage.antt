-- ===== src/RasterGrpc/Stage.antt =====
-- processor/tile_grpc.go: `GeoRasterGRPC.Run`. What a worker answers, the number of workers that can be
-- dialled, and what the last check for cancellation finds are parameters; the checks while the
-- granules come in find nothing. The goroutines store their rasters, each in its own place, before
-- the list is sent.
use gsky.Prelude.{
  ℕ, ◌+◌, ◌*◌, ◌%◌, Bool, true, false, ◌&&◌, ◌||◌, Option, none, some, List, [], ◌∷◌, ◌++◌, ltb,
  ◌==◌, if◌then◌else◌, length, replicate, Bytes, bytes_eq, codes,
}
use gsky.Prelude.Int.{ℤ, pos, ◌+ℤ◌}
use gsky.Prelude.Result.{Result, ok, err, ◌>>=◌, or_panic}
use gsky.RasterGrpc.{Floats, Granule, Geot, bbox2geot, tiles_of}

-- inGran.Path == "NULL"
abbrev pub null_path : Bytes
null_path = codes "NULL"

-- A text of a granule's path and band, as granKey: two are equal if both parts are.
unfoldable pub has_key : Bytes → ℕ → List (Bytes × ℕ) → Bool
has_key path band [] = false
has_key path band ((p, b) ∷ keys) = (bytes_eq p path && b == band) || has_key path band keys

unfoldable pub has_text : Bytes → List Bytes → Bool
has_text v [] = false
has_text v (s ∷ ss) = bytes_eq s v || has_text v ss

abbrev pub note_text : Bytes → List Bytes → List Bytes
note_text v ss = if has_text v ss then ss else ss ++ (v ∷ [])

unfoldable pub all_available : List Bytes → List Bytes → Bool
unfolding has_text
all_available [] available = true
all_available (v ∷ vs) available = has_text v available && all_available vs available

module _ (fl : Floats) where
  open fl use {F, zero_f, minus_one}

  -- pb.Result: the raster with the place of its box, if it has one.
  pub record Warped : Type 0 where
    pub bytes : Bytes
    pub raster_type : Bytes
    pub no_data : F
    pub place : Option (ℤ × ℤ × ℕ × ℕ)
    pub mask : List ℕ

  pub record FlexRaster (A : Type 0) : Type 0 where
    pub bytes : Bytes
    pub height : ℕ
    pub width : ℕ
    pub data_height : ℕ
    pub data_width : ℕ
    pub off_x : ℤ
    pub off_y : ℤ
    pub raster_type : Bytes
    pub no_data : F
    pub namespace : Bytes
    pub time_stamp : F
    pub polygon : Bytes
    pub geom_mask : List ℕ
    pub rest : A

  -- The variables of Run: nullGrans, dedupGrans, availNamespaces, g0, the connections, and the granules
  -- that were sent to a worker, whose number is iGran.
  pub record Progress (A : Type 0) : Type 0 where
    pub null_gran : Option (Granule fl A)
    pub seen : List (Bytes × ℕ)
    pub available : List Bytes
    pub first : Option (Granule fl A)
    pub pool : ℕ
    pub jobs : List (Granule fl A)

  module _ {A : Type 0} where
    -- The raster of a tile whose granule is missing.
    unfoldable pub blank_raster : Granule fl A → FlexRaster A
    blank_raster g = record {
      bytes = replicate (g.width * g.height) 0;
      height = g.height;
      width = g.width;
      data_height = 0;
      data_width = 0;
      off_x = g.off_x;
      off_y = g.off_y;
      raster_type = g.raster_type;
      no_data = zero_f;
      namespace = g.namespace;
      time_stamp = g.time_stamp;
      polygon = g.polygon;
      geom_mask = [];
      rest = g.rest;
    }

    -- What stands for the answer of a worker that failed.
    abbrev pub answer_of : Granule fl A → Option Warped → Warped
    answer_of g (some r) = r
    answer_of g none = record {
      bytes = replicate (g.width * g.height) 0;
      raster_type = codes "Byte";
      no_data = minus_one;
      place = none;
      mask = [];
    }

    abbrev pub place_of : Granule fl A → Option (ℤ × ℤ × ℕ × ℕ) → ℤ × ℤ × ℕ × ℕ
    place_of g (some p) = p
    place_of g none = (pos 0, pos 0, g.width, g.height)

    -- rawHeight and rawWidth
    abbrev pub raw_size : Granule fl A → ℕ × ℕ
    raw_size g =
        if ltb 0 g.raw_height && ltb 0 g.raw_width
        then (g.raw_height, g.raw_width)
        else (g.height, g.width)

    unfoldable pub raster_of : Granule fl A → Warped → FlexRaster A
    raster_of g r =
        let (x, y, w, h) = place_of g r.place in
        record {
          bytes = r.bytes;
          height = (raw_size g).0;
          width = (raw_size g).1;
          data_height = h;
          data_width = w;
          off_x = g.off_x +ℤ x;
          off_y = g.off_y +ℤ y;
          raster_type = r.raster_type;
          no_data = r.no_data;
          namespace = g.namespace;
          time_stamp = g.time_stamp;
          polygon = g.polygon;
          geom_mask = r.mask;
          rest = g.rest;
        }

    abbrev pub no_progress : Progress A
    no_progress = record {
      null_gran = none;
      seen = [];
      available = [];
      first = none;
      pool = 0;
      jobs = [];
    }

    abbrev pub keep_null : Granule fl A → Option (Granule fl A) → Option (Granule fl A)
    keep_null g none = some g
    keep_null g (some g') = some g'

    -- g0 with its DstGeoTransform
    unfoldable pub with_geot : Granule fl A → Granule fl A
    unfolding bbox2geot
    with_geot g = record g { dst_geot = some (bbox2geot fl g.width g.height g.box) }

    -- The granule is cut up, and its tiles go to the workers. `panic` is out of fuel.
    unfoldable pub dispatch : Granule fl A → Granule fl A → Progress A → Result (Progress A)
    unfolding tiles_of
    dispatch g0 g p =
        or_panic (tiles_of fl g0 g) >>= λ ts. ok (record p { first = some g0; jobs = p.jobs ++ ts })

    abbrev pub dispatch_next :
        Option (Granule fl A) → Granule fl A → Progress A → Result (Progress A)
    dispatch_next none g p = dispatch g g p
    dispatch_next (some g0) g p = dispatch g0 g p

    -- As long as no tile was sent, a granule becomes g0 and the workers are dialled.
    unfoldable pub start_or_next : ℕ → Granule fl A → Progress A → Result (Progress A)
    unfolding dispatch with_geot
    start_or_next online g p =
        if length p.jobs == 0
        then if p.pool + online == 0
          then err "All gRPC servers offline"
          else dispatch (with_geot g) (with_geot g) (record p { pool = p.pool + online })
        else dispatch_next p.first g p

    -- The body of the loop over the input.
    unfoldable pub take_granule : ℕ → Granule fl A → Progress A → Result (Progress A)
    unfolding start_or_next has_key has_text
    take_granule online g p =
        if bytes_eq g.path null_path
        then ok (record p { null_gran = keep_null g p.null_gran })
        else if has_key g.path g.band_idx p.seen
        then ok p
        else start_or_next online g (record p {
          seen = (g.path, g.band_idx) ∷ p.seen;
          available = note_text g.var_namespace p.available;
        })

    unfoldable pub take_granules : ℕ → List (Granule fl A) → Progress A → Result (Progress A)
    unfolding take_granule
    take_granules online [] p = ok p
    take_granules online (g ∷ gs) p = take_granule online g p >>= take_granules online gs

    -- geot
    abbrev pub geot_or : Option (Geot fl) → Granule fl A → Option (Geot fl)
    geot_or none g0 = g0.dst_geot
    geot_or (some t) g0 = some t

    -- The rasters of the jobs from number idx on; job idx uses connection idx % len(connPool).
    unfoldable pub warp_all :
        (ℕ → Granule fl A → Option (Geot fl) → Option Warped)
        → ℕ
        → Granule fl A
        → ℕ
        → List (Granule fl A)
        → List (FlexRaster A)
    unfolding raster_of
    warp_all worker pool g0 idx [] = []
    warp_all worker pool g0 idx (g ∷ gs) =
        raster_of g (answer_of g (worker (idx % pool) g (geot_or g.dst_geot g0)))
        ∷ warp_all worker pool g0 (idx + 1) gs

    -- What Run does after the loop: the rasters that it sends, if it sends any.
    abbrev pub blank_tile : Option (Granule fl A) → Option (List (FlexRaster A))
    blank_tile none = none
    blank_tile (some g) = some (blank_raster g ∷ [])

    abbrev pub rasters_from :
        (ℕ → Granule fl A → Option (Geot fl) → Option Warped)
        → Progress A
        → Option (Granule fl A)
        → List (FlexRaster A)
    rasters_from worker p none = []
    rasters_from worker p (some g0) = warp_all worker p.pool g0 0 p.jobs

    unfoldable pub finish :
        (ℕ → Granule fl A → Option (Geot fl) → Option Warped)
        → Bool
        → List Bytes
        → Progress A
        → Result (Option (List (FlexRaster A)))
    unfolding all_available warp_all blank_raster
    finish worker cancelled var_list p =
        if length p.jobs == 0
        then ok (blank_tile p.null_gran)
        else if all_available var_list p.available
        then if cancelled
          then err "context has been cancel"
          else ok (some (rasters_from worker p p.first))
        else err "band not found"

    unfoldable pub run :
        (ℕ → Granule fl A → Option (Geot fl) → Option Warped)
        → ℕ
        → Bool
        → List Bytes
        → List (Granule fl A)
        → Result (Option (List (FlexRaster A)))
    unfolding take_granules finish
    run worker online cancelled var_list gs =
        take_granules online gs no_progress >>= finish worker cancelled var_list
