-- ===== src/RasterGrpc/Dispatch.antt =====
-- What `GeoRasterGRPC.Run` sends on: the rasters of the tiles of the granules, each granule once.
use gsky.Prelude.{ℕ, ◌<◌, ◌≡◌, Option, some, List, [], ◌∷◌, ◌++◌, length, Bytes}
use gsky.RasterGrpc.{Floats, Granule}
use gsky.RasterGrpc.Stage.{has_text, note_text, Progress, with_geot}
use gsky.RasterGrpc.Distinct.{cut_all, names}

module _ {fl : Floats} {A : Type 0} where
  -- What the loop has done when g0 is set: it sent the tiles of the granules that it had not seen.
  abbrev HasSent : Granule fl A → List (Granule fl A) → Progress fl A → Progress fl A → Type 0
  HasSent g0 gs p p' =
      (p'.first ≡ some g0)
      × (p'.pool ≡ p.pool)
      × ((js : List (Granule fl A)) × (cut_all g0 gs ≡ some js) × (p'.jobs ≡ p.jobs ++ js))
      × ((v : Bytes) → has_text v p'.available ≡ has_text v (p.available ++ names gs))

  module _ (online : ℕ) (g0 : Granule fl A) (wide : 0 < g0.width) (high : 0 < g0.height) where
    abbrev after : Granule fl A → Progress fl A → List (Granule fl A) → Progress fl A
    after g p ts = record p {
      seen = (g.path, g.band_idx) ∷ p.seen;
      available = note_text g.var_namespace p.available;
      first = some g0;
      jobs = p.jobs ++ ts;
    }

  -- The first granule that is there sets g0.
  module _ (online : ℕ) (some_online : 0 < online) where
    begun : Option (Granule fl A) → Granule fl A → List (Granule fl A) → Progress fl A
    begun null g ts = record {
      null_gran = null;
      seen = (g.path, g.band_idx) ∷ [];
      available = note_text g.var_namespace [];
      first = some (with_geot fl g);
      pool = online;
      jobs = ts;
    }

    -- What has happened when the loop is over.
    abbrev Started : Granule fl A → List (Granule fl A) → Progress fl A → Type 0
    Started first later p =
        (p.first ≡ some (with_geot fl first))
        × (p.pool ≡ online)
        × (cut_all (with_geot fl first) (with_geot fl first ∷ later) ≡ some p.jobs)
        × ((v : Bytes) → has_text v p.available ≡ has_text v (names (first ∷ later)))
        × (0 < length p.jobs)
