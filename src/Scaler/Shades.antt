-- ===== src/Scaler/Shades.antt =====
-- `Scale` makes of each sample of a raster its byte.
use gsky.Prelude.{
  ℕ, ◌+◌, ◌-◌, ◌*◌, All, ◌≤◌, true, false, Option, none, some, List, [], ◌++◌, map, length,
  replicate,
}
use gsky.Scaler.Formula.{shade}
use gsky.Scaler.{
  Samples, signed_bytes, bytes, int16s, uint16s, float32s, other_samples, Raster, ByteRaster,
  int_kind, float_kind, Floats, ScaleParams, Kind, Shading, write_pixels,
}

module _ (fl : Floats) (k : Kind fl) where
  open k use {V, lt_v, add_v, zero_v, of_d, to_f}

  next : Shading fl k → V → ℕ → List V → Option (List ℕ) → Option (List ℕ)
  next sh nodata i data_ o = elim o [
    | none ↦ none
    | some out ↦ write_pixels fl k sh nodata (i + 1) data_ out
  ]

  -- The bytes of the samples, and zeros for those that the raster lacks.
  abbrev pub shades : ScaleParams fl → fl.D → List V → ℕ → List ℕ
  shades params no_data data_ size =
      map (shade fl k params (of_d no_data) data_) data_ ++ replicate (size - length data_) 0

module _ (fl : Floats) where
  -- The bytes of the raster's samples; a raster of bytes is written over.
  abbrev pub raster_shades : ScaleParams fl → fl.D → ℕ → Samples fl → List ℕ
  raster_shades params d size (signed_bytes vs) = shades fl (int_kind fl true 8) params d vs size
  raster_shades params d size (bytes vs) = shades fl (int_kind fl false 8) params d vs (length vs)
  raster_shades params d size (int16s vs) = shades fl (int_kind fl true 16) params d vs size
  raster_shades params d size (uint16s vs) = shades fl (int_kind fl false 16) params d vs size
  raster_shades params d size (float32s vs) = shades fl (float_kind fl params d) params d vs size
  raster_shades params d size other_samples = []

  -- The samples are of a known type, and no more than the raster has room for.
  abbrev pub HasRoom : ℕ → Samples fl → Type 0
  HasRoom size (signed_bytes vs) = length vs ≤ size
  HasRoom size (bytes vs) = Unit
  HasRoom size (int16s vs) = length vs ≤ size
  HasRoom size (uint16s vs) = length vs ≤ size
  HasRoom size (float32s vs) = length vs ≤ size
  HasRoom size other_samples = ⊥

  abbrev pub AllHaveRoom : List (Raster fl) → Type 0
  AllHaveRoom rs = All (λ r. HasRoom (r.height * r.width) r.samples) rs

  abbrev pub shaded : ScaleParams fl → Raster fl → ByteRaster fl
  shaded params r = record {
    namespace = r.namespace;
    pixels = raster_shades params r.no_data (r.height * r.width) r.samples;
    height = r.height;
    width = r.width;
    no_data = r.no_data;
  }
