-- ===== src/Fusion/Normal.antt =====
-- The samples that `getFlexRaster` hands over.
use gsky.Prelude.{
  ℕ, ◌≡◌, refl, sym, ◌∙◌, ap, Bool, true, false, not, Option, none, some, List, [], ◌∷◌,
  if◌then◌else◌, length, map, String, Bytes, arith,
}
use gsky.Prelude.Int.{ℤ}
use gsky.Merger.Types.{RasterType, other, Float64, FlexRaster, words, sample_eq}
use gsky.Merger.Overlay.{words-overlay}
use gsky.Fusion.{
  Raster, Request, same_type, is_empty_tile, has_no_data, replace_no_data, new_no_data, no_data_or,
  normal_bytes, flex_of, flex_case, get_flex_raster,
}

-- Whether some sample satisfies a test.
abbrev pub any_sample : (ℕ → Bool) → List ℕ → Bool
any_sample test [] = false
any_sample test (s ∷ ss) = if test s then true else any_sample test ss

has_no_data-any :
    (eq : ℕ → ℕ → Bool) (nd : ℕ) (ss : List ℕ) → has_no_data eq nd ss ≡ any_sample (λ s. eq s nd) ss
unfolding has_no_data
has_no_data-any eq nd [] = refl
has_no_data-any eq nd (s ∷ ss) = ground (arith, has_no_data-any eq nd ss)

replace_no_data-map :
    (eq : ℕ → ℕ → Bool) (nd new : ℕ) (ss : List ℕ)
    → replace_no_data eq nd new ss ≡ map (λ s. if eq s nd then new else s) ss
unfolding replace_no_data
replace_no_data-map eq nd new [] = refl
replace_no_data-map eq nd new (s ∷ ss) =
    ap (λ r. (if eq s nd then new else s) ∷ r) (replace_no_data-map eq nd new ss)

length-replace_no_data :
    (eq : ℕ → ℕ → Bool) (nd new : ℕ) (ss : List ℕ)
    → length (replace_no_data eq nd new ss) ≡ length ss
unfolding replace_no_data
length-replace_no_data eq nd new [] = refl
length-replace_no_data eq nd new (s ∷ ss) = omega (arith, length-replace_no_data eq nd new ss)

map-same : (ss : List ℕ) → map (λ s. s) ss ≡ ss
map-same [] = refl
map-same (s ∷ ss) = ap (λ r. s ∷ r) (map-same ss)

module _ (fl : Float64) where
  open fl use {F, sample}

  -- What a sample becomes: it changes where it is no data and there is a value for no data in its place.
  abbrev pub normal_sample : RasterType → F → Option F → ℕ → ℕ
  normal_sample t no_data none s = s
  normal_sample t no_data (some new) s =
      if sample_eq t s (sample t no_data) then sample t new else s

  words-normal_bytes :
      (t : RasterType) (no_data : F) (new : Option F) (bytes : Bytes)
      → words t (normal_bytes fl t no_data new bytes)
        ≡ map (normal_sample t no_data new) (words t bytes)
  words-normal_bytes t no_data none bytes = sym (map-same (words t bytes))
  words-normal_bytes t no_data (some new) bytes =
      words-overlay t _ bytes
        (length-replace_no_data (sample_eq t) (sample t no_data) (sample t new) (words t bytes))
      ∙ replace_no_data-map (sample_eq t) (sample t no_data) (sample t new) (words t bytes)

  module _ (of_unix : ℤ → F) (band_name : ℕ → String) where
    -- A raster of one of the five kinds.
    flex_case-known :
        (idx : ℕ) (time : ℤ) (req : Request fl) (t : RasterType) (bytes : Bytes) (no_data : F)
        (new : Option F)
        → same_type t t ≡ true
        → flex_case fl of_unix band_name idx time req t bytes no_data new ≡ (
          some (
              flex_of fl of_unix band_name idx time req t
                (normal_bytes fl t no_data new bytes)
                (no_data_or fl no_data new)),
          not (has_no_data (sample_eq t) (sample t no_data) (words t bytes)),
        )
    flex_case-known idx time req other bytes no_data new h = absurd (cc)
    flex_case-known idx time req _ bytes no_data new h = refl

    -- A raster of one of the five kinds that is not an empty tile is taken for the merger with the
    -- request's size and its own kind. If the raster that sets the norm is of the same kind and its value for
    -- no data is another sample, each sample that was no data has become that one, and so has the
    -- value for no data; otherwise both stay as they were. All cells are filled just when none of the
    -- raster's samples was no data.
    pub get_flex_raster-normal :
        (idx : ℕ) (time : ℤ) (req : Request fl) (r : Raster F) (norm : Option (Raster F))
        → same_type r.raster_type r.raster_type ≡ true
        → is_empty_tile r.raster_type r.namespace ≡ false
        → (flex : FlexRaster F) × (get_flex_raster fl of_unix band_name idx time req r norm ≡ (
          some flex,
          not (
              any_sample
                (λ s. sample_eq r.raster_type s (sample r.raster_type r.no_data))
                (words r.raster_type r.bytes)),
        ))
          × (flex.raster_type ≡ r.raster_type)
          × (flex.height ≡ req.height)
          × (flex.width ≡ req.width)
          × (flex.no_data ≡ no_data_or fl r.no_data (new_no_data fl r.raster_type r.no_data norm))
          × (words r.raster_type flex.bytes
              ≡ map
                  (normal_sample r.raster_type r.no_data
                    (new_no_data fl r.raster_type r.no_data norm))
                  (words r.raster_type r.bytes))
    unfolding get_flex_raster
    get_flex_raster-normal idx time req r norm known there =
        let t = r.raster_type in
        let new = new_no_data fl t r.no_data norm in
        (
          flex_of fl of_unix band_name idx time req t (normal_bytes fl t r.no_data new r.bytes)
              (no_data_or fl r.no_data new),
          rw
              (
                there,
                flex_case-known idx time req t r.bytes r.no_data new known,
                has_no_data-any (sample_eq t) (sample t r.no_data) (words t r.bytes),
              )
              refl,
          refl,
          refl,
          refl,
          refl,
          words-normal_bytes t r.no_data new r.bytes,
        )
