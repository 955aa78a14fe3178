-- ===== src/Fusion/Stacked.antt =====
-- The rasters that `processDeps` collects: those of all layers in range, one layer after the other.
use mathlib.Core.List.{append_assoc, append-nil}
use gsky.Prelude.{
  ℕ, suc, ◌≡◌, refl, ◌∙◌, ap, inl, inr, Bool, true, false, Bool-cases, Option, none, some, List, [],
  ◌∷◌, ◌++◌, if◌then◌else◌, String,
}
use gsky.Prelude.Int.{ℤ, sub_ℕ, ◌+ℤ◌}
use gsky.Prelude.Result.{Result, ok, err, panic, ◌>>=◌, Result-cases}
use gsky.Merger.Types.{Float64, FlexRaster}
use gsky.Fusion.{
  Raster, Request, Dep, get_flex_raster, is_in_range, layer_rasters, push_flex, push_all, set_norm,
  norm_for, deps_loop, or_empty, timestamp, process_deps,
}

module _ (fl : Float64) (of_unix : ℤ → fl.F) (band_name : ℕ → String) where
  open fl use {F}

  -- The rasters of a layer for the merger, from number j on, but for those that are empty tiles.
  unfoldable pub flexes :
      ℕ → ℤ → Request fl → Option (Raster F) → List (Raster F) → List (FlexRaster F)
  flexes j time req norm [] = []
  flexes j time req norm (r ∷ rs) =
      elim ((get_flex_raster fl of_unix band_name j time req r norm).0) [
        | none ↦ flexes (suc j) time req norm rs
        | some flex ↦ flex ∷ flexes (suc j) time req norm rs
      ]

  push_flex-elim :
      (j : ℕ) (time : ℤ) (req : Request fl) (norm : Option (Raster F)) (rs : List (Raster F))
      (rest : List (FlexRaster F))
      → ((done : List (FlexRaster F))
          → push_all fl of_unix band_name j time req norm rs (done, false) ≡ (done ++ rest, false))
      → (p : Option (FlexRaster F) × Bool) (done : List (FlexRaster F))
      → push_all fl of_unix band_name j time req norm rs
          (push_flex fl of_unix band_name p (done, false))
        ≡ (done ++ elim p.0 [ none ↦ rest | some flex ↦ flex ∷ rest ], false)
  push_flex-elim j time req norm rs rest ih (none, filled) done = ih done
  push_flex-elim j time req norm rs rest ih (some flex, true) done =
      ih (done ++ (flex ∷ [])) ∙ ap (λ l. (l, false)) (append_assoc done (flex ∷ []) rest)
  push_flex-elim j time req norm rs rest ih (some flex, false) done =
      ih (done ++ (flex ∷ [])) ∙ ap (λ l. (l, false)) (append_assoc done (flex ∷ []) rest)

  push_all-flexes :
      (j : ℕ) (time : ℤ) (req : Request fl) (norm : Option (Raster F)) (rs : List (Raster F))
      (done : List (FlexRaster F))
      → push_all fl of_unix band_name j time req norm rs (done, false)
        ≡ (done ++ flexes j time req norm rs, false)
  unfolding push_all flexes
  push_all-flexes j time req norm [] done = rw (append-nil done) refl
  push_all-flexes j time req norm (r ∷ rs) done =
      push_flex-elim (suc j) time req norm rs (flexes (suc j) time req norm rs)
        (push_all-flexes (suc j) time req norm rs)
        (get_flex_raster fl of_unix band_name j time req r norm) done

  module _ (scale : F → F → F → List (Raster F) → Result (List (Raster F))) where
    -- The rasters of the layers from number idx on, with the raster that sets the norm; the first
    -- failure is the result.
    unfoldable pub layers :
        ℤ → Request fl → ℕ → Option (Raster F) → List (Dep fl) → Result (List (FlexRaster F))
    layers time req idx norm [] = ok []
    layers time req idx norm (d ∷ ds) =
        let later = layers time req (suc idx) norm ds in
        if is_in_range fl req d.extent
        then (layer_rasters fl scale d d.answer >>= λ res. later >>= λ fs.
            ok (flexes 0 (time +ℤ sub_ℕ 0 idx) req (norm_for fl res.0 norm) res.1 ++ fs))
        else later

    abbrev pub norm_of : Result (Bool × List (Raster F)) → Option (Raster F)
    norm_of (ok (unscaled, rs)) = set_norm fl 0 unscaled rs none
    norm_of _ = none

    -- The raster that sets the norm: the first one of the first layer, if that is in range and not scaled.
    abbrev pub norm_raster : Request fl → List (Dep fl) → Option (Raster F)
    norm_raster req [] = none
    norm_raster req (d ∷ ds) =
        if is_in_range fl req d.extent then norm_of (layer_rasters fl scale d d.answer) else none

    append-later :
        (later : Result (List (FlexRaster F))) (done fs : List (FlexRaster F))
        → (later >>= λ gs. ok ((done ++ fs) ++ gs))
          ≡ ((later >>= λ gs. ok (fs ++ gs)) >>= λ gs. ok (done ++ gs))
    append-later (ok gs) done fs = ap ok (append_assoc done fs gs)
    append-later (err e) done fs = refl
    append-later panic done fs = refl

    with_nothing : (r : Result (List (FlexRaster F))) → (r >>= λ fs. ok ([] ++ fs)) ≡ r
    with_nothing (ok fs) = refl
    with_nothing (err e) = refl
    with_nothing panic = refl

    -- A layer in range, given what the loop does behind it.
    abbrev Behind : ℤ → Request fl → ℕ → Option (Raster F) → List (Dep fl) → Type 0
    Behind time req idx norm ds =
        (done : List (FlexRaster F))
        → deps_loop fl of_unix band_name scale time req (suc idx) norm done ds
          ≡ (layers time req (suc idx) norm ds >>= λ fs. ok (done ++ fs))

    layer-stacked :
        (time : ℤ) (req : Request fl) (idx : ℕ) (norm : Option (Raster F)) (ds : List (Dep fl))
        (unscaled : Bool) (rs : List (Raster F)) (done : List (FlexRaster F))
        → Behind time req idx norm ds
        → (let pushed =
              push_all fl of_unix band_name 0
                (time +ℤ sub_ℕ 0 idx)
                req
                (norm_for fl unscaled norm)
                rs
                (done, false) in
            if pushed.1
            then ok pushed.0
            else deps_loop fl of_unix band_name scale time req (suc idx) norm pushed.0 ds)
          ≡ ((layers time req (suc idx) norm ds >>= λ fs.
                ok (flexes 0 (time +ℤ sub_ℕ 0 idx) req (norm_for fl unscaled norm) rs ++ fs))
              >>= λ fs. ok (done ++ fs))
    layer-stacked time req idx norm ds unscaled rs done behind =
        let fs = flexes 0 (time +ℤ sub_ℕ 0 idx) req (norm_for fl unscaled norm) rs in
        rw (push_all-flexes 0 (time +ℤ sub_ℕ 0 idx) req (norm_for fl unscaled norm) rs done)
          (behind (done ++ fs) ∙ append-later (layers time req (suc idx) norm ds) done fs)

    -- Behind the first layer the raster that sets the norm stays the same.
    deps_loop-later :
        (time : ℤ) (req : Request fl) (idx : ℕ) (norm : Option (Raster F)) (ds : List (Dep fl))
        → Behind time req idx norm ds
    unfolding deps_loop layers
    deps_loop-later time req idx norm [] done = rw (append-nil done) refl
    deps_loop-later time req idx norm (d ∷ ds) done =
        elim (Bool-cases (is_in_range fl req d.extent)) [
          | inl inside ↦ elim (Result-cases (layer_rasters fl scale d d.answer)) [
            | inl ((unscaled, rs), e) ↦
                rw (inside, e)
                  (layer-stacked time req (suc idx) norm ds unscaled rs done
                    (deps_loop-later time req (suc idx) norm ds))
            | inr (inl (e, failure)) ↦ rw (inside, failure) refl
            | inr (inr failure) ↦ rw (inside, failure) refl
          ]
          | inr outside ↦ rw outside (deps_loop-later time req (suc idx) norm ds done)
        ]

    deps_loop-layers :
        (time : ℤ) (req : Request fl) (ds : List (Dep fl))
        → deps_loop fl of_unix band_name scale time req 0 none [] ds
          ≡ layers time req 0 (norm_raster req ds) ds
    unfolding deps_loop layers
    deps_loop-layers time req [] = refl
    deps_loop-layers time req (d ∷ ds) = elim (Bool-cases (is_in_range fl req d.extent)) [
      | inl inside ↦ elim (Result-cases (layer_rasters fl scale d d.answer)) [
        | inl ((unscaled, rs), e) ↦
            let norm = set_norm fl 0 unscaled rs none in
            rw (inside, e)
              (layer-stacked time req 0 norm ds unscaled rs [] (deps_loop-later time req 0 norm ds)
                ∙ with_nothing _)
        | inr (inl (e, failure)) ↦ rw (inside, failure) refl
        | inr (inr failure) ↦ rw (inside, failure) refl
      ]
      | inr outside ↦ rw outside (deps_loop-later time req 0 none ds [] ∙ with_nothing _)
    ]

    -- The rasters that are collected are those of all layers in range whose pipeline answers, in the
    -- order of the layers: the loop over the layers goes on behind a layer that fills every cell.
    pub process_deps-layers :
        (now : ℤ) (req : Request fl) (ds : List (Dep fl))
        → process_deps fl of_unix band_name scale now req ds ≡ (
            layers (timestamp fl now req.start_time) req 0 (norm_raster req ds) ds >>= λ fs.
            ok (or_empty fl of_unix band_name (timestamp fl now req.start_time) req fs))
    unfolding process_deps
    process_deps-layers now req ds =
        ap
          (λ r.
            r >>= λ fs. ok (or_empty fl of_unix band_name (timestamp fl now req.start_time) req fs))
          (deps_loop-layers (timestamp fl now req.start_time) req ds)
