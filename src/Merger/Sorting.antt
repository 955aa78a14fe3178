-- ===== src/Merger/Sorting.antt =====
-- How `RasterMerger.Run` sorts a batch: which rasters come to stand under which key of the stack.
use mathlib.Core.List.{append_assoc, append-nil}
use gsky.Prelude.{
  and-true, and-false, ◌≡◌, refl, sym, ◌∙◌, inl, inr, Bool, true, false, ◌&&◌, Bool-cases, Option,
  none, some, List, [], ◌∷◌, ◌++◌, if◌then◌else◌, All,
}
use gsky.Prelude.Result.{ok}
use gsky.Merger.Types.{Float64, FlexRaster, Mask}
use gsky.Merger.Mask.{compute_mask}
use gsky.Merger.Stack.{Stack, MaskMap, rasters_at}
use gsky.Merger.Run.{
  own_mask, geo_stamp, push_raster, put_mask, put_geom_mask, sort_masked, sort_raster, sort_batch,
}

module _ (fl : Float64) where
  open fl use {F, eq}

  -- A raster that is only a mask is not to be seen.
  abbrev pub is_drawn : Option Mask → Bool
  is_drawn none = true
  is_drawn (some m) = m.inclusive

  abbrev pub drawn_at : F → FlexRaster F → Bool
  drawn_at k r = eq (geo_stamp fl r) k && is_drawn (own_mask r.namespace r.mask)

  -- The rasters of a batch that are to be seen and have a stamp, in the order of the batch.
  unfoldable pub stamped : F → List (Option (FlexRaster F)) → List (FlexRaster F)
  stamped k [] = []
  stamped k (none ∷ rs) = stamped k rs
  stamped k (some r ∷ rs) = let rest = stamped k rs in if drawn_at k r then r ∷ rest else rest

  -- The equality of floats, which IEEE 754 makes symmetric and transitive, but not reflexive.
  module _ (eq_sym : (a b : F) → eq a b ≡ true → eq b a ≡ true)
      (eq_trans : (a b c : F) → eq a b ≡ true → eq b c ≡ true → eq a c ≡ true) where
    differ : (i j k : F) → eq i j ≡ false → eq i k ≡ true → eq j k ≡ false
    differ i j k hij hik = elim (Bool-cases (eq j k)) [
      | inl h ↦ let same : eq i j ≡ true = eq_trans i k j hik (eq_sym j k h) in absurd (cc)
      | inr h ↦ h
    ]

    agree : (i j k : F) → eq i j ≡ true → eq i k ≡ eq j k
    agree i j k h = elim (Bool-cases (eq i k)) [
      | inl e ↦ e ∙ sym (eq_trans j i k (eq_sym i j h) e)
      | inr e ↦ elim (Bool-cases (eq j k)) [
        | inl e' ↦ (let same : eq i k ≡ true = eq_trans i j k h e' in absurd (cc))
        | inr e' ↦ e ∙ sym e'
      ]
    ]

    rasters_at-push_raster :
        (k j : F) (r : FlexRaster F) (stack : Stack fl)
        → rasters_at fl k (push_raster fl j r stack)
          ≡ (if eq j k then rasters_at fl k stack ++ (r ∷ []) else rasters_at fl k stack)
    unfolding rasters_at push_raster
    rasters_at-push_raster k j r [] = refl
    rasters_at-push_raster k j r ((i, rs) ∷ stack) = elim (Bool-cases (eq i j)) [
      | inl h ↦
          rw (h, ← agree i j k h)
            (elim (Bool-cases (eq i k)) [ inl h' ↦ rw h' refl | inr h' ↦ rw h' refl ])
      | inr h ↦ rw h (elim (Bool-cases (eq i k)) [
        | inl h' ↦ rw (h', differ i j k h h') refl
        | inr h' ↦ rw h' (rasters_at-push_raster k j r stack)
      ])
    ]

    -- The mask of a raster that has one can be computed.
    abbrev pub HasMask : FlexRaster F → Option Mask → Type 0
    HasMask r none = Unit
    HasMask r (some m) = (mask : List Bool) × (compute_mask m r.bytes r.raster_type ≡ ok mask)

    abbrev pub Computes : Option (FlexRaster F) → Type 0
    Computes none = Unit
    Computes (some r) = HasMask r (own_mask r.namespace r.mask)

    sort_masked-pushes :
        (r : FlexRaster F) (o : Option Mask) (masks : MaskMap fl) (stack : Stack fl)
        → HasMask r o
        → (masks' : MaskMap fl) × (stack' : Stack fl) × (sort_masked fl r o masks stack
            ≡ ok (masks', stack'))
          × ((k : F)
              → rasters_at fl k stack' ≡ (
                  if eq (geo_stamp fl r) k && is_drawn o
                  then rasters_at fl k stack ++ (r ∷ [])
                  else rasters_at fl k stack))
    unfolding sort_masked
    sort_masked-pushes r none masks stack h = (
      put_geom_mask fl (geo_stamp fl r) r.geom_mask masks,
      push_raster fl (geo_stamp fl r) r stack,
      refl,
      λ k.
          rw (and-true (eq (geo_stamp fl r) k)) (rasters_at-push_raster k (geo_stamp fl r) r stack),
    )
    sort_masked-pushes r (some m) masks stack (mask, h) = elim (Bool-cases m.inclusive) [
      | inl shown ↦ (
        put_geom_mask fl (geo_stamp fl r) r.geom_mask (put_mask fl (geo_stamp fl r) mask masks),
        push_raster fl (geo_stamp fl r) r stack,
        rw (h, shown) refl,
        λ k.
            rw (shown, and-true (eq (geo_stamp fl r) k))
              (rasters_at-push_raster k (geo_stamp fl r) r stack),
      )
      | inr hidden ↦ (
        put_mask fl (geo_stamp fl r) mask masks,
        stack,
        rw (h, hidden) refl,
        λ k. rw (hidden, and-false (eq (geo_stamp fl r) k)) refl,
      )
    ]

    sort_batch-from :
        (batch : List (Option (FlexRaster F))) (masks : MaskMap fl) (stack : Stack fl)
        → All Computes batch
        → (masks' : MaskMap fl) × (stack' : Stack fl) × (sort_batch fl batch masks stack
            ≡ ok (masks', stack'))
          × ((k : F) → rasters_at fl k stack' ≡ rasters_at fl k stack ++ stamped k batch)
    unfolding sort_batch sort_raster stamped
    sort_batch-from [] masks stack h =
        (masks, stack, refl, λ k. sym (append-nil (rasters_at fl k stack)))
    sort_batch-from (none ∷ batch) masks stack (_, h) = sort_batch-from batch masks stack h
    sort_batch-from (some r ∷ batch) masks stack (hr, h) =
        let (masks₁, stack₁, run, at) =
          sort_masked-pushes r (own_mask r.namespace r.mask) masks stack hr in
        let (masks', stack', runs, all) = sort_batch-from batch masks₁ stack₁ h in
        (
          masks',
          stack',
          rw run runs,
          λ k. all k ∙ rw (at k) (joins (drawn_at k r) (rasters_at fl k stack) (stamped k batch)),
        )
      where
        joins :
            (b : Bool) (before rest : List (FlexRaster F))
            → (if b then before ++ (r ∷ []) else before) ++ rest
              ≡ before ++ (if b then r ∷ rest else rest)
        joins true before rest = append_assoc before (r ∷ []) rest
        joins false before rest = refl

    -- Where equality of stamps is symmetric and transitive, and the mask of every raster that has one
    -- can be computed, a batch is sorted without an error, and under every stamp the stack then holds the rasters of the batch that have the stamp
    -- and are not a mask only, in the order of the batch.
    pub sort_batch-stamped :
        (batch : List (Option (FlexRaster F)))
        → All Computes batch
        → (masks : MaskMap fl) × (stack : Stack fl) × (sort_batch fl batch [] []
            ≡ ok (masks, stack))
          × ((k : F) → rasters_at fl k stack ≡ stamped k batch)
    unfolding rasters_at
    sort_batch-stamped batch h = sort_batch-from batch [] [] h
