-- ===== src/Merger/Order.antt =====
-- `ProcessRasterStack` on a batch of one namespace: the newest raster with data is seen, of several that
-- are as new the last.
use text.Mathlib.TextPositions.{eq_refl}
use gsky.Prelude.{
  get_elem?-replicate, ℕ, zero, suc, ◌+◌, ◌*◌, ◌/◌, ◌%◌, ◌≤◌, ◌<◌, ◌≡◌, ◌≢◌, refl, sym, ap, subst,
  inl, inr, Option-cases, ◌∙◌, Bool, true, false, Option, none, some, List, [], ◌∷◌, ◌++◌, String,
  arith, if◌then◌else◌, length, length-replicate, get_elem?, replicate, map, All, All-append_split,
  Bytes,
}
use gsky.Prelude
use gsky.Prelude.Result.{Result, ok, or_panic, ◌>>=◌}
use gsky.Merger.Types.{
  Float64, FlexRaster, RasterType, int16, uint16, float32, other, words, words2, words4, sample_eq,
}
use gsky.Merger.Merge.{
  CanvasMap, find_canvas, set_canvas, sample_bytes, fill_bytes, init_no_data_slice, merge_into,
  merge_typed, by_type, merge_masked_raster,
}
use gsky.Merger.Newest.{
  Layer, merge_layers, first_shown, last_shown, IsLayer, IsOlder, IsSame, cell, time_after,
  merge_layers-newest,
}
use gsky.Merger.Filled.{or_else, or_no_data}
use gsky.Merger.Stack.{
  Stack, MaskMap, rasters_at, mask_at, delete_at, sort_keys, new_canvas, with_canvas, mask_for,
  process_group, process_keys, process_raster_stack,
}

-- A slice of no data, seen as samples.
words-fill_bytes : (t : RasterType) (w n : ℕ) → words t (fill_bytes t w n) ≡ replicate n w
unfolding words fill_bytes sample_bytes words2 words4
words-fill_bytes int16 w zero = refl
words-fill_bytes uint16 w zero = refl
words-fill_bytes float32 w zero = refl
words-fill_bytes _ w zero = refl
words-fill_bytes int16 w (suc n) = ground (arith, words-fill_bytes int16 w n)
words-fill_bytes uint16 w (suc n) = ground (arith, words-fill_bytes uint16 w n)
words-fill_bytes float32 w (suc n) = ground (arith, words-fill_bytes float32 w n)
words-fill_bytes t w (suc n) = ap (λ s. w ∷ s) (words-fill_bytes t w n)

module _ (fl : Float64) where
  open fl use {F, lt, sample}

  -- The layers of a group of rasters, and of the groups in the order of the keys.
  unfoldable pub group_layers : List (FlexRaster F) → Option (List Bool) → List (Layer fl)
  group_layers [] mask = []
  group_layers (r ∷ rs) mask = (r, mask_for fl r mask) ∷ group_layers rs mask

  unfoldable pub key_layers : List F → Stack fl → MaskMap fl → List (Layer fl)
  key_layers [] stack masks = []
  key_layers (k ∷ ks) stack masks =
      group_layers (rasters_at fl k stack) (mask_at fl k masks)
      ++ key_layers ks (delete_at fl k stack) masks

  -- The batch has one namespace, and its rasters have a type that can be merged.
  abbrev pub InNamespace : String → Layer fl → Type 0
  InNamespace ns l = (l.0.namespace ≡ ns) × (l.0.raster_type ≢ other)

  by_type-typed : (t : RasterType) (m : Result (CanvasMap F)) → t ≢ other → by_type fl t m ≡ m
  unfolding by_type
  by_type-typed other m h = absurd (h refl)
  by_type-typed _ m h = refl

  find_canvas-found :
      (ns : String) (r c : FlexRaster F)
      → r.namespace ≡ ns
      → find_canvas r.namespace ((ns, c) ∷ []) ≡ some c
  unfolding find_canvas
  find_canvas-found ns r c e = ap (λ n. find_canvas n ((ns, c) ∷ [])) e ∙ rw eq_refl

  with_canvas-found :
      (ns : String) (r c : FlexRaster F)
      → r.namespace ≡ ns
      → with_canvas fl r ((ns, c) ∷ []) ≡ (ns, c) ∷ []
  unfolding with_canvas
  with_canvas-found ns r c e = rw (find_canvas-found ns r c e)

  set_canvas-found :
      (ns : String) (r c c' : FlexRaster F)
      → r.namespace ≡ ns
      → set_canvas r.namespace c' ((ns, c) ∷ []) ≡ (ns, c') ∷ []
  unfolding set_canvas
  set_canvas-found ns r c c' e = ap (λ n. set_canvas n c' ((ns, c) ∷ [])) e ∙ rw eq_refl

  merge_masked_raster-found :
      (ns : String) (r : FlexRaster F) (mask : List Bool) (c c' : FlexRaster F)
      → InNamespace ns (r, mask)
      → merge_into fl r c mask ≡ some c'
      → merge_masked_raster fl r ((ns, c) ∷ []) mask ≡ ok ((ns, c') ∷ [])
  unfolding merge_masked_raster merge_typed
  merge_masked_raster-found ns r mask c c' (e, typed) run =
      by_type-typed r.raster_type _ typed
      ∙ rw (find_canvas-found ns r c e, run, set_canvas-found ns r c c' e)

  process_group-layers :
      (ns : String) (rs : List (FlexRaster F)) (mask : Option (List Bool)) (c c' : FlexRaster F)
      → All (InNamespace ns) (group_layers rs mask)
      → merge_layers fl (group_layers rs mask) c ≡ some c'
      → process_group fl rs mask ((ns, c) ∷ []) ≡ ok ((ns, c') ∷ [])
  unfolding process_group group_layers merge_layers
  process_group-layers ns [] mask c c' h e =
      ap (λ o. or_panic (Prelude.◌>>=◌ o (λ d. some ((ns, d) ∷ [])))) e
  process_group-layers ns (r ∷ rs) mask c c' (hr, hs) e =
      elim (Option-cases (merge_into fl r c (mask_for fl r mask))) [
        | inl bad ↦ (let e' = rw bad at e in cc)
        | inr (c₁, good) ↦
            rw
              (
                with_canvas-found ns r c hr.0,
                merge_masked_raster-found ns r (mask_for fl r mask) c c₁ hr good,
              )
              (process_group-layers ns rs mask c₁ c' hs (rw good at e))
      ]

  merge_layers-append :
      (xs ys : List (Layer fl)) (c c' : FlexRaster F)
      → merge_layers fl (xs ++ ys) c ≡ some c'
      → (c₁ : FlexRaster F) × (merge_layers fl xs c ≡ some c₁) × (merge_layers fl ys c₁ ≡ some c')
  unfolding merge_layers
  merge_layers-append [] ys c c' e = (c, refl, e)
  merge_layers-append ((r, mask) ∷ xs) ys c c' e = elim (Option-cases (merge_into fl r c mask)) [
    | inl bad ↦ (let e' = rw bad at e in absurd (cc))
    | inr (c₁, good) ↦
        let (c₂, e₁, e₂) = merge_layers-append xs ys c₁ c' (rw good at e) in (c₂, rw good e₁, e₂)
  ]

  process_keys-layers :
      (ns : String) (ks : List F) (stack : Stack fl) (masks : MaskMap fl) (c c' : FlexRaster F)
      → All (InNamespace ns) (key_layers ks stack masks)
      → merge_layers fl (key_layers ks stack masks) c ≡ some c'
      → (rest : Stack fl) × (process_keys fl ks stack masks ((ns, c) ∷ [])
          ≡ ok ((ns, c') ∷ [], rest))
  unfolding process_keys key_layers merge_layers
  process_keys-layers ns [] stack masks c c' h e =
      (stack, ap (λ o. or_panic (Prelude.◌>>=◌ o (λ d. some ((ns, d) ∷ [], stack)))) e)
  process_keys-layers ns (k ∷ ks) stack masks c c' h e =
      let group = group_layers (rasters_at fl k stack) (mask_at fl k masks) in
      let (hg, hs) =
        All-append_split (InNamespace ns) group (key_layers ks (delete_at fl k stack) masks) h in
      let (c₁, e₁, e₂) =
        merge_layers-append group (key_layers ks (delete_at fl k stack) masks) c c' e in
      let (rest, run) = process_keys-layers ns ks (delete_at fl k stack) masks c₁ c' hs e₂ in
      (
        rest,
        rw (process_group-layers ns (rasters_at fl k stack) (mask_at fl k masks) c c₁ hg e₁) run,
      )

  -- The first raster of a batch makes the canvas.
  process_group-starts :
      (ns : String) (r : FlexRaster F) (rs : List (FlexRaster F)) (mask : Option (List Bool))
      → r.namespace ≡ ns
      → process_group fl (r ∷ rs) mask []
        ≡ process_group fl (r ∷ rs) mask ((ns, new_canvas fl r) ∷ [])
  unfolding process_group with_canvas find_canvas set_canvas
  process_group-starts ns r rs mask e =
      ap (λ m. merge_masked_raster fl r m (mask_for fl r mask) >>= process_group fl rs mask)
        (ap (λ n. (n, new_canvas fl r) ∷ []) e ∙ sym (with_canvas-found ns r (new_canvas fl r) e))

  abbrev first_raster : FlexRaster F → List (Layer fl) → FlexRaster F
  first_raster r [] = r
  first_raster r (l ∷ _) = l.0

  process_keys-starts :
      (ns : String) (ks : List F) (stack : Stack fl) (masks : MaskMap fl) (l : Layer fl)
      (layers : List (Layer fl))
      → l.0.namespace ≡ ns
      → key_layers ks stack masks ≡ l ∷ layers
      → process_keys fl ks stack masks []
        ≡ process_keys fl ks stack masks ((ns, new_canvas fl l.0) ∷ [])
  unfolding process_keys key_layers process_group group_layers
  process_keys-starts ns [] stack masks l layers e h = absurd (cc)
  process_keys-starts ns (k ∷ ks) stack masks l layers e h =
      by_group (rasters_at fl k stack) h
        (process_keys-starts ns ks (delete_at fl k stack) masks l layers e)
    where
      by_group :
          (rs : List (FlexRaster F))
          → group_layers rs (mask_at fl k masks) ++ key_layers ks (delete_at fl k stack) masks
            ≡ l ∷ layers
          → (key_layers ks (delete_at fl k stack) masks ≡ l ∷ layers
              → process_keys fl ks (delete_at fl k stack) masks []
                ≡ process_keys fl ks (delete_at fl k stack) masks ((ns, new_canvas fl l.0) ∷ []))
          → (process_group fl rs (mask_at fl k masks) []
              >>= process_keys fl ks (delete_at fl k stack) masks)
            ≡ (process_group fl rs (mask_at fl k masks) ((ns, new_canvas fl l.0) ∷ [])
                >>= process_keys fl ks (delete_at fl k stack) masks)
      by_group [] h' rest = rest h'
      by_group (r ∷ rs) h' rest =
          let same : r ≡ l.0 = ap (first_raster r) h' in
          ap (λ m. m >>= process_keys fl ks (delete_at fl k stack) masks)
            (process_group-starts ns r rs (mask_at fl k masks) (ap (λ q. q.namespace) same ∙ e)
              ∙ ap
                  (λ q. process_group fl (r ∷ rs) (mask_at fl k masks) ((ns, new_canvas fl q) ∷ []))
                  same)

  new_canvas-words :
      (t : RasterType) (r : FlexRaster F)
      → r.raster_type ≡ t
      → r.raster_type ≢ other
      → words t (new_canvas fl r).bytes ≡ replicate (r.width * r.height) (sample t r.no_data)
  unfolding new_canvas init_no_data_slice
  new_canvas-words t r e typed = rw e (filled t (rw (← e) typed))
    where
      filled :
          (s : RasterType)
          → s ≢ other
          → words s (init_no_data_slice fl s r.no_data (r.width * r.height))
            ≡ replicate (r.width * r.height) (sample s r.no_data)
      filled other h = absurd (h refl)
      filled s h = words-fill_bytes s (sample s r.no_data) (r.width * r.height)

  -- A batch whose rasters belong to one namespace that has no canvas yet, are of a known type, and fit
  -- a canvas of the width and height of the one that is merged first. Those merged next have the time
  -- that the canvas has after that first one, and then come older ones. The batch is then processed
  -- without an error or a panic, the namespace gets one canvas, and each of its cells shows the sample
  -- of the last raster of the newest time that has one to show there: data that its mask lets
  -- through. Where none has, it shows that of the first older raster, in the order of the merge, that
  -- has one, and else no data. The no-data sample equals itself, so it is no NaN.
  pub process_raster_stack-newest :
      (t : RasterType) (no_data width size : ℕ) (ns : String) (stack : Stack fl)
      (masks : MaskMap fl) (l : Layer fl) (newest olders : List (Layer fl))
      → key_layers (sort_keys fl (map (λ e. e.0) stack)) stack masks ≡ l ∷ (newest ++ olders)
      → l.0.width * l.0.height ≡ size
      → sample_eq t no_data no_data ≡ true
      → All (InNamespace ns) (l ∷ (newest ++ olders))
      → All (IsLayer fl t no_data width size) (l ∷ newest)
      → All (IsLayer fl t no_data width size) olders
      → All
          (IsSame fl t no_data width size
            (time_after fl t no_data width size l (new_canvas fl l.0)))
          newest
      → All
          (IsOlder fl t no_data width size
            (time_after fl t no_data width size l (new_canvas fl l.0)))
          olders
      → (canvas : FlexRaster F) × (rest : Stack fl) × (process_raster_stack fl stack masks []
          ≡ ok ((ns, canvas) ∷ [], rest))
        × ((y x : ℕ)
            → x < width
            → y * width + x < size
            → cell fl t width canvas y x
              ≡ some (
                  or_no_data
                    (or_else (last_shown fl (l ∷ newest) y x) (first_shown fl olders y x))
                    no_data))
  unfolding process_raster_stack
  process_raster_stack-newest t no_data width size ns stack masks l newest olders ek es self hns hn
        hl hs ho =
      let blank : words t (new_canvas fl l.0).bytes ≡ replicate size no_data =
        new_canvas-words t l.0 hn.0.same_type hns.0.1 ∙ rw (es, hn.0.same_no_data) refl in
      let (canvas, run, cells) =
        merge_layers-newest fl t no_data width size l newest olders (new_canvas fl l.0)
          (rw blank (length-replicate size no_data)) self
          (λ y x q inside. rw blank (get_elem?-replicate size (y * width + x) no_data inside)) hn hl
          hs ho in
      let ks = sort_keys fl (map (λ e. e.0) stack) in
      let (rest, runs) =
        process_keys-layers ns ks stack masks (new_canvas fl l.0) canvas (rw ek hns) (rw ek run) in
      (
        canvas,
        rest,
        process_keys-starts ns ks stack masks l (newest ++ olders) hns.0.0 ek ∙ runs,
        cells,
      )
