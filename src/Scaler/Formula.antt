-- ===== src/Scaler/Formula.antt =====
-- What `scale` makes of a sample, as a formula, with the least and the greatest sample of a raster.
use gsky.Prelude.{
  ℕ, ◌≡◌, refl, sym, ap, ◌∙◌, Bool, Bool-cases, true, false, ◌&&◌, Option, none, some, List, [],
  ◌∷◌, inl, inr, if◌then◌else◌,
}
use gsky.Scaler.{
  Floats, ScaleParams, Kind, Shading, extremes, auto_shading, shading, used, clamped, pixel,
}

module _ (fl : Floats) (k : Kind fl) where
  open fl use {F, lt}
  open k use {V, eq_v, lt_v, add_v, zero_v, of_f, of_d, to_f, prepare}

  -- The samples that are not no data, as floats.
  abbrev pub valid_or : Option V → List F → List F
  valid_or none xs = xs
  valid_or (some v) xs = to_f v ∷ xs

  abbrev pub valid : V → List V → List F
  valid nodata [] = []
  valid nodata (v ∷ vs) = valid_or (if eq_v v nodata then none else prepare v) (valid nodata vs)

  abbrev pub least : F → List F → F
  least m [] = m
  least m (x ∷ xs) = least (if lt x m then x else m) xs

  abbrev pub greatest : F → List F → F
  greatest m [] = m
  greatest m (x ∷ xs) = greatest (if lt m x then x else m) xs

  -- Where the search for them begins: the first sample, or 0 if that is no data.
  abbrev pub begin_at : Option V → F
  begin_at none = fl.zero_f
  begin_at (some v) = to_f v

  abbrev pub begin : V → List V → F
  begin nodata [] = fl.zero_f
  begin nodata (v ∷ vs) = begin_at (if eq_v v nodata then none else prepare v)

  abbrev pub low : V → List V → F
  low nodata vs = least (begin nodata vs) (valid nodata vs)

  -- A tenth more than the least sample, if all are the same.
  abbrev pub high : V → List V → F
  high nodata vs =
      let top = greatest (begin nodata vs) (valid nodata vs) in
      if fl.eq (low nodata vs) top then fl.add top fl.tenth_f else top

  -- Without a scale, a clip and an offset the samples are spread over the bytes.
  abbrev pub spreads : ScaleParams fl → Bool
  spreads params =
      fl.eq_d params.scale fl.zero_d
      && (fl.eq_d params.clip fl.zero_d && fl.eq_d params.offset fl.zero_d)

  abbrev pub factor_of : ScaleParams fl → V → List V → F
  factor_of params nodata vs =
      if spreads params
      then fl.div fl.shades_f (fl.sub (high nodata vs) (low nodata vs))
      else if fl.le (fl.narrow params.scale) fl.zero_f
      then (if fl.le_d params.clip fl.zero_d
          then fl.one_f
          else fl.div fl.shades_f (fl.narrow params.clip))
      else fl.narrow params.scale

  abbrev pub offset_of : ScaleParams fl → V → List V → V
  offset_of params nodata vs =
      if spreads params then of_f (fl.neg (low nodata vs)) else of_d params.offset

  abbrev pub clip_of : ScaleParams fl → V → List V → V
  clip_of params nodata vs =
      if spreads params
      then of_f (fl.add (high nodata vs) (fl.neg (low nodata vs)))
      else of_d params.clip

  -- Between the lower and the upper bound.
  abbrev pub within : V → V → V → V
  within lower upper v =
      let w = if lt_v upper v then upper else v in if lt_v w lower then lower else w

  abbrev pub shade_of : F → V → V → Option V → ℕ
  shade_of factor offset clip none = 255
  shade_of factor offset clip (some v) =
      fl.to_byte (fl.add (fl.mul (to_f (within zero_v clip (add_v v offset))) factor) fl.half_f)

  -- 255 for no data, and else the sample with the offset, cut to the clip, times the factor.
  abbrev pub shade : ScaleParams fl → V → List V → V → ℕ
  shade params nodata vs v =
      shade_of (factor_of params nodata vs) (offset_of params nodata vs) (clip_of params nodata vs)
        (if eq_v v nodata then none else prepare v)

  extremes-rest :
      (nodata : V) (vs : List V) (a b : F)
      → extremes fl k nodata false vs a b
        ≡ (least a (valid nodata vs), greatest b (valid nodata vs))
  unfolding extremes
  extremes-rest nodata [] a b = refl
  extremes-rest nodata (v ∷ vs) a b = go (extremes-rest nodata vs) (used fl k nodata v)
    where
      go :
          ((a b : F)
            → extremes fl k nodata false vs a b
              ≡ (least a (valid nodata vs), greatest b (valid nodata vs)))
          → (o : Option V)
          → (elim o as (λ o. F × F) [
            | none ↦ extremes fl k nodata false vs a b
            | some w ↦
                extremes fl k nodata false vs
                  (if lt (to_f w) a then to_f w else a)
                  (if lt b (to_f w) then to_f w else b)
          ])
            ≡ (least a (valid_or o (valid nodata vs)), greatest b (valid_or o (valid nodata vs)))
      go rest none = rest a b
      go rest (some w) = rest _ _

  same_if : {A : Type 0} (b : Bool) (x : A) → (if b then x else x) ≡ x
  same_if true x = refl
  same_if false x = refl

  extremes-low :
      (nodata : V) (vs : List V)
      → extremes fl k nodata true vs fl.zero_f fl.zero_f
        ≡ (low nodata vs, greatest (begin nodata vs) (valid nodata vs))
  unfolding extremes
  extremes-low nodata [] = refl
  extremes-low nodata (v ∷ vs) = go (used fl k nodata v)
    where
      go :
          (o : Option V)
          → (elim o as (λ o. F × F) [
            | none ↦ extremes fl k nodata false vs fl.zero_f fl.zero_f
            | some w ↦ extremes fl k nodata false vs (to_f w) (to_f w)
          ])
            ≡ (
              least (begin_at o) (valid_or o (valid nodata vs)),
              greatest (begin_at o) (valid_or o (valid nodata vs)),
            )
      go none = extremes-rest nodata vs fl.zero_f fl.zero_f
      go (some w) =
          extremes-rest nodata vs (to_f w) (to_f w)
          ∙ ap (λ m. (least m (valid nodata vs), greatest m (valid nodata vs)))
              (sym (same_if (lt (to_f w) (to_f w)) (to_f w)))

  shading-formula :
      (params : ScaleParams fl) (nodata : V) (vs : List V)
      → shading fl k params nodata vs ≡ record {
        factor = factor_of params nodata vs;
        offset = offset_of params nodata vs;
        clip = clip_of params nodata vs;
      }
  unfolding shading
  shading-formula params nodata vs = elim (Bool-cases (spreads params)) [
    | inl e ↦ rw e (ap (auto_shading fl k) (extremes-low nodata vs))
    | inr e ↦ rw e refl
  ]

  pixel-shade :
      (sh : Shading fl k) (nodata v : V)
      → pixel fl k sh nodata v
        ≡ shade_of sh.factor sh.offset sh.clip (if eq_v v nodata then none else prepare v)
  unfolding pixel clamped
  pixel-shade sh nodata v = go (used fl k nodata v)
    where
      go :
          (o : Option V)
          → (elim o as (λ o. ℕ) [
            | none ↦ 255
            | some w ↦ fl.to_byte (fl.add (fl.mul (to_f (clamped fl k sh w)) sh.factor) fl.half_f)
          ])
            ≡ shade_of sh.factor sh.offset sh.clip o
      go none = refl
      go (some w) = refl

  pub pixel-formula :
      (params : ScaleParams fl) (nodata : V) (vs : List V) (v : V)
      → pixel fl k (shading fl k params nodata vs) nodata v ≡ shade params nodata vs v
  pixel-formula params nodata vs v =
      pixel-shade (shading fl k params nodata vs) nodata v
      ∙ ap
          (λ (sh : Shading fl k).
            shade_of sh.factor sh.offset sh.clip (if eq_v v nodata then none else prepare v))
          (shading-formula params nodata vs)
