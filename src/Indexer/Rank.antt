-- ===== src/Indexer/Rank.antt =====
-- The counters of the axes as the digits of a number, to which `advance` adds one.
use native.Mathlib.Nat.{mul-le-mul_right, zero-mul, suc-mul, add-suc}
use gsky.Prelude.{
  ℕ, suc, ◌+◌, ◌*◌, ◌≤◌, ◌<◌, ◌≡◌, refl, sym, ap, ap₂, ◌∙◌, Bool-cases, List, [], ◌∷◌, arith, leb,
  inl, inr, length, map, All,
}
use gsky.Indexer.Axes.{Coords, DatasetAxis}
use gsky.Indexer.Granules.{Wheel, size, advance, combinations}

step_up : (c s m : ℕ) (r : ℕ) → c < s → r < m → c * m + r < s * m
step_up c s m r h q = let e : suc c * m ≤ s * m = mul-le-mul_right m h in grind arith

carried :
    (c s m r r' n : ℕ)
    → n * m + r' ≡ suc r
    → r < s * m
    → s ≤ n
    → suc c * (s * m) + (0 * m + r') ≡ suc (c * (s * m) + r)
carried c s m r r' n e h q =
    let le : s * m ≤ n * m = mul-le-mul_right m q in omega (arith, zero-mul m, suc-mul c (s * m))

module _ (co : Coords) where
  abbrev pub axes_of : List (Wheel co) → List (DatasetAxis co)
  axes_of wheels = map Wheel.axis wheels

  abbrev pub Inside : List (Wheel co) → Type 0
  Inside wheels = All (λ w. w.count < size co w) wheels

  -- The place of a combination: the number whose digits are the counters.
  unfoldable pub rank : List (Wheel co) → ℕ
  rank [] = 0
  rank (w ∷ wheels) = w.count * combinations co (axes_of wheels) + rank wheels

  pub rank-lt :
      (wheels : List (Wheel co)) → Inside wheels → rank wheels < combinations co (axes_of wheels)
  unfolding rank combinations
  rank-lt [] h = omega arith
  rank-lt (w ∷ wheels) (hw, h) =
      step_up w.count (size co w) (combinations co (axes_of wheels)) (rank wheels) hw
        (rank-lt wheels h)

  pub advance-rank :
      (w : Wheel co) (wheels : List (Wheel co))
      → Inside (w ∷ wheels)
      → (w' : Wheel co) × (wheels' : List (Wheel co)) × (advance co (w ∷ wheels) ≡ w' ∷ wheels')
        × (w'.axis ≡ w.axis)
        × (axes_of wheels' ≡ axes_of wheels)
        × Inside wheels'
        × (rank (w' ∷ wheels') ≡ suc (rank (w ∷ wheels)))
  unfolding advance rank combinations
  advance-rank w [] h =
      (record w { count = suc w.count }, [], refl, refl, refl, record {}, omega arith)
  advance-rank w (v ∷ vs) (hw, (hv, h)) =
      let (v', vs', run, same, axes, inside, next) = advance-rank v vs (hv, h) in
      let as_long : length v'.axis.picked.idx ≡ length v.axis.picked.idx =
        ap (λ a. length a.picked.idx) same in
      let as_many : combinations co (axes_of vs') ≡ combinations co (axes_of vs) =
        ap (combinations co) axes in
      let next' : v'.count * combinations co (axes_of vs) + rank vs' ≡ suc (rank (v ∷ vs)) =
        ap (λ m. v'.count * m + rank vs') (sym as_many) ∙ next in
      elim (Bool-cases (leb (size co v') v'.count)) [
        | inl full ↦
            let reached : size co v ≤ v'.count = ground arith in
            (
              record w { count = suc w.count },
              record v' { count = 0 } ∷ vs',
              rw (run, full) refl,
              refl,
              ap₂ (λ a rest. a ∷ rest) same axes,
              (omega (arith, hv, as_long), inside),
              rw (as_long, as_many)
                  (carried w.count (size co v) (combinations co (axes_of vs)) (rank (v ∷ vs))
                    (rank vs') v'.count next' (rank-lt (v ∷ vs) (hv, h)) reached),
            )
        | inr room ↦ (
          w,
          v' ∷ vs',
          rw (run, room) refl,
          refl,
          ap₂ (λ a rest. a ∷ rest) same axes,
          (ground arith, inside),
          ap (λ m. w.count * m + rank (v' ∷ vs')) (ap₂ (λ n m. n * m) as_long as_many)
              ∙ ap (λ r. w.count * combinations co (axes_of (v ∷ vs)) + r) next
              ∙ add-suc _ _,
        )
      ]

  pub rank-over :
      (w : Wheel co) (wheels : List (Wheel co))
      → size co w ≤ w.count
      → combinations co (axes_of (w ∷ wheels)) ≤ rank (w ∷ wheels)
  unfolding rank combinations
  rank-over w wheels h =
      let le : size co w * combinations co (axes_of wheels)
          ≤ w.count * combinations co (axes_of wheels) =
        mul-le-mul_right (combinations co (axes_of wheels)) h in
      omega (arith, le)
