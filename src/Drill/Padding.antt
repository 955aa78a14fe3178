-- ===== src/Drill/Padding.antt =====
-- The deciles of few values: each round of the padding counts one of them.
use gsky.Prelude.{
  ℕ, zero, suc, ◌+◌, ◌%◌, ◌≤◌, ◌<◌, ◌≡◌, refl, ◌∙◌, inl, inr, Option-cases, false, some, List, [],
  ◌∷◌, arith, ◌==◌, length, get_elem?, write-set, set, length-set, ◌>>=◌, replicate,
}
use gsky.Drill.Numbers.{Floats}
use gsky.Drill.Deciles.{bump, pad, repeat_value, spread}

abbrev pub sum : List ℕ → ℕ
sum [] = 0
sum (n ∷ ns) = n + sum ns

pub sum-replicate : (n : ℕ) → sum (replicate n 0) ≡ 0
sum-replicate zero = refl
sum-replicate (suc n) = omega (arith, sum-replicate n)

bump-suc :
    (idx p : ℕ) (padding : List ℕ)
    → bump (suc idx) (p ∷ padding) ≡ (bump idx padding >>= λ q. some (p ∷ q))
unfolding bump
bump-suc idx p padding = elim (Option-cases (get_elem? padding idx)) [
  | inl e ↦ rw e
  | inr (c, e) ↦ rw e
]

bump-sum :
    (idx : ℕ) (padding : List ℕ)
    → idx < length padding
    → (padding' : List ℕ) × (bump idx padding ≡ some padding')
      × (sum padding' ≡ sum padding + 1)
      × (length padding' ≡ length padding)
unfolding bump
bump-sum idx [] h = absurd (omega arith)
bump-sum zero (p ∷ padding) h = ((p + 1) ∷ padding, refl, omega arith, refl)
bump-sum (suc idx) (p ∷ padding) h =
    let (q, run, total, same) = bump-sum idx padding (omega arith) in
    (p ∷ q, bump-suc idx p padding ∙ rw run, omega arith, omega arith)

positive : (n : ℕ) → 0 < n → (n == 0) ≡ false
positive n h = ground arith

pub pad-sum :
    (len n i : ℕ) (padding : List ℕ)
    → 0 < len
    → length padding ≡ len
    → (padding' : List ℕ) × (pad len n i padding ≡ some padding')
      × (sum padding' ≡ sum padding + n)
      × (length padding' ≡ len)
unfolding pad
pad-sum len zero i padding h e = (padding, refl, omega arith, e)
pad-sum len (suc n) i padding h e =
    let (p₁, run, total, same) = bump-sum (i % len) padding (omega arith) in
    let (p₂, runs, totals, sames) = pad-sum len n (i + 1) p₁ h (omega arith) in
    (p₂, rw (positive len h, run) runs, omega arith, sames)

module _ (fl : Floats) where
  open fl use {F}

  repeat_value-length :
      (val : F) (p idx : ℕ) (deciles : List F)
      → idx + p ≤ length deciles
      → (deciles' : List F) × (repeat_value fl val p idx deciles ≡ some deciles')
        × (length deciles' ≡ length deciles)
  unfolding repeat_value
  repeat_value-length val zero idx deciles h = (deciles, refl, refl)
  repeat_value-length val (suc p) idx deciles h =
      let (ds, run, n) =
        repeat_value-length val p (idx + 1) (set deciles idx val)
          (omega (arith, length-set deciles idx val)) in
      (
        ds,
        rw (write-set deciles idx val (omega arith)) run,
        omega (arith, length-set deciles idx val),
      )

  pub spread-length :
      (buf : List F) (padding : List ℕ) (idx : ℕ) (deciles : List F)
      → idx + sum padding ≤ length deciles
      → (deciles' : List F) × (spread fl buf padding idx deciles ≡ some deciles')
        × (length deciles' ≡ length deciles)
  unfolding spread
  spread-length [] padding idx deciles h = (deciles, refl, refl)
  spread-length (x ∷ buf) [] idx deciles h = spread-length buf [] idx deciles h
  spread-length (x ∷ buf) (p ∷ padding) idx deciles h =
      let (ds, run, n) = repeat_value-length x p idx deciles (omega arith) in
      let (ds', runs, m) = spread-length buf padding (idx + p) ds (omega (arith, n)) in
      (ds', rw run runs, omega arith)
