-- ===== src/Drill/Deciles.antt =====
-- `computeDeciles` of worker/gdalprocess/drill.go; `none` is a run-time panic.
use gsky.Prelude.{
  ℕ, zero, suc, ◌+◌, ◌*◌, ◌/◌, ◌%◌, Bool, Option, none, some, List, [], ◌∷◌, ltb, ◌==◌,
  if◌then◌else◌, length, get_elem?, write, replicate, ◌>>=◌,
}
use gsky.Drill.Numbers.{Floats}

-- padding[idx]++, over a map that is kept as a list of counts: a missing key is 0.
unfoldable pub bump : ℕ → List ℕ → Option (List ℕ)
bump idx padding = do count ← get_elem? padding idx; write padding idx (count + 1)

-- The first loop of the padding, with n rounds left; `%` by no values is a panic.
unfoldable pub pad : ℕ → ℕ → ℕ → List ℕ → Option (List ℕ)
unfolding bump
pad len zero i padding = some padding
pad len (suc n) i padding =
    if len == 0 then none else (bump (i % len) padding >>= pad len n (i + 1))

module _ (fl : Floats) where
  open fl use {F, le, eq, add, div, zero_f, two_f}

  -- The pixels of the band inside the polygon, without no data; n rounds are left.
  unfoldable pub valid_pixels : F → List ℕ → List F → ℕ → ℕ → ℕ → Option (List F)
  valid_pixels nodata mask buf offset zero i = some []
  valid_pixels nodata mask buf offset (suc n) i = do
    inside ← get_elem? mask i
    rest ← valid_pixels nodata mask buf offset n (i + 1)
    if inside == 255
        then (do
          val ← get_elem? buf (i + offset)
          some (if eq val nodata then rest else val ∷ rest))
        else some rest

  -- sort.Slice by <=
  unfoldable pub insert_value : F → List F → List F
  insert_value x [] = x ∷ []
  insert_value x (y ∷ ys) = if le x y then x ∷ y ∷ ys else y ∷ insert_value x ys

  unfoldable pub sort_values : List F → List F
  unfolding insert_value
  sort_values [] = []
  sort_values (x ∷ xs) = insert_value x (sort_values xs)

  unfoldable pub decile_at : Bool → ℕ → List F → Option F
  decile_at is_even i_step buf = do
    de ← get_elem? buf i_step
    if is_even
        then (do next ← get_elem? buf (i_step + 1); some (div (add de next) two_f))
        else some de

  -- for i := 0; i < decileCount; i++, with n rounds left
  unfoldable pub pick : Bool → ℕ → List F → ℕ → ℕ → List F → Option (List F)
  unfolding decile_at
  pick is_even step buf zero i deciles = some deciles
  pick is_even step buf (suc n) i deciles = do
    de ← decile_at is_even ((i + 1) * step) buf
    deciles' ← write deciles i de
    pick is_even step buf n (i + 1) deciles'

  -- A value for p rounds from idx on, and the values in turn, each as often as its padding says.
  unfoldable pub repeat_value : F → ℕ → ℕ → List F → Option (List F)
  repeat_value val zero idx deciles = some deciles
  repeat_value val (suc p) idx deciles = write deciles idx val >>= repeat_value val p (idx + 1)

  unfoldable pub spread : List F → List ℕ → ℕ → List F → Option (List F)
  unfolding repeat_value
  spread [] padding idx deciles = some deciles
  spread (x ∷ buf) [] idx deciles = spread buf [] idx deciles
  spread (x ∷ buf) (p ∷ padding) idx deciles =
      repeat_value x p idx deciles >>= spread buf padding (idx + p)

  -- deciles, from the sorted values
  unfoldable pub deciles_of : ℕ → List F → Option (List F)
  unfolding pick pad spread
  deciles_of decile_count buf =
      let step : ℕ = length buf / (decile_count + 1) in
      let deciles = replicate decile_count zero_f in
      if ltb 0 step
      then pick (length buf % (decile_count + 1) == 0) step buf decile_count 0 deciles
      else (pad (length buf) decile_count 0 (replicate (length buf) 0) >>= λ padding.
          spread buf padding 0 deciles)

  unfoldable pub compute_deciles : ℕ → List ℕ → List F → ℕ → ℕ → F → Option (List F)
  unfolding valid_pixels sort_values deciles_of
  compute_deciles decile_count mask buf band_size band_offset nodata =
      valid_pixels nodata mask buf band_offset band_size 0 >>= λ vals.
      deciles_of decile_count (sort_values vals)
