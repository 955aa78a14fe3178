-- ===== src/Drill/Quantiles.antt =====
-- When `computeDeciles` gives the deciles that it was asked for, and when it panics.
use native.Mathlib.Nat.{div-add-mod', div_self, mod_self}
use gsky.Prelude.{
  ℕ, zero, suc, ◌+◌, ◌*◌, ◌/◌, ◌%◌, ◌≤◌, ◌<◌, ◌≡◌, ◌≢◌, refl, sym, ap, ap₂, ◌∙◌, Bool, Bool-cases,
  true, false, none, some, List, [], ◌∷◌, arith, ltb, ltb→lt, ◌==◌, if◌then◌else◌, inl, inr, ◌⊎◌,
  length, get_elem?, get_elem?-some, write, write-set, set, length-set, ◌>>=◌, replicate,
  length-replicate, Option-cases, suc_not_zero,
}
use gsky.Drill.Numbers.{Floats}
use gsky.Drill.Deciles.{
  pad, spread, decile_at, pick, spread, deciles_of, insert_value, sort_values, valid_pixels,
  compute_deciles,
}
use gsky.Drill.Padding.{sum-replicate, pad-sum, spread-length}

module _ (fl : Floats) where
  open fl use {F, le, zero_f}

  length-insert_value : (x : F) (ys : List F) → length (insert_value fl x ys) ≡ suc (length ys)
  unfolding insert_value
  length-insert_value x [] = refl
  length-insert_value x (y ∷ ys) = elim (Bool-cases (le x y)) [
    | inl e ↦ rw e refl
    | inr e ↦ rw e (ap suc (length-insert_value x ys))
  ]

  length-sort_values : (xs : List F) → length (sort_values fl xs) ≡ length xs
  unfolding sort_values
  length-sort_values [] = refl
  length-sort_values (x ∷ xs) =
      length-insert_value x (sort_values fl xs) ∙ ap suc (length-sort_values xs)

  -- Whether the value of a decile is in the slice: the even case reads one more value.
  abbrev InSlice : Bool → ℕ → ℕ → Type 0
  InSlice true i_step n = i_step + 1 < n
  InSlice false i_step n = i_step < n

  decile_at-some :
      (is_even : Bool) (i_step : ℕ) (buf : List F)
      → InSlice is_even i_step (length buf)
      → (de : F) × (decile_at fl is_even i_step buf ≡ some de)
  unfolding decile_at
  decile_at-some true i_step buf h =
      let (a, ea) = get_elem?-some buf i_step (omega arith) in
      let (b, eb) = get_elem?-some buf (i_step + 1) h in
      (fl.div (fl.add a b) fl.two_f, rw (ea, eb) refl)
  decile_at-some false i_step buf h = let (a, ea) = get_elem?-some buf i_step h in (a, rw ea refl)

  pick-some :
      (is_even : Bool) (step : ℕ) (buf : List F) (n i : ℕ) (deciles : List F)
      → i + n ≡ length deciles
      → ((k : ℕ) → k < i + n → InSlice is_even ((k + 1) * step) (length buf))
      → (ds : List F) × (pick fl is_even step buf n i deciles ≡ some ds)
        × (length ds ≡ length deciles)
  unfolding pick
  pick-some is_even step buf zero i deciles e h = (deciles, refl, refl)
  pick-some is_even step buf (suc n) i deciles e h =
      let (de, ed) = decile_at-some is_even ((i + 1) * step) buf (h i (omega arith)) in
      let same = length-set deciles i de in
      let (ds, run, m) =
        pick-some is_even step buf n (i + 1) (set deciles i de) (omega arith)
          (λ k q. h k (omega arith)) in
      (ds, rw (ed, write-set deciles i de (omega arith)) run, m ∙ same)

  step_bound : (q dc k n r : ℕ) → k < dc → n ≡ q * (dc + 1) + r → (k + 1) * q + q + r ≤ n
  step_bound q dc k n r h e = grind arith

  -- With a whole number of values to each decile, but more than one, or with some values over.
  step-InSlice :
      (q r dc k n : ℕ)
      → k < dc
      → 0 < q
      → n ≡ q * (dc + 1) + r
      → n ≢ dc + 1
      → InSlice (r == 0) ((k + 1) * q) n
  step-InSlice zero r dc k n h hq e ne = absurd (omega arith)
  step-InSlice (suc zero) zero dc k n h hq e ne = absurd (ne (omega arith))
  step-InSlice (suc (suc q)) zero dc k n h hq e ne =
      omega (arith, step_bound (suc (suc q)) dc k n zero h e)
  step-InSlice (suc q) (suc r) dc k n h hq e ne =
      rw (suc_not_zero r) (omega (arith, step_bound (suc q) dc k n (suc r) h e))

  deciles_of-some :
      (dc : ℕ) (buf : List F)
      → 0 < length buf
      → (length buf ≢ dc + 1) ⊎ (dc ≡ 0)
      → (ds : List F) × (deciles_of fl dc buf ≡ some ds) × (length ds ≡ dc)
  unfolding deciles_of
  deciles_of-some dc buf h ne = elim (Bool-cases (ltb 0 (length buf / (dc + 1)))) [
    | inl many ↦
        let e = sym (div-add-mod' (length buf) (dc + 1)) in
        let one_each : dc ≢ 0 → length buf ≢ dc + 1 =
          λ z. elim ne [ inl m ↦ m | inr m ↦ absurd (z m) ] in
        let (ds, run, n) =
          pick-some (length buf % (dc + 1) == 0) (length buf / (dc + 1)) buf dc 0
            (replicate dc zero_f) (omega (arith, length-replicate dc zero_f))
            (λ k q.
              step-InSlice (length buf / (dc + 1)) (length buf % (dc + 1)) dc k (length buf)
                (omega arith) (ltb→lt _ _ many) e (one_each (λ z. absurd (omega arith)))) in
        (ds, rw many run, n ∙ length-replicate dc zero_f)
    | inr rare ↦
        let (padding, run, total, same) =
          pad-sum (length buf) dc 0 (replicate (length buf) 0) h
            (length-replicate (length buf) 0) in
        let (ds, runs, n) =
          spread-length fl buf padding 0 (replicate dc zero_f)
            (omega (arith, sum-replicate (length buf), length-replicate dc zero_f)) in
        (ds, rw (rare, run) runs, n ∙ length-replicate dc zero_f)
  ]

  -- With at least one pixel inside the polygon that is not no data, and not exactly one pixel more
  -- than there are deciles, or with no deciles to compute, the function returns as many deciles as it
  -- was asked for, with no index out of range.
  pub compute_deciles-some :
      (dc : ℕ) (mask : List ℕ) (buf : List F) (size offset : ℕ) (nodata : F) (vals : List F)
      → valid_pixels fl nodata mask buf offset size 0 ≡ some vals
      → 0 < length vals
      → (length vals ≢ dc + 1) ⊎ (dc ≡ 0)
      → (ds : List F) × (compute_deciles fl dc mask buf size offset nodata ≡ some ds)
        × (length ds ≡ dc)
  unfolding compute_deciles
  compute_deciles-some dc mask buf size offset nodata vals e h ne =
      let n = length-sort_values vals in
      let other : (length (sort_values fl vals) ≢ dc + 1) ⊎ (dc ≡ 0) = rw n ne in
      let (ds, run, m) = deciles_of-some dc (sort_values fl vals) (omega (arith, n)) other in
      (ds, rw e run, m)

  past_the_end : (buf : List F) (i : ℕ) → length buf ≤ i → get_elem? buf i ≡ none
  past_the_end [] i h = refl
  past_the_end (x ∷ buf) zero h = absurd (omega arith)
  past_the_end (x ∷ buf) (suc i) h = past_the_end buf i (omega arith)

  pick-none :
      (dc : ℕ) (buf : List F) (n i : ℕ) (deciles : List F)
      → length buf ≡ dc + 1
      → i + suc n ≡ dc
      → pick fl true 1 buf (suc n) i deciles ≡ none
  unfolding pick decile_at
  pick-none dc buf zero i deciles e h = elim (Option-cases (get_elem? buf ((i + 1) * 1))) [
    | inl none_there ↦ rw none_there
    | inr (de, found) ↦ rw (found, past_the_end buf ((i + 1) * 1 + 1) (omega arith))
  ]
  pick-none dc buf (suc n) i deciles e h =
      elim (Option-cases (decile_at fl true ((i + 1) * 1) buf)) [
        | inl none_there ↦ rw none_there
        | inr (de, found) ↦ rw found (elim (Option-cases (write deciles i de)) [
          | inl outside ↦ rw outside
          | inr (ds, written) ↦ rw written (pick-none dc buf n (i + 1) ds e (omega arith))
        ])
      ]

  -- With exactly one such pixel more than there are deciles to compute, the function panics: for the
  -- last decile it reads behind the end of the values.
  pub compute_deciles_panics :
      (dc : ℕ) (mask : List ℕ) (buf : List F) (size offset : ℕ) (nodata : F) (vals : List F)
      → valid_pixels fl nodata mask buf offset size 0 ≡ some vals
      → 0 < dc
      → length vals ≡ dc + 1
      → compute_deciles fl dc mask buf size offset nodata ≡ none
  unfolding compute_deciles deciles_of
  compute_deciles_panics zero mask buf size offset nodata vals e h n = absurd (omega arith)
  compute_deciles_panics (suc dc) mask buf size offset nodata vals e h n =
      let count : length (sort_values fl vals) ≡ suc dc + 1 = length-sort_values vals ∙ n in
      let buf' = sort_values fl vals in
      let one : length buf' / (suc dc + 1) ≡ 1 =
        ap (λ m. m / (suc dc + 1)) count ∙ div_self {n = suc dc + 1} (omega arith) in
      let whole : length buf' % (suc dc + 1) ≡ 0 =
        ap (λ m. m % (suc dc + 1)) count ∙ mod_self (suc dc + 1) in
      rw e (
        ap₂
          (λ step r.
            if ltb 0 step
            then pick fl (r == 0) step buf' (suc dc) 0 (replicate (suc dc) zero_f)
            else (pad (length buf') (suc dc) 0 (replicate (length buf') 0) >>= λ padding.
                spread fl buf' padding 0 (replicate (suc dc) zero_f)))
          one whole
        ∙ pick-none (suc dc) buf' dc 0 (replicate (suc dc) zero_f) count (omega arith))
