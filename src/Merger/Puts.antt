-- ===== src/Merger/Puts.antt =====
-- One pixel of the loop of `MergeMaskedRaster`: it puts the merged pixel at its place.
use native.Mathlib.Nat.{}
use native.Mathlib.Decide.{}
use gsky.Prelude.{
  get_elem?-lt, ℕ, zero, suc, ◌≤◌, ◌<◌, ◌≡◌, refl, Bool, true, false, not, ◌&&◌, ◌||◌, Option, none,
  some, List, [], ◌∷◌, arith, if◌then◌else◌, length, get_elem?, get_elem?-some, set, get_or,
  write-set,
}
use gsky.Merger.Merge.{put_pixel}

-- What a pixel of the canvas becomes: it is old, and val is the raster's sample there.
unfoldable pub merged_pixel : (ℕ → ℕ → Bool) → Bool → ℕ → ℕ → Bool → ℕ → ℕ
merged_pixel same older no_data val masked old =
    if same val no_data || (masked || (older && not (same old no_data))) then old else val

abbrev pub through : (ℕ → ℕ) → Option ℕ → Option ℕ
through g none = none
through g (some v) = some (g v)

set_same : (xs : List ℕ) (i v : ℕ) → get_elem? xs i ≡ some v → set xs i v ≡ xs
set_same [] i v h = refl
set_same (x ∷ xs) zero v h = ground arith
set_same (x ∷ xs) (suc i) v h = rw (set_same xs i v h)

-- `put` replaces the pixel at iDst by a function of iSrc and of what it was.
abbrev pub Puts : (ℕ → ℕ → List ℕ → Option (List ℕ)) → (ℕ → ℕ → ℕ) → ℕ → Type 0
Puts put f n_src =
    (i_src i_dst : ℕ) (canvas : List ℕ) (old : ℕ)
    → i_src < n_src
    → get_elem? canvas i_dst ≡ some old
    → put i_src i_dst canvas ≡ some (set canvas i_dst (f i_src old))

get_or-some :
    {A : Type 0} (xs : List A) (i : ℕ) (d v : A) → get_elem? xs i ≡ some v → get_or xs i d ≡ v
get_or-some [] i d v h = ground arith
get_or-some (x ∷ xs) zero d v h = ground arith
get_or-some (x ∷ xs) (suc i) d v h = get_or-some xs i d v h

pub put_pixel-Puts :
    (same : ℕ → ℕ → Bool) (older : Bool) (no_data : ℕ) (samples : List ℕ) (mask : List Bool) (n : ℕ)
    → n ≤ length samples
    → n ≤ length mask
    → Puts
        (put_pixel same older no_data samples mask)
        (λ i old. merged_pixel same older no_data (get_or samples i 0) (get_or mask i false) old)
        n
unfolding put_pixel merged_pixel
put_pixel-Puts same older no_data samples mask n hs hm i_src i_dst canvas old lt here =
    let (val, ev) = get_elem?-some samples i_src (omega arith) in
    let (masked, em) = get_elem?-some mask i_src (omega arith) in
    rw
      (
        ev,
        em,
        here,
        get_or-some samples i_src 0 val ev,
        get_or-some mask i_src false masked em,
        write-set canvas i_dst val (get_elem?-lt canvas i_dst old here),
      )
      (choose (same val no_data) masked older (same old no_data) val old canvas i_dst
        (set_same canvas i_dst old here))
  where
    choose :
        (gap masked older filled : Bool) (val old : ℕ) (canvas : List ℕ) (i : ℕ)
        → set canvas i old ≡ canvas
        → (if gap
            then some canvas
            else if masked
            then some canvas
            else if older
            then (if filled then some (set canvas i val) else some canvas)
            else some (set canvas i val))
          ≡ some (set canvas i (if gap || (masked || (older && not filled)) then old else val))
    choose true masked older filled val old canvas i h = rw h
    choose false true older filled val old canvas i h = rw h
    choose false false true true val old canvas i h = refl
    choose false false true false val old canvas i h = rw h
    choose false false false filled val old canvas i h = refl
