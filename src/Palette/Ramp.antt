-- ===== src/Palette/Ramp.antt =====
-- The ramp that a palette stands for, section by section.
use native.Mathlib.Nat.{div-eq_of_lt, mod-eq_of_lt, div-add-mod', mod-lt}
use mathlib.Core.List.{append-nil}
use gsky.Prelude.{
  ℕ, suc, ◌+◌, ◌-◌, ◌*◌, ◌/◌, ◌%◌, ◌<◌, ◌≡◌, refl, ap, ap₂, ◌∙◌, true, false, ◌⊎◌, Option, none,
  some, List, [], ◌∷◌, ◌++◌, arith, ltb, length, length-append, length-map, map, get_elem?,
  replicate, ◌>>=◌, if◌then◌else◌,
}
use gsky.Palette.{
  interpolate_uint8, Rgba, Cursor, black, empty_ramp, fill, set_bonus, bonus_of, flat_sections,
  blend_ramp, flat_ramp, gradient_rgba_palette, interpolate_color,
}
use gsky.Palette.Blend.{blend_color}
use gsky.Palette.Paint.{
  tabulate, length-tabulate, Paints, Paints-nil, Paints-bind, fill-Paints, set_bonus-replicate,
  get_elem?-bonus,
}

-- Section s of a ramp has one entry more than the others, if s is below the bonus.
abbrev section_size : ℕ → ℕ → ℕ → ℕ
section_size len bonus s = len + (if ltb s bonus then 1 else 0)

-- The sections from s on, each with the colour of its entries as a function of their place.
unfoldable pub sections : ℕ → ℕ → ℕ → List (ℕ → Rgba) → List Rgba
sections len bonus s [] = []
sections len bonus s (g ∷ gs) =
    tabulate g (section_size len bonus s) 0 ++ sections len bonus (s + 1) gs

length-sections :
    (len bonus s : ℕ) (gs : List (ℕ → Rgba))
    → length (sections len bonus s gs) + (bonus - (s + length gs)) ≡ length gs * len + (bonus - s)
unfolding sections
length-sections len bonus s [] = omega arith
length-sections len bonus s (g ∷ gs) = ground (
  arith,
  length-append (tabulate g (section_size len bonus s) 0) (sections len bonus (s + 1) gs),
  length-tabulate g (section_size len bonus s) 0,
  length-sections len bonus (s + 1) gs,
)

-- The entries of bonusArr.
abbrev IsBonus : ℕ → ℕ → List ℕ → Type 0
IsBonus bins bonus arr =
    (k : ℕ) → k < bins → get_elem? {A = ℕ} arr k ≡ some (if ltb k bonus then 1 else 0)

-- The colours of the sections between neighbours.
unfoldable pub blends : ℕ → Rgba → List Rgba → List (ℕ → Rgba)
blends len lower [] = []
blends len lower (upper ∷ rest) = blend_color lower upper len ∷ blends len upper rest

module _ (l bonus bins : ℕ) (arr : List ℕ) (is_bonus : IsBonus bins bonus arr) where
  flat_sections-Paints :
      (s : ℕ) (rest : List Rgba)
      → s + length rest ≡ bins
      → Paints (flat_sections l arr s rest) (sections l bonus s (map (λ c _. c) rest))
  unfolding flat_sections sections
  flat_sections-Paints s [] e = Paints-nil
  flat_sections-Paints s (c ∷ rest) e = rw (is_bonus s (omega arith)) (
      Paints-bind (fill (λ i. some c) (section_size l bonus s) 0) (flat_sections l arr (s + 1) rest)
        _ _ (fill-Paints _ (λ _. c) _ 0 (λ k lt. refl))
        (flat_sections-Paints (s + 1) rest (omega arith)))

-- What is painted over the whole ramp is the ramp.
Paints-whole :
    (next : Cursor → Option Cursor) (zs : List Rgba)
    → Paints next zs
    → length zs ≡ 256
    → (next empty_ramp >>= λ s. some s.ramp) ≡ some zs
Paints-whole next zs paints e =
    rw (paints [] (replicate 256 black) (omega (arith, e))) (rw (e, append-nil) refl)

bonus_of-IsBonus :
    (l : ℕ) → (arr : List ℕ) × (bonus_of (suc l) ≡ some arr) × IsBonus (suc l) (256 % suc l) arr
unfolding bonus_of
bonus_of-IsBonus l =
    let r : ℕ = 256 % suc l in
    let m : ℕ = suc l - r in
    let exact : 256 - 256 / suc l * suc l ≡ r = omega (arith, div-add-mod' 256 (suc l)) in
    let whole : suc l ≡ r + m = omega (arith, mod-lt 256 {m = suc l}) in
    (
      replicate r 1 ++ replicate m 0,
      (ap₂ (λ n (k : ℕ). set_bonus n 0 (replicate k 0)) exact whole ∙ set_bonus-replicate r m []),
      λ k lt. get_elem?-bonus r m k (omega (arith, mod-lt 256 {m = suc l})),
    )

-- The sections together have exactly the 256 entries of the ramp.
length-sections_all :
    (l : ℕ) (gs : List (ℕ → Rgba))
    → length gs ≡ suc l
    → length (sections (256 / suc l) (256 % suc l) 0 gs) ≡ 256
length-sections_all l gs e = omega (
  arith,
  length-sections (256 / suc l) (256 % suc l) 0 gs,
  mod-lt 256 {m = suc l},
  div-add-mod' 256 (suc l),
  ap (λ (k : ℕ). k * (256 / suc l)) e,
)

-- The ramp of an interpolated palette: the blends between neighbours, in sections.
unfoldable pub blended : List Rgba → List Rgba
blended [] = []
blended (c ∷ rest) =
    sections (256 / length rest) (256 % length rest) 0 (blends (256 / length rest) c rest)

-- The ramp of a palette that is not interpolated: each colour as often as its section is long.
unfoldable pub stepped : List Rgba → List Rgba
stepped cs = sections (256 / length cs) (256 % length cs) 0 (map (λ c _. c) cs)

flat_ramp-stepped :
    (c : Rgba) (rest : List Rgba)
    → (flat_ramp (c ∷ rest) ≡ some (stepped (c ∷ rest))) × (length (stepped (c ∷ rest)) ≡ 256)
unfolding flat_ramp stepped
flat_ramp-stepped c rest =
    let (arr, e, is_bonus) = bonus_of-IsBonus (length rest) in
    let total =
      length-sections_all (length rest) (map (λ c _. c) (c ∷ rest))
        (length-map (c ∷ rest) (λ c _. c)) in
    (
      rw e (
          Paints-whole (flat_sections (256 / suc (length rest)) arr 0 (c ∷ rest)) _
            (flat_sections-Paints (256 / suc (length rest)) (256 % suc (length rest))
              (suc (length rest)) arr is_bonus 0 (c ∷ rest) (omega arith))
            total),
      total,
    )

-- A palette that is not interpolated and has at least one colour, however many, gives a ramp of
-- exactly 256 entries with no panic: a run of each colour in turn, where the runs are as long as
-- each other, but for the first 256 mod (number of colours), which are one entry longer.
pub gradient-stepped :
    (name : List ℕ) (c : Rgba) (rest : List Rgba)
    → (gradient_rgba_palette
          (some (record { name = name; interpolate = false; colours = c ∷ rest }))
        ≡ some (some (stepped (c ∷ rest))))
      × (length (stepped (c ∷ rest)) ≡ 256)
unfolding gradient_rgba_palette
gradient-stepped name c rest = let (e, n) = flat_ramp-stepped c rest in (rw e, n)

-- An interpolated palette of one colour, or of more than 257, makes the function panic.
pub gradient_panics :
    (name : List ℕ) (c : Rgba) (rest : List Rgba)
    → (length rest ≡ 0) ⊎ (256 < length rest)
    → gradient_rgba_palette (some (record { name = name; interpolate = true; colours = c ∷ rest }))
      ≡ none
unfolding gradient_rgba_palette blend_ramp fill interpolate_color interpolate_uint8
gradient_panics name c [] h = refl
gradient_panics name c (d ∷ rest) h =
    let (arr, e, is_bonus) = bonus_of-IsBonus (length rest) in
    let many : 256 < suc (length rest) = omega arith in
    let zero_len : 256 / suc (length rest) ≡ 0 = div-eq_of_lt many in
    let long : 256 % suc (length rest) ≡ 256 = mod-eq_of_lt many in
    let first : ltb 0 (256 % suc (length rest)) ≡ true = ground arith in
    rw (e, zero_len) (rw (is_bonus 0 (omega arith), first) refl)
