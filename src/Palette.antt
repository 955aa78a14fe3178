-- ===== src/Palette.antt =====
-- utils/palette.go: the colour ramp of 256 entries that a palette of a layer stands for.
-- (processor/palette.go is an older copy of the same functions.)
pub mod Blend
pub mod Ramp
mod Paint
mod Tests
use gsky.Prelude.{
  ℕ, zero, suc, ◌+◌, ◌-◌, ◌*◌, ◌/◌, ◌%◌, Bool, Option, none, some, List, [], ◌∷◌, ltb,
  if◌then◌else◌, length, get_elem?, replicate, write, ◌>>=◌,
}
use gsky.Prelude.Int.{ℤ, pos, sub_ℕ, scale_ℤ, quot_ℤ, to_uint8}

-- color.RGBA of image/color: four bytes.
pub record Rgba : Type 0 where
  pub r : ℕ
  pub g : ℕ
  pub b : ℕ
  pub a : ℕ

pub record Palette : Type 0 where
  pub name : List ℕ
  pub interpolate : Bool
  pub colours : List Rgba

-- `none` is the panic of a division by zero.
pub interpolate_uint8 : ℕ → ℕ → ℕ → ℕ → Option ℕ
interpolate_uint8 a b i zero = none
interpolate_uint8 a b i (suc l) =
    some ((a + to_uint8 (quot_ℤ (scale_ℤ i (sub_ℕ b a)) (suc l))) % 256)

pub interpolate_color : Rgba → Rgba → ℕ → ℕ → Option Rgba
interpolate_color a b i section_length = do
  r ← interpolate_uint8 a.r b.r i section_length
  g ← interpolate_uint8 a.g b.g i section_length
  b' ← interpolate_uint8 a.b b.b i section_length
  some (record { r = r; g = g; b = b'; a = a.a })

abbrev pub black : Rgba
black = record { r = 0; g = 0; b = 0; a = 0 }

-- The ramp and the index of its next entry.
pub record Cursor : Type 0 where
  pub ramp : List Rgba
  pub index : ℕ

-- for ; n rounds left; i++ { ramp[index] = colour i; index++ }
pub fill : (ℕ → Option Rgba) → ℕ → ℕ → Cursor → Option Cursor
fill colour zero i s = some s
fill colour (suc n) i s = do
  c ← colour i
  ramp ← write s.ramp s.index c
  fill colour n (i + 1) (record { ramp = ramp; index = s.index + 1 })

-- for i := 0; i < bonus; i++ { bonusArr[i] = 1 }, with the rounds left and i
pub set_bonus : ℕ → ℕ → List ℕ → Option (List ℕ)
set_bonus zero i arr = some arr
set_bonus (suc n) i arr = do arr' ← write arr i 1; set_bonus n (i + 1) arr'

-- The loop over palette.Colours[1:]; `lower` is palette.Colours[section].
pub blend_sections : ℕ → List ℕ → ℕ → Rgba → List Rgba → Cursor → Option Cursor
blend_sections len bonus section lower [] s = some s
blend_sections len bonus section lower (upper ∷ rest) s = do
  extra ← get_elem? bonus section
  s' ← fill (λ i. interpolate_color lower upper i len) (len + extra) 0 s
  blend_sections len bonus (section + 1) upper rest s'

-- The loop over palette.Colours of a palette that is not interpolated.
pub flat_sections : ℕ → List ℕ → ℕ → List Rgba → Cursor → Option Cursor
flat_sections len bonus section [] s = some s
flat_sections len bonus section (colour ∷ rest) s = do
  extra ← get_elem? bonus section
  s' ← fill (λ i. some colour) (len + extra) 0 s
  flat_sections len bonus (section + 1) rest s'

-- bonusArr for a number of bins that is not zero, where it divides by it.
pub bonus_of : ℕ → Option (List ℕ)
unfolding set_bonus
bonus_of bins = set_bonus (256 - 256 / bins * bins) 0 (replicate bins 0)

abbrev pub empty_ramp : Cursor
empty_ramp = record { ramp = replicate 256 black; index = 0 }

-- No bins, or -1 of them, is the panic of a division by zero or of a slice of negative length.
pub blend_ramp : List Rgba → Option (List Rgba)
unfolding blend_sections bonus_of
blend_ramp [] = none
blend_ramp (c ∷ []) = none
blend_ramp (c ∷ d ∷ rest) =
    let bins = suc (length rest) in
    do
      bonus ← bonus_of bins
      s ← blend_sections (256 / bins) bonus 0 c (d ∷ rest) empty_ramp
      some s.ramp

pub flat_ramp : List Rgba → Option (List Rgba)
unfolding flat_sections bonus_of
flat_ramp [] = none
flat_ramp (c ∷ rest) =
    let bins = suc (length rest) in
    do
      bonus ← bonus_of bins
      s ← flat_sections (256 / bins) bonus 0 (c ∷ rest) empty_ramp
      some s.ramp

-- The outer `none` is a panic, the inner one the nil ramp of a nil palette. No error is returned.
pub gradient_rgba_palette : Option Palette → Option (Option (List Rgba))
unfolding blend_ramp flat_ramp
gradient_rgba_palette none = some none
gradient_rgba_palette (some p) = do
  ramp ← (if p.interpolate then blend_ramp p.colours else flat_ramp p.colours)
  some (some ramp)
