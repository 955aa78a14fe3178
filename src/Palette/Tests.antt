-- ===== src/Palette/Tests.antt =====
-- Runs of the palettes, and their theorems at concrete colours.
use Prim.Native.Nat.{}
use gsky.Prelude.{ℕ, ◌≡◌, refl, inl, true, none, some, [], ◌∷◌, get_elem?}
use gsky.Palette.{Rgba, interpolate_uint8, gradient_rgba_palette}
use gsky.Palette.Blend.{blend, blend_color}
use gsky.Palette.Ramp.{sections, blends, blended, gradient_panics}

abbrev grey : ℕ → Rgba
grey n = record { r = n; g = n; b = n; a = 255 }

-- Downwards the quotient is cut off towards zero.
blend_runs : interpolate_uint8 200 100 1 3 ≡ some 167
unfolding interpolate_uint8
blend_runs = refl

blended_middle : get_elem? (blended (grey 0 ∷ grey 200 ∷ grey 100 ∷ [])) 64 ≡ some (grey 100)
unfolding blended sections blends blend_color blend
blended_middle = refl

gradient_panics_example :
    gradient_rgba_palette (some (record { name = []; interpolate = true; colours = grey 0 ∷ [] }))
    ≡ none
gradient_panics_example = gradient_panics [] (grey 0) [] (inl refl)
