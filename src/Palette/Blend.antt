-- ===== src/Palette/Blend.antt =====
-- The blend of two bytes and of two colours.
use Prim.Native.Nat.{min, max}
use native.Mathlib.Nat.{div-le_of_le-mul, mul-div_cancel_left, mul-le-mul_right}
use gsky.Prelude.{ℕ, zero, suc, ◌+◌, ◌-◌, ◌*◌, ◌/◌, ◌≤◌, ◌<◌, ◌≡◌, some, arith, leb, if◌then◌else◌}
use gsky.Palette.{Rgba, interpolate_uint8, interpolate_color}

-- The share of a distance that i of l rounds make.
share_le : (d i l : ℕ) → i ≤ suc l → i * d / suc l ≤ d
share_le d i l h = div-le_of_le-mul (suc l) (mul-le-mul_right d h)

-- Going up, the byte is a plus the share i / l of the distance, rounded down.
interpolate_up :
    (a b i l : ℕ)
    → a ≤ b
    → b < 256
    → i ≤ suc l
    → interpolate_uint8 a b i (suc l) ≡ some (a + i * (b - a) / suc l)
unfolding interpolate_uint8
interpolate_up a b i l ab hb hi = ground (arith, share_le (b - a) i l)

interpolate_down :
    (a b i l : ℕ)
    → b < a
    → a < 256
    → i ≤ suc l
    → interpolate_uint8 a b i (suc l) ≡ some (a - i * (a - b) / suc l)
unfolding interpolate_uint8
interpolate_down a b i l ab hb hi = ground (arith, share_le (a - b) i l)

-- The blend that the interpolation of one byte stands for.
unfoldable pub blend : ℕ → ℕ → ℕ → ℕ → ℕ
blend a b i l = if leb a b then a + i * (b - a) / l else a - i * (a - b) / l

-- For two bytes and at most the whole length (which is not zero), interpolation blends exactly: no
-- intermediate value wraps around. The blend lies between the two bytes, is the first byte at
-- position zero and the second one at the whole length.
pub interpolate_uint8-blend :
    (a b i l : ℕ)
    → a < 256
    → b < 256
    → i ≤ suc l
    → (interpolate_uint8 a b i (suc l) ≡ some (blend a b i (suc l)))
      × (min a b ≤ blend a b i (suc l))
      × (blend a b i (suc l) ≤ max a b)
      × (blend a b 0 (suc l) ≡ a)
      × (blend a b (suc l) (suc l) ≡ b)
unfolding blend
interpolate_uint8-blend a b i l ha hb hi = (
  ground (arith, interpolate_up a b i l, interpolate_down a b i l),
  ground (arith, share_le (a - b) i l),
  ground (arith, share_le (b - a) i l),
  ground arith,
  ground (arith, mul-div_cancel_left (b - a) {n = suc l}, mul-div_cancel_left (a - b) {n = suc l}),
)

abbrev pub IsRgba : Rgba → Type 0
IsRgba c = (c.r < 256) × (c.g < 256) × (c.b < 256)

unfoldable pub blend_color : Rgba → Rgba → ℕ → ℕ → Rgba
blend_color x y l i = record {
  r = blend x.r y.r i l;
  g = blend x.g y.g i l;
  b = blend x.b y.b i l;
  a = x.a;
}

pub interpolate_color-blend :
    (x y : Rgba) (i l : ℕ)
    → 0 < l
    → IsRgba x
    → IsRgba y
    → i ≤ l
    → interpolate_color x y i l ≡ some (blend_color x y l i)
unfolding interpolate_color blend_color
interpolate_color-blend x y i zero p hx hy h = elim p [ ]
interpolate_color-blend x y i (suc l) p (xr, xg, xb) (yr, yg, yb) h = rw (
  (interpolate_uint8-blend x.r y.r i l xr yr h).0,
  (interpolate_uint8-blend x.g y.g i l xg yg h).0,
  (interpolate_uint8-blend x.b y.b i l xb yb h).0,
)
