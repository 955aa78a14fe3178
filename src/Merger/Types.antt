-- ===== src/Merger/Types.antt =====
-- The rasters of processor/tile_types.go, and their samples in memory.
use gsky.Prelude.{
  ℕ, ◌+◌, ◌*◌, ◌/◌, ◌%◌, Bool, not, ◌&&◌, ◌||◌, Option, List, [], ◌∷◌, String, ltb, ◌==◌, Bytes,
}

-- FlexRaster.Type; `other` is any other text.
pub data RasterType : Type 0 where
  signed_byte byte int16 uint16 float32 other : RasterType

-- The float64 of the language, which is not modelled: what the merger does with its values.
-- `sample t x` is the bit pattern of x converted to the type of t's samples.
pub record Float64 : Type 1 where
  pub F : Type 0
  pub zero_f : F
  pub lt : F → F → Bool
  pub eq : F → F → Bool
  pub add : F → F → F
  pub of_uint : ℕ → F
  pub sample : RasterType → F → ℕ

-- utils.Mask of utils/config.go, as far as the merger reads it.
pub record Mask : Type 0 where
  pub id : String
  pub value : Bytes
  pub inclusive : Bool
  pub bit_tests : List Bytes

-- FlexRaster, with the two fields of its ConfigPayLoad that the merger reads. Sizes and offsets are
-- not negative; `geom_mask` is nil or a slice of int32, of which only equality with 255 matters.
pub record FlexRaster (F : Type 0) : Type 0 where
  pub bytes : Bytes
  pub data_height : ℕ
  pub data_width : ℕ
  pub height : ℕ
  pub width : ℕ
  pub off_x : ℕ
  pub off_y : ℕ
  pub raster_type : RasterType
  pub no_data : F
  pub namespace : String
  pub time_stamp : F
  pub polygon : Bytes
  pub geom_mask : Option (List ℕ)
  pub mask : Option Mask
  pub namespaces : List String

-- The bytes seen as samples: little-endian words of one, two or four bytes. What does not fill a
-- word at the end is not part of the slice.
unfoldable pub words2 : Bytes → List ℕ
words2 (a ∷ b ∷ rest) = (a + 256 * b) ∷ words2 rest
words2 _ = []

unfoldable pub words4 : Bytes → List ℕ
words4 (a ∷ b ∷ c ∷ d ∷ rest) = (a + 256 * (b + 256 * (c + 256 * d))) ∷ words4 rest
words4 _ = []

unfoldable pub words : RasterType → Bytes → List ℕ
words int16 bs = words2 bs
words uint16 bs = words2 bs
words float32 bs = words4 bs
words _ bs = bs

-- The bytes after the samples were written through that view of them.
unfoldable pub overlay1 : List ℕ → Bytes → Bytes
overlay1 (w ∷ ws) (a ∷ rest) = w ∷ overlay1 ws rest
overlay1 _ rest = rest

unfoldable pub overlay2 : List ℕ → Bytes → Bytes
overlay2 (w ∷ ws) (a ∷ b ∷ rest) = w % 256 ∷ w / 256 ∷ overlay2 ws rest
overlay2 _ rest = rest

unfoldable pub overlay4 : List ℕ → Bytes → Bytes
overlay4 (w ∷ ws) (a ∷ b ∷ c ∷ d ∷ rest) =
    w % 256 ∷ w / 256 % 256 ∷ w / 65536 % 256 ∷ w / 16777216 ∷ overlay4 ws rest
overlay4 _ rest = rest

unfoldable pub overlay : RasterType → List ℕ → Bytes → Bytes
overlay int16 ws bs = overlay2 ws bs
overlay uint16 ws bs = overlay2 ws bs
overlay float32 ws bs = overlay4 ws bs
overlay _ ws bs = overlay1 ws bs

-- a == b on two float32 values, given as their bit patterns: a NaN equals nothing, and the two zeros
-- are equal.
pub is_nan32 : ℕ → Bool
is_nan32 w = ltb (255 * 8388608) (w % 2147483648)

pub float32_eq : ℕ → ℕ → Bool
unfolding is_nan32
float32_eq a b =
    not (is_nan32 a) && not (is_nan32 b) && (a == b || (a % 2147483648 == 0 && b % 2147483648 == 0))

-- a == b on two samples.
unfoldable pub sample_eq : RasterType → ℕ → ℕ → Bool
sample_eq float32 a b = float32_eq a b
sample_eq _ a b = a == b
