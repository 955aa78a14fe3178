-- ===== src/Merger/Mask.antt =====
-- `ComputeMask` of processor/tile_merger.go, with the strconv calls it makes. Samples and parsed
-- numbers are bit patterns of 8 or 16 bits, so that a signed number and its unsigned twin are one.
use gsky.Prelude.{
  ℕ, zero, suc, ◌+◌, ◌-◌, ◌*◌, ◌/◌, ◌%◌, ◌^◌, Bool, true, false, not, ◌&&◌, ◌||◌, List, [], ◌∷◌,
  ltb, leb, ◌==◌, if◌then◌else◌, length, map, Bytes,
}
use gsky.Prelude.Result.{Result, ok, err}
use gsky.Merger.Types.{RasterType, signed_byte, int16, uint16, float32, other, Mask, words}

-- What strconv.ParseUint returns beside its error, and whether that error is one of range or none.
pub data Parsed : Type 0 where
  in_range : ℕ → Parsed
  saturated : ℕ → Parsed
  syntax_error : Parsed

abbrev pub max_uint : ℕ → ℕ
max_uint w = 2 ^ w - 1

-- strconv.ParseUint(s, 2, w) from its loop on, with n read so far: '0' is 48 and '1' is 49.
unfoldable pub parse_digits : ℕ → Bytes → ℕ → Parsed
parse_digits w [] n = in_range n
parse_digits w (c ∷ s) n =
    let n₁ : ℕ = 2 * n + (c - 48) in
    let rest = parse_digits w s n₁ in
    if c == 48 || c == 49
    then (if ltb (max_uint w) n₁ then saturated (max_uint w) else rest)
    else syntax_error

unfoldable pub scan_uint : ℕ → Bytes → Parsed
unfolding parse_digits
scan_uint w [] = syntax_error
scan_uint w (c ∷ s) = parse_digits w (c ∷ s) 0

abbrev pub parsed_value : Parsed → ℕ
parsed_value (in_range n) = n
parsed_value (saturated n) = n
parsed_value syntax_error = 0

-- maskValue64, _ := strconv.ParseUint(s, 2, w)
unfoldable pub parse_uint : ℕ → Bytes → ℕ
unfolding scan_uint
parse_uint w s = parsed_value (scan_uint w s)

-- The sign of strconv.ParseInt, with the range of w bits; the result is a bit pattern. A number out
-- of the range becomes the nearest one in it.
unfoldable pub signed_pattern : ℕ → Bool → ℕ → ℕ
signed_pattern w true n = if leb n (2 ^ (w - 1)) then (2 ^ w - n) % 2 ^ w else 2 ^ (w - 1)
signed_pattern w false n = if ltb n (2 ^ (w - 1)) then n else 2 ^ (w - 1) - 1

-- strconv.ParseInt(s, 2, w): '+' is 43 and '-' is 45.
unfoldable pub parse_int : ℕ → Bytes → ℕ
unfolding signed_pattern parse_uint
parse_int w [] = 0
parse_int w (c ∷ s) =
    if c == 43
    then signed_pattern w false (parse_uint w s)
    else if c == 45
    then signed_pattern w true (parse_uint w s)
    else signed_pattern w false (parse_uint w (c ∷ s))

-- a & b, on patterns of w bits.
unfoldable pub bit_and : ℕ → ℕ → ℕ → ℕ
bit_and zero a b = 0
bit_and (suc w) a b = a % 2 * (b % 2) + 2 * bit_and w (a / 2) (b / 2)

unfoldable pub bits : RasterType → ℕ
bits int16 = 16
bits uint16 = 16
bits _ = 8

-- maskValue
unfoldable pub mask_value : RasterType → Bytes → ℕ
mask_value int16 s = parse_int 16 s
mask_value uint16 s = parse_uint 16 s
mask_value _ s = parse_uint 8 s

-- v > 0: a signed sample is negative from the top bit on.
unfoldable pub is_positive : RasterType → ℕ → Bool
is_positive signed_byte v = ltb 0 v && ltb v 128
is_positive int16 v = ltb 0 v && ltb v 32768
is_positive _ v = ltb 0 v

-- The loop over mask.BitTests, for one sample.
unfoldable pub any_test : ℕ → List Bytes → ℕ → Bool
any_test w (filter ∷ value ∷ tests) val =
    (bit_and w val (parse_int w filter) == parse_int w value) || any_test w tests val
any_test w _ val = false

unfoldable pub mask_samples : Mask → Bytes → RasterType → List Bool
unfolding any_test mask_value is_positive bits bit_and
mask_samples m samples t =
    if length m.value == 0
    then map (any_test (bits t) m.bit_tests) (words t samples)
    else map (λ val. is_positive t (bit_and (bits t) val (mask_value t m.value))) (words t samples)

-- The switch on rType.
unfoldable pub has_bits : RasterType → Bool
has_bits float32 = false
has_bits other = false
has_bits _ = true

unfoldable pub compute_mask : Mask → Bytes → RasterType → Result (List Bool)
unfolding mask_samples has_bits
compute_mask m samples t =
    if length m.value == 0 && length m.bit_tests == 0
    then err "Please specify either mask.Value or mask.BitTests"
    else if length m.value == 0 && not (length m.bit_tests % 2 == 0)
    then err "The entries in mask.BitTests must be in pairs"
    else if has_bits t
    then ok (mask_samples m samples t)
    else err "Type cannot contain a bit mask"
