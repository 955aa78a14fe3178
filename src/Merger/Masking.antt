-- ===== src/Merger/Masking.antt =====
-- What `ComputeMask` makes of a mask that is written in binary digits.
use gsky.Prelude.{
  ℕ, zero, suc, ◌+◌, ◌-◌, ◌*◌, ◌/◌, ◌%◌, ◌^◌, ◌≤◌, ◌<◌, ◌≡◌, refl, ap, fun_ext, ◌∙◌, inl, inr,
  ltb→lt, Bool, Bool-cases, true, false, ◌&&◌, ◌||◌, List, [], ◌∷◌, arith, ltb, leb, ◌==◌,
  if◌then◌else◌, length, map, suc_not_zero, Bytes,
}
use gsky.Prelude.Result.{ok}
use gsky.Merger.Types.{RasterType, signed_byte, byte, int16, uint16, float32, other, Mask, words}
use gsky.Merger.Mask.{
  max_uint, parse_digits, parsed_value, scan_uint, parse_uint, signed_pattern, parse_int, bit_and,
  bits, mask_value, is_positive, mask_samples, has_bits, compute_mask,
}

-- A number in binary digits, the highest first.
abbrev pub bit : Bool → ℕ
bit false = 0
bit true = 1

abbrev pub digits : List Bool → Bytes
digits [] = []
digits (b ∷ bs) = (48 + bit b) ∷ digits bs

abbrev pub number_from : ℕ → List Bool → ℕ
number_from n [] = n
number_from n (b ∷ bs) = number_from (2 * n + bit b) bs

abbrev pub number : List Bool → ℕ
number bs = number_from 0 bs

abbrev pub at_most : ℕ → ℕ → ℕ
at_most limit n = if leb n limit then n else limit

number_from-grows : (n : ℕ) (bs : List Bool) → n ≤ number_from n bs
number_from-grows n [] = omega arith
number_from-grows n (b ∷ bs) = omega (arith, number_from-grows (2 * n + bit b) bs)

is_digit : (b : Bool) → ((48 + bit b == 48) || (48 + bit b == 49)) ≡ true
is_digit true = refl
is_digit false = refl

digit-bit : (b : Bool) → (48 + bit b) - 48 ≡ bit b
digit-bit true = refl
digit-bit false = refl

parse_digits-number :
    (w n : ℕ) (bs : List Bool)
    → n ≤ max_uint w
    → parsed_value (parse_digits w (digits bs) n) ≡ at_most (max_uint w) (number_from n bs)
unfolding parse_digits
parse_digits-number w n [] h = ground arith
parse_digits-number w n (b ∷ bs) h =
    rw (is_digit b, digit-bit b)
      (elim (Bool-cases (ltb (max_uint w) (2 * n + bit b))) [
        | inl h' ↦ rw h' (too_big (ltb→lt _ _ h'))
        | inr h' ↦ rw h' (parse_digits-number w (2 * n + bit b) bs (ground arith))
      ])
  where
    too_big :
        max_uint w < 2 * n + bit b
        → max_uint w ≡ at_most (max_uint w) (number_from (2 * n + bit b) bs)
    too_big l = ground (arith, number_from-grows (2 * n + bit b) bs)

-- A number of at least one binary digit is read as it is written, and as the greatest number of w
-- bits where it has more of them than w.
pub parse_uint-digits :
    (w : ℕ) (b : Bool) (bs : List Bool)
    → parse_uint w (digits (b ∷ bs)) ≡ at_most (2 ^ w - 1) (number (b ∷ bs))
unfolding parse_uint scan_uint
parse_uint-digits w b bs = parse_digits-number w 0 (b ∷ bs) (omega arith)

one_le_pow : (w : ℕ) → 1 ≤ 2 ^ w
one_le_pow zero = omega arith
one_le_pow (suc w) = omega (arith, one_le_pow w)

no_sign : (b : Bool) → ((48 + bit b == 43) ≡ false) × ((48 + bit b == 45) ≡ false)
no_sign true = (refl, refl)
no_sign false = (refl, refl)

signed-at_most :
    (w n : ℕ) → signed_pattern (suc w) false (at_most (2 ^ suc w - 1) n) ≡ at_most (2 ^ w - 1) n
unfolding signed_pattern
signed-at_most w n = rw pred_suc (ground (arith, one_le_pow w))
  where
    pred_suc : suc w - 1 ≡ w
    pred_suc = omega arith

-- As a signed number of w + 1 bits, the top bit of which is the sign, it is at most 2 ^ w - 1: a
-- number with the top bit set does not wrap around to a negative one.
pub parse_int-digits :
    (w : ℕ) (b : Bool) (bs : List Bool)
    → parse_int (suc w) (digits (b ∷ bs)) ≡ at_most (2 ^ w - 1) (number (b ∷ bs))
unfolding parse_int
parse_int-digits w b bs =
    rw ((no_sign b).0, (no_sign b).1, parse_uint-digits (suc w) b bs)
      (signed-at_most w (number (b ∷ bs)))

-- A number of at least one digit, and its text.
abbrev pub Binary : Type 0
Binary = Bool × List Bool

abbrev pub text : Binary → Bytes
text (b, bs) = digits (b ∷ bs)

abbrev pub value : Binary → ℕ
value (b, bs) = number (b ∷ bs)

-- The tests of a mask, as pairs of a filter and the value that the filtered bits are to have.
abbrev pub printed : List (Binary × Binary) → List Bytes
printed [] = []
printed ((filter, wanted) ∷ pairs) = text filter ∷ text wanted ∷ printed pairs

abbrev pub passes : ℕ → List (Binary × Binary) → ℕ → Bool
passes w [] val = false
passes w ((filter, wanted) ∷ pairs) val =
    (bit_and w val (value filter) == value wanted) || passes w pairs val

-- Both numbers fit a signed sample.
abbrev pub FitsSigned : ℕ → Binary × Binary → Type 0
FitsSigned w (filter, wanted) = (value filter < 2 ^ w) × (value wanted < 2 ^ w)

-- Two numbers of w bits have a bit set in common.
abbrev pub shares : ℕ → ℕ → ℕ → Bool
shares zero a b = false
shares (suc w) a b = (a % 2 == 1 && b % 2 == 1) || shares w (a / 2) (b / 2)

low_bits : (x y r : ℕ) → x < 2 → y < 2 → ltb 0 (x * y + 2 * r) ≡ ((x == 1 && y == 1) || ltb 0 r)
low_bits zero y r hx hy = ground arith
low_bits (suc zero) y r hx hy = ground arith
low_bits (suc (suc x)) y r hx hy = absurd (omega arith)

bit_and-shares : (w a b : ℕ) → ltb 0 (bit_and w a b) ≡ shares w a b
unfolding bit_and
bit_and-shares zero a b = refl
bit_and-shares (suc w) a b =
    low_bits (a % 2) (b % 2) (bit_and w (a / 2) (b / 2)) (omega arith) (omega arith)
    ∙ ap (λ r. (a % 2 == 1 && b % 2 == 1) || r) (bit_and-shares w (a / 2) (b / 2))

-- The types whose samples have no sign.
abbrev pub is_unsigned : RasterType → Bool
is_unsigned byte = true
is_unsigned uint16 = true
is_unsigned _ = false

parse_uint-value : (w : ℕ) (b : Binary) → value b < 2 ^ w → parse_uint w (text b) ≡ value b
parse_uint-value w (b, bs) h = parse_uint-digits w b bs ∙ ground arith

unsigned-shares :
    (t : RasterType) (v : Binary) (val : ℕ)
    → is_unsigned t ≡ true
    → value v < 2 ^ bits t
    → is_positive t (bit_and (bits t) val (mask_value t (text v))) ≡ shares (bits t) val (value v)
unfolding is_positive mask_value bits
unsigned-shares byte v val hu h =
    ap (λ n. ltb 0 (bit_and 8 val n)) (parse_uint-value 8 v h) ∙ bit_and-shares 8 val (value v)
unsigned-shares uint16 v val hu h =
    ap (λ n. ltb 0 (bit_and 16 val n)) (parse_uint-value 16 v h) ∙ bit_and-shares 16 val (value v)
unsigned-shares signed_byte v val hu h = absurd (ground arith)
unsigned-shares int16 v val hu h = absurd (ground arith)
unsigned-shares float32 v val hu h = absurd (ground arith)
unsigned-shares other v val hu h = absurd (ground arith)

unsigned-has_bits : (t : RasterType) → is_unsigned t ≡ true → has_bits t ≡ true
unfolding has_bits
unsigned-has_bits t h = ground arith

-- A mask with a value, over samples with no sign and with a value that fits them: a sample is masked
-- just where it has a bit in common with the value.
pub compute_mask-value :
    (m : Mask) (samples : Bytes) (t : RasterType) (v : Binary)
    → is_unsigned t ≡ true
    → m.value ≡ text v
    → value v < 2 ^ bits t
    → compute_mask m samples t ≡ ok (map (λ val. shares (bits t) val (value v)) (words t samples))
unfolding compute_mask mask_samples
compute_mask-value m samples t v hu hv h =
    rw (hv, unsigned-has_bits t hu, suc_not_zero (length (digits v.1)))
      (ap (λ f. ok (map f (words t samples))) (fun_ext (λ val. unsigned-shares t v val hu h)))
