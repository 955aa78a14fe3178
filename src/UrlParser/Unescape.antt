-- ===== src/UrlParser/Unescape.antt =====
-- `unescapeUrl` against a plain recursive decoder, and an encoder that it undoes.
use gsky.Prelude.{
  ℕ, zero, suc, ◌+◌, ◌-◌, ◌*◌, ◌/◌, ◌%◌, ◌<◌, ◌≡◌, ◌≢◌, refl, sym, ap, subst, ap₂, ◌∙◌, Bool,
  Bool-cases, inl, inr, true, false, ◌&&◌, Option, some, [], ◌∷◌, ◌++◌, arith, ltb, ◌==◌,
  if◌then◌else◌, length, length-append, length-replicate, replicate, write, write-append, ◌>>=◌,
  Bytes, All,
}
use mathlib.Core.List.{append_assoc}
use gsky.UrlParser.{unhex_pair, is_escape, count_escapes, decode_into, unescape_url}

-- The text with each %XX replaced by its byte; any other % stands for itself.
unfoldable pub percent_decode : Bytes → Bytes
percent_decode (c ∷ h ∷ l ∷ rest) =
    let escaped = unhex_pair h l ∷ percent_decode rest in
    let plain = c ∷ percent_decode (h ∷ l ∷ rest) in if is_escape c h l then escaped else plain
percent_decode s = s

length-percent_decode : (s : Bytes) → length (percent_decode s) + 2 * count_escapes s ≡ length s
unfolding percent_decode count_escapes
length-percent_decode [] = refl
length-percent_decode (c ∷ []) = refl
length-percent_decode (c ∷ d ∷ []) = refl
length-percent_decode (c ∷ h ∷ l ∷ rest) = elim (Bool-cases (is_escape c h l)) [
  | inl e ↦ rw e (omega (arith, length-percent_decode rest))
  | inr e ↦ rw e (omega (arith, length-percent_decode (h ∷ l ∷ rest)))
]

percent_decode-pos : (c : ℕ) (s : Bytes) → 0 < length (percent_decode (c ∷ s))
unfolding percent_decode
percent_decode-pos c [] = omega arith
percent_decode-pos c (d ∷ []) = omega arith
percent_decode-pos c (h ∷ l ∷ rest) = ground arith

-- A write behind xs, and what is done with the next index.
write_next :
    (xs ys : Bytes) (y v : ℕ) (next : Bytes → ℕ → Option Bytes)
    → (write (xs ++ y ∷ ys) (length xs) v >>= λ t. next t (length xs + 1))
      ≡ next ((xs ++ v ∷ []) ++ ys) (length (xs ++ v ∷ []))
write_next xs ys y v next =
    rw (write-append xs y ys v)
      (ap₂ next (sym (append_assoc xs (v ∷ []) ys)) (omega (arith, length-append xs (v ∷ []))))

decode_into-percent_decode :
    (s xs ys : Bytes)
    → length ys ≡ length (percent_decode s)
    → decode_into s (xs ++ ys) (length xs) ≡ some (xs ++ percent_decode s)
unfolding decode_into percent_decode
decode_into-percent_decode [] xs [] e = refl
decode_into-percent_decode [] xs (y ∷ ys) e = absurd (omega arith)
decode_into-percent_decode (c ∷ s) xs [] e = absurd (omega (arith, percent_decode-pos c s))
decode_into-percent_decode (c ∷ []) xs (y ∷ []) e = write-append xs y [] c
decode_into-percent_decode (c ∷ []) xs (y ∷ z ∷ ys) e = absurd (omega arith)
decode_into-percent_decode (c ∷ d ∷ []) xs (y ∷ []) e = absurd (omega arith)
decode_into-percent_decode (c ∷ d ∷ []) xs (y ∷ z ∷ []) e =
    write_next xs (z ∷ []) y c (λ t j. write t j d)
    ∙ write-append (xs ++ c ∷ []) z [] d
    ∙ ap some (append_assoc xs (c ∷ []) (d ∷ []))
decode_into-percent_decode (c ∷ d ∷ []) xs (y ∷ z ∷ x ∷ ys) e = absurd (omega arith)
decode_into-percent_decode (c ∷ h ∷ l ∷ rest) xs (y ∷ ys) e = elim (Bool-cases (is_escape c h l)) [
  | inl esc ↦ rw esc (
      write_next xs ys y (unhex_pair h l) (decode_into rest)
      ∙ decode_into-percent_decode rest (xs ++ unhex_pair h l ∷ []) ys (ground arith)
      ∙ ap some (append_assoc xs (unhex_pair h l ∷ []) (percent_decode rest)))
  | inr esc ↦ rw esc (
      write_next xs ys y c (decode_into (h ∷ l ∷ rest))
      ∙ decode_into-percent_decode (h ∷ l ∷ rest) (xs ++ c ∷ []) ys (ground arith)
      ∙ ap some (append_assoc xs (c ∷ []) (percent_decode (h ∷ l ∷ rest))))
]

-- For every text, unescapeUrl writes within its buffer and fills it exactly: its result is the text
-- with each escape replaced by the byte it stands for, and each other % kept.
pub unescape_url-percent_decode : (s : Bytes) → unescape_url s ≡ some (percent_decode s)
unfolding unescape_url
unescape_url-percent_decode s =
    decode_into-percent_decode s [] (replicate (length s - 2 * count_escapes s) 0)
      (length-replicate _ _ ∙ omega (arith, length-percent_decode s))

-- The upper-case digit of a number below 16.
unfoldable pub hex_digit : ℕ → ℕ
hex_digit n = if ltb n 10 then n + b'0' else n - 10 + b'A'

-- An encoder: %XX for every byte but those to keep.
unfoldable pub percent_encode : (ℕ → Bool) → Bytes → Bytes
unfolding hex_digit
percent_encode keep [] = []
percent_encode keep (c ∷ s) =
    if keep c
    then c ∷ percent_encode keep s
    else b'%' ∷ hex_digit (c / 16) ∷ hex_digit (c % 16) ∷ percent_encode keep s

holds_from : ℕ → (ℕ → Bool) → ℕ → Bool
holds_from zero test k = true
holds_from (suc n) test k = test k && holds_from n test (k + 1)

holds_from-at :
    (test : ℕ → Bool) (n k d : ℕ) → holds_from n test k ≡ true → d < n → test (d + k) ≡ true
unfolding holds_from
holds_from-at test zero k d h q = absurd (omega arith)
holds_from-at test (suc n) k zero h q = ground arith
holds_from-at test (suc n) k (suc d) h q =
    let next : d + (k + 1) ≡ suc d + k = omega arith in
    subst (λ c. test c ≡ true) next (holds_from-at test n (k + 1) d (ground arith) (omega arith))

escapes_back : ℕ → Bool
unfolding is_escape unhex_pair hex_digit
escapes_back c =
    is_escape b'%' (hex_digit (c / 16)) (hex_digit (c % 16))
    && unhex_pair (hex_digit (c / 16)) (hex_digit (c % 16)) == c

every_byte : holds_from 256 escapes_back 0 ≡ true
unfolding holds_from escapes_back
every_byte = refl

pub escape_byte :
    (c : ℕ)
    → c < 256
    → (is_escape b'%' (hex_digit (c / 16)) (hex_digit (c % 16)) ≡ true)
      × (unhex_pair (hex_digit (c / 16)) (hex_digit (c % 16)) ≡ c)
unfolding escapes_back
escape_byte c h =
    let here : c + 0 ≡ c = omega arith in
    let e =
      subst (λ b. escapes_back b ≡ true) here (holds_from-at escapes_back 256 0 c every_byte h) in
    (ground arith, ground arith)

percent_decode-plain :
    (c : ℕ) (s : Bytes) → c ≢ b'%' → percent_decode (c ∷ s) ≡ c ∷ percent_decode s
unfolding percent_decode is_escape
percent_decode-plain c [] h = refl
percent_decode-plain c (d ∷ []) h = refl
percent_decode-plain c (d ∷ l ∷ rest) h = ground arith

percent_decode-escape :
    (c h l : ℕ) (s : Bytes)
    → is_escape c h l ≡ true
    → percent_decode (c ∷ h ∷ l ∷ s) ≡ unhex_pair h l ∷ percent_decode s
unfolding percent_decode
percent_decode-escape c h l s e = rw e

percent_decode-percent_encode :
    (keep : ℕ → Bool) (s : Bytes)
    → keep b'%' ≡ false
    → All (λ c. c < 256) s
    → percent_decode (percent_encode keep s) ≡ s
unfolding percent_encode
percent_decode-percent_encode keep [] k h = unfold percent_decode in refl
percent_decode-percent_encode keep (c ∷ s) k (hc, hs) = elim (Bool-cases (keep c)) [
  | inl kept ↦
      rw (kept, percent_decode-plain c (percent_encode keep s) (λ e. cc (ap keep e)))
        (ap (λ t. c ∷ t) (percent_decode-percent_encode keep s k hs))
  | inr hidden ↦
      rw (hidden, percent_decode-escape b'%' _ _ (percent_encode keep s) (escape_byte c hc).0)
        (ap₂ ◌∷◌ (escape_byte c hc).1 (percent_decode-percent_encode keep s k hs))
]

-- Decoding undoes every percent-encoding of a text of bytes that does not keep the % itself.
pub unescape_url-percent_encode :
    (keep : ℕ → Bool) (s : Bytes)
    → keep b'%' ≡ false
    → All (λ c. c < 256) s
    → unescape_url (percent_encode keep s) ≡ some s
unescape_url-percent_encode keep s k h =
    unescape_url-percent_decode (percent_encode keep s)
    ∙ ap some (percent_decode-percent_encode keep s k h)
