-- ===== src/UrlParser/RoundTrip.antt =====
-- The query parser reads back the parameters of a query in which they are percent-encoded.
use gsky.Prelude.{
  ℕ, zero, suc, ◌/◌, ◌%◌, ◌<◌, ◌≡◌, ◌≢◌, refl, ap, ◌∙◌, Bool-cases, inl, inr, true, false, none,
  some, List, [], ◌∷◌, ◌++◌, arith, length, length-append, ◌>>=◌, Bytes, All, All-append,
}
use gsky.UrlParser.{
  ok, query_unescape, cut_param, cut_value, replace_amp, split_param, with_key, decode_value,
  rest_query, Values, add_value, is_special, ParseState, parse_param, parse_loop, parse_query,
  is_escape, unhex_pair,
}
use gsky.UrlParser.Unescape.{hex_digit, percent_encode, escape_byte, unescape_url-percent_encode}

abbrev IsByte : ℕ → Type 0
IsByte c = c < 256

-- Every byte written as an escape.
unfoldable pub encode : Bytes → Bytes
encode = percent_encode (λ _. false)

-- A byte that means nothing to the parser's scans.
abbrev IsInert : ℕ → Type 0
IsInert c = (c ≢ b'&') × (c ≢ b'=') × (c ≢ b'\\')

hex_digit-IsInert : (n : ℕ) → n < 16 → IsInert (hex_digit n)
unfolding hex_digit
hex_digit-IsInert n h = (ground arith, ground arith, ground arith)

encode-IsInert : (s : Bytes) → All IsByte s → All IsInert (encode s)
unfolding encode percent_encode
encode-IsInert [] h = tt
encode-IsInert (c ∷ s) (hc, hs) = (
  (omega arith, omega arith, omega arith),
  (
    hex_digit-IsInert (c / 16) (omega arith),
    (hex_digit-IsInert (c % 16) (omega arith), encode-IsInert s hs),
  ),
)

query_unescape-escape :
    (c h l : ℕ) (rest s : Bytes)
    → is_escape c h l ≡ true
    → query_unescape rest ≡ ok s
    → query_unescape (c ∷ h ∷ l ∷ rest) ≡ ok (unhex_pair h l ∷ s)
unfolding query_unescape
query_unescape-escape c h l rest s e q = rw (e, q)

query_unescape-encode : (s : Bytes) → All IsByte s → query_unescape (encode s) ≡ ok s
unfolding encode percent_encode
query_unescape-encode [] h = unfold query_unescape in refl
query_unescape-encode (c ∷ s) (hc, hs) =
    let (esc, byte) = escape_byte c hc in
    query_unescape-escape b'%' (hex_digit (c / 16)) (hex_digit (c % 16)) (encode s) s esc
      (query_unescape-encode s hs)
    ∙ ap (λ b. ok (b ∷ s)) byte

-- A parameter with no & and no backslash is cut off at the & behind it, or is the whole text.
abbrev IsUncut : ℕ → Type 0
IsUncut c = (c ≢ b'&') × (c ≢ b'\\')

cut_param-append : (s q : Bytes) → All IsUncut s → cut_param false (s ++ b'&' ∷ q) ≡ (s, some q)
unfolding cut_param
cut_param-append [] q h = refl
cut_param-append (c ∷ s) q (hc, hs) = ground (arith, cut_param-append s q hs)

cut_param-whole : (s : Bytes) → All IsUncut s → cut_param false s ≡ (s, none)
unfolding cut_param
cut_param-whole [] h = refl
cut_param-whole (c ∷ s) (hc, hs) = ground (arith, cut_param-whole s hs)

cut_value-append : (s q : Bytes) → All IsInert s → cut_value (s ++ b'=' ∷ q) ≡ some (s, q)
unfolding cut_value
cut_value-append [] q h = refl
cut_value-append (c ∷ s) q (hc, hs) = ground (arith, cut_value-append s q hs)

replace_amp-inert : (s : Bytes) → All IsInert s → replace_amp s ≡ s
unfolding replace_amp
replace_amp-inert [] h = refl
replace_amp-inert (c ∷ []) h = refl
replace_amp-inert (c ∷ d ∷ s) (hc, hs) = ground (arith, replace_amp-inert (d ∷ s) hs)

All-imp : {P Q : ℕ → Type 0} (f : (c : ℕ) → P c → Q c) (s : Bytes) → All P s → All Q s
All-imp f [] h = tt
All-imp f (c ∷ s) (hc, hs) = (f c hc, All-imp f s hs)

abbrev Param : Type 0
Param = Bytes × Bytes

abbrev IsParam : Param → Type 0
IsParam kv = All IsByte kv.0 × All IsByte kv.1

-- key=value, both percent-encoded
unfoldable pub format_param : Param → Bytes
format_param kv = encode kv.0 ++ b'=' ∷ encode kv.1

unfoldable pub format_query : List Param → Bytes
format_query [] = []
format_query (kv ∷ []) = format_param kv
format_query (kv ∷ next ∷ kvs) = format_param kv ++ b'&' ∷ format_query (next ∷ kvs)

format_param-IsUncut : (kv : Param) → IsParam kv → All IsUncut (format_param kv)
unfolding format_param
format_param-IsUncut (k, v) (hk, hv) =
    let uncut : (c : ℕ) → IsInert c → IsUncut c = λ c h. (h.0, h.2) in
    All-append IsUncut (encode k) (b'=' ∷ encode v) (All-imp uncut (encode k) (encode-IsInert k hk))
      ((omega arith, omega arith), All-imp uncut (encode v) (encode-IsInert v hv))

split_param-format_param :
    (kv : Param) → IsParam kv → split_param (format_param kv) ≡ (encode kv.0, encode kv.1)
unfolding format_param
split_param-format_param (k, v) (hk, hv) = rw (
  cut_value-append (encode k) (encode v) (encode-IsInert k hk),
  replace_amp-inert (encode v) (encode-IsInert v hv),
)

cons_of : (s : Bytes) (d : ℕ) (q : Bytes) → (c : ℕ) × (r : Bytes) × (s ++ d ∷ q ≡ c ∷ r)
cons_of [] d q = (d, q, refl)
cons_of (c ∷ s) d q = (c, s ++ d ∷ q, refl)

-- A parameter is never empty: it holds an equals sign.
format_param-cons : (kv : Param) → (c : ℕ) × (s : Bytes) × (format_param kv ≡ c ∷ s)
unfolding format_param
format_param-cons (k, v) = cons_of (encode k) b'=' (encode v)

module _ (to_lower : Bytes → Bytes) where
  -- The values of the parameters in turn, each appended under its lower-case key.
  pub collect : List Param → Values → Values
  collect [] m = m
  collect (kv ∷ kvs) m = collect kvs (add_value (to_lower kv.0) kv.1 m)

  parse_param-cons :
      (s : Bytes) (st : ParseState)
      → (c : ℕ) × (r : Bytes) × (s ≡ c ∷ r)
      → parse_param to_lower s st
        ≡ with_key to_lower (query_unescape (split_param s).0) (split_param s).1 st
  unfolding parse_param
  parse_param-cons s st (c, r, e) = rw e

  parse_loop-cons :
      (fuel : ℕ) (s : Bytes) (st : ParseState)
      → (c : ℕ) × (r : Bytes) × (s ≡ c ∷ r)
      → parse_loop to_lower (suc fuel) s st ≡ (
          parse_param to_lower (cut_param false s).0 st
          >>= parse_loop to_lower fuel (rest_query (cut_param false s).1))
  unfolding parse_loop
  parse_loop-cons fuel s st (c, r, e) = rw e

  decode_value-encode :
      (key v : Bytes) → All IsByte v → decode_value to_lower key (encode v) ≡ some (ok v)
  decode_value-encode key v h = elim (Bool-cases (is_special key)) [
    | inl e ↦ rw e (unfold encode in rw (unescape_url-percent_encode (λ _. false) v refl h))
    | inr e ↦ rw (e, query_unescape-encode v h)
  ]

  parse_param-format_param :
      (kv : Param) (st : ParseState)
      → IsParam kv
      → parse_param to_lower (format_param kv) st
        ≡ some (record st { m = add_value (to_lower kv.0) kv.1 st.m })
  parse_param-format_param kv st h =
      parse_param-cons (format_param kv) st (format_param-cons kv)
      ∙ (rw (split_param-format_param kv h, query_unescape-encode kv.0 h.0)
          (rw (decode_value-encode (to_lower kv.0) kv.1 h.1)))

  parse_loop-format_query :
      (kvs : List Param) (fuel : ℕ) (st : ParseState)
      → All IsParam kvs
      → length (format_query kvs) < fuel
      → parse_loop to_lower fuel (format_query kvs) st ≡ some (record st { m = collect kvs st.m })
  unfolding format_query collect
  parse_loop-format_query kvs zero st h enough = elim enough [ ]
  parse_loop-format_query [] (suc fuel) st h enough = unfold parse_loop in refl
  parse_loop-format_query (kv ∷ []) (suc zero) st (hkv, _) enough =
      let (c, r, e) = format_param-cons kv in absurd (omega (arith, ap length e))
  parse_loop-format_query (kv ∷ []) (suc (suc fuel)) st (hkv, _) enough =
      parse_loop-cons (suc fuel) (format_param kv) st (format_param-cons kv)
      ∙ rw
          (
            cut_param-whole (format_param kv) (format_param-IsUncut kv hkv),
            parse_param-format_param kv st hkv,
          )
          (unfold parse_loop in refl)
  parse_loop-format_query (kv ∷ next ∷ kvs) (suc fuel) st (hkv, hs) enough =
      parse_loop-cons fuel (format_param kv ++ b'&' ∷ format_query (next ∷ kvs)) st
        (cons_of (format_param kv) b'&' (format_query (next ∷ kvs)))
      ∙ rw
          (
            cut_param-append (format_param kv) (format_query (next ∷ kvs))
                (format_param-IsUncut kv hkv),
            parse_param-format_param kv st hkv,
          )
          (parse_loop-format_query (next ∷ kvs) fuel
            (record st { m = add_value (to_lower kv.0) kv.1 st.m }) hs
            (omega (arith, length-append (format_param kv) (b'&' ∷ format_query (next ∷ kvs)))))

  -- ParseQuery reads back every query of parameters in which keys and values, any bytes, are
  -- percent-encoded: the values of each lower-case key in their order, and no error.
  pub parse_query-format_query :
      (kvs : List Param)
      → All IsParam kvs
      → parse_query to_lower (format_query kvs)
        ≡ some (record { m = collect kvs []; first_err = none })
  unfolding parse_query
  parse_query-format_query kvs h =
      parse_loop-format_query kvs (suc (length (format_query kvs)))
        (record { m = []; first_err = none }) h (omega arith)
