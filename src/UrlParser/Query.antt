-- ===== src/UrlParser/Query.antt =====
-- The query parser ends on every text, and leaves a shorter query in each round.
use gsky.Prelude.{
  ℕ, zero, suc, ◌≤◌, ◌<◌, ◌≡◌, refl, Bool, Bool-cases, Option-cases, inl, inr, false, none, some,
  [], ◌∷◌, arith, ◌==◌, length, Bytes,
}
use gsky.UrlParser.{
  query_unescape, cut_param, is_special, ParseState, with_key, parse_param, parse_loop, parse_query,
  Decoded, ok, escape_error, rest_query, store_value, fail,
}
use gsky.UrlParser.Unescape.{percent_decode, unescape_url-percent_decode}

-- What follows a separator is shorter.
cut_param-lt : (b : Bool) (s q : Bytes) → (cut_param b s).1 ≡ some q → length q < length s
unfolding cut_param
cut_param-lt b [] q h = ground arith
cut_param-lt b (c ∷ s) q h = ground (arith, cut_param-lt (c == b'\\') s q)

rest_query-lt : (c : ℕ) (s : Bytes) → length (rest_query (cut_param false (c ∷ s)).1) ≤ length s
rest_query-lt c s = elim (Option-cases (cut_param false (c ∷ s)).1) [
  | inl e ↦ rw e (omega arith)
  | inr (q, e) ↦ rw e (omega (arith, cut_param-lt false (c ∷ s) q e))
]

module _ (to_lower : Bytes → Bytes) where
  with_key-some :
      (d : Decoded) (value : Bytes) (st : ParseState)
      → (st' : ParseState) × (with_key to_lower d value st ≡ some st')
  with_key-some (ok k) value st = elim (Bool-cases (is_special (to_lower k))) [
    | inl e ↦ (
      store_value to_lower (to_lower k) (ok (percent_decode value)) st,
      rw (e, unescape_url-percent_decode value) refl,
    )
    | inr e ↦ (store_value to_lower (to_lower k) (query_unescape value) st, rw e refl)
  ]
  with_key-some (escape_error e) value st = (fail e st, refl)

  parse_param-some :
      (param : Bytes) (st : ParseState)
      → (st' : ParseState) × (parse_param to_lower param st ≡ some st')
  unfolding parse_param
  parse_param-some [] st = (st, refl)
  parse_param-some (c ∷ s) st = with_key-some _ _ st

  parse_loop-some :
      (fuel : ℕ) (query : Bytes) (st : ParseState)
      → length query < fuel
      → (st' : ParseState) × (parse_loop to_lower fuel query st ≡ some st')
  unfolding parse_loop
  parse_loop-some zero query st h = elim h [ ]
  parse_loop-some (suc fuel) [] st h = (st, refl)
  parse_loop-some (suc fuel) (c ∷ s) st h =
      let (st', e) = parse_param-some (cut_param false (c ∷ s)).0 st in
      rw e (
        parse_loop-some fuel (rest_query (cut_param false (c ∷ s)).1) st'
          (omega (arith, rest_query-lt c s)))

  -- ParseQuery ends on every text, with no index out of range: each round leaves a shorter query.
  pub parse_query-some :
      (query : Bytes) → (st : ParseState) × (parse_query to_lower query ≡ some st)
  unfolding parse_query
  parse_query-some query =
      parse_loop-some (suc (length query)) query (record { m = []; first_err = none }) (omega arith)
