-- ===== src/UrlParser.antt =====
-- utils/url_parser.go: the parser of a request's query string, and its lenient percent-decoding.
pub mod Unescape
pub mod Query
pub mod RoundTrip
mod Request
mod Tests
use Prim.Native.Nat.{bit_or}
use gsky.Prelude.{
  ℕ, zero, suc, ◌+◌, ◌-◌, ◌*◌, ◌%◌, Bool, true, false, not, ◌&&◌, ◌||◌, Option, none, some, List,
  [], ◌∷◌, ◌++◌, ltb, leb, ◌==◌, if◌then◌else◌, length, take, replicate, write, ◌>>=◌, Bytes, codes,
  bytes_eq,
}

pub ishex : ℕ → Bool
ishex c =
    if leb b'0' c && leb c b'9'
    then true
    else if leb b'a' c && leb c b'f'
    then true
    else if leb b'A' c && leb c b'F'
    then true
    else false

-- Each subtraction is of a byte that is not greater.
pub unhex : ℕ → ℕ
unhex c =
    if leb b'0' c && leb c b'9'
    then c - b'0'
    else if leb b'a' c && leb c b'f'
    then c - b'a' + 10
    else if leb b'A' c && leb c b'F'
    then c - b'A' + 10
    else 0

-- unhex(h)<<4 | unhex(l), on bytes
pub unhex_pair : ℕ → ℕ → ℕ
unfolding unhex
unhex_pair h l = bit_or (unhex h * 16 % 256) (unhex l)

-- Whether the byte c starts an escape, given the two bytes behind it.
pub is_escape : ℕ → ℕ → ℕ → Bool
unfolding ishex
is_escape c h l = c == b'%' && (ishex h && ishex l)

-- The first loop of unescapeUrl, over the text from s[i] on: how many escapes there are. With fewer
-- than three bytes left none starts.
pub count_escapes : Bytes → ℕ
count_escapes (c ∷ h ∷ l ∷ rest) =
    let skipped = suc (count_escapes rest) in
    let next = count_escapes (h ∷ l ∷ rest) in if is_escape c h l then skipped else next
count_escapes _ = 0

-- The second loop, which writes at t[j].
pub decode_into : Bytes → Bytes → ℕ → Option Bytes
decode_into [] t j = some t
decode_into (c ∷ []) t j = write t j c
decode_into (c ∷ d ∷ []) t j = do t' ← write t j c; write t' (j + 1) d
decode_into (c ∷ h ∷ l ∷ rest) t j =
    let escaped = write t j (unhex_pair h l) >>= λ t'. decode_into rest t' (j + 1) in
    let plain = write t j c >>= λ t'. decode_into (h ∷ l ∷ rest) t' (j + 1) in
    if is_escape c h l then escaped else plain

-- `none` would be an index out of the buffer. The error that it returns is always nil.
pub unescape_url : Bytes → Option Bytes
unfolding count_escapes decode_into
unescape_url s = decode_into s (replicate (length s - 2 * count_escapes s) 0) 0

-- url.QueryUnescape of net/url: strict, and a plus sign is a space. The error quotes the first
-- escape that is not one, at most three bytes.
pub data Decoded : Type 0 where
  ok : Bytes → Decoded
  escape_error : Bytes → Decoded

abbrev pub prepend : ℕ → Decoded → Decoded
prepend c (ok s) = ok (c ∷ s)
prepend c (escape_error e) = escape_error e

abbrev pub plus_to_space : ℕ → ℕ
plus_to_space c = if c == b'+' then b' ' else c

pub query_unescape : Bytes → Decoded
query_unescape [] = ok []
query_unescape (c ∷ []) = if c == b'%' then escape_error (c ∷ []) else ok (plus_to_space c ∷ [])
query_unescape (c ∷ d ∷ []) =
    if c == b'%'
    then escape_error (c ∷ d ∷ [])
    else prepend (plus_to_space c) (query_unescape (d ∷ []))
query_unescape (c ∷ h ∷ l ∷ rest) =
    let escaped = prepend (unhex_pair h l) (query_unescape rest) in
    let plain = prepend (plus_to_space c) (query_unescape (h ∷ l ∷ rest)) in
    if is_escape c h l then escaped else if c == b'%' then escape_error (c ∷ h ∷ l ∷ []) else plain

-- The scan for a separator from query[i] on: what stands before the first & that no backslash
-- precedes, and what stands behind it, if there is one.
pub cut_param : Bool → Bytes → Bytes × Option Bytes
cut_param escaped [] = ([], none)
cut_param escaped (c ∷ s) =
    let (key, rest) = cut_param (c == b'\\') s in
    if c == b'&' && not escaped then ([], some s) else (c ∷ key, rest)

-- key[:i] and key[i+1:] at the first =
pub cut_value : Bytes → Option (Bytes × Bytes)
cut_value [] = none
cut_value (c ∷ s) =
    let rest = cut_value s >>= λ kv. some (c ∷ kv.0, kv.1) in
    if c == b'=' then some ([], s) else rest

-- strings.Replace(value, "\\&", "&", -1)
pub replace_amp : Bytes → Bytes
replace_amp [] = []
replace_amp (c ∷ []) = c ∷ []
replace_amp (c ∷ d ∷ s) =
    let replaced = b'&' ∷ replace_amp s in
    let kept = c ∷ replace_amp (d ∷ s) in if c == b'\\' && d == b'&' then replaced else kept

abbrev pub Values : Type 0
Values = List (Bytes × List Bytes)

-- m[key] = append(m[key], value)
pub add_value : Bytes → Bytes → Values → Values
add_value key value [] = (key, value ∷ []) ∷ []
add_value key value ((k, vs) ∷ m) =
    if bytes_eq k key then (k, vs ++ value ∷ []) ∷ m else (k, vs) ∷ add_value key value m

abbrev pub is_special : Bytes → Bool
is_special key =
    bytes_eq key (codes "rangesubset")
    || (bytes_eq key (codes "subset")
        || (bytes_eq key (codes "dap4.ce") || bytes_eq key (codes "code")))

-- The map and the first error.
pub record ParseState : Type 0 where
  pub m : Values
  pub first_err : Option Bytes

abbrev pub fail : Bytes → ParseState → ParseState
fail e st = record st { first_err = elim st.first_err [ none ↦ some e | some e' ↦ some e' ] }

-- The key and the value of a parameter, given where its first = cuts it.
abbrev pub pair_of : Bytes → Option (Bytes × Bytes) → Bytes × Bytes
pair_of param none = (param, [])
pair_of param (some (key, value)) = (key, replace_amp value)

abbrev pub split_param : Bytes → Bytes × Bytes
split_param param = pair_of param (cut_value param)

-- query[iSep+1:], or the empty text if there is no separator.
abbrev pub rest_query : Option Bytes → Bytes
rest_query none = []
rest_query (some q) = q

-- strings.ToLower, whose tables of letters are the standard library's
module _ (to_lower : Bytes → Bytes) where
  abbrev pub store_value : Bytes → Decoded → ParseState → ParseState
  store_value key (ok value) st = record st { m = add_value key value st.m }
  store_value key (escape_error e) st = fail e st

  abbrev pub decode_value : Bytes → Bytes → Option Decoded
  decode_value key value =
      if is_special key
      then (unescape_url value >>= λ v. some (ok v))
      else some (query_unescape value)

  abbrev pub with_key : Decoded → Bytes → ParseState → Option ParseState
  with_key (ok k) value st =
      decode_value (to_lower k) value >>= λ v. some (store_value (to_lower k) v st)
  with_key (escape_error e) value st = some (fail e st)

  -- The body of the loop, with the parameter: an empty one is passed over.
  pub parse_param : Bytes → ParseState → Option ParseState
  parse_param [] st = some st
  parse_param (c ∷ s) st =
      let (key, value) = split_param (c ∷ s) in with_key (query_unescape key) value st

  -- for query != "" { ... }; `none` is a panic, or out of fuel
  pub parse_loop : ℕ → Bytes → ParseState → Option ParseState
  parse_loop zero query st = none
  parse_loop (suc fuel) [] st = some st
  parse_loop (suc fuel) (c ∷ s) st =
      let (param, rest) = cut_param false (c ∷ s) in
      parse_param param st >>= parse_loop fuel (rest_query rest)

  pub parse_query : Bytes → Option ParseState
  unfolding parse_loop
  parse_query query = parse_loop (suc (length query)) query (record { m = []; first_err = none })
