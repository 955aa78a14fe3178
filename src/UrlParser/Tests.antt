-- ===== src/UrlParser/Tests.antt =====
-- Runs of the query parser on concrete texts, and its theorems at them.
use gsky.Prelude.{
  true, if◌then◌else◌, bytes_eq, ◌≡◌, refl, false, none, some, [], ◌∷◌, arith, Bytes, codes,
}
use gsky.UrlParser.{
  ParseState, parse_param, cut_param, cut_value, replace_amp, query_unescape, add_value, is_escape,
  unhex_pair, unescape_url, parse_query,
}
use gsky.Dap4.{split, trim_left, trim_right}
use gsky.UrlParser.Request.{Request, parse_remote_addr, get_host_url}
use gsky.UrlParser.Unescape.{
  percent_decode, unescape_url-percent_decode, percent_encode, unescape_url-percent_encode,
}
use gsky.UrlParser.Query.{parse_query-some}
use gsky.UrlParser.RoundTrip.{format_query, collect, parse_query-format_query}

-- A percent sign with no two hex digits behind it is kept.
lenient_runs : unescape_url (codes "50%+%41%4g%2") ≡ some (codes "50%+A%4g%2")
unfolding unescape_url is_escape unhex_pair
lenient_runs = refl

abbrev identity : Bytes → Bytes
identity s = s

-- An escaped & does not end a value; special keys keep their plus signs.
query_runs :
    parse_query identity (codes "a=b+c&&code=x\\&y+%2b&a=%41")
    ≡ some (record {
      m = (codes "a", codes "b c" ∷ codes "A" ∷ []) ∷ (codes "code", codes "x&y++" ∷ []) ∷ [];
      first_err = none;
    })
unfolding parse_query parse_param cut_param cut_value replace_amp query_unescape unescape_url
    add_value is_escape unhex_pair
query_runs = refl

unescape_url-percent_decode_example :
    unescape_url (codes "a%20b") ≡ some (percent_decode (codes "a%20b"))
unescape_url-percent_decode_example = unescape_url-percent_decode (codes "a%20b")

unescape_url-percent_encode_example :
    unescape_url (percent_encode (λ _. false) (codes "a b")) ≡ some (codes "a b")
unescape_url-percent_encode_example =
    unescape_url-percent_encode (λ _. false) (codes "a b") refl (omega arith)

parse_query-some_example : (st : ParseState) × (parse_query identity (codes "a=b&c") ≡ some st)
parse_query-some_example = parse_query-some identity (codes "a=b&c")

parse_query-format_query_example :
    parse_query identity (format_query ((codes "a", codes "x&y") ∷ (codes "code", codes "1") ∷ []))
    ≡ some (record {
      m = collect identity ((codes "a", codes "x&y") ∷ (codes "code", codes "1") ∷ []) [];
      first_err = none;
    })
parse_query-format_query_example =
    parse_query-format_query identity ((codes "a", codes "x&y") ∷ (codes "code", codes "1") ∷ [])
      (omega arith)

-- A request that came through two proxies.
abbrev proxied : Request
proxied = record {
  header =
      λ name. if bytes_eq name (codes "X-Forwarded-For") then codes " 10.1.2.3 , 10.0.0.1" else [];
  remote_addr = codes "10.0.0.1:80";
  tls = true;
  host = codes "gsky";
}

client_address : parse_remote_addr proxied ≡ codes "10.1.2.3"
unfolding parse_remote_addr split trim_left trim_right
client_address = refl

host_url : get_host_url proxied ≡ codes "https://gsky"
unfolding get_host_url trim_left trim_right
host_url = refl
