-- ===== src/UrlParser/Request.antt =====
-- utils/url_parser.go: what the server reads from the headers that a proxy adds to a request.
use gsky.Prelude.{Bool, List, [], ◌∷◌, ◌++◌, ltb, ◌==◌, if◌then◌else◌, length, Bytes, codes}
use gsky.Dap4.{split, trim_space}

-- http.Request: Header.Get, RemoteAddr, whether TLS is set, and Host.
pub record Request : Type 0 where
  pub header : Bytes → Bytes
  pub remote_addr : Bytes
  pub tls : Bool
  pub host : Bytes

-- The first of the parts: strings.Split gives one at least.
abbrev first_part : List Bytes → Bytes
first_part [] = []
first_part (part ∷ parts) = part

unfoldable pub parse_remote_addr : Request → Bytes
parse_remote_addr r =
    if ltb 0 (length (r.header (codes "X-Forwarded-For")))
    then trim_space (first_part (split b',' (r.header (codes "X-Forwarded-For"))))
    else if ltb 0 (length (r.header (codes "X-Real-IP")))
    then trim_space (r.header (codes "X-Real-IP"))
    else r.remote_addr

unfoldable pub parse_request_protocol : Request → Bytes
parse_request_protocol r =
    let protocol = trim_space (r.header (codes "X-Forwarded-Proto")) in
    if length protocol == 0 then (if r.tls then codes "https" else codes "http") else protocol

unfoldable pub get_host_url : Request → Bytes
unfolding parse_request_protocol
get_host_url r = parse_request_protocol r ++ (codes "://" ++ r.host)
