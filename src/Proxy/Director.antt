-- ===== src/Proxy/Director.antt =====
-- internal/proxy/directors.go: what is changed in a request before it is sent on. The context's
-- values are fields of the request. Printed addresses and the canonical names of headers are the
-- library's, and `net.SplitHostPort` gives two empty texts for what it cannot split.
use lets_proxy.Base.{
  ℕ, List, [], ◌∷◌, ◌++◌, Option, none, some, Bool, Str, text, if◌then◌else◌, str_eq, Result, ok,
  err,
}
use lets_proxy.Base.Dict.{lookup, insert}

abbrev pub connection_id_mark : Str
connection_id_mark = text "{{CONNECTION_ID}}"

abbrev pub http_proto_mark : Str
http_proto_mark = text "{{HTTP_PROTO}}"

abbrev pub source_ip_mark : Str
source_ip_mark = text "{{SOURCE_IP}}"

abbrev pub source_port_mark : Str
source_port_mark = text "{{SOURCE_PORT}}"

abbrev pub source_ip_port_mark : Str
source_ip_port_mark = text "{{SOURCE_IP}}:{{SOURCE_PORT}}"

abbrev pub protocol_http : Str
protocol_http = text "http"

abbrev pub protocol_https : Str
protocol_https = text "https"

-- `net.TCPAddr`: the printed address, empty if there is none, and the port.
pub record TcpAddr : Type 0 where
  pub ip : Str
  pub port : ℕ

pub record Url : Type 0 where
  pub scheme : Str
  pub url_host : Str

-- `http.Request`: what the directors read and write. `tls` is the context's mark of a TLS connection.
pub record Request : Type 0 where
  pub host : Str
  pub url : Option Url
  pub remote_addr : Str
  pub local_addr : TcpAddr
  pub header : List (Str × Str)
  pub connection_id : Str
  pub tls : Option Bool

-- The implementations of `Director`.
pub data Director : Type 0 where
  same_ip : Str → Director
  dest_map : List (Str × Str) → Director
  to_host : Str → Director
  set_headers : List (Str × Str) → Director
  set_scheme : Str → Director

-- The library's printing and parsing.
pub record Printing : Type 0 where
  pub addr_string : TcpAddr → Str
  pub itoa : ℕ → Str
  pub split_host_port : Str → Str × Str
  pub canonical : Str → Str

-- The URL, made if it is nil.
abbrev pub url_or_new : Option Url → Url
url_or_new (some u) = u
url_or_new none = record { scheme = []; url_host = [] }

abbrev pub url_of : Request → Url
url_of r = url_or_new r.url

unfoldable pub set_url_host : Request → Str → Request
set_url_host r h = record r { url = some (record (url_of r) { url_host = h }) }

-- The `switch` on the value of a header.
pub header_value : Request → Str → Str → Str → Str
header_value r host port val =
    if str_eq val connection_id_mark
    then r.connection_id
    else if str_eq val http_proto_mark
    then (elim r.tls [
      | some tls ↦ if tls then protocol_https else protocol_http
      | none ↦ text "error protocol detection"
    ])
    else if str_eq val source_ip_mark
    then host
    else if str_eq val source_ip_port_mark
    then host ++ text ":" ++ port
    else if str_eq val source_port_mark
    then port
    else val

module _ (printing : Printing) where
  -- The loop over the headers.
  unfoldable pub put_headers : Request → Str → Str → List (Str × Str) → Request
  put_headers r host port [] = r
  put_headers r host port ((name, val) ∷ headers) =
      let value = header_value r host port val in
      put_headers (record r { header = insert (printing.canonical name) value r.header }) host port
        headers

  -- `Director` of each type.
  unfoldable pub direct : Director → Request → Result Request
  direct (same_ip port) r = ok (set_url_host r (r.local_addr.ip ++ text ":" ++ port))
  direct (dest_map m) r = elim (lookup (printing.addr_string r.local_addr) m) [
    | none ↦ ok r
    | some dest ↦ ok (set_url_host r dest)
  ]
  direct (to_host h) r = ok (set_url_host r h)
  direct (set_headers h) r =
      let (host, port) = printing.split_host_port r.remote_addr in ok (put_headers r host port h)
  direct (set_scheme s) r = ok (record r { url = some (record (url_of r) { scheme = s }) })

  -- `DirectorChain.Director`
  unfoldable pub direct_chain : List Director → Request → Result Request
  direct_chain [] r = ok r
  direct_chain (d ∷ directors) r = elim (direct d r) [
    | err e ↦ err e
    | ok r' ↦ direct_chain directors r'
  ]

-- `NewDirectorChain`: nil directors are left out.
unfoldable pub new_director_chain : List (Option Director) → List Director
new_director_chain [] = []
new_director_chain (none ∷ directors) = new_director_chain directors
new_director_chain (some d ∷ directors) = d ∷ new_director_chain directors
