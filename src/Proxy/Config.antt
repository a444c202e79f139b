-- ===== src/Proxy/Config.antt =====
-- internal/proxy/config.go: the directors that the configuration asks for. `strings.TrimSpace` and the
-- resolution of addresses are the library's.
pub mod Target
use lets_proxy.Base.{
  ℕ, List, [], ◌∷◌, ◌++◌, Option, none, some, Bool, true, false, Str, text, if◌then◌else◌, str_eq,
  ◌==◌, ◌*◌, Error, message, Result, ok, err, ◌>>=◌, ◌>>◌, fail_if,
}
use lets_proxy.Base.Dict.{insert}
use lets_proxy.Proxy.Director.{
  TcpAddr, Director, same_ip, dest_map, to_host, set_headers, set_scheme, Printing, protocol_http,
  protocol_https, new_director_chain,
}

abbrev pub default_http_port : ℕ
default_http_port = 80

pub record Config : Type 0 where
  pub default_target : Str
  pub target_map : List Str
  pub headers : List Str
  pub keep_alive_timeout_seconds : ℕ
  pub https_backend : Bool
  pub https_backend_ignore_cert : Bool
  pub enable_access_log : Bool

-- `HTTPProxy`, the fields that `Apply` sets; the timeout in nanoseconds.
pub record HttpProxy : Type 0 where
  pub director : List Director
  pub ignore_https_certificate : Option Bool
  pub enable_access_log : Bool
  pub idle_timeout : ℕ

-- `net` and `strings`, as far as the configuration is read with them.
pub record Parsing : Type 0 where
  pub trim_space : Str → Str
  pub resolve_tcp_addr : Str → Result TcpAddr
  pub resolve_ip_addr : Str → Result Str

-- `strings.Split(s, sep)` for a separator of one byte.
unfoldable pub split : ℕ → Str → List Str
split sep [] = [] ∷ []
split sep (a ∷ s) = elim (split sep s) [
  | [] ↦ (a ∷ []) ∷ []
  | part ∷ parts ↦ if a == sep then [] ∷ part ∷ parts else (a ∷ part) ∷ parts
]

-- `strings.SplitN(s, sep, 2)`, if it gives two parts.
unfoldable pub split_first : ℕ → Str → Option (Str × Str)
split_first sep [] = none
split_first sep (a ∷ s) =
    if a == sep
    then some ([], s)
    else elim (split_first sep s) [ none ↦ none | some parts ↦ some (a ∷ parts.0, parts.1) ]

-- A map is made of lines in their order: the last line for a key counts.
unfoldable pub make_map : List (Str × Str) → List (Str × Str) → List (Str × Str)
make_map [] m = m
make_map ((k, v) ∷ pairs) m = make_map pairs (insert k v m)

-- The loop over the lines, which ends at the first error.
unfoldable pub parse_lines : (Str → Result (Str × Str)) → List Str → Result (List (Str × Str))
parse_lines parse [] = ok []
parse_lines parse (line ∷ lines) = elim (parse line) [
  | err e ↦ err e
  | ok pair ↦ elim (parse_lines parse lines) [ err e ↦ err e | ok pairs ↦ ok (pair ∷ pairs) ]
]

module _ (printing : Printing) (parsing : Parsing) where
  -- `getDefaultTargetDirector`
  unfoldable pub resolve_target : Str → Result TcpAddr
  resolve_target s = elim (parsing.resolve_tcp_addr s) [
    | ok addr ↦ ok addr
    | err _ ↦ elim (parsing.resolve_ip_addr s) [
      | err e ↦ err e
      | ok ip ↦ ok (record { ip = ip; port = default_http_port })
    ]
  ]

  unfoldable pub get_default_target_director : Config → Result Director
  get_default_target_director c =
      if str_eq (parsing.trim_space c.default_target) []
      then err (message (text "empty default target"))
      else elim (resolve_target c.default_target) [
        | err e ↦ err e
        | ok target ↦
            if str_eq target.ip []
            then ok (same_ip (printing.itoa target.port))
            else ok (to_host (printing.addr_string target))
      ]

  -- An address that must have an IP.
  unfoldable pub resolve_with_ip : Str → Result Str
  resolve_with_ip s = do
    addr ← parsing.resolve_tcp_addr s
    fail_if (str_eq addr.ip []) (message (text "addr has no ip"))
    ok (printing.addr_string addr)

  -- `parseTCPMapPair`
  unfoldable pub parse_tcp_map_pair : Str → Result (Str × Str)
  parse_tcp_map_pair line = elim (split b'-' (parsing.trim_space line)) [
    | from ∷ to ∷ [] ↦ do from ← resolve_with_ip from; to ← resolve_with_ip to; ok (from, to)
    | _ ↦ err (message (text "can't split tcp map to pair"))
  ]

  unfoldable pub get_map_director : Config → Result (Option Director)
  get_map_director c = elim c.target_map [
    | [] ↦ ok none
    | line ∷ lines ↦ elim (parse_lines parse_tcp_map_pair (line ∷ lines)) [
      | err e ↦ err e
      | ok pairs ↦ ok (some (dest_map (make_map pairs [])))
    ]
  ]

  unfoldable pub parse_header : Str → Result (Str × Str)
  parse_header line = elim (split_first b':' (parsing.trim_space line)) [
    | none ↦ err (message (text "can't parse headers proxy config"))
    | some pair ↦ ok pair
  ]

  unfoldable pub get_headers_director : Config → Result (Option Director)
  get_headers_director c = elim c.headers [
    | [] ↦ ok none
    | line ∷ lines ↦ elim (parse_lines parse_header (line ∷ lines)) [
      | err e ↦ err e
      | ok pairs ↦ ok (some (set_headers (make_map pairs [])))
    ]
  ]

  unfoldable pub get_schema_director : Config → Director
  get_schema_director c = set_scheme (if c.https_backend then protocol_https else protocol_http)

  -- The directors of `Apply`, in the order of the chain.
  unfoldable pub get_chain : Config → Result (List (Option Director))
  get_chain c = do
    target ← get_default_target_director c
    mapped ← get_map_director c
    headers ← get_headers_director c
    ok (some target ∷ mapped ∷ headers ∷ some (get_schema_director c) ∷ [])

  -- `Apply`
  unfoldable pub apply : Config → HttpProxy → HttpProxy × Option Error
  apply c p =
      let p1 = record p {
        ignore_https_certificate = some c.https_backend_ignore_cert;
        enable_access_log = c.enable_access_log;
      } in
      elim (get_chain c) [
        | err e ↦ (p1, some e)
        | ok chain ↦ (
          record p1 {
            director = new_director_chain chain;
            idle_timeout = c.keep_alive_timeout_seconds * 1_000_000_000;
          },
          none,
        )
      ]
