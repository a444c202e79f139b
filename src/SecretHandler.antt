-- ===== src/SecretHandler.antt =====
-- internal/secrethandler/secret_handler.go: the guard of the handlers of metrics and profiles. The
-- library's parsers of networks, addresses and queries are parameters; a query is parsed into what
-- `Values.Get` gives for a name.
pub mod Guards
mod Tests
use lets_proxy.Base.{
  ℕ, List, [], ◌∷◌, Bool, true, false, not, ◌&&◌, ◌||◌, Str, text, str_eq, if◌then◌else◌, length,
  ltb, any, Error, Result, ok, err,
}

abbrev pub max_url_len : ℕ
max_url_len = 100

abbrev pub password_arg_name : Str
password_arg_name = text "password"

pub record Config : Type 0 where
  pub allowed_networks : List Str
  pub password : Str
  pub allow_empty_password : Bool

-- `net` and `net/url`, as far as the handler calls them.
pub record Net : Type 1 where
  pub Network : Type 0
  pub Ip : Type 0
  pub parse_cidr : Str → Result Network
  pub contains : Network → Ip → Bool
  pub resolve_tcp_addr : Str → Result Ip
  pub parse_query : Str → Result (Str → Str)

-- `http.Request`, the fields that the handler reads.
pub record Request : Type 0 where
  pub method : Str
  pub remote_addr : Str
  pub raw_query : Str

-- The status of an error, or the call of the next handler.
pub data Answer : Type 0 where
  http_error : ℕ → Answer
  next_called : Answer

module _ (net : Net) where
  pub record SecretHandler : Type 0 where
    pub allowed_networks : List net.Network
    pub allow_empty_password : Bool
    pub password : Str

  -- The loop of `New`: a network that does not parse is left out.
  pub parse_networks : List Str → List net.Network
  parse_networks [] = []
  parse_networks (network ∷ networks) =
      let rest = parse_networks networks in
      elim (net.parse_cidr network) [ ok parsed ↦ parsed ∷ rest | err _ ↦ rest ]

  -- `New`
  pub new_secret_handler : Config → SecretHandler
  new_secret_handler config = record {
    allowed_networks = parse_networks config.allowed_networks;
    allow_empty_password = config.allow_empty_password;
    password = config.password;
  }

  -- The check of the remote address: the answer of `ServeHTTP`, if it ends there.
  pub check_network : SecretHandler → Request → Result Bool
  check_network m r = elim m.allowed_networks [
    | [] ↦ ok true
    | network ∷ networks ↦ elim (net.resolve_tcp_addr r.remote_addr) [
      | err e ↦ err e
      | ok remote_ip ↦ ok (any (λ subnet. net.contains subnet remote_ip) (network ∷ networks))
    ]
  ]

  -- `ServeHTTP` behind the check of the address.
  pub check_request : SecretHandler → Request → Answer
  check_request m r =
      if str_eq m.password [] && not m.allow_empty_password
      then http_error 403
      else if ltb max_url_len (length r.raw_query)
      then http_error 414
      else elim (net.parse_query r.raw_query) [
        | err _ ↦ http_error 400
        | ok values ↦
            let pass = values password_arg_name in
            if not (str_eq pass m.password) || (not m.allow_empty_password && str_eq pass [])
            then http_error 403
            else if not (str_eq r.method (text "GET")) && not (str_eq r.method (text "HEAD"))
            then http_error 405
            else next_called
      ]

  pub serve_http : SecretHandler → Request → Answer
  serve_http m r = elim (check_network m r) [
    | err _ ↦ http_error 500
    | ok network_allow ↦ if network_allow then check_request m r else http_error 403
  ]
