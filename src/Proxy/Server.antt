-- ===== src/Proxy/Server.antt =====
-- internal/proxy/http-proxy.go and transport.go: how a request is handled and by which transport it
-- is sent. The transport is what tells one from another: the shared one, one of its own with the
-- server's name and whether its certificate is ignored, or the library's if the proxy has none.
use lets_proxy.Base.{
  List, none, some, Bool, true, false, Str, if◌then◌else◌, str_eq, Error, Result, ok, err, ◌≡◌,
  refl, arith, ap, ◌∙◌, Result-cases, is_result, is_error,
}
use lets_proxy.Proxy.Config.{Config, HttpProxy, Parsing, apply, get_chain, split_first}
use lets_proxy.Proxy.Config.Target.{apply_lem}
use lets_proxy.Proxy.Director.{
  Director, Request, Printing, url_of, direct_chain, protocol_http, protocol_https,
}

pub data Transport : Type 0 where
  default_http_transport : Transport
  https_transport : Str → Bool → Transport
  library_transport : Transport

-- The host without its port: what stands before the first colon.
abbrev pub strip_port : Str → Str
strip_port host = elim (split_first b':' host) [ none ↦ host | some parts ↦ parts.0 ]

-- `getTransport`
pub get_transport : Bool → Request → Transport
get_transport ignore_https_certificate req =
    if str_eq (url_of req).scheme protocol_http
    then default_http_transport
    else https_transport (strip_port req.host) ignore_https_certificate

-- The transport of a request whose URL has the scheme of the backend.
get_transport-backend :
    (https ignore : Bool) (r r' : Request) (h : Str)
    → r'.url
      ≡ some (record { scheme = if https then protocol_https else protocol_http; url_host = h })
    → r'.host ≡ r.host
    → get_transport ignore r'
      ≡ (if https then https_transport (strip_port r.host) ignore else default_http_transport)
unfolding get_transport str_eq
get_transport-backend true ignore r r' h url host = rw (get_transport, url, host) refl
get_transport-backend false ignore r r' h url host = rw (get_transport, url) refl

-- What becomes of a request: it was the validation's, a panic, or it is sent.
pub data Handled : Type 0 where
  validated : Handled
  panicked : Error → Handled
  sent : Request → Transport → Handled

module _ (printing : Printing) (handle_http_validation : Request → Bool) where
  -- `director`: the URL is made if it is nil; an error of the directors is a panic.
  pub director : List Director → Request → Result Request
  director directors r = direct_chain printing directors (record r { url = some (url_of r) })

  -- The handler of `Start`.
  pub handle : HttpProxy → Request → Handled
  handle p r = if handle_http_validation r then validated else elim (director p.director r) [
    | err e ↦ panicked e
    | ok r' ↦ sent r' (elim p.ignore_https_certificate [
      | some ignore ↦ get_transport ignore r'
      | none ↦ library_transport
    ])
  ]

  apply-ignore :
      (parsing : Parsing) (c : Config) (p : HttpProxy)
      → (apply printing parsing c p).0.ignore_https_certificate ≡ some c.https_backend_ignore_cert
  unfolding apply
  apply-ignore parsing c p = elim (Result-cases (get_chain printing parsing c)) [
    | is_error e q ↦ rw (apply, q) refl
    | is_result chain q ↦ rw (apply, q) refl
  ]

  handle-sent :
      (p : HttpProxy) (r r' : Request) (ignore : Bool)
      → handle_http_validation r ≡ false
      → p.ignore_https_certificate ≡ some ignore
      → director p.director r ≡ ok r'
      → handle p r ≡ sent r' (get_transport ignore r')
  unfolding handle
  handle-sent p r r' ignore n i q = ground arith

  -- After an Apply without an error a request that is not the validation's is sent, over HTTP by the
  -- shared transport, and over HTTPS to a server that must have the name of the Host header, unless
  -- its certificate is ignored.
  pub handle-apply :
      (parsing : Parsing) (c : Config) (p : HttpProxy) (r : Request)
      → (apply printing parsing c p).1 ≡ none
      → handle_http_validation r ≡ false
      → (r' : Request) × (handle (apply printing parsing c p).0 r
          ≡ sent r' (
              if c.https_backend
              then https_transport (strip_port r.host) c.https_backend_ignore_cert
              else default_http_transport))
  unfolding director
  handle-apply parsing c p r h n =
      let start : Request = record r { url = some (url_of r) } in
      let (target, pairs, _, _, routes) = (apply_lem printing parsing c p).0 h in
      let (r', chain, url, host) = routes start in
      let p' = (apply printing parsing c p).0 in
      (
        r',
        handle-sent p' r r' c.https_backend_ignore_cert n (apply-ignore parsing c p) chain
            ∙ ap (sent r')
                (get_transport-backend c.https_backend c.https_backend_ignore_cert r r' _ url host),
      )
