-- ===== src/Listener/Version.antt =====
-- internal/tlslistener/tlslistenershandler.go and config.go: the TLS version and the listeners of the
-- configuration. `net.Listen` is a parameter; a listener is what it returns.
use lets_proxy.Base.{
  ℕ, List, [], ◌∷◌, Option, none, some, Str, text, str_eq, if◌then◌else◌, Error, message, Result,
  ok, err,
}

-- `ParseTLSVersion`: VersionTLS10 is 0x0301.
pub parse_tls_version : Str → Result ℕ
parse_tls_version s =
    if str_eq s []
    then ok 769
    else if str_eq s (text "1.0")
    then ok 769
    else if str_eq s (text "1.1")
    then ok 770
    else if str_eq s (text "1.2")
    then ok 771
    else if str_eq s (text "1.3")
    then ok 772
    else err (message (text "Unexpected TLS version"))

pub record Config : Type 0 where
  pub tls_addresses : List Str
  pub tcp_addresses : List Str
  pub min_tls_version : Str

-- `ListenersHandler`, the fields that `Apply` sets.
pub record Handler : Type 0 where
  pub min_tls_version : ℕ
  pub listeners_for_handle_tls : List ℕ
  pub listeners : List ℕ

module _ (listen : Str → Result ℕ) where
  -- A loop of `Apply` over addresses; it ends at the first error.
  pub listen_all : List Str → Result (List ℕ)
  listen_all [] = ok []
  listen_all (addr ∷ addresses) = elim (listen addr) [
    | err e ↦ err e
    | ok listener ↦ elim (listen_all addresses) [ err e ↦ err e | ok rest ↦ ok (listener ∷ rest) ]
  ]

  -- `Apply`: the listeners are set before the version is looked at.
  pub apply : Config → Handler → Handler × Option Error
  apply c l = elim (listen_all c.tls_addresses) [
    | err e ↦ (l, some e)
    | ok tls_listeners ↦ elim (listen_all c.tcp_addresses) [
      | err e ↦ (l, some e)
      | ok tcp_listeners ↦
          let l1 = record l {
            listeners_for_handle_tls = tls_listeners;
            listeners = tcp_listeners;
          } in
          elim (parse_tls_version c.min_tls_version) [
            | err e ↦ (l1, some e)
            | ok version ↦ (record l1 { min_tls_version = version }, none)
          ]
    ]
  ]
