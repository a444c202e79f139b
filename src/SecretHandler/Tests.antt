-- ===== src/SecretHandler/Tests.antt =====
-- internal/secrethandler/secret_handler.go: a handler with a password, and networks that do not parse.
use lets_proxy.Base.{◌≡◌, refl, ◌↔◌, ℕ, false, [], ◌∷◌, text, ok, err, cache_miss, str_eq, ◌==◌}
use lets_proxy.SecretHandler.{
  Net, Config, Request, next_called, http_error, new_secret_handler, serve_http, SecretHandler,
}
use lets_proxy.SecretHandler.Guards.{serve_http_iff, FromNetwork, GivesPassword, IsRead}

-- One network, of the number 10; a query is the password.
abbrev net : Net
net = record {
  Network = ℕ;
  Ip = ℕ;
  parse_cidr = λ _. err cache_miss;
  contains = λ n i. n == i;
  resolve_tcp_addr = λ _. ok 10;
  parse_query = λ q. ok (λ _. q);
}

abbrev handler : SecretHandler net
handler = record { allowed_networks = 10 ∷ []; allow_empty_password = false; password = text "pw" }

abbrev request : Request
request = record { method = text "GET"; remote_addr = text "10"; raw_query = text "pw" }

serve_http_iff_example :
    (serve_http net handler request ≡ next_called)
    ↔ (FromNetwork net handler request × GivesPassword net handler request × IsRead net request)
serve_http_iff_example = serve_http_iff net handler request

-- The configured networks do not parse, and no address is refused.
unparsed_networks_test :
    serve_http net
      (new_secret_handler net (record {
        allowed_networks = text "10.0.0.0" ∷ [];
        password = text "pw";
        allow_empty_password = false;
      }))
      request
    ≡ next_called
unfolding new_secret_handler serve_http lets_proxy.SecretHandler.check_network
    lets_proxy.SecretHandler.parse_networks lets_proxy.SecretHandler.check_request str_eq
unparsed_networks_test = refl
