-- ===== src/Proxy/Tests.antt =====
-- internal/proxy: a configuration with a line of the target map.
use lets_proxy.Base.{◌≡◌, refl, [], ◌∷◌, none, some, true, false, text, ok, Error, str_eq}
use lets_proxy.Proxy.Director.{Request, Printing, same_ip}
use lets_proxy.Proxy.Config.{
  Config, HttpProxy, Parsing, apply, resolve_target, parse_lines, parse_tcp_map_pair,
}
use lets_proxy.Proxy.Config.Target.{apply_lem, Routed}
use lets_proxy.Proxy.Server.{handle, handle-apply, sent, https_transport}

abbrev printing : Printing
printing = record {
  addr_string = λ a. a.ip;
  itoa = λ n. text "80";
  split_host_port = λ s. (s, []);
  canonical = λ s. s;
}

abbrev parsing : Parsing
parsing = record {
  trim_space = λ s. s;
  resolve_tcp_addr = λ s. ok (record { ip = s; port = 80 });
  resolve_ip_addr = λ s. ok s;
}

abbrev config : Config
config = record {
  default_target = text "back";
  target_map = text "a-b" ∷ [];
  headers = text "X:y" ∷ [];
  keep_alive_timeout_seconds = 5;
  https_backend = true;
  https_backend_ignore_cert = false;
  enable_access_log = false;
}

abbrev proxy : HttpProxy
proxy = record {
  director = same_ip (text "80") ∷ [];
  ignore_https_certificate = none;
  enable_access_log = false;
  idle_timeout = 0;
}

-- A request for example.com:443 that came in at the address `a`.
abbrev request : Request
request = record {
  host = text "example.com:443";
  url = none;
  remote_addr = text "c";
  local_addr = record { ip = text "a"; port = 443 };
  header = [];
  connection_id = text "1";
  tls = some true;
}

apply_lem_example :
    ((apply printing parsing config proxy).1 ≡ none
      → Routed printing parsing config (apply printing parsing config proxy).0.director)
    × ((e : Error)
        → (apply printing parsing config proxy).1 ≡ some e
        → ((apply printing parsing config proxy).0.director ≡ proxy.director)
          × ((apply printing parsing config proxy).0.idle_timeout ≡ 0))
apply_lem_example = apply_lem printing parsing config proxy

handle-apply_example :
    (r' : Request) × (handle printing (λ _. false) (apply printing parsing config proxy).0 request
      ≡ sent r' (https_transport (text "example.com") false))
unfolding apply lets_proxy.Proxy.Config.get_chain
    lets_proxy.Proxy.Config.get_default_target_director str_eq resolve_target
    lets_proxy.Proxy.Config.get_map_director parse_lines parse_tcp_map_pair
    lets_proxy.Proxy.Config.split lets_proxy.Proxy.Config.resolve_with_ip
    lets_proxy.Proxy.Config.get_headers_director lets_proxy.Proxy.Config.parse_header
    lets_proxy.Proxy.Config.split_first
handle-apply_example = handle-apply printing (λ _. false) parsing config proxy request refl refl
