-- ===== src/Checker/Sources.antt =====
-- internal/domain_checker/ip_list_sources.go, and the networks and helpers of ip_list.go: where the
-- addresses of the server itself come from, and the checker over them. The packages `net`, `strings`
-- and `http` and the metadata of the cloud are parameters, which answer alike as often as they are
-- asked while the checker is made; a list's later renewals are not modelled.
pub mod Bound
use lets_proxy.Base.{
  List, [], ◌∷◌, ◌++◌, Option, none, some, Bool, true, false, not, Str, text, if◌then◌else◌, Error,
  message, Result, ok, err, any, str_eq, has_suffix, length, take, ◌-◌, ◌||◌,
}
use lets_proxy.Checker.IpList.{IpList, update_ips, parse_ip_list}
use lets_proxy.Checker.IpList
use lets_proxy.Checker.Chains.{DomainChecker, Checkers, any_of, ip_list, nothing}
use lets_proxy.Checker.Config.{append_checker}

-- The texts of the interfaces' addresses, what the metadata answer to a path, and what a request by a
-- network comes to: none if it fails, else the body or the error of its reading.
pub record Machine : Type 0 where
  pub interface_addrs : List Str
  pub aws_metadata_available : Bool
  pub get_metadata : Str → Str × Option Error
  pub get_url : Str → Str → Option (Result Str)
  pub contains : Str → Str → Bool
  pub parse_cidr : Str → Option Str
  pub parse_ip : Str → Option Str
  pub trim_space : Str → Str
  pub split : Str → Str → List Str
  pub ip_equal : Str → Str → Bool
  pub lookup_ip_addr : Str → Result (List Str)

abbrev pub non_public_ip_networks : List Str
non_public_ip_networks =
    text "0.0.0.0/8"
    ∷ text "10.0.0.0/8"
    ∷ text "100.64.0.0/10"
    ∷ text "127.0.0.0/8"
    ∷ text "169.254.0.0/16"
    ∷ text "172.16.0.0/12"
    ∷ text "192.0.0.0/24"
    ∷ text "192.0.2.0/24"
    ∷ text "192.88.99.0/24"
    ∷ text "192.168.0.0/16"
    ∷ text "198.18.0.0/15"
    ∷ text "198.51.100.0/24"
    ∷ text "203.0.113.0/24"
    ∷ text "224.0.0.0/4"
    ∷ text "240.0.0.0/4"
    ∷ text "255.255.255.255/32"
    ∷ text "::/128"
    ∷ text "::1/128"
    ∷ text "::ffff:0:0:0/96"
    ∷ text "100::/64"
    ∷ text "2001:20::/28"
    ∷ text "2001:db8::/32"
    ∷ text "2002::/16"
    ∷ text "fc00::/7"
    ∷ text "fe80::/10"
    ∷ text "ff00::/8"
    ∷ []

unfoldable pub first_error : List (Option Error) → Option Error
first_error [] = none
first_error (some e ∷ errors) = some e
first_error (none ∷ errors) = first_error errors

-- The addresses, if there are some, or else the first error, if there is one.
unfoldable pub found_or_error : List Str → List (Option Error) → Result (List Str)
found_or_error (ip ∷ ips) errors = ok (ip ∷ ips)
found_or_error [] errors = elim (first_error errors) [ some e ↦ err e | none ↦ ok [] ]

-- `s` without the suffix, as `strings.TrimSuffix`.
pub trim_suffix : Str → Str → Str
trim_suffix s suffix = if has_suffix s suffix then take (length s - length suffix) s else s

-- The addresses and the error of a result, as Go returns both.
unfoldable pub returned : Result (List Str) → List Str × Option Error
returned (ok ips) = (ips, none)
returned (err e) = ([], some e)

-- What the two requests have found, the first's error if nothing.
unfoldable pub detected_ips : Result Str → Result Str → Result (List Str)
detected_ips (ok v4) (ok v6) = ok (v4 ∷ v6 ∷ [])
detected_ips (ok v4) (err e) = ok (v4 ∷ [])
detected_ips (err e) (ok v6) = ok (v6 ∷ [])
detected_ips (err e) (err e') = err e

-- `ipSources` and `publicIPDetected`.
pub record Detection : Type 0 where
  pub ip_sources : Checkers
  pub public_ip_detected : Bool

pub no_sources : Detection
no_sources = record { ip_sources = nothing; public_ip_detected = false }

pub some_found : Result (List Str) → Bool
some_found (ok (ip ∷ ips)) = true
some_found (ok []) = false
some_found (err e) = false

-- `NewIPList` and then `StartAutoRenew`: the source is asked twice.
pub new_ip_list : Result (List Str) → IpList
new_ip_list addresses =
    update_ips (update_ips (record { ips = []; canceled = false }) addresses) addresses

module _ (m : Machine) where
  unfoldable pub is_public_ip : Str → Bool
  is_public_ip ip =
      if str_eq ip [] then false else not (any (λ net. m.contains net ip) non_public_ip_networks)

  unfoldable pub filter_public_only_ips : List Str → List Str
  filter_public_only_ips [] = []
  filter_public_only_ips (ip ∷ ips) =
      let rest = filter_public_only_ips ips in if is_public_ip ip then ip ∷ rest else rest

  -- The loop of `getBindedIPAddress`.
  unfoldable pub get_binded_ip_address : List Str → List Str
  get_binded_ip_address [] = []
  get_binded_ip_address (addr ∷ binded) =
      let rest = get_binded_ip_address binded in
      if str_eq addr (text "<nil>")
      then rest
      else elim (m.parse_cidr addr) [ none ↦ rest | some ip ↦ ip ∷ rest ]

  unfoldable pub self_binded_public_ips : Result (List Str)
  self_binded_public_ips = ok (filter_public_only_ips (get_binded_ip_address m.interface_addrs))

  unfoldable pub parse_lines : Str → Result (List Str)
  parse_lines s = parse_ip_list m.trim_space m.split m.parse_ip s (text "\n")

  -- The loop over the interfaces: the addresses of each, and all errors.
  pub ipv6_of : List Str → List Str × List (Option Error)
  ipv6_of [] = ([], [])
  ipv6_of (mac ∷ macs) =
      let rest = ipv6_of macs in
      let meta_string =
        text "network/interfaces/macs/" ++ trim_suffix mac (text "/") ++ text "/ipv6s" in
      let answer = m.get_metadata meta_string in
      let parsed = returned (parse_lines answer.0) in
      (parsed.0 ++ rest.0, answer.1 ∷ parsed.1 ∷ rest.1)

  unfoldable pub aws_public_ips : Result (List Str)
  aws_public_ips =
      let v4 = m.get_metadata (text "public-ipv4") in
      let parsed = returned (parse_lines v4.0) in
      let macs = m.get_metadata (text "network/interfaces/macs/") in
      let v6 : List Str × List (Option Error) = elim macs.1 [
        | none ↦ ipv6_of (m.split macs.0 (text "\n"))
        | some e ↦ ([], [])
      ] in
      found_or_error (parsed.0 ++ v6.0) (v4.1 ∷ parsed.1 ∷ macs.1 ∷ v6.1)

  -- `fGetIP`
  unfoldable pub f_get_ip : Str → Str → Result Str
  f_get_ip url network = elim (m.get_url url network) [
    | none ↦ err (message (text "request to ip detector"))
    | some (err e) ↦ err (message (text "response from ip detector"))
    | some (ok resp_bytes) ↦ elim (m.parse_ip (m.trim_space resp_bytes)) [
      | none ↦ err (message (text "ip detector parse response"))
      | some ip ↦ ok ip
    ]
  ]

  unfoldable pub get_ip_by_external_request : Str → Result (List Str)
  get_ip_by_external_request url =
      detected_ips (f_get_ip url (text "tcp4")) (f_get_ip url (text "tcp6"))

  pub add_source : Result (List Str) → Detection → Detection
  add_source addresses d = record d {
    ip_sources =
        append_checker d.ip_sources
          (ip_list (IpList.is_domain_allowed m.ip_equal m.lookup_ip_addr (new_ip_list addresses)));
  }

  -- Adds the source, and notes whether it has an address.
  pub add_detecting : Result (List Str) → Detection → Detection
  add_detecting addresses d = record (add_source addresses d) {
    public_ip_detected = if d.public_ip_detected then true else some_found addresses;
  }

  -- The case of `auto`.
  pub detect_auto : Str → Detection
  detect_auto url =
      let bound = add_detecting self_binded_public_ips no_sources in
      let cloud = if m.aws_metadata_available then add_detecting aws_public_ips bound else bound in
      if cloud.public_ip_detected then cloud else add_source (get_ip_by_external_request url) cloud

  unfoldable pub detect : Str → Str → Result Detection
  detect method url =
      if str_eq method (text "auto")
      then ok (detect_auto url)
      else if str_eq method (text "aws") || str_eq method (text "yandex")
      then (if m.aws_metadata_available
          then ok (add_detecting aws_public_ips no_sources)
          else err (message (text "Aws metadata doesn't available")))
      else if str_eq method (text "bind")
      then ok (add_detecting self_binded_public_ips no_sources)
      else if str_eq method (text "external")
      then ok (add_source (get_ip_by_external_request url) no_sources)
      else err (message (text "Unknown IPSelfDetectMethod"))

  -- The detection's method and the detector's URL are the configuration's.
  unfoldable pub new_self_ip_checker : Str → Str → Result DomainChecker
  new_self_ip_checker method url = elim (detect method url) [
    | err e ↦ err e
    | ok d ↦ ok (any_of d.ip_sources)
  ]
