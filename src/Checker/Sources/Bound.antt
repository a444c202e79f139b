-- ===== src/Checker/Sources/Bound.antt =====
-- internal/domain_checker/ip_list_sources.go: for which domains the checker of the bound addresses
-- passes.
use lets_proxy.Base.{
  List, [], ◌∷◌, some, Bool, true, false, not, Str, text, Result, ok, any, str_eq, sym, ◌∙◌,
  All-mono, str_eq_iff, if◌then◌else◌, All, Some, arith, refl, ◌≡◌, ◌≢◌, ◌↔◌, inl, inr,
}
use lets_proxy.Checker.IpList.{IpList, update_ips, is_domain_allowed}
use lets_proxy.Checker.IpList.Allowed.{is_domain_allowed_iff}
use lets_proxy.Checker.Chains.{DomainChecker}
use lets_proxy.Checker.Config.{append_checker}
use lets_proxy.Checker.Chains
use lets_proxy.Checker.Sources.{
  Machine, non_public_ip_networks, is_public_ip, filter_public_only_ips, get_binded_ip_address,
  new_self_ip_checker, detect, add_detecting, add_source, self_binded_public_ips, new_ip_list,
  no_sources,
}

-- An address that is in none of the reserved networks.
abbrev pub IsPublic : Machine → Str → Type 0
IsPublic m ip = (ip ≢ []) × All (λ net. m.contains net ip ≡ false) non_public_ip_networks

none_contains :
    (m : Machine) (ip : Str) (nets : List Str)
    → (any (λ net. m.contains net ip) nets ≡ false) ↔ All (λ net. m.contains net ip ≡ false) nets
none_contains m ip [] = ground arith
none_contains m ip (net ∷ nets) = ground (arith, none_contains m ip nets)

public_iff :
    (m : Machine) (ip : Str) (nets : List Str)
    → ((if str_eq ip [] then false else not (any (λ net. m.contains net ip) nets)) ≡ true)
      ↔ ((ip ≢ []) × All (λ net. m.contains net ip ≡ false) nets)
public_iff m ip nets = ground (arith, none_contains m ip nets, str_eq_iff ip [])

is_public_ip_iff : (m : Machine) (ip : Str) → (is_public_ip m ip ≡ true) ↔ IsPublic m ip
unfolding is_public_ip
is_public_ip_iff m ip = public_iff m ip non_public_ip_networks

filter_Some :
    (m : Machine) (P : Str → Type 0) (ips : List Str)
    → Some P (filter_public_only_ips m ips) ↔ Some (λ ip. (is_public_ip m ip ≡ true) × P ip) ips
unfolding filter_public_only_ips
filter_Some m P [] = ground arith
filter_Some m P (ip ∷ ips) = ground (arith, filter_Some m P ips)

binded_Some :
    (m : Machine) (P : Str → Type 0) (binded : List Str)
    → Some P (get_binded_ip_address m binded)
      ↔ Some
          (λ addr.
            (str_eq addr (text "<nil>") ≡ false) × (b : Str) × (m.parse_cidr addr ≡ some b) × P b)
          binded
unfolding get_binded_ip_address
binded_Some m P [] = ground arith
binded_Some m P (addr ∷ binded) = ground (arith, binded_Some m P binded)

-- The text of an interface's address that has a public address equal to this one.
abbrev pub IsBound : Machine → Str → Str → Type 0
IsBound m ip addr =
    (addr ≢ text "<nil>")
    × (b : Str) × (m.parse_cidr addr ≡ some b)
    × IsPublic m b
    × (m.ip_equal ip b ≡ true)

Some-mono : {P Q : Str → Type 0} → ((a : Str) → P a → Q a) → (xs : List Str) → Some P xs → Some Q xs
Some-mono f [] h = h
Some-mono f (x ∷ xs) (inl p) = inl (f x p)
Some-mono f (x ∷ xs) (inr h) = inr (Some-mono f xs h)

any_single :
    (answers : Str → Result Bool) (domain : Str)
    → Chains.any_allows (Chains.also (Chains.ip_list answers) Chains.nothing) domain
      ≡ answers domain
unfolding Chains.any_allows
any_single answers domain = ground arith

IsBound-iff :
    (m : Machine) (ip : Str)
    → Some
        (λ b. m.ip_equal ip b ≡ true)
        (filter_public_only_ips m (get_binded_ip_address m m.interface_addrs))
      ↔ Some (IsBound m ip) m.interface_addrs
IsBound-iff m ip =
    let P : Str → Type 0 = λ b. m.ip_equal ip b ≡ true in
    let public = filter_Some m P (get_binded_ip_address m m.interface_addrs) in
    let parsed = binded_Some m (λ b. (is_public_ip m b ≡ true) × P b) m.interface_addrs in
    (
      (λ h.
          Some-mono
            (λ addr (n, b, e, (p, q)). (
              (λ i. ground (arith, n, (str_eq_iff addr (text "<nil>")).1 i)),
              b,
              e,
              (is_public_ip_iff m b).0 p,
              q,
            ))
            m.interface_addrs (parsed.0 (public.0 h))),
      λ h. public.1 (
          parsed.1 (
            Some-mono
              (λ addr (n, b, e, p, q).
                (not_equal addr (text "<nil>") n, b, e, ((is_public_ip_iff m b).1 p, q)))
              m.interface_addrs h)),
    )
  where
    not_equal : (s t : Str) → s ≢ t → str_eq s t ≡ false
    not_equal s t n = ground (arith, n, str_eq_iff s t)

-- With the method `bind` there is a checker, and it passes a domain exactly if the domain's addresses
-- can be looked up, there is at least one, and each of them equals an address of an interface which
-- is in no reserved network.
pub new_self_ip_checker-bind :
    (m : Machine) (url domain : Str)
    → (checker : DomainChecker) × (new_self_ip_checker m (text "bind") url ≡ ok checker)
      × ((Chains.is_domain_allowed checker domain ≡ ok true) ↔ (
          (found : List Str) × (m.lookup_ip_addr domain ≡ ok found)
          × (found ≢ [])
          × All (λ ip. Some (IsBound m ip) m.interface_addrs) found))
unfolding new_self_ip_checker detect add_detecting add_source append_checker self_binded_public_ips
    new_ip_list update_ips str_eq Chains.is_domain_allowed no_sources
new_self_ip_checker-bind m url domain =
    let s : IpList = record {
      ips = filter_public_only_ips m (get_binded_ip_address m m.interface_addrs);
      canceled = false;
    } in
    let answers = is_domain_allowed m.ip_equal m.lookup_ip_addr s in
    let list = is_domain_allowed_iff m.ip_equal m.lookup_ip_addr s domain in
    let one = any_single answers domain in
    (
      Chains.any_of (Chains.also (Chains.ip_list answers) Chains.nothing),
      refl,
      (
        (λ h.
            let (_, found, q, n, a) = list.0 (sym one ∙ h) in
            (found, q, n, All-mono (λ ip. (IsBound-iff m ip).0) found a)),
        λ (found, q, n, a).
            one ∙ list.1 (refl, found, q, n, All-mono (λ ip. (IsBound-iff m ip).1) found a),
      ),
    )
