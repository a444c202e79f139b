-- ===== src/Dns/Tests.antt =====
-- internal/dns: resolvers that answer for example.com.
use lets_proxy.Base.{
  Bool, ◌≡◌, refl, sym, ℕ, List, [], ◌∷◌, Option, none, some, true, false, Str, text, ok, err,
  truncated_response, str_eq, if◌then◌else◌, ◌↔◌, ◌⊎◌, In, Some, Error, Result,
}
use lets_proxy.Dns.Parallel.{Outcome, returned, panicked, outcome_ips, outcome_error}
use lets_proxy.Dns.Parallel
use lets_proxy.Dns.Parallel.Merge.{lookup_ip_addr_lem, Gives, Fails}
use lets_proxy.Dns.Resolver.{
  Client, Exchange, completed, address, cname, type_a, new_resolver, Resolver, lookup,
  lookup_with_client, max_dns_recursion, lookup_ip_addr,
}
use lets_proxy.Dns.Resolver.Chain.{Resolves, lookup_iff}

-- The alias www of example.com; over UDP the answer for the target is truncated, if so asked.
abbrev server : Bool → Client
server truncates n host record_type =
    completed
      (some (record {
        truncated = if str_eq host (text "www.example.com.") then false else truncates;
        answer =
            if str_eq host (text "www.example.com.")
            then cname (text "example.com.") ∷ []
            else address record_type (text "ip") ∷ [];
      }))
      none

abbrev resolver : Resolver
resolver = new_resolver (server true) (server false)

lookup_ip_addr_test :
    lookup_ip_addr resolver (text "www.example.com") ≡ ok (text "ip" ∷ text "ip" ∷ [])
unfolding lookup_ip_addr lookup lookup_with_client new_resolver
    lets_proxy.Dns.Resolver.read_exchange str_eq lets_proxy.Base.has_suffix
    lets_proxy.Dns.Resolver.read_answer
lookup_ip_addr_test = refl

-- A host that is its own alias.
lookup_loop_test :
    lookup_with_client max_dns_recursion
      (λ n h t. completed (some (record { truncated = false; answer = cname h ∷ [] })) none)
      (text "a.")
      type_a
    ≡ err (lets_proxy.Base.message (text "max recursion while resolve domain"))
unfolding lookup_with_client lets_proxy.Dns.Resolver.read_exchange
    lets_proxy.Dns.Resolver.read_answer
lookup_loop_test = refl

lookup_iff_example : (lookup resolver (text "www.example.com.") type_a ≡ ok (text "ip" ∷ [])) ↔ (
    Resolves (server true) type_a 10 (text "www.example.com.") (text "ip" ∷ [])
    ⊎ ((lookup_with_client 10 (server true) (text "www.example.com.") type_a
          ≡ err truncated_response)
        × Resolves (server false) type_a 10 (text "www.example.com.") (text "ip" ∷ [])))
unfolding new_resolver
lookup_iff_example = lookup_iff resolver (text "www.example.com.") type_a (text "ip" ∷ [])

lookup_ip_addr_lem_example :
    let all = panicked ∷ returned (text "ip" ∷ []) none ∷ [] in
    let ips = outcome_ips (Parallel.lookup_ip_addr all) in
    let error = outcome_error (Parallel.lookup_ip_addr all) in
    ((ip : Str) → In ip ips ↔ Some (Gives ip) all)
    × ((ip : Str) → In ip ips → error ≡ none)
    × ((e : Error) → error ≡ some e → Some (Fails e) all)
    × (error ≡ none → (e : Error) → Some (Fails e) all → (ip : Str) × In ip ips)
lookup_ip_addr_lem_example = lookup_ip_addr_lem panicked (returned (text "ip" ∷ []) none) []
