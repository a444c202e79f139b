-- ===== src/Checker/IpList.antt =====
-- internal/domain_checker/ip_list.go: the check of a domain's addresses against a list, and the list
-- that is written in the configuration. `net` and `strings` are parameters.
pub mod Allowed
use lets_proxy.Base.{
  List, [], ◌∷◌, Option, none, some, Bool, true, false, not, Str, text, if◌then◌else◌, Error,
  message, Result, ok, err, ◌>>=◌, any, str_eq,
}

-- An `IPList`: its addresses, and whether its context is canceled.
pub record IpList : Type 0 where
  pub ips : List Str
  pub canceled : Bool

module _ (ip_equal : Str → Str → Bool) where
  -- The two loops: does each address have an equal one in the list?
  pub all_bound : List Str → List Str → Bool
  all_bound ips [] = true
  all_bound ips (ip ∷ rest) =
      let others = all_bound ips rest in if any (ip_equal ip) ips then others else false

  pub is_domain_allowed : (Str → Result (List Str)) → IpList → Str → Result Bool
  is_domain_allowed lookup_ip_addr s domain =
      if s.canceled
      then err (message (text "iplist main context canceled"))
      else elim (lookup_ip_addr domain) [
        | err e ↦ err e
        | ok [] ↦ err (message (text "domain has no ip address"))
        | ok (ip ∷ ips) ↦ ok (all_bound s.ips (ip ∷ ips))
      ]

-- `updateIPs`: a failed source leaves the addresses.
unfoldable pub update_ips : IpList → Result (List Str) → IpList
update_ips s (ok ips) = record s { ips = ips }
update_ips s (err e) = s

module _ (trim_space : Str → Str) (split : Str → Str → List Str) (parse_ip : Str → Option Str) where
  -- The loop of `ParseIPList`: the addresses in their order, or the first text that is none.
  pub parse_parts : List Str → Result (List Str)
  parse_parts [] = ok []
  parse_parts (part ∷ parts) =
      let rest = parse_parts parts in
      let string_ip = trim_space part in
      if str_eq string_ip [] then rest else elim (parse_ip string_ip) [
        | none ↦ err (message (text "can't parse ip"))
        | some ip ↦ elim rest [ ok ips ↦ ok (ip ∷ ips) | err e ↦ err e ]
      ]

  unfoldable pub parse_ip_list : Str → Str → Result (List Str)
  parse_ip_list s sep =
      if str_eq (trim_space s) [] then ok [] else parse_parts (split (trim_space s) sep)
