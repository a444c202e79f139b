-- ===== src/Checker/IpList/Allowed.antt =====
-- internal/domain_checker/ip_list.go: which domains pass, and what the configured list parses to.
use lets_proxy.Base.{
  subst, sym, ◌∙◌, ◌≡◌, ◌≢◌, ◌↔◌, List, [], ◌∷◌, Option, some, Bool, true, false, not, Str, Result,
  ok, any, str_eq, All, Some, arith, Result-cases, is_result, is_error, keep, map,
}
use lets_proxy.Checker.IpList.{IpList, all_bound, is_domain_allowed, parse_parts}

ok-injective : {a b : List Str} → ok a ≡ ok b → a ≡ b
ok-injective e = ground arith

module _ (ip_equal : Str → Str → Bool) where
  any_iff :
      (ip : Str) (ips : List Str)
      → (any (ip_equal ip) ips ≡ true) ↔ Some (λ b. ip_equal ip b ≡ true) ips
  any_iff ip [] = ground arith
  any_iff ip (x ∷ ips) = ground (arith, any_iff ip ips)

  all_bound_iff :
      (ips rest : List Str)
      → (all_bound ip_equal ips rest ≡ true) ↔ All (λ ip. Some (λ b. ip_equal ip b ≡ true) ips) rest
  unfolding all_bound
  all_bound_iff ips [] = ground arith
  all_bound_iff ips (ip ∷ rest) = ground (arith, all_bound_iff ips rest, any_iff ip ips)

  -- A domain passes exactly if the list's context is not canceled, the domain's addresses can be looked up, there is
  -- at least one, and each of them equals one of the list. In particular a domain passes no empty
  -- list.
  pub is_domain_allowed_iff :
      (lookup : Str → Result (List Str)) (s : IpList) (domain : Str)
      → (is_domain_allowed ip_equal lookup s domain ≡ ok true) ↔ (
          (s.canceled ≡ false)
          × (found : List Str) × (lookup domain ≡ ok found)
          × (found ≢ [])
          × All (λ ip. Some (λ b. ip_equal ip b ≡ true) s.ips) found)
  unfolding is_domain_allowed
  is_domain_allowed_iff lookup s domain = elim (Result-cases (lookup domain)) [
    | is_error e h ↦
        ((λ w. absurd (ground (arith, h, w))), λ (_, found, q, _, _). absurd (ground (arith, h, q)))
    | is_result found h ↦ found_iff found h
  ]
    where
      found_iff :
          (found : List Str)
          → lookup domain ≡ ok found
          → (is_domain_allowed ip_equal lookup s domain ≡ ok true) ↔ (
              (s.canceled ≡ false)
              × (found : List Str) × (lookup domain ≡ ok found)
              × (found ≢ [])
              × All (λ ip. Some (λ b. ip_equal ip b ≡ true) s.ips) found)
      found_iff [] h = (
        (λ w. absurd (ground (arith, h, w))),
        λ (_, found, q, n, _). absurd (ground (arith, h, q, n)),
      )
      found_iff (ip ∷ ips) h = (
        (λ w. (
          ground (arith, h, w),
          ip ∷ ips,
          h,
          ground arith,
          (all_bound_iff s.ips (ip ∷ ips)).0 (ground (arith, h, w)),
        )),
        λ (c, found, q, n, a).
            let a' =
              subst (All (λ ip. Some (λ b. ip_equal ip b ≡ true) s.ips)) (ok-injective (sym q ∙ h))
                a in
            let t = (all_bound_iff s.ips (ip ∷ ips)).1 a' in ground (arith, c, h, t),
      )

module _ (trim_space : Str → Str) (split : Str → Str → List Str) (parse_ip : Str → Option Str) where
  -- The parts that are not blank, trimmed.
  abbrev pub entries : List Str → List Str
  entries parts = keep (λ p. not (str_eq p [])) (map trim_space parts)

  -- The list is parsed exactly if each entry that is not blank is an address; the addresses keep
  -- their order.
  pub parse_parts_iff :
      (parts ips : List Str)
      → (parse_parts trim_space split parse_ip parts ≡ ok ips)
        ↔ (map parse_ip (entries parts) ≡ map some ips)
  unfolding parse_parts
  parse_parts_iff [] [] = ground arith
  parse_parts_iff [] (ip ∷ ips) = ground arith
  parse_parts_iff (part ∷ parts) [] = ground (arith, parse_parts_iff parts [])
  parse_parts_iff (part ∷ parts) (ip ∷ ips) =
      ground (arith, parse_parts_iff parts (ip ∷ ips), parse_parts_iff parts ips)
