-- ===== src/Checker/Chains.antt =====
-- internal/domain_checker/chains.go and simple.go: the checkers and how they are combined. Of a
-- regular expression only what it matches is kept, of an `IPList` only what it answers.
use lets_proxy.Base.{Bool, true, false, not, Str, if◌then◌else◌, Result, ok, err}

mutual
  pub data DomainChecker : Type 0 where
    any_of : Checkers → DomainChecker
    all_of : Checkers → DomainChecker
    always : DomainChecker
    never : DomainChecker
    negation : DomainChecker → DomainChecker
    regexp : (Str → Bool) → DomainChecker
    ip_list : (Str → Result Bool) → DomainChecker

  pub data Checkers : Type 0 where
    nothing : Checkers
    also : DomainChecker → Checkers → Checkers

-- `IsDomainAllowed` of each checker, and the loops of the chains.
unfoldable mutual
  pub is_domain_allowed : DomainChecker → Str → Result Bool
  is_domain_allowed (any_of checkers) domain = any_allows checkers domain
  is_domain_allowed (all_of checkers) domain = all_allow checkers domain
  is_domain_allowed always domain = ok true
  is_domain_allowed never domain = ok false
  is_domain_allowed (negation origin) domain = elim (is_domain_allowed origin domain) [
    | ok res ↦ ok (not res)
    | err e ↦ err e
  ]
  is_domain_allowed (regexp matches) domain = ok (matches domain)
  is_domain_allowed (ip_list answers) domain = answers domain

  pub any_allows : Checkers → Str → Result Bool
  any_allows nothing domain = ok false
  any_allows (also checker checkers) domain =
      let rest = any_allows checkers domain in
      elim (is_domain_allowed checker domain) [
        | err e ↦ err e
        | ok res ↦ if res then ok true else rest
      ]

  pub all_allow : Checkers → Str → Result Bool
  all_allow nothing domain = ok true
  all_allow (also checker checkers) domain =
      let rest = all_allow checkers domain in
      elim (is_domain_allowed checker domain) [
        | err e ↦ err e
        | ok res ↦ if not res then ok false else rest
      ]
