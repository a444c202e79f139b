-- ===== src/Checker/Config.antt =====
-- internal/domain_checker/config.go: `CreateDomainChecker`. What it calls of other
-- packages, the creation of the resolver and the checker of the server's own addresses are parameters.
pub mod Policy
use lets_proxy.Base.{
  List, [], ◌∷◌, Option, none, some, Bool, true, false, not, Str, text, if◌then◌else◌, Error,
  Result, ok, err, ◌>>=◌, str_eq, map,
}
use lets_proxy.Checker.IpList.{parse_ip_list}
use lets_proxy.Checker.IpList
use lets_proxy.Checker.Chains.{
  DomainChecker, Checkers, any_of, all_of, always, never, negation, regexp, ip_list, nothing, also,
}

pub record Config : Type 0 where
  pub ip_self : Bool
  pub ip_white_list : Str
  pub black_list : Str
  pub white_list : Str

unfoldable pub append_checker : Checkers → DomainChecker → Checkers
append_checker nothing checker = also checker nothing
append_checker (also first rest) checker = also first (append_checker rest checker)

-- What the packages `regexp`, `strings` and `net` do, the creation of the resolver and what it then
-- looks up, and the checker of the server's own addresses.
pub record Environment : Type 0 where
  pub compile : Str → Result (Str → Bool)
  pub trim_space : Str → Str
  pub split : Str → Str → List Str
  pub parse_ip : Str → Option Str
  pub ip_equal : Str → Str → Bool
  pub create_resolver : Result (Unit {0})
  pub lookup_ip_addr : Str → Result (List Str)
  pub new_self_ip_checker : Result (Str → Result Bool)

module _ (env : Environment) (c : Config) where
  -- The black list, then the white list.
  unfoldable pub with_black_list : DomainChecker → Result DomainChecker
  with_black_list list_checkers =
      if str_eq c.black_list [] then ok list_checkers else elim (env.compile c.black_list) [
        | err e ↦ err e
        | ok r ↦ ok (all_of (also (negation (regexp r)) (also list_checkers nothing)))
      ]

  unfoldable pub with_white_list : DomainChecker → Result DomainChecker
  with_white_list list_checkers =
      if str_eq c.white_list [] then ok list_checkers else elim (env.compile c.white_list) [
        | err e ↦ err e
        | ok r ↦ ok (any_of (also list_checkers (also (regexp r) nothing)))
      ]

  unfoldable pub with_self_ip : Checkers → Result Checkers
  with_self_ip ip_checkers =
      if not c.ip_self then ok ip_checkers else elim env.new_self_ip_checker [
        | err e ↦ err e
        | ok answers ↦ ok (append_checker ip_checkers (ip_list answers))
      ]

  pub parsed_white_list : Result (List Str)
  parsed_white_list = parse_ip_list env.trim_space env.split env.parse_ip c.ip_white_list (text ",")

  -- The check of `NewIPList`, whose context is not canceled.
  pub list_check : List Str → Str → Result Bool
  list_check ips =
      IpList.is_domain_allowed env.ip_equal env.lookup_ip_addr
        (record { ips = ips; canceled = false })

  unfoldable pub with_ip_white_list : Checkers → Result Checkers
  with_ip_white_list ip_checkers =
      if str_eq c.ip_white_list [] then ok ip_checkers else elim (parsed_white_list) [
        | err e ↦ err e
        | ok ips ↦ ok (append_checker ip_checkers (ip_list (list_check ips)))
      ]

  abbrev or_true : Checkers → Checkers
  or_true nothing = also always nothing
  or_true (also first rest) = also first rest

  unfoldable pub create_domain_checker : Result DomainChecker
  create_domain_checker = do
    black ← with_black_list always
    list_checkers ← with_white_list black
    _ ← env.create_resolver
    self ← with_self_ip nothing
    ip_checkers ← with_ip_white_list self
    ok (all_of (also list_checkers (also (any_of (or_true ip_checkers)) nothing)))
