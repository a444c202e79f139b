-- ===== src/Checker/Tests.antt =====
-- internal/domain_checker on a concrete configuration.
use lets_proxy.Base.{
  ◌≡◌, ◌≢◌, ◌↔◌, refl, List, [], ◌∷◌, some, true, false, Str, text, ok, str_eq, if◌then◌else◌, All,
  Some, message, err, none, ◌&&◌, has_prefix,
}
use lets_proxy.Checker.IpList.{IpList, is_domain_allowed}
use lets_proxy.Checker.Sources.{
  Machine, self_binded_public_ips, get_ip_by_external_request, aws_public_ips, new_self_ip_checker,
}
use lets_proxy.Checker.Sources.Bound.{IsBound, new_self_ip_checker-bind}
use lets_proxy.Checker.Chains.{DomainChecker}
use lets_proxy.Checker.Chains
use lets_proxy.Checker.Config.{
  with_black_list, with_white_list, with_self_ip, with_ip_white_list, Config, Environment,
  with_black_list, with_white_list, with_self_ip, with_ip_white_list, create_domain_checker,
}
use lets_proxy.Checker.Config.Policy.{create_domain_checker_policy, name_passes, ip_answer}

-- An expression matches the domain it spells; all names have one address.
abbrev env : Environment
env = record {
  compile = λ pattern. ok (str_eq pattern);
  trim_space = λ s. s;
  split = λ s sep. s ∷ [];
  parse_ip = λ s. some s;
  ip_equal = str_eq;
  create_resolver = ok tt;
  lookup_ip_addr = λ domain. ok (text "1.2.3.4" ∷ []);
  new_self_ip_checker = ok (λ domain. ok false);
}

abbrev config : Config
config = record {
  ip_self = false;
  ip_white_list = [];
  black_list = text "bad.com";
  white_list = [];
}

-- The checker of the configuration, written out.
abbrev checker : DomainChecker
checker = Chains.all_of (
    Chains.also
      (Chains.all_of (
        Chains.also (Chains.negation (Chains.regexp (str_eq (text "bad.com"))))
          (Chains.also Chains.always Chains.nothing)))
      (Chains.also (Chains.any_of (Chains.also Chains.always Chains.nothing)) Chains.nothing))

created : create_domain_checker env config ≡ ok checker
unfolding create_domain_checker with_black_list with_white_list with_self_ip with_ip_white_list
    str_eq
created = refl

create_domain_checker_policy_example : Chains.is_domain_allowed checker (text "bad.com") ≡ (
    if name_passes env config (text "bad.com")
    then ip_answer env config (text "bad.com")
    else ok false)
create_domain_checker_policy_example =
    create_domain_checker_policy env config (text "bad.com") checker created

-- A machine with a private and a public address, of which the interfaces' texts are the addresses.
abbrev machine : Machine
machine = record {
  interface_addrs = text "10.0.0.1" ∷ text "<nil>" ∷ text "1.2.3.4" ∷ [];
  aws_metadata_available = false;
  get_metadata = λ path. ([], some (message (text "no metadata")));
  get_url =
      λ url network. if str_eq network (text "tcp4") then some (ok (text "9.9.9.9")) else none;
  contains = λ net ip. str_eq net (text "10.0.0.0/8") && has_prefix ip (text "10.");
  parse_cidr = λ s. some s;
  parse_ip = λ s. some s;
  trim_space = λ s. s;
  split = λ s sep. s ∷ [];
  ip_equal = str_eq;
  lookup_ip_addr = λ domain. ok (text "1.2.3.4" ∷ []);
}

found_addresses : self_binded_public_ips machine ≡ ok (text "1.2.3.4" ∷ [])
unfolding self_binded_public_ips lets_proxy.Checker.Sources.filter_public_only_ips
    lets_proxy.Checker.Sources.get_binded_ip_address str_eq lets_proxy.Checker.Sources.is_public_ip
    has_prefix
found_addresses = refl

external_addresses : get_ip_by_external_request machine (text "url") ≡ ok (text "9.9.9.9" ∷ [])
unfolding get_ip_by_external_request lets_proxy.Checker.Sources.detected_ips
    lets_proxy.Checker.Sources.f_get_ip str_eq
external_addresses = refl

-- Without addresses and with an error the first error is returned.
no_cloud_addresses : aws_public_ips machine ≡ err (message (text "no metadata"))
unfolding aws_public_ips lets_proxy.Checker.Sources.found_or_error
    lets_proxy.Checker.Sources.returned lets_proxy.Checker.Sources.parse_lines
    lets_proxy.Checker.IpList.parse_ip_list str_eq lets_proxy.Checker.Sources.first_error
no_cloud_addresses = refl

no_cloud :
    new_self_ip_checker machine (text "aws") []
    ≡ err (message (text "Aws metadata doesn't available"))
unfolding new_self_ip_checker lets_proxy.Checker.Sources.detect str_eq
no_cloud = refl

new_self_ip_checker-bind_example :
    (checker : DomainChecker) × (new_self_ip_checker machine (text "bind") [] ≡ ok checker)
    × ((Chains.is_domain_allowed checker (text "a.com") ≡ ok true) ↔ (
        (found : List Str) × (machine.lookup_ip_addr (text "a.com") ≡ ok found)
        × (found ≢ [])
        × All (λ ip. Some (IsBound machine ip) machine.interface_addrs) found))
new_self_ip_checker-bind_example = new_self_ip_checker-bind machine [] (text "a.com")
