-- ===== src/Checker/Config/Policy.antt =====
-- internal/domain_checker/config.go: what the created checker allows.
use lets_proxy.Base.{
  sym, ◌≡◌, ap, ◌∙◌, List, [], Bool, true, false, not, ◌&&◌, ◌||◌, Str, if◌then◌else◌, Result, ok,
  err, str_eq, arith, Result-cases, is_result, is_error, Bool-cases, ◌⊎◌, inl, inr,
}
use lets_proxy.Checker.Chains.{
  DomainChecker, Checkers, any_of, all_of, always, negation, regexp, ip_list, nothing, also,
  is_domain_allowed,
}
use lets_proxy.Checker.Config.{
  parsed_white_list, list_check, Config, Environment, append_checker, with_black_list,
  with_white_list, with_self_ip, with_ip_white_list, or_true, create_domain_checker,
}

module _ (env : Environment) (c : Config) (domain : Str) where
  -- Whether the domain matches an expression.
  abbrev pub matched : Str → Bool
  matched pattern = elim (env.compile pattern) [ ok r ↦ r domain | err _ ↦ false ]

  -- The white list overrules the black list; without a black list every name passes.
  abbrev pub name_passes : Bool
  name_passes =
      (str_eq c.black_list [] || not (matched c.black_list))
      || (not (str_eq c.white_list []) && matched c.white_list)

  abbrev pub self_answer : Result Bool
  self_answer = elim env.new_self_ip_checker [ ok answers ↦ answers domain | err e ↦ err e ]

  abbrev pub listed_answer : Result Bool
  listed_answer = elim (parsed_white_list env c) [
    | ok ips ↦ list_check env c ips domain
    | err e ↦ err e
  ]

  -- The checks of the addresses that are configured: one that passes is enough, and an error before
  -- it is the answer. Without any, every address passes.
  abbrev pub ip_answer : Result Bool
  ip_answer =
      if not c.ip_self
      then (if str_eq c.ip_white_list [] then ok true else listed_answer)
      else if str_eq c.ip_white_list []
      then self_answer
      else elim self_answer [
        | err e ↦ err e
        | ok passes ↦ if passes then ok true else listed_answer
      ]

  abbrev black_checker : (Str → Bool) → DomainChecker
  black_checker r = all_of (also (negation (regexp r)) (also always nothing))

  -- The forms that the checker of the names takes at each of its two steps.
  black_forms :
      (black : DomainChecker)
      → with_black_list env c always ≡ ok black
      → ((str_eq c.black_list [] ≡ true) × (always ≡ black))
        ⊎ ((str_eq c.black_list [] ≡ false)
            × (r : Str → Bool) × (env.compile c.black_list ≡ ok r)
            × (black_checker r ≡ black))
  unfolding with_black_list
  black_forms black h = elim (Bool-cases (str_eq c.black_list [])) [
    | inl t ↦ inl (t, ground (arith, h))
    | inr f ↦ elim (Result-cases (env.compile c.black_list)) [
      | is_error e q ↦ absurd (ground (arith, h, f, q))
      | is_result r q ↦ inr (f, r, q, ground (arith, h, f, q))
    ]
  ]

  white_forms :
      (black names : DomainChecker)
      → with_white_list env c black ≡ ok names
      → ((str_eq c.white_list [] ≡ true) × (black ≡ names))
        ⊎ ((str_eq c.white_list [] ≡ false)
            × (r : Str → Bool) × (env.compile c.white_list ≡ ok r)
            × (any_of (also black (also (regexp r) nothing)) ≡ names))
  unfolding with_white_list
  white_forms black names h = elim (Bool-cases (str_eq c.white_list [])) [
    | inl t ↦ inl (t, ground (arith, h))
    | inr f ↦ elim (Result-cases (env.compile c.white_list)) [
      | is_error e q ↦ absurd (ground (arith, h, f, q))
      | is_result r q ↦ inr (f, r, q, ground (arith, h, f, q))
    ]
  ]

  black_passes :
      (black : DomainChecker)
      → with_black_list env c always ≡ ok black
      → is_domain_allowed black domain ≡ ok (str_eq c.black_list [] || not (matched c.black_list))
  unfolding is_domain_allowed
  black_passes black h = elim (black_forms black h) [
    | inl (t, e) ↦ ap (λ b. is_domain_allowed b domain) (sym e) ∙ ground (arith, t)
    | inr (f, r, q, e) ↦ ap (λ b. is_domain_allowed b domain) (sym e) ∙ ground (arith, f, q)
  ]

  names_pass :
      (black names : DomainChecker)
      → with_black_list env c always ≡ ok black
      → with_white_list env c black ≡ ok names
      → is_domain_allowed names domain ≡ ok name_passes
  unfolding is_domain_allowed
  names_pass black names h g =
      let b = black_passes black h in
      elim (white_forms black names g) [
        | inl (t, e) ↦ ap (λ b. is_domain_allowed b domain) (sym e) ∙ ground (arith, t, b)
        | inr (f, r, q, e) ↦ ap (λ b. is_domain_allowed b domain) (sym e) ∙ ground (arith, f, q, b)
      ]

  -- The checkers of the addresses behind each of their two steps.
  self_forms :
      (self : Checkers)
      → with_self_ip env c nothing ≡ ok self
      → ((c.ip_self ≡ false) × (nothing ≡ self))
        ⊎ ((c.ip_self ≡ true)
            × (f : Str → Result Bool) × (env.new_self_ip_checker ≡ ok f)
            × (also (ip_list f) nothing ≡ self))
  unfolding with_self_ip append_checker
  self_forms self h = elim (Bool-cases c.ip_self) [
    | inr f ↦ inl (f, ground (arith, h))
    | inl t ↦ elim (Result-cases env.new_self_ip_checker) [
      | is_error e q ↦ absurd (ground (arith, h, t, q))
      | is_result r q ↦ inr (t, r, q, ground (arith, h, t, q))
    ]
  ]

  listed_forms :
      (self ips : Checkers)
      → with_ip_white_list env c self ≡ ok ips
      → ((str_eq c.ip_white_list [] ≡ true) × (self ≡ ips))
        ⊎ ((str_eq c.ip_white_list [] ≡ false)
            × (l : List Str) × (parsed_white_list env c ≡ ok l)
            × (append_checker self (ip_list (list_check env c l)) ≡ ips))
  unfolding with_ip_white_list
  listed_forms self ips h = elim (Bool-cases (str_eq c.ip_white_list [])) [
    | inl t ↦ inl (t, ground (arith, h))
    | inr f ↦ elim (Result-cases (parsed_white_list env c)) [
      | is_error e q ↦ absurd (ground (arith, h, f, q))
      | is_result r q ↦ inr (f, r, q, ground (arith, h, f, q))
    ]
  ]

  abbrev answer_of : Checkers → Result Bool
  answer_of ips = is_domain_allowed (any_of (or_true env c ips)) domain

  ips_pass :
      (self ips : Checkers)
      → with_self_ip env c nothing ≡ ok self
      → with_ip_white_list env c self ≡ ok ips
      → answer_of ips ≡ ip_answer
  unfolding is_domain_allowed append_checker
  ips_pass self ips h g = elim (self_forms self h) [
    | inl (t, e) ↦ elim (listed_forms self ips g) [
      | inl (u, e') ↦ ap answer_of (sym e' ∙ sym e) ∙ ground (arith, t, u)
      | inr (u, l, q, e') ↦
          ap answer_of (sym e' ∙ ap (λ s. append_checker s (ip_list (list_check env c l))) (sym e))
          ∙ ground (arith, t, u, q)
    ]
    | inr (t, f, p, e) ↦ elim (listed_forms self ips g) [
      | inl (u, e') ↦ ap answer_of (sym e' ∙ sym e) ∙ ground (arith, t, u, p)
      | inr (u, l, q, e') ↦
          ap answer_of (sym e' ∙ ap (λ s. append_checker s (ip_list (list_check env c l))) (sym e))
          ∙ ground (arith, t, u, p, q)
    ]
  ]

  both :
      (a b : DomainChecker) (x : Bool) (y : Result Bool)
      → is_domain_allowed a domain ≡ ok x
      → is_domain_allowed b domain ≡ y
      → is_domain_allowed (all_of (also a (also b nothing))) domain ≡ (if x then y else ok false)
  unfolding is_domain_allowed
  both a b x (ok true) p q = ground (arith, p, q)
  both a b x (ok false) p q = ground (arith, p, q)
  both a b x (err e) p q = ground (arith, p, q)

  -- The parts of a checker that was created.
  abbrev Parts : DomainChecker → Type 0
  Parts checker =
      (black : DomainChecker) × (names : DomainChecker) × (self : Checkers) × (ips : Checkers)
      × (with_black_list env c always ≡ ok black)
      × (with_white_list env c black ≡ ok names)
      × (with_self_ip env c nothing ≡ ok self)
      × (with_ip_white_list env c self ≡ ok ips)
      × (all_of (also names (also (any_of (or_true env c ips)) nothing)) ≡ checker)

  parts : (checker : DomainChecker) → create_domain_checker env c ≡ ok checker → Parts checker
  unfolding create_domain_checker
  parts checker h = elim (Result-cases (with_black_list env c always)) [
    | is_error e q ↦ absurd (ground (arith, h, q))
    | is_result black a ↦ elim (Result-cases (with_white_list env c black)) [
      | is_error e q ↦ absurd (ground (arith, h, a, q))
      | is_result names b ↦ elim (Result-cases env.create_resolver) [
        | is_error e q ↦ absurd (ground (arith, h, a, b, q))
        | is_result _ r ↦ elim (Result-cases (with_self_ip env c nothing)) [
          | is_error e q ↦ absurd (ground (arith, h, a, b, r, q))
          | is_result self d ↦ elim (Result-cases (with_ip_white_list env c self)) [
            | is_error e q ↦ absurd (ground (arith, h, a, b, r, d, q))
            | is_result ips e ↦
                (black, names, self, ips, a, b, d, e, ground (arith, h, a, b, r, d, e))
          ]
        ]
      ]
    ]
  ]

  -- The checker that the configuration creates allows a domain by two conditions: its name passes
  -- the lists, where the white list overrules the black list, and its addresses pass the checks that
  -- are configured. A name that does not pass is denied without a look at the addresses.
  pub create_domain_checker_policy :
      (checker : DomainChecker)
      → create_domain_checker env c ≡ ok checker
      → is_domain_allowed checker domain ≡ (if name_passes then ip_answer else ok false)
  create_domain_checker_policy checker h =
      let (black, names, self, ips, a, b, d, e, same) = parts checker h in
      ap (λ x. is_domain_allowed x domain) (sym same)
      ∙ both names (any_of (or_true env c ips)) name_passes ip_answer (names_pass black names a b)
          (ips_pass self ips d e)
