-- ===== src/Manager/Order/Filter.antt =====
-- internal/cert_manager/manager.go: the domains of an order.
use lets_proxy.Base.{
  Option, Error, ◌≡◌, refl, sym, ◌∙◌, ◌↔◌, inl, inr, List, [], ◌∷◌, Bool, true, Str, ok, is_ok,
  Bool-cases, arith, In, In-keep, keep, any, str_eq, str_eq_iff, str_eq_refl,
}
use lets_proxy.Manager.Order.{filter_domains, allows}
use mathlib.Core.Bool.{true≢false}

any-str_eq : (d : Str) (xs : List Str) → (any (λ x. str_eq x d) xs ≡ true) ↔ In d xs
any-str_eq d xs = (to d xs, from d xs)
  where
    to : (d : Str) (xs : List Str) → any (λ x. str_eq x d) xs ≡ true → In d xs
    to d [] h = cc
    to d (x ∷ xs) h = elim (Bool-cases (str_eq x d)) [
      | inl same ↦ inl (sym ((str_eq_iff x d).0 same))
      | inr other ↦ inr (to d xs (ground arith))
    ]

    from : (d : Str) (xs : List Str) → In d xs → any (λ x. str_eq x d) xs ≡ true
    from d [] m = absurd m
    from d (x ∷ xs) (inl e) = rw (← e, str_eq_refl d) refl
    from d (x ∷ xs) (inr m) = ground (arith, from d xs m)

-- filterDomains, with its goroutines ending in any order (`ended` has the items of the list): it
-- succeeds exactly if the needed domain stands in the list and is allowed, and the domains that it
-- returns are those of the list that are allowed.
pub filter_domains_iff :
    (is_domain_allowed : Str → Bool × Option Error) (need_domain : Str)
    (original_domains ended : List Str)
    → ((d : Str) → In d ended ↔ In d original_domains)
    → ((is_ok (filter_domains is_domain_allowed need_domain ended) ≡ true)
        ↔ (In need_domain original_domains × ((is_domain_allowed need_domain).0 ≡ true)))
      × ((domains : List Str)
          → filter_domains is_domain_allowed need_domain ended ≡ ok domains
          → (d : Str) → In d domains ↔ (In d original_domains × ((is_domain_allowed d).0 ≡ true)))
unfolding filter_domains
filter_domains_iff is_domain_allowed need_domain original_domains ended same =
    let kept = keep (allows is_domain_allowed) ended in
    let of_kept : (d : Str)
        → In d kept ↔ (In d original_domains × ((is_domain_allowed d).0 ≡ true)) =
      λ d. (
        (λ m. let (i, a) = (In-keep (allows is_domain_allowed) d ended).0 m in ((same d).0 i, a)),
        (λ h. (In-keep (allows is_domain_allowed) d ended).1 ((same d).1 h.0, h.1)),
      ) in
    elim (Bool-cases (any (λ d. str_eq d need_domain) kept)) [
      | inl t ↦ rw t (
        ((λ _. (of_kept need_domain).0 ((any-str_eq need_domain kept).0 t)), λ _. refl),
        λ domains e. let q : kept ≡ domains = cc in rw (← q) of_kept,
      )
      | inr f ↦ rw f (
        (
          (λ h. cc),
          λ h.
              absurd (
                true≢false (sym ((any-str_eq need_domain kept).1 ((of_kept need_domain).1 h)) ∙ f)),
        ),
        λ domains e. cc,
      )
    ]
