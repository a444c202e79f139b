-- ===== src/Dns/Parallel/Merge.antt =====
-- internal/dns/parallel.go: which addresses and which errors are returned.
use lets_proxy.Base.{
  ◌≡◌, refl, ◌∙◌, ◌⊎◌, inl, inr, ◌↔◌, List, [], ◌∷◌, Option, none, some, Str, Error, arith, In,
  Some, In-append, In-append_left, In-append_right, Option-cases, List-cases,
}
use lets_proxy.Dns.Parallel.{
  Outcome, returned, outcome_ips, outcome_error, last_error, all_ips, merge, lookup_ip_addr,
}

-- The resolver returned the address.
abbrev pub Gives : Str → Outcome → Type 0
Gives ip o = In ip (outcome_ips o)

abbrev pub Fails : Error → Outcome → Type 0
Fails e o = outcome_error o ≡ some e

In-all_ips :
    (ip : Str) (outcomes : List Outcome) → In ip (all_ips outcomes) ↔ Some (Gives ip) outcomes
unfolding all_ips
In-all_ips ip outcomes = (to outcomes, from outcomes)
  where
    to : (outcomes : List Outcome) → In ip (all_ips outcomes) → Some (Gives ip) outcomes
    to [] m = absurd m
    to (o ∷ outcomes) m = elim (In-append ip (outcome_ips o) (all_ips outcomes) m) [
      | inl l ↦ inl l
      | inr r ↦ inr (to outcomes r)
    ]

    from : (outcomes : List Outcome) → Some (Gives ip) outcomes → In ip (all_ips outcomes)
    from [] m = absurd m
    from (o ∷ outcomes) (inl l) = In-append_left ip (outcome_ips o) (all_ips outcomes) l
    from (o ∷ outcomes) (inr r) =
        In-append_right ip (outcome_ips o) (all_ips outcomes) (from outcomes r)

last_error-Fails :
    (outcomes : List Outcome) (before : Option Error) (e : Error)
    → last_error outcomes before ≡ some e
    → (before ≡ some e) ⊎ Some (Fails e) outcomes
unfolding last_error
last_error-Fails [] before e h = inl h
last_error-Fails (o ∷ outcomes) before e h = elim (Option-cases (outcome_error o)) [
  | inl q ↦ elim (last_error-Fails outcomes before e (ground arith)) [
    | inl b ↦ inl b
    | inr s ↦ inr (inr s)
  ]
  | inr (e', q) ↦ elim (last_error-Fails outcomes (some e') e (ground arith)) [
    | inl b ↦ inr (inl (q ∙ b))
    | inr s ↦ inr (inr s)
  ]
]

-- `last_error` finds an error if there is one.
last_error-none :
    (outcomes : List Outcome) (before : Option Error)
    → last_error outcomes before ≡ none
    → (before ≡ none) × ((e : Error) → Some (Fails e) outcomes → ⊥)
unfolding last_error
last_error-none [] before h = (h, λ e m. m)
last_error-none (o ∷ outcomes) before h = elim (Option-cases (outcome_error o)) [
  | inl q ↦
      let (b, rest) = last_error-none outcomes before (ground arith) in
      (b, λ e m. elim m [ inl f ↦ absurd cc | inr s ↦ rest e s ])
  | inr (e', q) ↦ let (b, _) = last_error-none outcomes (some e') (ground arith) in absurd cc
]

-- Parallel.LookupIPAddr with at least two resolvers, in whichever order they end: it returns exactly
-- the addresses that some resolver returned; if there is one it returns no error, and if there is none
-- it returns an error that some resolver returned, or no error if no resolver returned one. A resolver
-- that panics counts as one that returned nothing.
pub lookup_ip_addr_lem :
    (o o' : Outcome) (outcomes : List Outcome)
    → let all = o ∷ o' ∷ outcomes in
      let ips = outcome_ips (lookup_ip_addr all) in
      let error = outcome_error (lookup_ip_addr all) in
      ((ip : Str) → In ip ips ↔ Some (Gives ip) all)
      × ((ip : Str) → In ip ips → error ≡ none)
      × ((e : Error) → error ≡ some e → Some (Fails e) all)
      × (error ≡ none → (e : Error) → Some (Fails e) all → (ip : Str) × In ip ips)
unfolding lookup_ip_addr merge outcome_ips outcome_error
lookup_ip_addr_lem o o' outcomes =
    let all = o ∷ o' ∷ outcomes in
    elim (List-cases (all_ips all)) [
      | inl q ↦
          let same : lookup_ip_addr all ≡ returned [] (last_error all none) =
            rw (lookup_ip_addr, merge, q) refl in
          rw same (
            λ ip. (λ m. absurd m, λ g. rw q at (In-all_ips ip all).1 g),
            λ ip m. absurd m,
            λ e h. elim (last_error-Fails all none e h) [ inl n ↦ absurd cc | inr s ↦ s ],
            λ h e f. absurd ((last_error-none all none h).1 e f),
          )
      | inr (ip, ips, q) ↦
          let same : lookup_ip_addr all ≡ returned (ip ∷ ips) none =
            rw (lookup_ip_addr, merge, q) refl in
          rw same (
            λ a. (λ m. (In-all_ips a all).0 (rw q m), λ g. rw q at (In-all_ips a all).1 g),
            λ a m. refl,
            λ e h. absurd cc,
            λ h e f. (ip, inl refl),
          )
    ]
