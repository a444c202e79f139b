-- ===== src/SecretHandler/Guards.antt =====
-- internal/secrethandler/secret_handler.go: which requests reach the next handler.
use lets_proxy.Base.{
  ◌≡◌, ◌≢◌, refl, sym, ap, ◌∙◌, ◌⊎◌, inl, inr, ◌↔◌, ◌≤◌, List, [], ◌∷◌, true, false, Str, text,
  str_eq, str_eq_iff, length, any, ok, err, Error, subst, Result-cases, is_result, is_error,
  Bool-cases, arith, Some, List-cases,
}
use mathlib.Core.Bool.{true≢false}
use lets_proxy.SecretHandler.{
  Net, SecretHandler, Request, next_called, serve_http, check_network, check_request, max_url_len,
  password_arg_name,
}

ok-injective : {A : Type 0} {a b : A} → ok a ≡ ok b → a ≡ b
ok-injective e = cc

module _ (net : Net) where
  -- The remote address is in one of the networks, if there are any.
  abbrev pub FromNetwork : SecretHandler net → Request → Type 0
  FromNetwork m r =
      (m.allowed_networks ≡ [])
      ⊎ ((ip : net.Ip) × (net.resolve_tcp_addr r.remote_addr ≡ ok ip)
          × Some (λ subnet. net.contains subnet ip ≡ true) m.allowed_networks)

  -- The query is short and gives the password, which may be empty only if that is allowed.
  abbrev pub GivesPassword : SecretHandler net → Request → Type 0
  GivesPassword m r =
      ((m.password ≢ []) ⊎ (m.allow_empty_password ≡ true))
      × (length r.raw_query ≤ max_url_len)
      × ((values : Str → Str) × (net.parse_query r.raw_query ≡ ok values)
          × (values password_arg_name ≡ m.password))

  abbrev pub IsRead : Request → Type 0
  IsRead r = (r.method ≡ text "GET") ⊎ (r.method ≡ text "HEAD")

  any-Some :
      (ip : net.Ip) (networks : List net.Network)
      → (any (λ subnet. net.contains subnet ip) networks ≡ true)
        ↔ Some (λ subnet. net.contains subnet ip ≡ true) networks
  any-Some ip networks = (to networks, from networks)
    where
      to :
          (networks : List net.Network)
          → any (λ subnet. net.contains subnet ip) networks ≡ true
          → Some (λ subnet. net.contains subnet ip ≡ true) networks
      to [] h = cc
      to (n ∷ networks) h = elim (Bool-cases (net.contains n ip)) [
        | inl t ↦ inl t
        | inr f ↦ inr (to networks (ground arith))
      ]

      from :
          (networks : List net.Network)
          → Some (λ subnet. net.contains subnet ip ≡ true) networks
          → any (λ subnet. net.contains subnet ip) networks ≡ true
      from [] s = absurd s
      from (n ∷ networks) (inl t) = ground arith
      from (n ∷ networks) (inr s) = ground (arith, from networks s)

  no_address :
      (m : SecretHandler net) (r : Request) (n : net.Network) (ns : List net.Network) (e : Error)
      → m.allowed_networks ≡ n ∷ ns
      → net.resolve_tcp_addr r.remote_addr ≡ err e
      → FromNetwork m r
      → ⊥
  no_address m r n ns e q f (inl none) = cc
  no_address m r n ns e q f (inr (ip, g, s)) = cc

  resolved :
      (m : SecretHandler net) (r : Request) (n : net.Network) (ns : List net.Network) (ip : net.Ip)
      → m.allowed_networks ≡ n ∷ ns
      → net.resolve_tcp_addr r.remote_addr ≡ ok ip
      → FromNetwork m r
      → Some (λ subnet. net.contains subnet ip ≡ true) m.allowed_networks
  resolved m r n ns ip q f (inl none) = absurd cc
  resolved m r n ns ip q f (inr (ip', g, s)) =
      let same : ip' ≡ ip = cc in
      subst (λ x. Some (λ subnet. net.contains subnet x ≡ true) m.allowed_networks) same s

  check_network_iff :
      (m : SecretHandler net) (r : Request) → (check_network net m r ≡ ok true) ↔ FromNetwork m r
  unfolding check_network
  check_network_iff m r = elim (List-cases m.allowed_networks) [
    | inl q ↦ ((λ _. inl q), λ _. rw (check_network, q) refl)
    | inr (n, ns, q) ↦ elim (Result-cases (net.resolve_tcp_addr r.remote_addr)) [
      | is_error e f ↦ ((λ h. absurd (ground arith)), λ w. absurd (no_address m r n ns e q f w))
      | is_result ip f ↦
          let all : check_network net m r
              ≡ ok (any (λ subnet. net.contains subnet ip) m.allowed_networks) =
            rw (check_network, q, f) refl in
          let (to, from) = any-Some ip m.allowed_networks in
          (
            λ h. inr (ip, f, to (ok-injective (sym all ∙ h))),
            λ w. all ∙ ap ok (from (resolved m r n ns ip q f w)),
          )
    ]
  ]

  check_request_iff :
      (m : SecretHandler net) (r : Request)
      → (check_request net m r ≡ next_called) ↔ (GivesPassword m r × IsRead r)
  unfolding check_request
  check_request_iff m r = (to, from)
    where
      to : check_request net m r ≡ next_called → GivesPassword m r × IsRead r
      to h = elim (Result-cases (net.parse_query r.raw_query)) [
        | is_error e q ↦ absurd (ground arith)
        | is_result values q ↦
            let short : length r.raw_query ≤ max_url_len = ground arith in
            let same : str_eq (values password_arg_name) m.password ≡ true = ground arith in
            let given : (str_eq m.password [] ≡ false) ⊎ (m.allow_empty_password ≡ true) =
              elim (Bool-cases m.allow_empty_password) [
                | inl a ↦ inr a
                | inr f ↦ inl (ground arith)
              ] in
            let read : (str_eq r.method (text "GET") ≡ true)
                ⊎ (str_eq r.method (text "HEAD") ≡ true) =
              elim (Bool-cases (str_eq r.method (text "GET"))) [
                | inl a ↦ inl a
                | inr f ↦ inr (ground arith)
              ] in
            (
              (
                elim given [
                  | inl f ↦ inl (λ e. true≢false (sym ((str_eq_iff m.password []).1 e) ∙ f))
                  | inr a ↦ inr a
                ],
                short,
                (values, q, (str_eq_iff (values password_arg_name) m.password).0 same),
              ),
              elim read [
                | inl g ↦ inl ((str_eq_iff r.method (text "GET")).0 g)
                | inr g ↦ inr ((str_eq_iff r.method (text "HEAD")).0 g)
              ],
            )
      ]

      from : GivesPassword m r × IsRead r → check_request net m r ≡ next_called
      from ((p, l, (values, q, pass)), i) =
          let same : str_eq (values password_arg_name) m.password ≡ true =
            (str_eq_iff (values password_arg_name) m.password).1 pass in
          let given : (str_eq m.password [] ≡ false) ⊎ (m.allow_empty_password ≡ true) = elim p [
            | inr a ↦ inr a
            | inl n ↦ elim (Bool-cases (str_eq m.password [])) [
              | inl e ↦ absurd (n ((str_eq_iff m.password []).0 e))
              | inr f ↦ inl f
            ]
          ] in
          let read : (str_eq r.method (text "GET") ≡ true)
              ⊎ (str_eq r.method (text "HEAD") ≡ true) =
            elim i [
              | inl g ↦ inl ((str_eq_iff r.method (text "GET")).1 g)
              | inr g ↦ inr ((str_eq_iff r.method (text "HEAD")).1 g)
            ] in
          let empty : str_eq (values password_arg_name) [] ≡ str_eq m.password [] =
            ap (λ x. str_eq x []) pass in
          ground (arith, given, read, empty, same)

  -- A request reaches the next handler exactly if its address is in one of the allowed networks or
  -- there are none, its query of at most 100 bytes gives the password, which is empty only if that is
  -- allowed, and its method is GET or HEAD.
  pub serve_http_iff :
      (m : SecretHandler net) (r : Request)
      → (serve_http net m r ≡ next_called) ↔ (FromNetwork m r × GivesPassword m r × IsRead r)
  unfolding serve_http
  serve_http_iff m r =
      let (to_network, from_network) = check_network_iff m r in
      let (to_request, from_request) = check_request_iff m r in
      (
        λ h. elim (Result-cases (check_network net m r)) [
          | is_error e q ↦ absurd (ground arith)
          | is_result b q ↦
              let n : check_network net m r ≡ ok true = ground arith in
              let (p, i) = to_request (ground arith) in (to_network n, p, i)
        ],
        λ (n, p, i). ground (arith, from_network n, from_request (p, i)),
      )
