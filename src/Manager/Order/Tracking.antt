-- ===== src/Manager/Order/Tracking.antt =====
-- internal/cert_manager/manager.go: the answers to the challenges of an order are all followed by a deferred cleanup.
use lets_proxy.Base.{
  ◌≡◌, ap, ◌∙◌, sym, ◌⊎◌, inl, inr, ℕ, zero, suc, List, [], ◌∷◌, Bool, true, false, not, Str, ok,
  err, Result, Result-cases, is_result, is_error, Bool-cases, Option-cases, arith, In, str_eq,
  str_eq_iff,
}
use lets_proxy.Cache.Lru
use lets_proxy.Cache.Lru.Steps.{get_after_call}
use lets_proxy.Cache.Memory
use lets_proxy.Cache.Memory.{get-put_ne, get-delete, get-delete_ne}
use mathlib.Core.Bool.{true≢false}
use lets_proxy.Cert.Check.{Certificate}
use lets_proxy.Manager.Challenge.{
  put_cert_token, pick_challenge, Responder, Answers, Challenge, Cleanup, cert_token, http_token,
  fulfill, tls_alpn01, http01, token_key,
}
use lets_proxy.Manager.Order.{
  AcmeClient, Authorization, Order, Deferred, revoke, clean, Progress, Next, try_challenge,
  try_type, go_on, again, stop, Next-cases, Round-cases, status_ready, status_pending, try_types,
  authorize_all, await_order, order_round, order_loop,
}

-- Each answer is what it was at first, or its cleanup is deferred.
abbrev pub Tracks : Answers → Answers → List Deferred → Type 0
Tracks a0 a defers =
    ((k : Str)
      → (Memory.get a.http_tokens k ≡ Memory.get a0.http_tokens k)
        ⊎ In (clean (http_token k)) defers)
    × ((k : Str)
        → ((Lru.get a.cert_for_domain_authorize k).1 ≡ (Lru.get a0.cert_for_domain_authorize k).1)
          ⊎ In (clean (cert_token k)) defers)

Tracks-defer :
    (a0 a : Answers) (d : Deferred) (defers : List Deferred)
    → Tracks a0 a defers
    → Tracks a0 a (d ∷ defers)
Tracks-defer a0 a d defers (http, certs) = (
  λ k. elim (http k) [ inl e ↦ inl e | inr m ↦ inr (inr m) ],
  λ k. elim (certs k) [ inl e ↦ inl e | inr m ↦ inr (inr m) ],
)

put-Tracks :
    (a0 a : Answers) (key resp : Str) (defers : List Deferred)
    → Tracks a0 a defers
    → Tracks a0
        (record a { http_tokens = (Memory.put a.http_tokens key resp).0 })
        (clean (http_token key) ∷ defers)
put-Tracks a0 a key resp defers (http, certs) = (
  λ k. elim (Bool-cases (str_eq k key)) [
    | inl same ↦ inr (inl (ap (λ x. clean (http_token x)) ((str_eq_iff k key).0 same)))
    | inr other ↦ elim (http k) [
      | inl e ↦ inl (
          get-put_ne a.http_tokens key k resp
            (λ e. true≢false (sym ((str_eq_iff k key).1 e) ∙ other))
          ∙ e)
      | inr m ↦ inr (inr m)
    ]
  ],
  λ k. elim (certs k) [ inl e ↦ inl e | inr m ↦ inr (inr m) ],
)

put_cert-Tracks :
    (a0 a : Answers) (key : Str) (cert : Certificate) (defers : List Deferred)
    → Tracks a0 a defers
    → Tracks a0 (put_cert_token a key cert) (clean (cert_token key) ∷ defers)
unfolding put_cert_token
put_cert-Tracks a0 a key cert defers (http, certs) = (
  λ k. elim (http k) [ inl e ↦ inl e | inr m ↦ inr (inr m) ],
  λ k. elim (Bool-cases (str_eq key k)) [
    | inl same ↦ inr (inl (ap (λ x. clean (cert_token x)) (sym ((str_eq_iff key k).0 same))))
    | inr other ↦ elim (certs k) [
      | inl e ↦
          let (after_put, _, _) = get_after_call a.cert_for_domain_authorize key k cert in
          inl (ground arith)
      | inr m ↦ inr (inr m)
    ]
  ],
)

-- The deferred calls after `fulfill`.
abbrev with_cleanup : Result Cleanup → List Deferred → List Deferred
with_cleanup (err _) defers = defers
with_cleanup (ok cleanup) defers = clean cleanup ∷ defers

-- A call of `fulfill` that fails changes no answer; one that succeeds changes the answer that its
-- cleanup deletes.
fulfill-Tracks :
    (responder : Responder) (a0 a : Answers) (c : Challenge) (domain : Str) (defers : List Deferred)
    → Tracks a0 a defers
    → let (a', fulfilled) = fulfill responder a c domain in
      Tracks a0 a' (with_cleanup fulfilled defers)
unfolding fulfill Memory.put
fulfill-Tracks responder a0 a c domain defers t =
    elim (Bool-cases (str_eq c.challenge_type tls_alpn01)) [
      | inl tls ↦ rw tls (elim (Result-cases (responder.tls_alpn01_challenge_cert c.token domain)) [
        | is_error e q ↦ rw q t
        | is_result cert q ↦ rw q (put_cert-Tracks a0 a domain cert defers t)
      ])
      | inr other ↦ rw other (elim (Bool-cases (str_eq c.challenge_type http01)) [
        | inl http ↦ rw http (elim (Result-cases (responder.http01_challenge_response c.token)) [
          | is_error e q ↦ rw q t
          | is_result resp q ↦ rw q (put-Tracks a0 a (token_key domain c.token) resp defers t)
        ])
        | inr unknown ↦ rw unknown t
      ])
    ]

module _ (client : AcmeClient) (a0 : Answers) where
  abbrev pub ProgressTracks : Progress client → Type 0
  ProgressTracks p = Tracks a0 p.answers p.defers

  try_challenge-Tracks :
      (p : Progress client) (z : Authorization) (chal : Challenge)
      → ProgressTracks p
      → ProgressTracks (try_challenge client p z chal).0
  unfolding try_challenge
  try_challenge-Tracks p z chal t =
      let after = fulfill-Tracks client.responder a0 p.answers chal z.identifier p.defers t in
      elim (Result-cases (fulfill client.responder p.answers chal z.identifier).1) [
        | is_error e q ↦ rw (try_challenge, q) (rw q at after)
        | is_result cleanup q ↦
            rw (try_challenge, q)
              (elim (Option-cases (client.accept p.server chal).1) [
                | inr (e, refused) ↦ rw refused (rw q at after)
                | inl accepted ↦
                    rw accepted
                      (elim (Option-cases
                        (client.wait_authorization (client.accept p.server chal).0 z.uri).1) [
                          | inr (e, refused) ↦ rw refused (rw q at after)
                          | inl waited ↦ rw waited (rw q at after)
                        ])
              ])
      ]

  try_type-Tracks :
      (challenge_type : Str) (p : Progress client) (z : Authorization)
      → ProgressTracks p
      → ProgressTracks (try_type client challenge_type p z).0
  unfolding try_type
  try_type-Tracks challenge_type p z t =
      elim (Option-cases (pick_challenge challenge_type z.challenges)) [
        | inl q ↦ rw (try_type, q) t
        | inr (chal, q) ↦ rw (try_type, q) (try_challenge-Tracks p z chal t)
      ]

  try_types-Tracks :
      (types : List Str) (has : Bool) (p : Progress client) (z : Authorization)
      → ProgressTracks p
      → ProgressTracks (try_types client types has p z).0
  unfolding try_types
  try_types-Tracks [] true p z t = t
  try_types-Tracks [] false p z t = t
  try_types-Tracks (challenge_type ∷ types) has p z t =
      let p' = (try_type client challenge_type p z).0 in
      let t' = try_type-Tracks challenge_type p z t in
      elim (Bool-cases (not (str_eq z.status status_pending))) [
        | inl skip ↦ rw skip t
        | inr pending ↦ rw pending (elim (Option-cases (try_type client challenge_type p z).1) [
          | inl q ↦ rw q (try_types-Tracks types has p' z t')
          | inr (went_well, q) ↦ rw q (elim (Bool-cases went_well) [
            | inl well ↦ rw well (try_types-Tracks types true p' z t')
            | inr bad ↦ rw bad t'
          ])
        ])
      ]

  authorize_all-Tracks :
      (types urls : List Str) (p : Progress client)
      → ProgressTracks p
      → ProgressTracks (authorize_all client types urls p).0
  unfolding authorize_all
  authorize_all-Tracks types [] p t = t
  authorize_all-Tracks types (zurl ∷ urls) p t =
      let p1 = record p { server = (client.get_authorization p.server zurl).0 } in
      elim (Result-cases (client.get_authorization p.server zurl).1) [
        | is_error e q ↦ rw (authorize_all, q) t
        | is_result z q ↦
            rw (authorize_all, q)
              (let t2 = try_types-Tracks types false p1 z t in
                elim (Next-cases (try_types client types false p1 z).1) [
                  | inl on ↦ rw on (authorize_all-Tracks types urls _ t2)
                  | inr (inl back) ↦ rw back t2
                  | inr (inr (e, out)) ↦ rw out t2
                ])
      ]

  await_order-Tracks :
      (p : Progress client) (order : Order) (next : Next)
      → ProgressTracks p
      → ProgressTracks (await_order client p order next).0
  unfolding await_order
  await_order-Tracks p order again t = t
  await_order-Tracks p order (stop e) t = t
  await_order-Tracks p order go_on t =
      elim (Result-cases (client.wait_order p.server order.uri).1) [
        | is_error e q ↦ rw (await_order, q) t
        | is_result order' q ↦ rw (await_order, q) t
      ]

  order_round-Tracks :
      (types domains : List Str) (p : Progress client)
      → ProgressTracks p
      → ProgressTracks (order_round client types domains p).0
  unfolding order_round
  order_round-Tracks types domains p t =
      elim (Result-cases (client.authorize_order p.server domains).1) [
        | is_error e q ↦ rw (order_round, q) t
        | is_result order q ↦
            rw (order_round, q)
              (let t1 = Tracks-defer a0 p.answers (revoke order.authz_urls) p.defers t in
                elim (Bool-cases (str_eq order.status status_ready)) [
                  | inl ready ↦ rw ready t1
                  | inr other ↦ rw other (elim (Bool-cases (str_eq order.status status_pending)) [
                    | inl pending ↦ rw pending (
                        await_order-Tracks _ order _
                          (authorize_all-Tracks types order.authz_urls _ t1))
                    | inr invalid ↦ rw invalid t1
                  ])
                ])
      ]

  pub order_loop-Tracks :
      (rounds : ℕ) (types domains : List Str) (p : Progress client)
      → ProgressTracks p
      → ProgressTracks (order_loop client rounds types domains p).0
  unfolding order_loop
  order_loop-Tracks zero types domains p t = t
  order_loop-Tracks (suc rounds) types domains p t =
      let t' = order_round-Tracks types domains p t in
      elim (Round-cases (order_round client types domains p).1) [
        | inl (order, q) ↦ rw (order_loop, q) t'
        | inr (inl (e, q)) ↦ rw (order_loop, q) t'
        | inr (inr q) ↦ rw (order_loop, q) (order_loop-Tracks rounds types domains _ t')
      ]
