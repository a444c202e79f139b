-- ===== src/Manager/Order/Cleaned.antt =====
-- internal/cert_manager/manager.go: the answers to the challenges of an order are taken back.
use lets_proxy.Base.{
  ◌≡◌, refl, ◌∙◌, sym, ◌⊎◌, inl, inr, ℕ, List, [], ◌∷◌, Str, err, Bool-cases, cache_miss, In,
  str_eq, str_eq_iff,
}
use lets_proxy.Cache.Lru
use lets_proxy.Cache.Memory
use lets_proxy.Cache.Memory.{get-put_ne, get-delete, get-delete_ne}
use mathlib.Core.Bool.{true≢false}
use lets_proxy.Manager.Challenge.{Answers, cert_token, http_token, clean_up}
use lets_proxy.Manager.Order.{
  AcmeClient, Deferred, revoke, clean, Progress, order_loop, run_deferred, create_order_for_domains,
}
use lets_proxy.Manager.Order.Tracking.{order_loop-Tracks}

run_deferred-http :
    (client : AcmeClient) (defers : List Deferred) (a : Answers) (k : Str)
    → let (a', _) = run_deferred client defers a in
      (Memory.get a'.http_tokens k ≡ Memory.get a.http_tokens k)
      ⊎ (Memory.get a'.http_tokens k ≡ err cache_miss)
unfolding run_deferred clean_up
run_deferred-http client [] a k = inl refl
run_deferred-http client (revoke urls ∷ defers) a k = run_deferred-http client defers a k
run_deferred-http client (clean (cert_token d) ∷ defers) a k = run_deferred-http client defers a k
run_deferred-http client (clean (http_token j) ∷ defers) a k =
    elim (run_deferred-http client defers (clean_up a (http_token j)) k) [
      | inr gone ↦ inr gone
      | inl kept ↦ elim (Bool-cases (str_eq k j)) [
        | inl same ↦ inr (kept ∙ rw ((str_eq_iff k j).0 same) (get-delete a.http_tokens j))
        | inr other ↦ inl (
            kept
            ∙ get-delete_ne a.http_tokens j k
                (λ e. true≢false (sym ((str_eq_iff k j).1 e) ∙ other)))
      ]
    ]

run_deferred-deleted :
    (client : AcmeClient) (defers : List Deferred) (a : Answers) (k : Str)
    → In (clean (http_token k)) defers
    → Memory.get (run_deferred client defers a).0.http_tokens k ≡ err cache_miss
unfolding run_deferred clean_up
run_deferred-deleted client [] a k m = absurd m
run_deferred-deleted client (revoke urls ∷ defers) a k (inl e) = cc
run_deferred-deleted client (revoke urls ∷ defers) a k (inr m) =
    run_deferred-deleted client defers a k m
run_deferred-deleted client (clean (cert_token d) ∷ defers) a k (inl e) = cc
run_deferred-deleted client (clean (cert_token d) ∷ defers) a k (inr m) =
    run_deferred-deleted client defers a k m
run_deferred-deleted client (clean (http_token j) ∷ defers) a k (inr m) =
    run_deferred-deleted client defers (clean_up a (http_token j)) k m
run_deferred-deleted client (clean (http_token j) ∷ defers) a k (inl e) =
    let same : k ≡ j = cc in
    let gone : Memory.get (Memory.delete a.http_tokens j).0 k ≡ err cache_miss =
      rw same (get-delete a.http_tokens j) in
    elim (run_deferred-http client defers (clean_up a (http_token j)) k) [
      | inr g ↦ g
      | inl kept ↦ kept ∙ gone
    ]

run_deferred-certs :
    (client : AcmeClient) (defers : List Deferred) (a : Answers)
    → let (a', started) = run_deferred client defers a in
      (a'.cert_for_domain_authorize ≡ a.cert_for_domain_authorize)
      × ((d : Str) → In (clean (cert_token d)) defers → In (clean (cert_token d)) started)
unfolding run_deferred clean_up
run_deferred-certs client [] a = (refl, λ d m. m)
run_deferred-certs client (revoke urls ∷ defers) a =
    let (same, rest) = run_deferred-certs client defers a in
    (same, λ d m. elim m [ inl e ↦ inl e | inr t ↦ inr (rest d t) ])
run_deferred-certs client (clean (cert_token j) ∷ defers) a =
    let (same, rest) = run_deferred-certs client defers a in
    (same, λ d m. elim m [ inl e ↦ inl e | inr t ↦ inr (rest d t) ])
run_deferred-certs client (clean (http_token k) ∷ defers) a =
    let (same, rest) = run_deferred-certs client defers (clean_up a (http_token k)) in
    (same, λ d m. elim m [ inl e ↦ absurd cc | inr t ↦ rest d t ])

-- However createOrderForDomains ends, and whatever the authority answers: each key of the HTTP tokens
-- has then the token that it had before or none, and each domain has the challenge certificate that
-- it had before or one whose deletion is started.
pub create_order_for_domains-cleans :
    (client : AcmeClient) (rounds : ℕ) (types domains : List Str) (server : client.Server)
    (a : Answers)
    → let (_, a', started, _) = create_order_for_domains client rounds types domains server a in
      ((k : Str)
        → (Memory.get a'.http_tokens k ≡ Memory.get a.http_tokens k)
          ⊎ (Memory.get a'.http_tokens k ≡ err cache_miss))
      × ((d : Str)
          → ((Lru.get a'.cert_for_domain_authorize d).1 ≡ (Lru.get a.cert_for_domain_authorize d).1)
            ⊎ In (clean (cert_token d)) started)
unfolding create_order_for_domains
create_order_for_domains-cleans client rounds types domains server a =
    let start : Progress client = record { server = server; answers = a; defers = [] } in
    let p = (order_loop client rounds types domains start).0 in
    let (http, certs) =
      order_loop-Tracks client a rounds types domains start ((λ k. inl refl), λ d. inl refl) in
    let (same, started) = run_deferred-certs client p.defers p.answers in
    (
      λ k. elim (http k) [
        | inr deleted ↦ inr (run_deferred-deleted client p.defers p.answers k deleted)
        | inl was ↦ elim (run_deferred-http client p.defers p.answers k) [
          | inl kept ↦ inl (kept ∙ was)
          | inr gone ↦ inr gone
        ]
      ],
      λ d. elim (certs d) [ inr deferred ↦ inr (started d deferred) | inl was ↦ inl (rw same was) ],
    )
