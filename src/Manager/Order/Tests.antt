-- ===== src/Manager/Order/Tests.antt =====
-- internal/cert_manager/manager.go: an order at the authority of the tests.
use lets_proxy.Base.{
  Option, Error, ◌≡◌, ◌≢◌, refl, sym, ap, ◌∙◌, ◌⊎◌, ◌↔◌, inl, inr, Bool, true, false, List, [], ◌∷◌,
  none, some, Str, text, ok, err, is_ok, str_eq, str_eq_iff, if◌then◌else◌, Bool-cases, arith,
  cache_miss, In, Result,
}
use lets_proxy.Cache.Lru
use lets_proxy.Cache.Memory
use lets_proxy.Fixtures.{host}
use lets_proxy.Manager.Challenge.{http01, cert_token}
use lets_proxy.Manager.Order.{
  create_order_for_domains, filter_domains, deactivate_pending_authz, status_pending, clean, revoke,
}
use lets_proxy.Manager.Order.Cleaned.{create_order_for_domains-cleans}
use lets_proxy.Manager.Order.Filter.{filter_domains_iff}
use lets_proxy.Manager.Order.Fixtures.{acme_client, no_answers, status, order}
use lets_proxy.Manager.Order.Revoked.{KeepsStatus, deactivate_pending_authz-ends}

-- A pending order is authorized by the HTTP challenge, and its revocation is started.
create_order_for_domains_test :
    create_order_for_domains acme_client 1 (http01 ∷ []) (host ∷ []) true no_answers
    ≡ (false, no_answers, revoke (text "a1" ∷ []) ∷ [], ok (order (text "ready")))
unfolding create_order_for_domains lets_proxy.Manager.Order.order_loop
    lets_proxy.Manager.Order.run_deferred lets_proxy.Manager.Order.order_round str_eq
    lets_proxy.Manager.Order.await_order lets_proxy.Manager.Order.authorize_all
    lets_proxy.Manager.Order.try_types lets_proxy.Manager.Order.try_type
    lets_proxy.Manager.Challenge.pick_challenge lets_proxy.Manager.Order.try_challenge
    lets_proxy.Manager.Challenge.fulfill Memory.put lets_proxy.Manager.Challenge.clean_up
    Memory.delete lets_proxy.Base.Dict.remove lets_proxy.Base.Dict.insert
create_order_for_domains_test = refl

create_order_for_domains-cleans_example :
    let (_, a', started, _) =
      create_order_for_domains acme_client 1 (http01 ∷ []) (host ∷ []) true no_answers in
    ((k : Str)
      → (Memory.get a'.http_tokens k ≡ Memory.get no_answers.http_tokens k)
        ⊎ (Memory.get a'.http_tokens k ≡ err cache_miss))
    × ((d : Str)
        → ((Lru.get a'.cert_for_domain_authorize d).1
            ≡ (Lru.get no_answers.cert_for_domain_authorize d).1)
          ⊎ In (clean (cert_token d)) started)
create_order_for_domains-cleans_example =
    create_order_for_domains-cleans acme_client 1 (http01 ∷ []) (host ∷ []) true no_answers

allow_short : Str → Bool × Option Error
allow_short d = (str_eq d host, none)

filter_domains_iff_example :
    ((is_ok (filter_domains allow_short host (text "x" ∷ host ∷ [])) ≡ true)
      ↔ (In host (host ∷ text "x" ∷ []) × ((allow_short host).0 ≡ true)))
    × ((domains : List Str)
        → filter_domains allow_short host (text "x" ∷ host ∷ []) ≡ ok domains
        → (d : Str) → In d domains ↔ (In d (host ∷ text "x" ∷ []) × ((allow_short d).0 ≡ true)))
filter_domains_iff_example =
    filter_domains_iff allow_short host (host ∷ text "x" ∷ []) (text "x" ∷ host ∷ [])
      (λ d. (swap d host (text "x"), swap d (text "x") host))
  where
    swap : (d a b : Str) → In d (b ∷ a ∷ []) → In d (a ∷ b ∷ [])
    swap d a b (inl e) = inr (inl e)
    swap d a b (inr (inl e)) = inl e
    swap d a b (inr (inr m)) = absurd m

revoked-status :
    (s : Bool) (u : Str) → status (if str_eq u (text "a1") then false else s) u ≢ status_pending
revoked-status s u = elim (Bool-cases (str_eq u (text "a1"))) [
  | inl own ↦ rw own (λ e. cc)
  | inr other ↦ rw other (λ e. cc)
]

revoked-others :
    (s : Bool) (u v : Str)
    → v ≢ u
    → status (if str_eq u (text "a1") then false else s) v ≡ status s v
revoked-others s u v ne = elim (Bool-cases (str_eq u (text "a1"))) [
  | inr other ↦ rw other refl
  | inl own ↦ elim (Bool-cases (str_eq v (text "a1"))) [
    | inr w ↦ rw w refl
    | inl too ↦
        absurd (ne ((str_eq_iff v (text "a1")).0 too ∙ sym ((str_eq_iff u (text "a1")).0 own)))
  ]
]

acme_client-KeepsStatus : KeepsStatus acme_client status
acme_client-KeepsStatus = record {
  get_authorization-status = λ s u z e. ground arith;
  get_authorization-frame = λ s u v. refl;
  revoke_authorization-ends = λ s u e. revoked-status s u;
  revoke_authorization-frame = revoked-others;
}

deactivate_pending_authz-ends_example :
    ((u : Str)
      → In u (text "a1" ∷ [])
      → status (deactivate_pending_authz acme_client true (text "a1" ∷ [])) u ≢ status_pending)
    × ((u : Str)
        → status true u ≢ status_pending
        → status (deactivate_pending_authz acme_client true (text "a1" ∷ [])) u ≡ status true u)
deactivate_pending_authz-ends_example =
    deactivate_pending_authz-ends acme_client status acme_client-KeepsStatus true (text "a1" ∷ [])
      (λ s u m. (refl, refl))
