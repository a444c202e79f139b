-- ===== src/Manager/Serve/Renewing.antt =====
-- When `getCertificate` of internal/cert_manager/manager.go issues or renews a certificate.
use lets_proxy.Base.{
  ℕ, ◌≡◌, refl, ap, ◌∙◌, ◌⊎◌, inl, inr, List, [], ◌∷◌, ◌++◌, Option, none, some, Bool, true, false,
  Str, arith, Result, ok, err, Error, ◌<◌, ◌+◌, ◌*◌, ◌↔◌, sym, some-injective, Option-cases,
  Bool-cases, subst,
}
use lets_proxy.Cache.Bytes.{Bytes}
use lets_proxy.Cert.Check.{X509, Certificate, Crypto, is_need_renew}
use lets_proxy.Cert.Description.{KeyType, CertDescription, cert_description_from_domain}
use lets_proxy.Manager.Storage.{is_cert_locked}
use lets_proxy.Manager.Serve.Answers.{deferred-cert}
use lets_proxy.Manager.Serve.{
  Settings, Renewal, World, cert_state_get, search_storage, search, start_renewal, deferred, denied,
  get_typed_certificate,
}

module _ (bytes : Bytes) (crypto : Crypto) where
  abbrev Issuer : Type 0
  Issuer = World bytes → Str → CertDescription → World bytes × Result Certificate

  cert_state_get-frame :
      (w : World bytes) (cd : CertDescription)
      → ((cert_state_get bytes w cd).0.store ≡ w.store)
        × ((cert_state_get bytes w cd).0.renewals ≡ w.renewals)
  unfolding cert_state_get
  cert_state_get-frame w cd = ground arith

  search_locked :
      (issue issue' : Issuer) (w : World bytes) (cd : CertDescription) (need_domain : Str) (now : ℕ)
      → is_cert_locked bytes w.store cd ≡ ok true
      → (search bytes crypto issue w cd need_domain now
          ≡ search bytes crypto issue' w cd need_domain now)
        × ((search bytes crypto issue w cd need_domain now).0.renewals ≡ w.renewals)
        × ((search bytes crypto issue w cd need_domain now).0.store ≡ w.store)
        × (((search bytes crypto issue w cd need_domain now).2 ≡ none)
            ⊎ ((search bytes crypto issue w cd need_domain now).2 ≡ some true))
  unfolding search search_storage
  search_locked issue issue' w cd need_domain now locked = ground (arith, cert_state_get-frame w cd)

  deferred_locked :
      (w : World bytes) (cd : CertDescription) (need_domain : Str) (now : ℕ)
      (result : Result Certificate) (checked : Option Bool)
      → is_cert_locked bytes w.store cd ≡ ok true
      → (checked ≡ none) ⊎ (checked ≡ some true)
      → (deferred bytes w cd need_domain now result checked).0.renewals ≡ w.renewals
  unfolding deferred start_renewal
  deferred_locked w cd need_domain now (err e) checked locked h = refl
  deferred_locked w cd need_domain now (ok c) checked locked h = ground arith

  -- For a locked certificate `getCertificate` never issues one and never starts a renewal: its
  -- answer does not depend on what an issue would do, and the list of renewals stays as it was.
  pub get_typed_certificate_locked :
      (issue issue' : Issuer) (settings : Settings) (w : World bytes) (need_domain : Str)
      (cert_type : KeyType) (now : ℕ)
      → is_cert_locked bytes w.store
          (cert_description_from_domain need_domain cert_type settings.auto_subdomains)
        ≡ ok true
      → (get_typed_certificate bytes crypto issue settings w need_domain cert_type now
          ≡ get_typed_certificate bytes crypto issue' settings w need_domain cert_type now)
        × ((get_typed_certificate bytes crypto issue settings w need_domain cert_type
              now).0.renewals
            ≡ w.renewals)
  unfolding get_typed_certificate
  get_typed_certificate_locked issue issue' settings w need_domain cert_type now locked =
      let cd = cert_description_from_domain need_domain cert_type settings.auto_subdomains in
      let (w', result, checked) = search bytes crypto issue w cd need_domain now in
      let (same, renewals, store, seen) = search_locked issue issue' w cd need_domain now locked in
      let kept = ap (λ s. is_cert_locked bytes s cd) store ∙ locked in
      ground (arith, same, deferred_locked w' cd need_domain now result checked kept seen)

  search_seen :
      (issue : Issuer) (w : World bytes) (cd : CertDescription) (need_domain : Str) (now : ℕ)
      (locked : Bool) (c : Certificate)
      → is_cert_locked bytes w.store cd ≡ ok locked
      → (search bytes crypto issue w cd need_domain now).1 ≡ ok c
      → ((search bytes crypto issue w cd need_domain now).2 ≡ some locked)
        ⊎ (((search bytes crypto issue w cd need_domain now).2 ≡ none)
            × ((search bytes crypto issue w cd need_domain now).0.store ≡ w.store))
  unfolding search search_storage
  search_seen issue w cd need_domain now locked c e h = ground (arith, cert_state_get-frame w cd)

  -- What a call knows of the lock when it returns.
  abbrev Known : World bytes → CertDescription → Option Bool → Bool → Type 0
  Known w cd checked locked =
      (checked ≡ some locked) ⊎ ((checked ≡ none) × (is_cert_locked bytes w.store cd ≡ ok locked))

  seen_kept :
      (w : World bytes) (cd : CertDescription) (checked : Option Bool) (locked : Bool)
      (store : bytes.Store)
      → is_cert_locked bytes store cd ≡ ok locked
      → (checked ≡ some locked) ⊎ ((checked ≡ none) × (w.store ≡ store))
      → Known w cd checked locked
  seen_kept w cd checked locked store e (inl seen) = inl seen
  seen_kept w cd checked locked store e (inr (unseen, same)) =
      inr (unseen, ap (λ s. is_cert_locked bytes s cd) same ∙ e)

  -- A certificate of which fewer than 30 days, in nanoseconds, are left.
  abbrev pub IsDue : Certificate → ℕ → Type 0
  IsDue c now =
      (leaf : X509) × (c.leaf ≡ some leaf)
      × (leaf.not_after < now + 30 * 24 * 60 * 60 * 1_000_000_000)

  IsDue-iff : (c : Certificate) (now : ℕ) → (is_need_renew (some c) now ≡ true) ↔ IsDue c now
  unfolding is_need_renew
  IsDue-iff c now = elim (Option-cases c.leaf) [
    | inl e ↦ ((λ h. absurd (ground arith)), λ (leaf, q, _). absurd (ground (arith, q)))
    | inr (leaf, e) ↦ (
      (λ h. (leaf, e, ground (arith, h))),
      λ (leaf', q, h).
          let less =
            subst (λ l. l.not_after < now + 30 * 24 * 60 * 60 * 1_000_000_000)
              (some-injective _ _ (sym q ∙ e)) h in
          ground (arith, e, less),
    )
  ]

  -- An answer without an error that starts the renewal of the certificate exactly if that is due and
  -- not locked, and no other.
  abbrev pub Renews :
      World bytes × Option Certificate × Option Error
      → List Renewal
      → Renewal
      → Certificate
      → ℕ
      → Bool
      → Type 0
  Renews outcome before renewal c now locked =
      (outcome.2 ≡ none)
      × (IsDue c now → locked ≡ false → outcome.0.renewals ≡ before ++ renewal ∷ [])
      × ((¬ IsDue c now) ⊎ (locked ≡ true) → outcome.0.renewals ≡ before)

  deferred-Renews :
      (w : World bytes) (cd : CertDescription) (need_domain : Str) (now : ℕ) (c : Certificate)
      (checked : Option Bool) (locked : Bool)
      → Known w cd checked locked
      → Renews
          (deferred bytes w cd need_domain now (ok c) checked)
          w.renewals
          (record { need_domain = need_domain; description = cd })
          c
          now
          locked
  unfolding deferred start_renewal
  deferred-Renews w cd need_domain now c checked true k =
      (ground (arith, k), λ due f. absurd cc, λ any. ground (arith, k))
  deferred-Renews w cd need_domain now c checked false k = (
    ground (arith, k),
    λ due f. ground (arith, k, (IsDue-iff c now).1 due),
    λ h. elim h [
      | inr t ↦ absurd cc
      | inl fresh ↦ elim (Bool-cases (is_need_renew (some c) now)) [
        | inl t ↦ absurd (fresh ((IsDue-iff c now).0 t))
        | inr f ↦ ground (arith, k)
      ]
    ],
  )

  search-renewals :
      (issue : Issuer) (w : World bytes) (cd : CertDescription) (need_domain : Str) (now : ℕ)
      → ((u : World bytes) → (issue u need_domain cd).0.renewals ≡ u.renewals)
      → (search bytes crypto issue w cd need_domain now).0.renewals ≡ w.renewals
  unfolding search search_storage
  search-renewals issue w cd need_domain now kept =
      ground (arith, cert_state_get-frame w cd, kept (cert_state_get bytes w cd).0)

  -- Where the check of the lock succeeds, and the issue of a certificate starts no renewal itself: if
  -- `getCertificate` returns a certificate, then without an error, and it starts the renewal of the
  -- description for the domain asked for exactly if fewer than 30 days of the certificate's period
  -- are left and it is not locked, and no other renewal.
  pub get_typed_certificate-Renews :
      (issue : Issuer) (settings : Settings) (w : World bytes) (need_domain : Str)
      (cert_type : KeyType) (now : ℕ) (locked : Bool) (c : Certificate) (cd : CertDescription)
      → cd ≡ cert_description_from_domain need_domain cert_type settings.auto_subdomains
      → ((u : World bytes) → (issue u need_domain cd).0.renewals ≡ u.renewals)
      → is_cert_locked bytes w.store cd ≡ ok locked
      → (get_typed_certificate bytes crypto issue settings w need_domain cert_type now).1 ≡ some c
      → Renews
          (get_typed_certificate bytes crypto issue settings w need_domain cert_type now)
          w.renewals
          (record { need_domain = need_domain; description = cd })
          c
          now
          locked
  unfolding get_typed_certificate
  get_typed_certificate-Renews issue settings w need_domain cert_type now locked c cd d kept e h =
      elim (Option-cases (denied settings cert_type)) [
        | inr (x, q) ↦ absurd (ground arith)
        | inl q ↦
            let (w', result, checked) = search bytes crypto issue w cd need_domain now in
            let found : result ≡ ok c =
              deferred-cert bytes crypto w' cd need_domain now result checked c (ground arith) in
            let known =
              seen_kept w' cd checked locked w.store e
                (search_seen issue w cd need_domain now locked c e found) in
            let r = deferred-Renews w' cd need_domain now c checked locked known in
            let same : get_typed_certificate bytes crypto issue settings w need_domain cert_type now
                ≡ deferred bytes w' cd need_domain now (ok c) checked =
              ground (arith, d, found) in
            let renewal : Renewal = record { need_domain = need_domain; description = cd } in
            subst (λ o. Renews o w.renewals renewal c now locked) (sym same)
              (subst
                (λ before.
                  Renews (deferred bytes w' cd need_domain now (ok c) checked) before renewal c now
                    locked)
                (search-renewals issue w cd need_domain now kept) r)
      ]
