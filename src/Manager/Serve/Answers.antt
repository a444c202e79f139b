-- ===== src/Manager/Serve/Answers.antt =====
-- What `getCertificate` of internal/cert_manager/manager.go answers.
use lets_proxy.Base.{
  List, ◌++◌, refl, get_elem?, length, ℕ, ◌≡◌, sym, ap, ◌∙◌, subst, ◌⊎◌, inl, inr, [], ◌∷◌, Option,
  some, Bool, false, Str, arith, Result, ok, err, Result-cases, is_result, is_error, Option-cases,
  Bool-cases,
}
use lets_proxy.Cache.Bytes.{Bytes}
use lets_proxy.Base.Dict.{lookup}
use lets_proxy.Cache.Lru.{Item}
use lets_proxy.Cache.Lru
use lets_proxy.Cert.Check.{Certificate, Crypto, valid_cert_tls, valid_cert_der}
use lets_proxy.Cert.Check.Valid.{IsServable, Parts, valid_cert_tls_iff, valid_cert_der_sound}
use lets_proxy.Cert.Description.{KeyType, CertDescription, cert_description_from_domain, to_string}
use lets_proxy.Cert.State.{CertState, empty_cert_state, get_use_as_is, get_cert}
use lets_proxy.Manager.Storage.{is_cert_locked, load_certificate_from_cache}
use lets_proxy.Manager.Serve.{
  Settings, World, cert_state_get, state_at, Found-cases, found, from_state, from_storage,
  search_storage, search, deferred, denied, get_typed_certificate,
}

module _ (bytes : Bytes) (crypto : Crypto) where
  -- The local state of a description, a new one if there is none yet.
  abbrev local_state : World bytes → CertDescription → CertState
  local_state w cd = state_at bytes (cert_state_get bytes w cd).0 (cert_state_get bytes w cd).1

  -- Where a served certificate comes from, and what is known of it: it is the certificate of the
  -- state that is cached under this description, or it is made of the chain and the key that the storage has for this description, and
  -- then it may be served for the domain at that instant, unless it is locked, in full; or it was
  -- issued by this call, and then the certificate is not locked.
  pub data Source (w : World bytes) (cd : CertDescription) (need_domain : Str) (now : ℕ)
      (issued : World bytes → Result Certificate) (c : Certificate) : Type 0 where
    local :
        (item : Item ℕ) (s : CertState)
        → lookup (to_string cd) w.cert_state.items ≡ some item
        → get_elem? w.states item.value ≡ some s
        → s.cert ≡ some c
        → IsServable crypto c (need_domain ∷ []) s.use_as_is now
        → Source w cd need_domain now issued c
    stored :
        (locked : Bool) (loaded : Certificate)
        → is_cert_locked bytes w.store cd ≡ ok locked
        → load_certificate_from_cache bytes crypto w.store cd now ≡ ok loaded
        → c.certificate ≡ loaded.certificate
        → c.private_key ≡ loaded.private_key
        → IsServable crypto c (need_domain ∷ []) locked now
        → Source w cd need_domain now issued c
    fresh :
        is_cert_locked bytes w.store cd ≡ ok false
        → issued (cert_state_get bytes w cd).0 ≡ ok c
        → Source w cd need_domain now issued c

  -- The storage has what the certificate is made of.
  abbrev Stored : bytes.Store → CertDescription → Str → Bool → ℕ → Certificate → Type 0
  Stored store cd need_domain locked now c =
      (loaded : Certificate) × (load_certificate_from_cache bytes crypto store cd now ≡ ok loaded)
      × Parts crypto c loaded.certificate loaded.private_key (need_domain ∷ []) locked now

  get_elem?-snoc :
      (xs : List CertState) (x : CertState) → get_elem? (xs ++ x ∷ []) (length xs) ≡ some x
  get_elem?-snoc [] x = refl
  get_elem?-snoc (y ∷ xs) x = get_elem?-snoc xs x

  -- A local state with a certificate is cached under the description.
  cached_state :
      (w : World bytes) (cd : CertDescription) (c : Certificate)
      → (local_state w cd).cert ≡ some c
      → (item : Item ℕ) × (s : CertState) × (lookup (to_string cd) w.cert_state.items ≡ some item)
        × (get_elem? w.states item.value ≡ some s)
        × (s ≡ local_state w cd)
  unfolding cert_state_get state_at Lru.get
  cached_state w cd c h = elim (Option-cases (lookup (to_string cd) w.cert_state.items)) [
    | inl e ↦ absurd (ground (arith, h, e, get_elem?-snoc w.states empty_cert_state))
    | inr (item, e) ↦ elim (Option-cases (get_elem? w.states item.value)) [
      | inl q ↦ absurd (ground (arith, h, e, q))
      | inr (s, q) ↦ (item, s, e, q, ground (arith, e, q))
    ]
  ]

  state_cert : (s : CertState) → s.cert ≡ (get_cert s).0
  unfolding get_cert
  state_cert s = ground arith

  from_state_sound :
      (s : CertState) (need_domain : Str) (now : ℕ) (c : Certificate)
      → from_state bytes crypto s need_domain now ≡ found c
      → (s.cert ≡ some c) × IsServable crypto c (need_domain ∷ []) s.use_as_is now
  unfolding from_state get_cert get_use_as_is
  from_state_sound s need_domain now c h = elim (Option-cases (get_cert s).0) [
    | inl e ↦ absurd (ground arith)
    | inr (c', e) ↦
        elim (Result-cases
          (valid_cert_tls crypto (some c') (need_domain ∷ []) (get_use_as_is s) now)) [
            | is_error x q ↦ absurd (ground arith)
            | is_result c'' q ↦
                let same : c'' ≡ c = ground arith in
                let (e', v) = (valid_cert_tls_iff crypto _ _ _ _ _).0 q in
                (
                  state_cert s ∙ e ∙ e' ∙ ap some same,
                  subst (λ x. IsServable crypto x (need_domain ∷ []) s.use_as_is now) same v,
                )
          ]
  ]

  from_storage_sound :
      (store : bytes.Store) (cd : CertDescription) (need_domain : Str) (locked : Bool) (now : ℕ)
      (c : Certificate)
      → from_storage bytes crypto store cd need_domain locked now ≡ found c
      → Stored store cd need_domain locked now c
  unfolding from_storage
  from_storage_sound store cd need_domain locked now c h =
      elim (Result-cases (load_certificate_from_cache bytes crypto store cd now)) [
        | is_error x q ↦ absurd (ground arith)
        | is_result c' q ↦
            elim (Result-cases
              (valid_cert_der crypto (need_domain ∷ []) c'.certificate c'.private_key locked now)) [
                | is_error x r ↦ absurd (ground arith)
                | is_result c'' r ↦
                    let same : c'' ≡ c = ground arith in
                    (
                      c',
                      q,
                      subst
                          (λ x.
                            Parts crypto x c'.certificate c'.private_key (need_domain ∷ []) locked
                              now)
                          same (valid_cert_der_sound crypto c' c'' (need_domain ∷ []) locked now r),
                    )
              ]
      ]

  cert_state_get-store :
      (w : World bytes) (cd : CertDescription) → (cert_state_get bytes w cd).0.store ≡ w.store
  unfolding cert_state_get
  cert_state_get-store w cd = ground arith

  pub deferred-cert :
      (w : World bytes) (cd : CertDescription) (need_domain : Str) (now : ℕ)
      (result : Result Certificate) (checked : Option Bool) (c : Certificate)
      → (deferred bytes w cd need_domain now result checked).1 ≡ some c
      → result ≡ ok c
  unfolding deferred
  deferred-cert w cd need_domain now (err e) checked c h = cc
  deferred-cert w cd need_domain now (ok c') checked c h = ground arith

  module _
      (issue_new_cert : World bytes
        → Str
        → CertDescription
        → World bytes × Result Certificate) where
    search_storage_sound :
        (w : World bytes) (address : ℕ) (cd : CertDescription) (need_domain : Str) (now : ℕ)
        (c : Certificate)
        → (search_storage bytes crypto issue_new_cert w address cd need_domain now).1 ≡ ok c
        → ((locked : Bool) × (is_cert_locked bytes w.store cd ≡ ok locked)
            × Stored w.store cd need_domain locked now c)
          ⊎ ((is_cert_locked bytes w.store cd ≡ ok false)
              × ((issue_new_cert w need_domain cd).1 ≡ ok c))
    unfolding search_storage
    search_storage_sound w address cd need_domain now c h =
        elim (Result-cases (is_cert_locked bytes w.store cd)) [
          | is_error x q ↦ absurd (ground arith)
          | is_result locked q ↦
              elim (Found-cases (from_storage bytes crypto w.store cd need_domain locked now)) [
                | inl (c', e) ↦
                    let same : c' ≡ c = ground arith in
                    inl (
                      locked,
                      q,
                      from_storage_sound w.store cd need_domain locked now c (e ∙ ap found same),
                    )
                | inr (inl e) ↦ absurd (ground arith)
                | inr (inr e) ↦ elim (Bool-cases locked) [
                  | inl t ↦ absurd (ground arith)
                  | inr f ↦ inr (q ∙ ap ok f, ground arith)
                ]
              ]
        ]

    search_sound :
        (w : World bytes) (cd : CertDescription) (need_domain : Str) (now : ℕ) (c : Certificate)
        → (search bytes crypto issue_new_cert w cd need_domain now).1 ≡ ok c
        → Source w cd need_domain now (λ u. (issue_new_cert u need_domain cd).1) c
    unfolding search
    search_sound w cd need_domain now c h =
        let w1 = (cert_state_get bytes w cd).0 in
        let address = (cert_state_get bytes w cd).1 in
        let s = state_at bytes w1 address in
        elim (Found-cases (from_state bytes crypto s need_domain now)) [
          | inl (c', e) ↦
              let same : c' ≡ c = ground arith in
              let (kept, v) = from_state_sound s need_domain now c (e ∙ ap found same) in
              let (item, own, q, at, same) = cached_state w cd c kept in
              local item own q at (ap (λ x. x.cert) same ∙ kept) (
                subst (λ x. IsServable crypto c (need_domain ∷ []) x now)
                  (ap (λ x. x.use_as_is) (sym same)) v)
          | inr (inl e) ↦ absurd (ground arith)
          | inr (inr e) ↦
              elim (search_storage_sound w1 address cd need_domain now c (ground arith)) [
                | inl (locked, q, (loaded, l, (der, key, v))) ↦
                    let back = sym (cert_state_get-store w cd) in
                    stored locked loaded (ap (λ x. is_cert_locked bytes x cd) back ∙ q)
                      (ap (λ x. load_certificate_from_cache bytes crypto x cd now) back ∙ l) der key
                      v
                | inr (q, r) ↦
                    fresh
                      (ap (λ x. is_cert_locked bytes x cd) (sym (cert_state_get-store w cd)) ∙ q) r
              ]
        ]

    -- A certificate that `getCertificate` returns is the one of the state cached under its description,
    -- or has the chain and the key that are loaded from the storage for its description, and then it
    -- may be served for the domain at that instant; or it is the result of an issue that this call
    -- made while the certificate was not locked.
    pub get_typed_certificate_sound :
        (settings : Settings) (w : World bytes) (need_domain : Str) (cert_type : KeyType) (now : ℕ)
        (c : Certificate)
        → (get_typed_certificate bytes crypto issue_new_cert settings w need_domain cert_type now).1
          ≡ some c
        → Source w
            (cert_description_from_domain need_domain cert_type settings.auto_subdomains)
            need_domain
            now
            (λ u.
              (issue_new_cert u need_domain
                (cert_description_from_domain need_domain cert_type settings.auto_subdomains)).1)
            c
    unfolding get_typed_certificate
    get_typed_certificate_sound settings w need_domain cert_type now c h =
        elim (Option-cases (denied settings cert_type)) [
          | inr (e, q) ↦ absurd (ground arith)
          | inl q ↦
              let cd =
                cert_description_from_domain need_domain cert_type settings.auto_subdomains in
              let (w', result, checked) = search bytes crypto issue_new_cert w cd need_domain now in
              search_sound w cd need_domain now c
                (deferred-cert w' cd need_domain now result checked c (ground arith))
        ]
