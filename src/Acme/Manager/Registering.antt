-- ===== src/Acme/Manager/Registering.antt =====
-- internal/acme_client_manager/client_manager.go: an account more, as `GetClient` registers it.
use lets_proxy.Base.{
  ◌≡◌, refl, sym, ap, ◌∙◌, ◌⊎◌, inl, inr, List, [], ◌∷◌, ◌++◌, Option, some, false, length,
  get_elem?, length-append, arith, Str, Result, ok, err, Error, Option-cases, subst,
}
use lets_proxy.Cache.Bytes.{Bytes}
use lets_proxy.Acme.State.{AcmeManagerState}
use lets_proxy.Acme.Accounts.{ClientAccount}
use lets_proxy.Acme.Accounts.Rotation.{IsInRange}
use lets_proxy.Acme.Manager.{
  Settings, AcmeManager, Outcome, returned, failed, panicked, save_state, registered_account,
  add_account, register,
}
use lets_proxy.Acme.Manager.Loading.{will_load, Inv, IsEnabledClient}

module _ (Key Account : Type 0) (bytes : Bytes)
    (unmarshal : Str → Option (AcmeManagerState Key Account))
    (marshal : AcmeManagerState Key Account → Str) (settings : Settings) where
  abbrev M : Type 0
  M = AcmeManager Key Account bytes

  save_state_lem :
      (m m' : M) (e : Option Error)
      → save_state Key Account bytes unmarshal marshal settings m ≡ some (m', e)
      → (m'.list ≡ m.list) × (m'.state_loaded ≡ m.state_loaded)
  unfolding save_state
  save_state_lem m m' e h = ground arith

  get_elem?-last :
      {A : Type 0} (xs : List A) (x : A) → get_elem? (xs ++ x ∷ []) (length xs) ≡ some x
  get_elem?-last [] x = refl
  get_elem?-last (y ∷ xs) x = get_elem?-last xs x

  -- The manager with one account more.
  abbrev Grown : M → M → ClientAccount Key Account → Type 0
  Grown m m' acc =
      (m'.list.accounts ≡ m.list.accounts ++ acc ∷ [])
      × (m'.list.last_account_index ≡ m.list.last_account_index)
      × (m'.state_loaded ≡ m.state_loaded)

  Grown-Inv :
      (m m' : M) (acc : ClientAccount Key Account)
      → Grown m m' acc
      → IsInRange Key Account m.list
      → will_load settings m ≡ false
      → Inv settings m' × (get_elem? m'.list.accounts (length m.list.accounts) ≡ some acc)
  Grown-Inv m m' acc (a, l, s) r f = (
    (
      (λ last q. ground (arith, a, r last (sym l ∙ q), length-append m.list.accounts (acc ∷ []))),
      (λ w. absurd (ground (arith, s, w))),
    ),
    ap (λ xs. get_elem? xs (length m.list.accounts)) a ∙ get_elem?-last m.list.accounts acc,
  )

  grown :
      (m : M) (acc : ClientAccount Key Account) → Grown m (add_account Key Account bytes m acc) acc
  unfolding add_account
  grown m acc = (refl, refl, refl)

  register_lem :
      (m : M) (registered : Result (Key × Account))
      → (m' : M) × (o : Outcome Key Account bytes) × (register Key Account bytes unmarshal marshal
            settings m registered
          ≡ (m', o))
        × Grown m m' (registered_account Key Account bytes registered)
        × ((o ≡ panicked)
            ⊎ ((e : Error) × (o ≡ failed e))
            ⊎ ((pair : Key × Account) × (registered ≡ ok pair)
                × (o
                    ≡ returned
                        (registered_account Key Account bytes registered).client
                        (length m.list.accounts))))
  unfolding register
  register_lem m (err e) = (
    add_account Key Account bytes m (registered_account Key Account bytes (err e)),
    failed e,
    refl,
    grown m (registered_account Key Account bytes (err e)),
    inr (inl (e, refl)),
  )
  register_lem m (ok pair) =
      let acc = registered_account Key Account bytes (ok pair) in
      let m1 = add_account Key Account bytes m acc in
      elim (Option-cases (save_state Key Account bytes unmarshal marshal settings m1)) [
        | inl z ↦ (m1, panicked, ground arith, grown m acc, inl refl)
        | inr ((m2, e), z) ↦
            let (l, s) = save_state_lem m1 m2 e z in
            let (a, b, c) = grown m acc in
            let g : Grown m m2 acc =
              (ap (λ x. x.accounts) l ∙ a, ap (λ x. x.last_account_index) l ∙ b, s ∙ c) in
            elim (Option-cases e) [
              | inl ok_ ↦ (
                m2,
                returned acc.client (length m.list.accounts),
                ground arith,
                g,
                inr (inr (pair, refl, refl)),
              )
              | inr (x, err_) ↦ (m2, failed x, ground arith, g, inr (inl (x, refl)))
            ]
      ]

  pub register-Inv :
      (m : M) (registered : Result (Key × Account))
      → IsInRange Key Account m.list
      → will_load settings m ≡ false
      → Inv settings (register Key Account bytes unmarshal marshal settings m registered).0
        × IsEnabledClient
            (register Key Account bytes unmarshal marshal settings m registered).0
            (register Key Account bytes unmarshal marshal settings m registered).1
  unfolding registered_account
  register-Inv m registered r f =
      let (m', o, e, g, how) = register_lem m registered in
      let acc = registered_account Key Account bytes registered in
      let (inv, at) = Grown-Inv m m' acc g r f in
      subst (λ w. Inv settings w.0 × IsEnabledClient w.0 w.1) (sym e)
        (
          inv,
          elim how [
            | inl p ↦ subst (IsEnabledClient m') (sym p) tt
            | inr (inl (x, p)) ↦ subst (IsEnabledClient m') (sym p) tt
            | inr (inr (pair, q, p)) ↦
                subst (IsEnabledClient m') (sym p) (
                  acc,
                  at,
                  ap (λ w. (registered_account Key Account bytes w).enabled) q ∙ refl,
                  refl,
                )
          ],
        )
