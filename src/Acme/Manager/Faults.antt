-- ===== src/Acme/Manager/Faults.antt =====
-- internal/acme_client_manager/client_manager.go: what two of its defects do.
use lets_proxy.Base.{
  length-set, Error, List, Option, Option-cases, Result, Str, [], ap, arith, err, false, get_elem?,
  inl, inr, length-append, lt-get_elem?, none, ok, refl, set, some, subst, sym, true, ℕ, ◌++◌, ◌<◌,
  ◌∙◌, ◌∷◌, ◌≡◌,
}
use lets_proxy.Cache.Bytes.{Bytes}
use lets_proxy.Acme.State.{AcmeManagerState}
use lets_proxy.Acme.Accounts.{
  Accounts, ClientAccount, disable_account_lem, enabled_at, enabled_at-append, enabled_at-set,
  next_enabled_client_index, set_enabled, start_index,
}
use lets_proxy.Acme.Accounts.Loop.{Chosen}
use lets_proxy.Acme.Accounts.Rotation.{IsInRange, next_enabled_client_index-Chosen}
use lets_proxy.Acme.Manager.{
  renew_tos, AcmeManager, Outcome, Settings, add_account, choose, disable, ensure_loaded, failed,
  get_client, panicked, register, registered_account, renew, save_state, state_accounts,
}
use lets_proxy.Acme.Manager.Loading.{will_load}

module _ (Key Account : Type 0) (bytes : Bytes) where
  abbrev M : Type 0
  M = AcmeManager Key Account bytes

  accounts-add_account :
      (m : M) (acc : ClientAccount Key Account)
      → (add_account Key Account bytes m acc).list.accounts ≡ m.list.accounts ++ acc ∷ []
  unfolding add_account
  accounts-add_account m acc = refl

  state_accounts-append :
      (xs ys : List (ClientAccount Key Account))
      → state_accounts Key Account bytes xs ≡ none
      → state_accounts Key Account bytes (xs ++ ys) ≡ none
  unfolding state_accounts
  state_accounts-append [] ys h = absurd (ground arith)
  state_accounts-append (x ∷ xs) ys h = ground (arith, state_accounts-append xs ys)

  state_accounts-nil :
      (xs : List (ClientAccount Key Account)) (acc : ClientAccount Key Account)
      → acc.client ≡ none
      → state_accounts Key Account bytes (xs ++ acc ∷ []) ≡ none
  unfolding state_accounts
  state_accounts-nil [] acc h = ground arith
  state_accounts-nil (x ∷ xs) acc h = ground (arith, state_accounts-nil xs acc h)

  module _ (unmarshal : Str → Option (AcmeManagerState Key Account))
      (marshal : AcmeManagerState Key Account → Str) (settings : Settings) where
    abbrev call : M → Result (Key × Account) → Option (M × Outcome Key Account bytes)
    call m registered = get_client Key Account bytes unmarshal marshal settings m false registered

    -- The manager is open, its accounts are loaded and all of them disabled.
    abbrev pub IsExhausted : M → Type 0
    IsExhausted m =
        (m.closed ≡ false)
        × (will_load settings m ≡ false)
        × IsInRange Key Account m.list
        × ((i : ℕ) → enabled_at Key Account m.list.accounts i ≡ false)

    -- The choice in such a state, and the state behind it.
    abbrev NoneChosen : M → Accounts Key Account → Type 0
    NoneChosen m list =
        (next_enabled_client_index Key Account m.list ≡ some (list, none))
        × (list.accounts ≡ m.list.accounts)
        × IsExhausted (record m { list = list })

    none_chosen : (m : M) → IsExhausted m → (list : Accounts Key Account) × NoneChosen m list
    none_chosen m (o, l, r, d) =
        let (list, answer, e, same, r', c) =
          next_enabled_client_index-Chosen Key Account m.list r in
        elim (Option-cases answer) [
          | inl z ↦ (
            list,
            (
              e ∙ ap (λ a. some (list, a)) z,
              same,
              (o, l, r', λ i. ap (λ xs. enabled_at Key Account xs i) same ∙ d i),
            ),
          )
          | inr (i, z) ↦
              let (_, _, _, _, t, _) =
                subst (Chosen Key Account m.list.accounts (start_index Key Account m.list)) z c in
              absurd (ground (arith, t, d i))
        ]

    call-IsExhausted :
        (m : M) (registered : Result (Key × Account))
        → IsExhausted m
        → (list : Accounts Key Account) × (list.accounts ≡ m.list.accounts)
          × IsExhausted (record m { list = list })
          × (call m registered
              ≡ some (
                  register Key Account bytes unmarshal marshal settings
                    (record m { list = list })
                    registered))
    unfolding get_client ensure_loaded choose
    call-IsExhausted m registered h =
        let (open_, loaded, _, _) = h in
        let (list, (e, same, h')) = none_chosen m h in
        (list, same, h', ground (arith, open_, loaded, e))

    abbrev empty_account : Error → ClientAccount Key Account
    empty_account e = registered_account Key Account bytes (err e)

    still-IsExhausted :
        (m : M) (list : Accounts Key Account) (e : Error)
        → IsExhausted (record m { list = list })
        → IsExhausted (add_account Key Account bytes (record m { list = list }) (empty_account e))
    unfolding add_account registered_account
    still-IsExhausted m list e (o, l, r, d) = (
      o,
      l,
      (λ last q. omega (arith, r last q, length-append list.accounts (empty_account e ∷ []))),
      λ i. enabled_at-append Key Account list.accounts (empty_account e) i d refl,
    )

    register_panics :
        (m : M) (xs : List (ClientAccount Key Account)) (e : Error) (pair : Key × Account)
        → m.list.accounts ≡ xs ++ empty_account e ∷ []
        → (register Key Account bytes unmarshal marshal settings m (ok pair)).1 ≡ panicked
    unfolding register save_state add_account registered_account
    register_panics m xs e pair h = ground (arith, nil)
      where
        nil :
            state_accounts Key Account bytes
              (m.list.accounts ++ registered_account Key Account bytes (ok pair) ∷ [])
            ≡ none
        nil =
            state_accounts-append m.list.accounts
              (registered_account Key Account bytes (ok pair) ∷ [])
              (ap (state_accounts Key Account bytes) h
                ∙ state_accounts-nil xs (empty_account e) refl)

    -- A registration that fails leaves an account without a client in the list. If the manager is open, its stored
    -- accounts are loaded and all the others are
    -- disabled, then the next registration that the authority accepts makes `GetClient` panic.
    pub failed_registration_panics :
        (m : M) (e : Error) (pair : Key × Account)
        → IsExhausted m
        → (m1 : M) × (call m (err e) ≡ some (m1, failed e))
          × (m2 : M) × (call m1 (ok pair) ≡ some (m2, panicked))
    unfolding register
    failed_registration_panics m e pair h =
        let (list, same, h', c) = call-IsExhausted m (err e) h in
        let m1 = add_account Key Account bytes (record m { list = list }) (empty_account e) in
        let (list1, same1, h1, c1) =
          call-IsExhausted m1 (ok pair) (still-IsExhausted m list e h') in
        let m2 = record m1 { list = list1 } in
        let p =
          register_panics m2 list.accounts e pair
            (same1 ∙ accounts-add_account (record m { list = list }) (empty_account e)) in
        (
          m1,
          c,
          (register Key Account bytes unmarshal marshal settings m2 (ok pair)).0,
          c1
              ∙ ap
                  (λ o.
                    some
                      ((register Key Account bytes unmarshal marshal settings m2 (ok pair)).0, o))
                  p,
        )

  -- A disabled account is enabled again by its own renewal, if the goroutine took its copy before.
  pub renewal_enables :
      (m : M) (routine index : ℕ) (acc : ClientAccount Key Account)
      (answer : Option (Result Account))
      → get_elem? m.list.accounts index ≡ some acc
      → acc.enabled ≡ true
      → (enabled_at Key Account (disable Key Account bytes m index).list.accounts index ≡ false)
        × (enabled_at Key Account
              (renew Key Account bytes
                (disable Key Account bytes m index)
                routine
                index
                acc
                answer).list.accounts
              index
            ≡ true)
  unfolding disable renew
  renewal_enables m routine index acc answer h e =
      let off = set_enabled Key Account false acc in
      let renewed = record acc { account = renew_tos Key Account bytes acc.account answer } in
      let all_off = set m.list.accounts index off in
      let n = lt-get_elem? m.list.accounts index acc h in
      let n' = subst (λ x. index < x) (sym (length-set m.list.accounts index off)) n in
      let d = disable_account_lem Key Account m.list.accounts index acc h e in
      let same : (disable Key Account bytes m index).list.accounts ≡ all_off = ground (arith, d) in
      (
        ap (λ xs. enabled_at Key Account xs index) same
            ∙ enabled_at-set Key Account m.list.accounts index off n,
        ap (λ xs. enabled_at Key Account (set xs index renewed) index) same
            ∙ enabled_at-set Key Account all_off index renewed n'
            ∙ e,
      )
