-- ===== src/Acme/Manager/Returned.antt =====
-- internal/acme_client_manager/client_manager.go: what `GetClient` returns in every state that the
-- manager can be in.
use lets_proxy.Base.{
  length-set, ◌<◌, subst, sym, some-injective, not, ◌&&◌, length, refl, ℕ, ◌<◌, ◌≡◌, refl, sym, ap,
  ◌∙◌, inl, inr, Option, none, some, Bool, true, false, not, length, get_elem?, length-set, ◌&&◌,
  arith, Bool-cases, Str, Result, Option-cases, subst, some-injective, manager_closed,
}
use lets_proxy.Cache.Bytes.{Bytes}
use lets_proxy.Acme.State.{AcmeManagerState}
use lets_proxy.Acme.Accounts.{
  length-disable_account, length-account_enable, ClientAccount, Accounts, start_index,
  next_enabled_client_index,
}
use lets_proxy.Acme.Accounts.Loop.{Chosen, enabled_account}
use lets_proxy.Acme.Accounts.Rotation.{next_enabled_client_index-Chosen}
use lets_proxy.Acme.Manager.{
  Settings, AcmeManager, Outcome, returned, failed, new_manager, register, choose, get_client,
  close, disable, enable, start_renewal, renew,
}
use lets_proxy.Acme.Manager.Loading.{will_load, Inv, IsEnabledClient, ensure_loaded-Inv}
use lets_proxy.Acme.Manager.Registering.{register-Inv}

module _ (Key Account : Type 0) (bytes : Bytes)
    (unmarshal : Str → Option (AcmeManagerState Key Account))
    (marshal : AcmeManagerState Key Account → Str) (settings : Settings) where
  abbrev M : Type 0
  M = AcmeManager Key Account bytes

  -- A call of `GetClient` that ends, in a good state, with a client of an enabled account.
  abbrev Ends : Option (M × Outcome Key Account bytes) → Type 0
  Ends call =
      (m' : M) × (o : Outcome Key Account bytes) × (call ≡ some (m', o))
      × Inv settings m'
      × IsEnabledClient m' o

  chosen_none :
      (m : M) (list : Accounts Key Account) (registered : Result (Key × Account))
      → next_enabled_client_index Key Account m.list ≡ some (list, none)
      → choose Key Account bytes unmarshal marshal settings m registered
        ≡ some (
            register Key Account bytes unmarshal marshal settings
              (record m { list = list })
              registered)
  unfolding choose
  chosen_none m list registered e = ground (arith, e)

  chosen_some :
      (m : M) (list : Accounts Key Account) (i : ℕ) (acc : ClientAccount Key Account)
      (registered : Result (Key × Account))
      → next_enabled_client_index Key Account m.list ≡ some (list, some i)
      → get_elem? list.accounts i ≡ some acc
      → choose Key Account bytes unmarshal marshal settings m registered
        ≡ some (record m { list = list }, returned acc.client i)
  unfolding choose
  chosen_some m list i acc registered e at = ground (arith, e, at)

  choose-Ends :
      (m : M) (registered : Result (Key × Account))
      → Inv settings m
      → will_load settings m ≡ false
      → Ends (choose Key Account bytes unmarshal marshal settings m registered)
  choose-Ends m registered (r, h) f =
      let (list, answer, e, same, r', c) = next_enabled_client_index-Chosen Key Account m.list r in
      elim (Option-cases answer) [
        | inl z ↦
            let m1 = record m { list = list } in
            let (inv, good) =
              register-Inv Key Account bytes unmarshal marshal settings m1 registered r' f in
            (_, _, chosen_none m list registered (e ∙ ap (λ a. some (list, a)) z), inv, good)
        | inr (i, z) ↦
            let (k, _, _, _, t, _) =
              subst (Chosen Key Account m.list.accounts (start_index Key Account m.list)) z c in
            let (acc, at, on) = enabled_account Key Account m.list.accounts i t in
            let at' = ap (λ xs. get_elem? xs i) same ∙ at in
            (
              record m { list = list },
              returned acc.client i,
              chosen_some m list i acc registered (e ∙ ap (λ a. some (list, a)) z) at',
              (r', λ w. absurd (ground (arith, f, w))),
              (acc, at', on, refl),
            )
      ]

  get_client-Ends :
      (m : M) (done : Bool) (registered : Result (Key × Account))
      → Inv settings m
      → Ends (get_client Key Account bytes unmarshal marshal settings m done registered)
  unfolding get_client
  get_client-Ends m true registered inv = (m, _, refl, inv, tt)
  get_client-Ends m false registered inv =
      let (m1, e, q, inv1, loaded) =
        ensure_loaded-Inv Key Account bytes unmarshal marshal settings m inv in
      elim (Bool-cases m.closed) [
        | inl c ↦ (m, failed manager_closed, ground arith, inv, tt)
        | inr c ↦ elim (Option-cases e) [
          | inr (x, z) ↦ (m1, failed x, ground (arith, q), inv1, tt)
          | inl z ↦
              let (m2, o, p, inv2, good) = choose-Ends m1 registered inv1 (loaded z) in
              (m2, o, ground (arith, q, p), inv2, good)
        ]
      ]

  -- One operation, of a caller, a goroutine or a timer.
  pub data Step : M → M → Type 0 where
    gets :
        (m m' : M) (done : Bool) (registered : Result (Key × Account))
        (o : Outcome Key Account bytes)
        → get_client Key Account bytes unmarshal marshal settings m done registered ≡ some (m', o)
        → Step m m'
    closes : (m : M) → Step m (close Key Account bytes m).0
    disables : (m : M) (index : ℕ) → Step m (disable Key Account bytes m index)
    enables : (m : M) (index : ℕ) → Step m (enable Key Account bytes m index)
    starts : (m : M) (routine index : ℕ) → Step m (start_renewal Key Account bytes m routine index)
    renews :
        (m : M) (routine index : ℕ) (acc : ClientAccount Key Account)
        (answer : Option (Result Account))
        → Step m (renew Key Account bytes m routine index acc answer)

  pub data Reach (store : bytes.Store) : M → Type 0 where
    fresh : Reach store (new_manager Key Account bytes store)
    next : (m m' : M) → Reach store m → Step m m' → Reach store m'

  -- The operations but `GetClient` keep what the invariant reads.
  abbrev Steady : M → M → Type 0
  Steady m m' =
      (length m'.list.accounts ≡ length m.list.accounts)
      × (m'.list.last_account_index ≡ m.list.last_account_index)
      × (m'.state_loaded ≡ m.state_loaded)

  Steady-Inv : (m m' : M) → Steady m m' → Inv settings m → Inv settings m'
  Steady-Inv m m' (n, l, s) (r, h) = (
    (λ last q. subst (λ x. last < x) (sym n) (r last (sym l ∙ q))),
    λ w.
        l ∙ h (ap (λ b. not b && settings.has_cache && not settings.ignore_cache_load) (sym s) ∙ w),
  )

  disable-Steady : (m : M) (index : ℕ) → Steady m (disable Key Account bytes m index)
  unfolding disable
  disable-Steady m index = ground (arith, length-disable_account Key Account m.list.accounts index)

  enable-Steady : (m : M) (index : ℕ) → Steady m (enable Key Account bytes m index)
  unfolding enable
  enable-Steady m index = (length-account_enable Key Account m.list.accounts index, refl, refl)

  renew-Steady :
      (m : M) (routine index : ℕ) (acc : ClientAccount Key Account)
      (answer : Option (Result Account))
      → Steady m (renew Key Account bytes m routine index acc answer)
  unfolding renew
  renew-Steady m routine index acc answer = (length-set m.list.accounts index _, refl, refl)

  Step-Inv : (m m' : M) → Step m m' → Inv settings m → Inv settings m'
  unfolding close start_renewal
  Step-Inv m m' (gets _ _ done registered o e) inv =
      let (m2, o2, e2, inv2, _) = get_client-Ends m done registered inv in
      subst (Inv settings) (ap (λ w. w.0) (some-injective _ _ (sym e2 ∙ e))) inv2
  Step-Inv m m' (closes _) inv = inv
  Step-Inv m m' (disables _ index) inv = Steady-Inv m m' (disable-Steady m index) inv
  Step-Inv m m' (enables _ index) inv = Steady-Inv m m' (enable-Steady m index) inv
  Step-Inv m m' (starts _ routine index) inv = inv
  Step-Inv m m' (renews _ routine index acc answer) inv =
      Steady-Inv m m' (renew-Steady m routine index acc answer) inv

  reached-Inv : (store : bytes.Store) (m : M) → Reach store m → Inv settings m
  unfolding new_manager
  reached-Inv store m fresh = ((λ last q. absurd (ground arith)), λ _. refl)
  reached-Inv store m' (next m _ r s) = Step-Inv m m' s (reached-Inv store m r)

  -- In every state that the manager can reach, by whichever order of calls, timers and renewals,
  -- `GetClient` ends; and if it returns a client, that is the client of an account of the list that
  -- is enabled, at the index that the disable function disables.
  pub reached_get_client :
      (store : bytes.Store) (m : M) (done : Bool) (registered : Result (Key × Account))
      → Reach store m
      → (m' : M) × (o : Outcome Key Account bytes) × (get_client Key Account bytes unmarshal marshal
            settings m done registered
          ≡ some (m', o))
        × IsEnabledClient m' o
  reached_get_client store m done registered r =
      let (m', o, e, _, good) = get_client-Ends m done registered (reached-Inv store m r) in
      (m', o, e, good)
