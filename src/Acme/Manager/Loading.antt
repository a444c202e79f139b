-- ===== src/Acme/Manager/Loading.antt =====
-- internal/acme_client_manager/client_manager.go: the states that the manager can be in, and the load
-- of the stored accounts.
use lets_proxy.Base.{
  List-cases, ◌≡◌, refl, ap, ◌∙◌, ◌⊎◌, inl, inr, ◌++◌, Option, none, some, Bool, true, false, not,
  get_elem?, ◌&&◌, arith, Bool-cases, Str, ok, is_cache_miss, Result-cases, is_result, is_error,
  Error, Option-cases, message, text, map,
}
use lets_proxy.Cache.Bytes.{Bytes}
use lets_proxy.Acme.State.{AcmeManagerState, load}
use lets_proxy.Acme.Accounts.{ClientAccount}
use lets_proxy.Acme.Accounts.Rotation.{IsInRange}
use lets_proxy.Acme.State.Migration.{load_total}
use lets_proxy.Acme.Manager.{
  Settings, AcmeManager, Outcome, returned, failed, panicked, init_account, renewals_from,
  load_from_cache, ensure_loaded,
}

-- A first call loads the stored accounts.
abbrev pub will_load :
    {Key Account : Type 0} {bytes : Bytes} → Settings → AcmeManager Key Account bytes → Bool
will_load settings m = not m.state_loaded && settings.has_cache && not settings.ignore_cache_load

-- The last index is one of the list's, and there is none before the stored accounts are loaded.
abbrev pub Inv :
    {Key Account : Type 0} {bytes : Bytes} → Settings → AcmeManager Key Account bytes → Type 0
Inv settings m =
    IsInRange _ _ m.list × (will_load settings m ≡ true → m.list.last_account_index ≡ none)

-- The account that `GetClient` returned is in the list, enabled, and the client is its.
abbrev pub IsEnabledClient :
    {Key Account : Type 0} {bytes : Bytes}
    → AcmeManager Key Account bytes
    → Outcome Key Account bytes
    → Type 0
IsEnabledClient m (returned client index) =
    (acc : ClientAccount _ _) × (get_elem? m.list.accounts index ≡ some acc)
    × (acc.enabled ≡ true)
    × (acc.client ≡ client)
IsEnabledClient m (failed e) = Unit
IsEnabledClient m panicked = Unit

module _ (Key Account : Type 0) (bytes : Bytes)
    (unmarshal : Str → Option (AcmeManagerState Key Account))
    (marshal : AcmeManagerState Key Account → Str) (settings : Settings) where
  abbrev M : Type 0
  M = AcmeManager Key Account bytes

  fresh-Inv : (m : M) → m.list.last_account_index ≡ none → Inv settings m
  fresh-Inv m e = (λ last q. absurd (ground arith), λ _. e)

  -- A load changes nothing, or it leaves other accounts and the last index as it was.
  abbrev Loaded : M → M → Option Error → Type 0
  Loaded m m' e = (m' ≡ m) ⊎ ((e ≡ none) × (m'.list.last_account_index ≡ m.list.last_account_index))

  load_from_cache-Loaded :
      (m : M)
      → (m' : M) × (e : Option Error) × (load_from_cache Key Account bytes unmarshal marshal
            settings m
          ≡ some (m', e))
        × Loaded m m' e
  unfolding load_from_cache
  load_from_cache-Loaded m = elim (Result-cases (bytes.get m.store settings.state_name)) [
    | is_error e h ↦ (m, some e, ground arith, inl refl)
    | is_result content h ↦
        let (r, q) = load_total Key Account unmarshal content in
        elim (Result-cases r) [
          | is_error e w ↦ (m, some e, ground (arith, q), inl refl)
          | is_result state w ↦ by_accounts content state h (q ∙ ap some w)
        ]
  ]
    where
      by_accounts :
          (content : Str) (state : AcmeManagerState Key Account)
          → bytes.get m.store settings.state_name ≡ ok content
          → load Key Account unmarshal content ≡ some (ok state)
          → (m' : M) × (e : Option Error) × (load_from_cache Key Account bytes unmarshal marshal
                settings m
              ≡ some (m', e))
            × Loaded m m' e
      by_accounts content state h q = elim (List-cases state.accounts) [
        | inl z ↦ (m, some (message (text "no accounts in state")), ground (arith, q, h), inl refl)
        | inr (x, xs, z) ↦
            let accounts = map (init_account Key Account bytes) state.accounts in
            (
              record m {
                list = record m.list { accounts = accounts };
                renewals = m.renewals ++ renewals_from Key Account bytes 0 accounts;
              },
              none,
              ground (arith, q, h),
              inr (refl, refl),
            )
      ]

  pub ensure_loaded-Inv :
      (m : M)
      → Inv settings m
      → (m' : M) × (e : Option Error) × (ensure_loaded Key Account bytes unmarshal marshal settings
            m
          ≡ some (m', e))
        × Inv settings m'
        × (e ≡ none → will_load settings m' ≡ false)
  unfolding ensure_loaded
  ensure_loaded-Inv m (r, h) =
      let (m', e, q, l) = load_from_cache-Loaded m in
      elim (Bool-cases (will_load settings m)) [
        | inr f ↦ (m, none, ground arith, (r, h), λ _. f)
        | inl t ↦
            let last = h t in
            let last' : m'.list.last_account_index ≡ none = elim l [
              | inl e ↦ ap (λ w. w.list.last_account_index) e ∙ last
              | inr (_, e) ↦ e ∙ last
            ] in
            elim (Option-cases e) [
              | inl none_ ↦ (
                record m' { state_loaded = true },
                none,
                ground (arith, q),
                fresh-Inv (record m' { state_loaded = true }) last',
                λ _. refl,
              )
              | inr (x, some_) ↦ elim (Bool-cases (is_cache_miss x)) [
                | inl miss ↦ (
                  record m' { state_loaded = true },
                  none,
                  ground (arith, q),
                  fresh-Inv (record m' { state_loaded = true }) last',
                  λ _. refl,
                )
                | inr other ↦ (
                  m',
                  some x,
                  ground (arith, q),
                  fresh-Inv m' last',
                  λ w. absurd (ground (arith, w)),
                )
              ]
            ]
      ]
