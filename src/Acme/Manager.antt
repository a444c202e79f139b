-- ===== src/Acme/Manager.antt =====
-- internal/acme_client_manager/client_manager.go: the manager of the accounts. Its mutex makes each
-- operation one step. A goroutine that renews an account and a timer that enables one again are
-- items of two lists. A wrapped error is the error it wraps.
pub mod Loading
pub mod Registering
pub mod Returned
pub mod Faults
use lets_proxy.Base.{
  pos, ℕ, ◌+◌, List, [], ◌∷◌, ◌++◌, map, Option, none, some, Bool, true, false, not, ◌&&◌, Str,
  text, if◌then◌else◌, Error, is_cache_miss, manager_closed, message, Result, ok, err, length,
  get_elem?, set,
}
use lets_proxy.Cache.Bytes.{Bytes}
use lets_proxy.Acme.State.{AcmeAccountState, AcmeManagerState, load}
use lets_proxy.Acme.Accounts.{
  Client, ClientAccount, Accounts, next_enabled_client_index, disable_account, account_enable,
}

-- The settings that the operations read; `state_name` is that of the directory's URL.
pub record Settings : Type 0 where
  pub has_cache : Bool
  pub ignore_cache_load : Bool
  pub state_name : Str

module _ (Key Account : Type 0) (bytes : Bytes) where
  -- A goroutine of `accountRenewSelfSync`: its index, and its copy of the account once it has read it.
  pub record Renewal : Type 0 where
    pub index : ℕ
    pub acc : Option (ClientAccount Key Account)

  pub record AcmeManager : Type 0 where
    pub store : bytes.Store
    pub list : Accounts Key Account
    pub state_loaded : Bool
    pub closed : Bool
    pub renewals : List Renewal
    pub timers : List ℕ

  pub new_manager : bytes.Store → AcmeManager
  new_manager store = record {
    store = store;
    list = record { accounts = []; last_account_index = none };
    state_loaded = false;
    closed = false;
    renewals = [];
    timers = [];
  }

  -- What `GetClient` returns: a client and the index that its disable function holds, an error, or
  -- it panics.
  pub data Outcome : Type 0 where
    returned : Option (Client Key Account) → ℕ → Outcome
    failed : Error → Outcome
    panicked : Outcome

  pub init_account : AcmeAccountState Key Account → ClientAccount Key Account
  init_account state = record {
    client = some (record { key = state.private_key });
    account = state.acme_account;
    enabled = true;
  }

  -- The goroutines for the accounts from an index on.
  pub renewals_from : ℕ → List (ClientAccount Key Account) → List Renewal
  renewals_from index [] = []
  renewals_from index (_ ∷ accounts) =
      record { index = index; acc = none } ∷ renewals_from (index + 1) accounts

  -- What `registerAccount` returns beside its error.
  pub registered_account : Result (Key × Account) → ClientAccount Key Account
  registered_account (ok (key, account)) = record {
    client = some (record { key = some key });
    account = some account;
    enabled = true;
  }
  registered_account (err e) = record { client = none; account = none; enabled = false }

  -- `append(m.accounts, acc)`, and its goroutine.
  pub add_account : AcmeManager → ClientAccount Key Account → AcmeManager
  add_account m acc = record m {
    list = record m.list { accounts = m.list.accounts ++ acc ∷ [] };
    renewals = m.renewals ++ record { index = length m.list.accounts; acc = none } ∷ [];
  }

  -- The accounts for the stored state; `none` if a client is nil, which panics.
  pub state_accounts :
      List (ClientAccount Key Account) → Option (List (AcmeAccountState Key Account))
  state_accounts [] = some []
  state_accounts (acc ∷ accounts) =
      let rest = state_accounts accounts in
      elim acc.client [
        | none ↦ none
        | some client ↦ elim rest [
          | none ↦ none
          | some states ↦
              some (record { private_key = client.key; acme_account = acc.account } ∷ states)
        ]
      ]

  module _ (unmarshal : Str → Option (AcmeManagerState Key Account))
      (marshal : AcmeManagerState Key Account → Str) (settings : Settings) where
    pub load_from_cache : AcmeManager → Option (AcmeManager × Option Error)
    load_from_cache m = elim (bytes.get m.store settings.state_name) [
      | err e ↦ some (m, some e)
      | ok content ↦ elim (load Key Account unmarshal content) [
        | none ↦ none
        | some (err e) ↦ some (m, some e)
        | some (ok state) ↦ elim state.accounts [
          | [] ↦ some (m, some (message (text "no accounts in state")))
          | _ ∷ _ ↦
              let accounts = map init_account state.accounts in
              some (
                record m {
                  list = record m.list { accounts = accounts };
                  renewals = m.renewals ++ renewals_from 0 accounts;
                },
                none,
              )
        ]
      ]
    ]

    abbrev saved : AcmeManager → bytes.Store × Option Error → Option (AcmeManager × Option Error)
    saved m (store, e) = some (record m { store = store }, e)

    -- `none` if it panics.
    pub save_state : AcmeManager → Option (AcmeManager × Option Error)
    save_state m = elim (state_accounts m.list.accounts) [
      | none ↦ none
      | some states ↦
          let state : AcmeManagerState Key Account = record {
            accounts = states;
            version = pos 0;
            private_key_deprecated = none;
            acme_account_deprecated = none;
          } in
          if settings.has_cache
          then saved m (bytes.put m.store settings.state_name (marshal state))
          else some (m, none)
    ]

    -- `GetClient` from the call of `registerAccount` on.
    pub register : AcmeManager → Result (Key × Account) → AcmeManager × Outcome
    register m registered =
        let acc = registered_account registered in
        let index = length m.list.accounts in
        let m1 = add_account m acc in
        elim registered [
          | err e ↦ (m1, failed e)
          | ok _ ↦ elim (save_state m1) [
            | none ↦ (m1, panicked)
            | some (m2, some e) ↦ (m2, failed e)
            | some (m2, none) ↦ (m2, returned acc.client index)
          ]
        ]

    -- `GetClient` from the choice of an account on. An index out of range would panic.
    pub choose : AcmeManager → Result (Key × Account) → Option (AcmeManager × Outcome)
    choose m registered = elim (next_enabled_client_index Key Account m.list) [
      | none ↦ none
      | some (list, none) ↦ some (register (record m { list = list }) registered)
      | some (list, some index) ↦ some (
        record m { list = list },
        elim (get_elem? list.accounts index) [
          | none ↦ panicked
          | some acc ↦ returned acc.client index
        ],
      )
    ]

    -- The load of the state at the first call.
    pub ensure_loaded : AcmeManager → Option (AcmeManager × Option Error)
    ensure_loaded m =
        if not m.state_loaded && settings.has_cache && not settings.ignore_cache_load
        then elim (load_from_cache m) [
          | none ↦ none
          | some (m', none) ↦ some (record m' { state_loaded = true }, none)
          | some (m', some e) ↦
              if is_cache_miss e
              then some (record m' { state_loaded = true }, none)
              else some (m', some e)
        ]
        else some (m, none)

    -- `GetClient`; `registered` is what an account at the authority would come to. `none` if a loop
    -- runs out of fuel.
    pub get_client : AcmeManager → Bool → Result (Key × Account) → Option (AcmeManager × Outcome)
    get_client m context_done registered =
        if context_done
        then some (m, failed (message (text "acme manager context closed")))
        else if m.closed
        then some (m, failed manager_closed)
        else elim (ensure_loaded m) [
          | none ↦ none
          | some (m1, some e) ↦ some (m1, failed e)
          | some (m1, none) ↦ choose m1 registered
        ]

  pub close : AcmeManager → AcmeManager × Option Error
  close m = (record m { closed = true }, if m.closed then some manager_closed else none)

  -- The function that `GetClient` returns with a client.
  pub disable : AcmeManager → ℕ → AcmeManager
  disable m index =
      let (accounts, was_enabled) = disable_account Key Account m.list.accounts index in
      let m1 = record m { list = record m.list { accounts = accounts } } in
      if was_enabled then record m1 { timers = m.timers ++ index ∷ [] } else m1

  -- The function of the timer.
  pub enable : AcmeManager → ℕ → AcmeManager
  enable m index = record m {
    list = record m.list { accounts = account_enable Key Account m.list.accounts index };
  }

  -- A goroutine takes its copy of the account.
  pub start_renewal : AcmeManager → ℕ → ℕ → AcmeManager
  start_renewal m routine index = record m {
    renewals =
        set m.renewals routine (record { index = index; acc = get_elem? m.list.accounts index });
  }

  -- `renewTos`; `none` is a panic, which leaves no account.
  pub renew_tos : Option Account → Option (Result Account) → Option Account
  renew_tos account none = none
  renew_tos account (some (err e)) = account
  renew_tos account (some (ok new_account)) = some new_account

  -- A tick of the goroutine's clock: its copy, with the renewed account, is written back.
  pub renew :
      AcmeManager → ℕ → ℕ → ClientAccount Key Account → Option (Result Account) → AcmeManager
  renew m routine index acc answer =
      let acc' = record acc { account = renew_tos acc.account answer } in
      record m {
        list = record m.list { accounts = set m.list.accounts index acc' };
        renewals = set m.renewals routine (record { index = index; acc = some acc' });
      }
