-- ===== src/Acme/Accounts.antt =====
-- internal/acme_client_manager/client_manager.go: the list of accounts and the choice of the next
-- one. A nil pointer is `none`, and so is the last index while it is -1.
pub mod Loop
pub mod Rotation
use lets_proxy.Base.{
  refl, ◌++◌, get_elem?-set, ◌<◌, ◌≡◌, Option-cases, inl, inr, length-set, arith, ℕ, zero, suc, ◌+◌,
  ◌-◌, List, [], ◌∷◌, Option, none, some, Bool, true, false, ◌==◌, leb, if◌then◌else◌, length,
  get_elem?, set, ◌&&◌,
}

module _ (Key Account : Type 0) where
  -- `acme.Client`: all but its key is the same for every account.
  pub record Client : Type 0 where
    pub key : Option Key

  pub record ClientAccount : Type 0 where
    pub client : Option Client
    pub account : Option Account
    pub enabled : Bool

  -- The fields of `AcmeManager` behind the choice.
  pub record Accounts : Type 0 where
    pub accounts : List ClientAccount
    pub last_account_index : Option ℕ

  unfoldable pub enabled_at : List ClientAccount → ℕ → Bool
  enabled_at accounts index = elim (get_elem? accounts index) [
    | none ↦ false
    | some acc ↦ acc.enabled
  ]

  -- The loop of `nextEnabledClientIndex`, `none` if the fuel runs out.
  unfoldable pub next_loop : ℕ → List ClientAccount → ℕ → ℕ → Option (Option ℕ)
  next_loop zero accounts start index = none
  next_loop (suc fuel) accounts start index =
      let i = if leb (length accounts) (index + 1) then 0 else index + 1 in
      let rest = next_loop fuel accounts start i in
      if enabled_at accounts i then some (some i) else if i == start then some none else rest

  unfoldable pub start_index : Accounts → ℕ
  start_index m = elim m.last_account_index [ none ↦ length m.accounts - 1 | some last ↦ last ]

  -- The index, `none` for `(0, false)`.
  unfoldable pub next_enabled_client_index : Accounts → Option (Accounts × Option ℕ)
  next_enabled_client_index m =
      if length m.accounts == 0
      then some (m, none)
      else if length m.accounts == 1 && enabled_at m.accounts 0
      then some (m, some 0)
      else elim (next_loop (length m.accounts) m.accounts (start_index m) (start_index m)) [
        | none ↦ none
        | some answer ↦ elim answer [
          | none ↦ some (m, none)
          | some index ↦ some (record m { last_account_index = some index }, some index)
        ]
      ]

  abbrev pub set_enabled : Bool → ClientAccount → ClientAccount
  set_enabled b acc = record acc { enabled = b }

  -- `disableAccountSelfSync`; the index is one of the list's.
  pub disable_account : List ClientAccount → ℕ → List ClientAccount × Bool
  disable_account accounts index = elim (get_elem? accounts index) [
    | none ↦ (accounts, false)
    | some acc ↦
        if acc.enabled
        then (set accounts index (set_enabled false acc), true)
        else (accounts, false)
  ]

  -- `accountEnableSelfSync`
  pub account_enable : List ClientAccount → ℕ → List ClientAccount
  account_enable accounts index = elim (get_elem? accounts index) [
    | none ↦ accounts
    | some acc ↦ set accounts index (set_enabled true acc)
  ]

  pub length-disable_account :
      (accounts : List ClientAccount) (index : ℕ)
      → length (disable_account accounts index).0 ≡ length accounts
  unfolding disable_account
  length-disable_account accounts index = elim (Option-cases (get_elem? accounts index)) [
    | inl z ↦ ground arith
    | inr (acc, z) ↦ ground (arith, length-set accounts index (set_enabled false acc))
  ]

  pub length-account_enable :
      (accounts : List ClientAccount) (index : ℕ)
      → length (account_enable accounts index) ≡ length accounts
  unfolding account_enable
  length-account_enable accounts index = elim (Option-cases (get_elem? accounts index)) [
    | inl z ↦ ground arith
    | inr (acc, z) ↦ ground (arith, length-set accounts index (set_enabled true acc))
  ]

  pub enabled_at-append :
      (accounts : List ClientAccount) (acc : ClientAccount) (i : ℕ)
      → ((j : ℕ) → enabled_at accounts j ≡ false)
      → acc.enabled ≡ false
      → enabled_at (accounts ++ acc ∷ []) i ≡ false
  unfolding enabled_at
  enabled_at-append [] acc zero d e = e
  enabled_at-append [] acc (suc i) d e = refl
  enabled_at-append (x ∷ accounts) acc zero d e = d 0
  enabled_at-append (x ∷ accounts) acc (suc i) d e =
      enabled_at-append accounts acc i (λ j. d (suc j)) e

  pub enabled_at-set :
      (accounts : List ClientAccount) (i : ℕ) (acc : ClientAccount)
      → i < length accounts
      → enabled_at (set accounts i acc) i ≡ acc.enabled
  unfolding enabled_at
  enabled_at-set accounts i acc h = ground (arith, get_elem?-set accounts i acc h)

  pub disable_account_lem :
      (accounts : List ClientAccount) (i : ℕ) (acc : ClientAccount)
      → get_elem? accounts i ≡ some acc
      → acc.enabled ≡ true
      → disable_account accounts i ≡ (set accounts i (set_enabled false acc), true)
  unfolding disable_account
  disable_account_lem accounts i acc h e = ground arith
