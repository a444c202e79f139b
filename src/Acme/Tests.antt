-- ===== src/Acme/Tests.antt =====
-- internal/acme_client_manager on concrete accounts.
use lets_proxy.Base.{
  pos, suc, zero, ℕ, ◌≡◌, refl, [], ◌∷◌, Option, none, some, Bool, true, false, Str, text, Result,
  ok, err, message, arith,
}
use lets_proxy.Cache.Memory.{memory_bytes, new_memory_cache}
use lets_proxy.Acme.State.{AcmeManagerState, migrate}
use lets_proxy.Acme.State.Migration.{migrate_total, Migrated}
use lets_proxy.Acme.Accounts.{
  ClientAccount, Accounts, next_loop, start_index, enabled_at, next_enabled_client_index,
}
use lets_proxy.Acme.Accounts.Rotation.{IsInRange, TakesTurn, next_enabled_client_index-Chosen}
use lets_proxy.Acme.Manager.{
  Settings, AcmeManager, Outcome, failed, panicked, new_manager, get_client, disable, renew,
}
use lets_proxy.Acme.Manager.Loading.{IsEnabledClient}
use lets_proxy.Acme.Manager.Returned.{fresh, reached_get_client}
use lets_proxy.Acme.Manager.Faults.{IsExhausted, failed_registration_panics, renewal_enables}

-- Keys and accounts are numbers.
abbrev account : ℕ → Bool → ClientAccount ℕ ℕ
account key enabled = record {
  client = some (record { key = some key });
  account = some key;
  enabled = enabled;
}

abbrev three : Accounts ℕ ℕ
three = record {
  accounts = account 1 true ∷ account 2 false ∷ account 3 true ∷ [];
  last_account_index = some 0;
}

-- Behind the first account the second is disabled: the third is next.
third_is_next :
    next_enabled_client_index ℕ ℕ three
    ≡ some (record three { last_account_index = some 2 }, some 2)
unfolding next_enabled_client_index next_loop start_index enabled_at
third_is_next = refl

three-IsInRange : IsInRange ℕ ℕ three
three-IsInRange last e = ground (arith, e)

next_enabled_client_index-Chosen_example : TakesTurn ℕ ℕ three
next_enabled_client_index-Chosen_example =
    next_enabled_client_index-Chosen ℕ ℕ three three-IsInRange

abbrev old_state : AcmeManagerState ℕ ℕ
old_state = record {
  accounts = [];
  version = pos 0;
  private_key_deprecated = some 7;
  acme_account_deprecated = some 8;
}

migrate_total_example :
    (outcome : AcmeManagerState ℕ ℕ × Result Bool) × (migrate ℕ ℕ old_state ≡ some outcome)
    × Migrated ℕ ℕ old_state outcome
migrate_total_example = migrate_total ℕ ℕ old_state

abbrev no_state : Str → Option (AcmeManagerState ℕ ℕ)
no_state _ = none

abbrev encode : AcmeManagerState ℕ ℕ → Str
encode _ = text "{}"

abbrev no_cache : Settings
no_cache = record { has_cache = false; ignore_cache_load = false; state_name = text "state" }

abbrev started_manager : AcmeManager ℕ ℕ memory_bytes
started_manager = new_manager ℕ ℕ memory_bytes new_memory_cache

reached_get_client_example :
    (m' : AcmeManager ℕ ℕ memory_bytes) × (o : Outcome ℕ ℕ memory_bytes) × (get_client ℕ ℕ
        memory_bytes no_state encode no_cache started_manager false
        (ok (5, 6))
      ≡ some (m', o))
    × IsEnabledClient m' o
reached_get_client_example =
    reached_get_client ℕ ℕ memory_bytes no_state encode no_cache new_memory_cache started_manager
      false (ok (5, 6)) fresh

-- The one account is disabled.
abbrev one_disabled : AcmeManager ℕ ℕ memory_bytes
one_disabled = record {
  store = new_memory_cache;
  list = record { accounts = account 1 false ∷ []; last_account_index = some 0 };
  state_loaded = true;
  closed = false;
  renewals = [];
  timers = [];
}

one_disabled-off : (i : ℕ) → enabled_at ℕ ℕ one_disabled.list.accounts i ≡ false
unfolding enabled_at
one_disabled-off zero = refl
one_disabled-off (suc i) = refl

one_disabled-IsExhausted : IsExhausted ℕ ℕ memory_bytes no_state encode no_cache one_disabled
one_disabled-IsExhausted = (refl, refl, (λ last e. ground (arith, e)), one_disabled-off)

failed_registration_panics_example :
    (m1 : AcmeManager ℕ ℕ memory_bytes) × (get_client ℕ ℕ memory_bytes no_state encode no_cache
        one_disabled false
        (err (message (text "rate limited")))
      ≡ some (m1, failed (message (text "rate limited"))))
    × (m2 : AcmeManager ℕ ℕ memory_bytes) × (get_client ℕ ℕ memory_bytes no_state encode no_cache m1
          false
          (ok (5, 6))
        ≡ some (m2, panicked))
failed_registration_panics_example =
    failed_registration_panics ℕ ℕ memory_bytes no_state encode no_cache one_disabled
      (message (text "rate limited")) (5, 6) one_disabled-IsExhausted

abbrev one_enabled : AcmeManager ℕ ℕ memory_bytes
one_enabled = record one_disabled {
  list = record { accounts = account 1 true ∷ []; last_account_index = none };
}

renewal_enables_example :
    (enabled_at ℕ ℕ (disable ℕ ℕ memory_bytes one_enabled 0).list.accounts 0 ≡ false)
    × (enabled_at ℕ ℕ
          (renew ℕ ℕ memory_bytes
            (disable ℕ ℕ memory_bytes one_enabled 0)
            0
            0
            (account 1 true)
            (some (ok 9))).list.accounts
          0
        ≡ true)
renewal_enables_example =
    renewal_enables ℕ ℕ memory_bytes one_enabled 0 0 (account 1 true) (some (ok 9)) refl refl
