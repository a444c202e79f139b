-- ===== src/Acme/State.antt =====
-- internal/acme_client_manager/state.go: the accounts as they are stored, and the migration of the
-- older format. The RSA keys, the accounts of package acme and the JSON codec are parameters; a
-- pointer is an `Option`.
pub mod Migration
use lets_proxy.Base.{
  ℕ, zero, suc, ◌&&◌, List, [], ◌∷◌, Option, none, some, Bool, true, false, ℤ, pos, int_eq,
  increment, not, Str, text, Error, message, Result, ok, err, if◌then◌else◌, is_some, is_ok, ◌>>=◌,
  ◌>>◌, fail_if,
}

abbrev pub state_format_version : ℤ
state_format_version = pos 1

module _ (Key Account : Type 0) where
  pub record AcmeAccountState : Type 0 where
    pub private_key : Option Key
    pub acme_account : Option Account

  pub record AcmeManagerState : Type 0 where
    pub accounts : List AcmeAccountState
    pub version : ℤ
    pub private_key_deprecated : Option Key
    pub acme_account_deprecated : Option Account

  -- `case 0` of the `switch` of `migrate`.
  pub migrate_0 : AcmeManagerState → AcmeManagerState
  migrate_0 state =
      record (if is_some state.acme_account_deprecated && is_some state.private_key_deprecated
        then record state {
          accounts =
              record {
                private_key = state.private_key_deprecated;
                acme_account = state.acme_account_deprecated;
              }
              ∷ [];
        }
        else state) { version = increment state.version }

  -- The loop of `migrate`; `none` if the fuel runs out. A state of another version is left as it is.
  pub migrate_loop : ℕ → Bool → AcmeManagerState → Option (AcmeManagerState × Result Bool)
  migrate_loop zero has_migrations state = none
  migrate_loop (suc fuel) has_migrations state =
      let rest = migrate_loop fuel true (migrate_0 state) in
      if int_eq state.version (pos 0)
      then rest
      else if int_eq state.version (pos 1)
      then if not (int_eq state_format_version state.version)
        then some (state, err (message (text "internal format version error")))
        else some (state, ok has_migrations)
      else some (state, err (message (text "unexpected state version")))

  pub migrate : AcmeManagerState → Option (AcmeManagerState × Result Bool)
  migrate state = migrate_loop 2 false state

  -- `Load` into a new state; `unmarshal` is `json.Unmarshal`. `none` only if the migration's fuel
  -- runs out.
  pub load : (Str → Option AcmeManagerState) → Str → Option (Result AcmeManagerState)
  load unmarshal content = elim (unmarshal content) [
    | none ↦ some (err (message (text "failed to unmarshal acme manager state")))
    | some state ↦ elim (migrate state) [
      | none ↦ none
      | some outcome ↦ elim outcome.1 [ ok _ ↦ some (ok outcome.0) | err e ↦ some (err e) ]
    ]
  ]
