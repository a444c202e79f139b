-- ===== src/Acme/State/Migration.antt =====
-- The migration of internal/acme_client_manager/state.go ends, and what it ends with.
use lets_proxy.Base.{
  Option, Result-cases, is_result, is_error, Option-cases, Str, Error, message, text, ◌⊎◌, inl, inr,
  ℤ, pos, negsuc, int_eq, int_eq_iff, pos-injective, increment, ◌↔◌, ◌≢◌, ap, ◌∙◌, suc, zero, ◌≡◌,
  refl, some, Bool, true, false, Result, ok, err, is_ok, arith,
}
use lets_proxy.Acme.State.{
  AcmeManagerState, load, migrate, migrate_loop, migrate_0, state_format_version,
}

module _ (Key Account : Type 0) where
  -- How a migration can end.
  abbrev pub Migrated :
      AcmeManagerState Key Account → AcmeManagerState Key Account × Result Bool → Type 0
  Migrated state outcome =
      ((is_ok outcome.1 ≡ true) ↔ ((state.version ≡ pos 0) ⊎ (state.version ≡ pos 1)))
      × (is_ok outcome.1 ≡ true
          → (outcome.0.version ≡ state_format_version)
            × (migrate Key Account outcome.0 ≡ some (outcome.0, ok false)))

  -- Neither of the versions that the migration knows.
  abbrev Other : ℤ → Type 0
  Other v = (v ≢ pos 0) × (v ≢ pos 1)

  version-migrate_0 :
      (state : AcmeManagerState Key Account)
      → (migrate_0 Key Account state).version ≡ increment state.version
  unfolding migrate_0
  version-migrate_0 state = ground arith

  migrate_1 :
      (state : AcmeManagerState Key Account)
      → state.version ≡ pos 1
      → migrate Key Account state ≡ some (state, ok false)
  unfolding migrate migrate_loop int_eq increment
  migrate_1 state e = rw (migrate, migrate_loop, e, int_eq) refl

  migrate_from_0 :
      (state : AcmeManagerState Key Account)
      → state.version ≡ pos 0
      → migrate Key Account state ≡ some (migrate_0 Key Account state, ok true)
  unfolding migrate migrate_loop int_eq increment
  migrate_from_0 state e =
      let v : (migrate_0 Key Account state).version ≡ pos 1 =
        version-migrate_0 state ∙ ap increment e in
      let old : int_eq state.version (pos 0) ≡ true = ap (λ x. int_eq x (pos 0)) e in
      let zero_ : int_eq (migrate_0 Key Account state).version (pos 0) ≡ false =
        ap (λ x. int_eq x (pos 0)) v in
      let one_ : int_eq (migrate_0 Key Account state).version (pos 1) ≡ true =
        ap (λ x. int_eq x (pos 1)) v in
      let format : int_eq (pos 1) (migrate_0 Key Account state).version ≡ true =
        ap (int_eq (pos 1)) v in
      ground (arith, old, zero_, one_, format)

  migrate-Other :
      (state : AcmeManagerState Key Account)
      → Other state.version
      → (e : Error) × (migrate Key Account state ≡ some (state, err e))
  unfolding migrate migrate_loop int_eq increment
  migrate-Other state h = (
    message (text "unexpected state version"),
    ground (arith, h, int_eq_iff state.version (pos 0), int_eq_iff state.version (pos 1)),
  )

  -- The migration of a state always ends. It fails exactly for a version that is neither 0
  -- nor 1, a negative one included. If it goes well,
  -- the state has the current version, and migrating it again changes nothing and reports so.
  pub migrate_total :
      (state : AcmeManagerState Key Account)
      → (outcome : AcmeManagerState Key Account × Result Bool) × (migrate Key Account state
          ≡ some outcome)
        × Migrated state outcome
  unfolding increment
  migrate_total state = elim (by_version state.version) [
    | inl e ↦
        let m = migrate_0 Key Account state in
        let v : m.version ≡ pos 1 = version-migrate_0 state ∙ ap increment e in
        ((m, ok true), migrate_from_0 state e, (ground (arith, e), λ _. (v, migrate_1 m v)))
    | inr (inl e) ↦
        ((state, ok false), migrate_1 state e, (ground (arith, e), λ _. (e, migrate_1 state e)))
    | inr (inr h) ↦
        let (e, q) = migrate-Other state h in
        ((state, err e), q, (ground (arith, h), λ w. absurd (ground (arith, w))))
  ]
    where
      by_version : (v : ℤ) → (v ≡ pos 0) ⊎ (v ≡ pos 1) ⊎ Other v
      by_version (pos zero) = inl refl
      by_version (pos (suc zero)) = inr (inl refl)
      by_version (pos (suc (suc v))) = inr (
          inr (
            (λ e. absurd (omega (arith, pos-injective e))),
            λ e. absurd (omega (arith, pos-injective e)),
          ))
      by_version (negsuc v) = inr (inr ((λ e. cc), λ e. cc))

  -- A load always ends.
  pub load_total :
      (unmarshal : Str → Option (AcmeManagerState Key Account)) (content : Str)
      → (r : Result (AcmeManagerState Key Account)) × (load Key Account unmarshal content ≡ some r)
  unfolding load
  load_total unmarshal content = elim (Option-cases (unmarshal content)) [
    | inl e ↦ (err (message (text "failed to unmarshal acme manager state")), ground arith)
    | inr (state, e) ↦
        let (outcome, q, _) = migrate_total state in
        elim (Result-cases outcome.1) [
          | is_result b h ↦ (ok outcome.0, ground (arith, q))
          | is_error x h ↦ (err x, ground (arith, q))
        ]
  ]
