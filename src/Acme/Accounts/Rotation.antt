-- ===== src/Acme/Accounts/Rotation.antt =====
-- The choice of the next account in internal/acme_client_manager/client_manager.go takes turns.
use lets_proxy.Base.{
  ℕ, ◌+◌, ◌<◌, ◌≡◌, refl, inl, inr, List, Option, none, some, true, false, ◌==◌, leb, leb_iff,
  ==_iff, Option-cases, subst, some-injective, leb-eq-false, length, ◌&&◌, arith, Bool-cases,
}
use lets_proxy.Acme.Accounts.{
  ClientAccount, Accounts, enabled_at, next_loop, start_index, next_enabled_client_index,
}
use lets_proxy.Acme.Accounts.Loop.{wrap, Chosen, enabled_at-over, next_loop-Chosen}

module _ (Key Account : Type 0) where
  -- The last index is one of the list's.
  abbrev pub IsInRange : Accounts Key Account → Type 0
  IsInRange m = (last : ℕ) → m.last_account_index ≡ some last → last < length m.accounts

  single :
      (accounts : List (ClientAccount Key Account))
      → length accounts ≡ 1
      → enabled_at Key Account accounts 0 ≡ true
      → (last : ℕ) → last < 1
      → Chosen Key Account accounts last (some 0)
  single accounts e t last h =
      (1, omega arith, omega arith, ground arith, t, λ j a b. absurd (omega arith))

  start_index-lt :
      (m : Accounts Key Account)
      → IsInRange m
      → 0 < length m.accounts
      → start_index Key Account m < length m.accounts
  unfolding start_index
  start_index-lt m h p = elim (Option-cases m.last_account_index) [
    | inl e ↦ ground arith
    | inr (last, e) ↦ ground (arith, h last e)
  ]

  enabled-lt :
      (accounts : List (ClientAccount Key Account)) (i : ℕ)
      → enabled_at Key Account accounts i ≡ true
      → i < length accounts
  enabled-lt accounts i t = elim (Bool-cases (leb (length accounts) i)) [
    | inl u ↦ ground (arith, leb_iff (length accounts) i, enabled_at-over Key Account accounts i)
    | inr f ↦ leb-eq-false (length accounts) i f
  ]

  next_of :
      (m : Accounts Key Account) (answer : Option ℕ)
      → (length m.accounts == 0) ≡ false
      → (length m.accounts == 1 && enabled_at Key Account m.accounts 0) ≡ false
      → next_loop Key Account
          (length m.accounts)
          m.accounts
          (start_index Key Account m)
          (start_index Key Account m)
        ≡ some answer
      → next_enabled_client_index Key Account m
        ≡ some
            (elim answer [ none ↦ m | some i ↦ record m { last_account_index = some i } ], answer)
  unfolding next_enabled_client_index
  next_of m none a b e = ground arith
  next_of m (some i) a b e = ground arith

  -- The outcome of a choice: the accounts stay, the last index is again one of theirs.
  abbrev pub TakesTurn : Accounts Key Account → Type 0
  TakesTurn m =
      (m' : Accounts Key Account) × (answer : Option ℕ) × (next_enabled_client_index Key Account m
        ≡ some (m', answer))
      × (m'.accounts ≡ m.accounts)
      × IsInRange m'
      × Chosen Key Account m.accounts (start_index Key Account m) answer

  of_loop :
      (m : Accounts Key Account) (answer : Option ℕ)
      → IsInRange m
      → (length m.accounts == 0) ≡ false
      → (length m.accounts == 1 && enabled_at Key Account m.accounts 0) ≡ false
      → next_loop Key Account
          (length m.accounts)
          m.accounts
          (start_index Key Account m)
          (start_index Key Account m)
        ≡ some answer
      → Chosen Key Account m.accounts (start_index Key Account m) answer
      → TakesTurn m
  of_loop m none r a b e c = (m, none, next_of m none a b e, refl, r, c)
  of_loop m (some i) r a b e c =
      let (k, c1, c2, c3, t, c5) = c in
      (
        record m { last_account_index = some i },
        some i,
        next_of m (some i) a b e,
        refl,
        (λ last q.
            subst (λ x. x < length m.accounts) (some-injective _ _ q) (enabled-lt m.accounts i t)),
        c,
      )

  -- `nextEnabledClientIndex` always ends. It chooses the first enabled account behind the last one it
  -- chose, going round the list, and answers that there is none only if all are disabled. The last
  -- index stays one of the list's.
  pub next_enabled_client_index-Chosen : (m : Accounts Key Account) → IsInRange m → TakesTurn m
  unfolding next_enabled_client_index
  next_enabled_client_index-Chosen m r =
      let n = length m.accounts in
      elim (Bool-cases (n == 0)) [
        | inl z ↦ (
          m,
          none,
          ground arith,
          refl,
          r,
          λ i. enabled_at-over Key Account m.accounts i (ground (arith, ==_iff n 0)),
        )
        | inr z ↦ elim (Bool-cases (n == 1 && enabled_at Key Account m.accounts 0)) [
          | inl one ↦
              let e : n ≡ 1 = ground (arith, ==_iff n 1) in
              let t : enabled_at Key Account m.accounts 0 ≡ true = ground arith in
              (
                m,
                some 0,
                ground arith,
                refl,
                r,
                single m.accounts e t (start_index Key Account m) (
                    subst (λ x. start_index Key Account m < x) e
                      (start_index-lt m r (omega (arith, e)))),
              )
          | inr many ↦
              let start = start_index Key Account m in
              let s = start_index-lt m r (ground (arith, ==_iff n 0)) in
              let (answer, e, c) =
                next_loop-Chosen Key Account n m.accounts start 0 s (omega arith) (omega arith)
                  (λ j a b. absurd (omega arith)) in
              let here : wrap n (start + 0) ≡ start = ground arith in
              of_loop m answer r z many
                (subst (λ x. next_loop Key Account n m.accounts start x ≡ some answer) here e) c
        ]
      ]
