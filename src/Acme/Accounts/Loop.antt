-- ===== src/Acme/Accounts/Loop.antt =====
-- internal/acme_client_manager/client_manager.go: the loop that looks for the next enabled account.
use lets_proxy.Base.{
  get_elem?, ℕ, zero, suc, ◌+◌, ◌-◌, ◌≤◌, ◌<◌, ◌≡◌, refl, sym, inl, inr, List, [], ◌∷◌, Option,
  none, some, true, false, ◌==◌, leb, leb_iff, ◌↔◌, Option-cases, subst, if◌then◌else◌, length,
  arith, Bool-cases,
}
use lets_proxy.Acme.Accounts.{ClientAccount, enabled_at, next_loop}

-- An index that may have run over the end by less than a round.
abbrev pub wrap : ℕ → ℕ → ℕ
wrap n i = if leb n i then i - n else i

module _ (Key Account : Type 0) where
  -- The account `k` places behind the start is chosen: the first enabled one. Or all are disabled.
  abbrev pub Chosen : List (ClientAccount Key Account) → ℕ → Option ℕ → Type 0
  Chosen accounts start none = (i : ℕ) → enabled_at Key Account accounts i ≡ false
  Chosen accounts start (some i) =
      (k : ℕ) × (1 ≤ k)
      × (k ≤ length accounts)
      × (i ≡ wrap (length accounts) (start + k))
      × (enabled_at Key Account accounts i ≡ true)
      × ((j : ℕ)
          → 1 ≤ j
          → j < k
          → enabled_at Key Account accounts (wrap (length accounts) (start + j)) ≡ false)

  pub enabled_at-over :
      (accounts : List (ClientAccount Key Account)) (i : ℕ)
      → length accounts ≤ i
      → enabled_at Key Account accounts i ≡ false
  unfolding enabled_at
  enabled_at-over [] i h = refl
  enabled_at-over (a ∷ rest) zero h = absurd (omega arith)
  enabled_at-over (a ∷ rest) (suc i) h = enabled_at-over rest i (omega arith)

  pub enabled_account :
      (accounts : List (ClientAccount Key Account)) (i : ℕ)
      → enabled_at Key Account accounts i ≡ true
      → (acc : ClientAccount Key Account) × (get_elem? accounts i ≡ some acc) × (acc.enabled ≡ true)
  unfolding enabled_at
  enabled_account accounts i t = elim (Option-cases (get_elem? accounts i)) [
    | inl z ↦ absurd (ground arith)
    | inr (acc, z) ↦ (acc, z, ground arith)
  ]

  abbrev Passed : List (ClientAccount Key Account) → ℕ → ℕ → Type 0
  Passed accounts start k =
      (j : ℕ)
      → 1 ≤ j
      → j ≤ k
      → enabled_at Key Account accounts (wrap (length accounts) (start + j)) ≡ false

  all-Passed :
      (accounts : List (ClientAccount Key Account)) (start : ℕ)
      → start < length accounts
      → Passed accounts start (length accounts)
      → (i : ℕ) → enabled_at Key Account accounts i ≡ false
  all-Passed accounts start h p i = elim (Bool-cases (leb (length accounts) i)) [
    | inl t ↦ enabled_at-over accounts i (ground (arith, leb_iff (length accounts) i))
    | inr f ↦ elim (Bool-cases (leb i start)) [
      | inl u ↦
          placed (i + length accounts - start) (ground (arith, leb_iff i start))
            (ground (arith, leb_iff i start)) (ground (arith, leb_iff i start))
      | inr v ↦
          placed (i - start) (ground (arith, leb_iff i start))
            (ground (arith, leb_iff i start, leb_iff (length accounts) i))
            (ground (arith, leb_iff i start))
    ]
  ]
    where
      placed :
          (k : ℕ)
          → 1 ≤ k
          → k ≤ length accounts
          → wrap (length accounts) (start + k) ≡ i
          → enabled_at Key Account accounts i ≡ false
      placed k a b e = rw (sym e) (p k a b)

  wrap_step :
      (n start k : ℕ)
      → start < n
      → k < n
      → (if leb n (wrap n (start + k) + 1) then 0 else wrap n (start + k) + 1)
        ≡ wrap n (start + suc k)
  wrap_step n start k s h = ground arith

  wrap_round :
      (n start k : ℕ) → start < n → k < n → ((wrap n (start + suc k) == start) ≡ true) ↔ (suc k ≡ n)
  wrap_round n start k s h = ground arith

  Passed-suc :
      (accounts : List (ClientAccount Key Account)) (start k : ℕ)
      → Passed accounts start k
      → enabled_at Key Account accounts (wrap (length accounts) (start + suc k)) ≡ false
      → Passed accounts start (suc k)
  Passed-suc accounts start k p e j a b = elim (Bool-cases (leb j k)) [
    | inl t ↦ p j a (ground (arith, leb_iff j k))
    | inr f ↦ let same : suc k ≡ j = ground (arith, leb_iff j k) in rw (sym same) e
  ]

  -- One turn of the loop.
  next_loop-step :
      (fuel : ℕ) (accounts : List (ClientAccount Key Account)) (start index i : ℕ)
      → (if leb (length accounts) (index + 1) then 0 else index + 1) ≡ i
      → next_loop Key Account (suc fuel) accounts start index ≡ (
          if enabled_at Key Account accounts i
          then some (some i)
          else if i == start
          then some none
          else next_loop Key Account fuel accounts start i)
  unfolding next_loop
  next_loop-step fuel accounts start index i e = rw e refl

  pub next_loop-Chosen :
      (fuel : ℕ) (accounts : List (ClientAccount Key Account)) (start k : ℕ)
      → start < length accounts
      → k < length accounts
      → length accounts ≤ fuel + k
      → Passed accounts start k
      → (answer : Option ℕ) × (next_loop Key Account fuel accounts start
            (wrap (length accounts) (start + k))
          ≡ some answer)
        × Chosen accounts start answer
  next_loop-Chosen zero accounts start k s h f p = absurd (omega arith)
  next_loop-Chosen (suc fuel) accounts start k s h f p =
      let n = length accounts in
      let i = wrap n (start + suc k) in
      let step =
        next_loop-step fuel accounts start (wrap n (start + k)) i (wrap_step n start k s h) in
      elim (Bool-cases (enabled_at Key Account accounts i)) [
        | inl t ↦ (
          some i,
          ground (arith, step),
          (suc k, omega arith, omega arith, refl, t, λ j a b. p j a (omega arith)),
        )
        | inr q ↦ elim (Bool-cases (i == start)) [
          | inl u ↦
              let full : suc k ≡ n = ground (arith, wrap_round n start k s h) in
              (
                none,
                ground (arith, step),
                all-Passed accounts start s
                    (subst (Passed accounts start) full (Passed-suc accounts start k p q)),
              )
          | inr v ↦
              let more : suc k < n = ground (arith, wrap_round n start k s h) in
              let (answer, e, c) =
                next_loop-Chosen fuel accounts start (suc k) s more (omega arith)
                  (Passed-suc accounts start k p q) in
              (answer, ground (arith, step, e), c)
        ]
      ]
