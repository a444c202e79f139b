-- ===== src/Cache/Lru/Renumber.antt =====
-- `renumberTime` of internal/cache/value_lru.go: the new times keep the order of the old ones.
use lets_proxy.Base.{
  ℕ, ◌+◌, ◌≤◌, ◌<◌, ◌≡◌, ◌∙◌, List, [], ◌∷◌, some, Str, arith, length, str_eq, Bool-cases, inl, inr,
}
use lets_proxy.Base.Dict.{lookup, lookup-All, Distinct}
use lets_proxy.Cache.Lru.{Lru, Item, renumber_from, renumber_time, get_sorted_items}
use lets_proxy.Cache.Lru.Sorting.{
  IsSorted, UsedAfter, get_sorted_items-IsSorted, lookup-get_sorted_items, length-get_sorted_items,
}

module _ {ℓ} {V : Type ℓ} where
  -- An item keeps its value, and its new time lies in the range of the indices.
  renumber_from-lookup :
      (i : ℕ) (k : Str) (a : Item V) (xs : List (Str × Item V))
      → lookup k xs ≡ some a
      → (t : ℕ) × (lookup k (renumber_from i xs) ≡ some (record a { last_used_time = t }))
        × (i ≤ t)
        × (t < i + length xs)
  unfolding renumber_from lookup
  renumber_from-lookup i k a [] e = cc
  renumber_from-lookup i k a ((j, x) ∷ xs) e = elim (Bool-cases (str_eq j k)) [
    | inl same ↦ let q : x ≡ a = ground arith in (i, rw (same, q), omega arith, omega arith)
    | inr other ↦
        let (t, f, l, u) = renumber_from-lookup (i + 1) k a xs (ground arith) in
        (t, rw other f, omega arith, omega arith)
  ]

  renumber_from-order :
      (i : ℕ) (k j : Str) (a b : Item V) (xs : List (Str × Item V))
      → IsSorted xs
      → lookup k xs ≡ some a
      → lookup j xs ≡ some b
      → a.last_used_time < b.last_used_time
      → (s t : ℕ) × (lookup k (renumber_from i xs) ≡ some (record a { last_used_time = s }))
        × (lookup j (renumber_from i xs) ≡ some (record b { last_used_time = t }))
        × (s < t)
  unfolding renumber_from lookup
  renumber_from-order i k j a b [] s e f lt = cc
  renumber_from-order i k j a b ((l, x) ∷ xs) (p, s) e f lt = elim (Bool-cases (str_eq l k)) [
    | inl at_k ↦
        let q : x ≡ a = ground arith in
        elim (Bool-cases (str_eq l j)) [
          | inl at_j ↦ absurd (let r : x ≡ b = ground arith in ground arith)
          | inr past_j ↦
              let (t, g, lo, hi) = renumber_from-lookup (i + 1) j b xs (ground arith) in
              (i, t, rw (at_k, q), rw past_j g, omega arith)
        ]
    | inr past_k ↦ elim (Bool-cases (str_eq l j)) [
      | inl at_j ↦
          let r : x ≡ b = ground arith in
          let le = lookup-All (UsedAfter x.last_used_time) k a xs p (ground arith) in
          absurd (ground arith)
      | inr past_j ↦
          let (u, t, g, h, lt') =
            renumber_from-order (i + 1) k j a b xs s (ground arith) (ground arith) lt in
          (u, t, rw past_k g, rw past_j h, lt')
    ]
  ]

  -- After `renumberTime` every item has its value, times are below the number of items, and of two
  -- items the one used earlier still has the smaller time.
  pub renumber_time-order :
      (c : Lru V) (k j : Str) (a b : Item V)
      → Distinct c.items
      → lookup k c.items ≡ some a
      → lookup j c.items ≡ some b
      → a.last_used_time < b.last_used_time
      → (s t : ℕ) × (lookup k (renumber_time c).items ≡ some (record a { last_used_time = s }))
        × (lookup j (renumber_time c).items ≡ some (record b { last_used_time = t }))
        × (s < t)
        × (t < length c.items)
  unfolding renumber_time
  renumber_time-order c k j a b d e f lt =
      let sorted = get_sorted_items c.items in
      let e' = lookup-get_sorted_items k c.items d ∙ e in
      let f' = lookup-get_sorted_items j c.items d ∙ f in
      let (s, t, g, h, lt') =
        renumber_from-order 0 k j a b sorted (get_sorted_items-IsSorted c.items) e' f' lt in
      let (u, h', lo, hi) = renumber_from-lookup 0 j b sorted f' in
      (s, t, g, h, lt', ground (arith, length-get_sorted_items c.items))
