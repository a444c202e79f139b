-- ===== src/Cache/Lru/Invariant.antt =====
-- The invariant of internal/cache/value_lru.go: every call and every goroutine keeps it.
use lets_proxy.Base.{
  ℕ, suc, ◌+◌, ◌≤◌, ◌≡◌, refl, sym, subst, ap, List, [], ◌∷◌, none, some, Str, arith, ltb, length,
  Bool-cases, Option-cases, inl, inr, ◌⊎◌, ◌%◌,
}
use lets_proxy.Base.Dict.{
  lookup, insert, lookup-All, All-insert, All-remove, Distinct, Distinct-insert, Distinct-remove,
  length-insert-le, length-insert_present, length-remove-le,
}
use lets_proxy.Cache.Lru.{
  Lru, Item, time, get, put, delete, clean, renumber_time, renumber_from, new_memory_value_lru,
  u64_mod,
}
use lets_proxy.Cache.Lru.Sorting.{
  length-get_sorted_items, get_sorted_items-All, Distinct-get_sorted_items,
}
use lets_proxy.Cache.Lru.Eviction.{IsKeyed, Cleaned, kept, cleared, evicted, clean_total}

-- An item carries its own key, no key stands twice, and where cleaning is on, the cache exceeds
-- its maximum by no more items than there are cleaners waiting to run.
pub record Inv {ℓ} {V : Type ℓ} (c : Lru V) : Type ℓ where
  pub keyed : IsKeyed c.items
  pub distinct : Distinct c.items
  pub bounded : (c.clean_count ≡ 0) ⊎ (length c.items ≤ c.max_size + c.cleaners)

module _ {ℓ} {V : Type ℓ} where
  -- `time` touches nothing but the clock and the count of renumberers.
  pub time_frame :
      (c : Lru V)
      → ((time c).0.items ≡ c.items)
        × ((time c).0.max_size ≡ c.max_size)
        × ((time c).0.clean_count ≡ c.clean_count)
        × ((time c).0.cleaners ≡ c.cleaners)
        × ((time c).1 ≡ (c.last_time + 1) % u64_mod)
        × ((time c).0.last_time ≡ (c.last_time + 1) % u64_mod)
  unfolding time
  time_frame c = ground arith

  pub new-Inv : Inv (new_memory_value_lru {V = V})
  unfolding new_memory_value_lru
  new-Inv = record { keyed = tt; distinct = tt; bounded = inr (omega arith) }

  abbrev OwnKey : Str × Item V → Type 0
  OwnKey e = e.1.key ≡ e.0

  pub get-Inv : (c : Lru V) (key : Str) → Inv c → Inv (get c key).0
  unfolding get
  get-Inv c key v = elim (Option-cases (lookup key c.items)) [
    | inl miss ↦ rw (miss, get) v
    | inr (item, hit) ↦
        let (same, max, count, cleaners, _, _) = time_frame c in
        let fresh = record item { last_used_time = (time c).1 } in
        rw (hit, get)
          (record {
            keyed = rw same (
                All-insert OwnKey key fresh c.items (lookup-All OwnKey key item c.items v.keyed hit)
                  v.keyed);
            distinct = rw same (Distinct-insert key fresh c.items v.distinct);
            bounded =
                rw (same, max, count, cleaners, length-insert_present key fresh item c.items hit)
                  v.bounded;
          })
  ]

  pub put-Inv : (c : Lru V) (key : Str) (value : V) → Inv c → Inv (put c key value)
  unfolding put
  put-Inv c key value v =
      let (same, max, count, cleaners, _, _) = time_frame c in
      let fresh : Item V = record { key = key; value = value; last_used_time = (time c).1 } in
      let keyed =
        subst (λ m. IsKeyed (insert key fresh m)) (sym same)
          (All-insert OwnKey key fresh c.items refl v.keyed) in
      let distinct =
        subst (λ m. Distinct (insert key fresh m)) (sym same)
          (Distinct-insert key fresh c.items v.distinct) in
      let grown =
        subst (λ m. length (insert key fresh m) ≤ suc (length m)) (sym same)
          (length-insert-le key fresh c.items) in
      elim (Bool-cases (ltb c.max_size (length (insert key fresh (time c).0.items)))) [
        | inl over ↦
            rw (over, put) (record { keyed = keyed; distinct = distinct; bounded = ground arith })
        | inr fits ↦
            rw (fits, put) (record { keyed = keyed; distinct = distinct; bounded = ground arith })
      ]

  pub delete-Inv : (c : Lru V) (key : Str) → Inv c → Inv (delete c key)
  unfolding delete
  delete-Inv c key v = record {
    keyed = All-remove OwnKey key c.items v.keyed;
    distinct = Distinct-remove key c.items v.distinct;
    bounded = ground (arith, length-remove-le key c.items);
  }

  pub Cleaned-bound :
      (c : Lru V) (m' : List (Str × Item V))
      → Cleaned c m'
      → length m' ≤ length c.items
        × ((c.clean_count ≡ 0) ⊎ (length m' ≤ c.max_size) ⊎ (suc (length m') ≤ length c.items))
  Cleaned-bound c m' (kept (inl off) e) = (ground arith, inl off)
  Cleaned-bound c m' (kept (inr fits) e) = (ground arith, inr (inl (ground arith)))
  Cleaned-bound c m' (cleared _ _ _ e) = (ground arith, inr (inl (ground arith)))
  Cleaned-bound c m' (evicted some_off over _ len _) = (omega arith, inr (inr (omega arith)))

  -- A cleaner runs: it leaves the set of those that wait, and cleans.
  pub clean-Inv :
      (c : Lru V) (n : ℕ)
      → c.cleaners ≡ suc n
      → Inv c
      → (c' : Lru V) × (clean (record c { cleaners = n }) ≡ some c') × Inv c'
  clean-Inv c n e v =
      let (m', run, d, k, cleaned) = clean_total (record c { cleaners = n }) v.keyed v.distinct in
      (
        record c { items = m'; cleaners = n },
        run,
        record {
          keyed = k;
          distinct = d;
          bounded = ground (arith, Cleaned-bound (record c { cleaners = n }) m' cleaned);
        },
      )

  renumber_from-IsKeyed :
      (i : ℕ) (m : List (Str × Item V)) → IsKeyed m → IsKeyed (renumber_from i m)
  unfolding renumber_from
  renumber_from-IsKeyed i [] h = tt
  renumber_from-IsKeyed i (x ∷ m) (p, h) = (p, renumber_from-IsKeyed (i + 1) m h)

  length-renumber_from : (i : ℕ) (m : List (Str × Item V)) → length (renumber_from i m) ≡ length m
  unfolding renumber_from
  length-renumber_from i [] = refl
  length-renumber_from i (x ∷ m) = ap suc (length-renumber_from (i + 1) m)

  lookup-renumber_from-none :
      (i : ℕ) (k : Str) (m : List (Str × Item V))
      → lookup k m ≡ none
      → lookup k (renumber_from i m) ≡ none
  unfolding renumber_from lookup
  lookup-renumber_from-none i k [] h = refl
  lookup-renumber_from-none i k ((j, x) ∷ m) h =
      ground (arith, lookup-renumber_from-none (i + 1) k m)

  renumber_from-Distinct :
      (i : ℕ) (m : List (Str × Item V)) → Distinct m → Distinct (renumber_from i m)
  unfolding renumber_from
  renumber_from-Distinct i [] d = tt
  renumber_from-Distinct i ((j, x) ∷ m) (n, d) =
      (lookup-renumber_from-none (i + 1) j m n, renumber_from-Distinct (i + 1) m d)

  pub renumber_time-Inv :
      (c : Lru V) (n : ℕ) → Inv c → Inv (renumber_time (record c { renumberers = n }))
  unfolding renumber_time
  renumber_time-Inv c n v = record {
    keyed = renumber_from-IsKeyed 0 _ (get_sorted_items-All OwnKey c.items v.keyed);
    distinct = renumber_from-Distinct 0 _ (Distinct-get_sorted_items c.items v.distinct);
    bounded = rw (length-renumber_from, length-get_sorted_items) v.bounded;
  }
