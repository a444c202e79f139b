-- ===== src/Cache/Lru/Steps.antt =====
-- Histories of internal/cache/value_lru.go: calls, and the goroutines that they start, in any order.
use lets_proxy.Base.{
  ℕ, suc, ◌+◌, ◌≤◌, ◌<◌, ◌≡◌, refl, sym, ◌∙◌, subst, some-injective, none, some, Str, arith, length,
  inl, inr, if◌then◌else◌, str_eq, str_eq_iff, ok, err, cache_miss, Result, Option, Option-cases,
}
use lets_proxy.Base.Dict.{lookup, insert, lookup-insert, lookup-remove}
use lets_proxy.Cache.Lru.{Lru, Item, get, put, delete, clean, renumber_time, time}
use lets_proxy.Cache.Lru.Invariant.{
  Inv, get-Inv, put-Inv, delete-Inv, clean-Inv, renumber_time-Inv, time_frame,
}

module _ {ℓ} {V : Type ℓ} where
  -- A call, or a started goroutine that gets the lock.
  pub data Step (c : Lru V) : Lru V → Type ℓ where
    gets : (key : Str) → Step c (get c key).0
    puts : (key : Str) (value : V) → Step c (put c key value)
    deletes : (key : Str) → Step c (delete c key)
    cleans :
        (n : ℕ) {c' : Lru V}
        → c.cleaners ≡ suc n
        → clean (record c { cleaners = n }) ≡ some c'
        → Step c c'
    renumbers :
        (n : ℕ) → c.renumberers ≡ suc n → Step c (renumber_time (record c { renumberers = n }))

  pub data Reach (c : Lru V) : Lru V → Type ℓ where
    here : Reach c c
    next : {d e : Lru V} → Reach c d → Step d e → Reach c e

  Step-Inv : {c d : Lru V} → Inv c → Step c d → Inv d
  Step-Inv {c} v (gets key) = get-Inv c key v
  Step-Inv {c} v (puts key value) = put-Inv c key value v
  Step-Inv {c} v (deletes key) = delete-Inv c key v
  Step-Inv {c} v (cleans n e run) =
      let (c', run', v') = clean-Inv c n e v in subst Inv (some-injective _ _ (sym run' ∙ run)) v'
  Step-Inv {c} v (renumbers n e) = renumber_time-Inv c n v

  Reach-Inv : {c d : Lru V} → Inv c → Reach c d → Inv d
  Reach-Inv v here = v
  Reach-Inv v (next r s) = Step-Inv (Reach-Inv v r) s

  abbrev pub SameConfig : Lru V → Lru V → Type 0
  SameConfig c d = (d.max_size ≡ c.max_size) × (d.clean_count ≡ c.clean_count)

  get-SameConfig : (c : Lru V) (key : Str) → SameConfig c (get c key).0
  unfolding get
  get-SameConfig c key = ground (arith, time_frame c)

  pub put-SameConfig : (c : Lru V) (key : Str) (value : V) → SameConfig c (put c key value)
  unfolding put
  put-SameConfig c key value = ground (arith, time_frame c)

  clean-SameConfig : (c d : Lru V) → clean c ≡ some d → SameConfig c d
  unfolding clean
  clean-SameConfig c d e = ground arith

  Step-SameConfig : {c d : Lru V} → Step c d → SameConfig c d
  unfolding delete renumber_time
  Step-SameConfig {c} (gets key) = get-SameConfig c key
  Step-SameConfig {c} (puts key value) = put-SameConfig c key value
  Step-SameConfig (deletes key) = (refl, refl)
  Step-SameConfig {c} {d} (cleans n e run) = clean-SameConfig (record c { cleaners = n }) d run
  Step-SameConfig (renumbers n e) = (refl, refl)

  Reach-SameConfig : {c d : Lru V} → Reach c d → SameConfig c d
  Reach-SameConfig here = (refl, refl)
  Reach-SameConfig (next r s) =
      let (p, q) = Reach-SameConfig r in let (p', q') = Step-SameConfig s in (p' ∙ p, q' ∙ q)

  -- For a cache in a valid state with cleaning on, after any
  -- calls and any of the started goroutines, in any order: the number of items exceeds `MaxSize` by
  -- no more than the number of cleaners that have not run, and each of these can run without a
  -- panic.
  pub reached_bounded :
      (c d : Lru V)
      → Inv c
      → 0 < c.clean_count
      → Reach c d
      → (length d.items ≤ c.max_size + d.cleaners)
        × ((n : ℕ)
            → d.cleaners ≡ suc n
            → (e : Lru V) × (clean (record d { cleaners = n }) ≡ some e) × Inv e)
  reached_bounded c d v on r =
      let v' = Reach-Inv v r in
      let same = Reach-SameConfig r in (ground (arith, v'.bounded), λ n e. clean-Inv d n e v')

  abbrev answer : Option (Item V) → Result V
  answer none = err cache_miss
  answer (some resp) = ok resp.value

  get-answer : (c : Lru V) (k : Str) → (get c k).1 ≡ answer (lookup k c.items)
  unfolding get
  get-answer c k = ground arith

  pub items-put :
      (c : Lru V) (k : Str) (v : V)
      → (put c k v).items
        ≡ insert k (record { key = k; value = v; last_used_time = (time c).1 }) c.items
  unfolding put
  items-put c k v = ground (arith, time_frame c)

  answer-get :
      (c : Lru V) (k j : Str) → answer (lookup j (get c k).0.items) ≡ answer (lookup j c.items)
  unfolding get
  answer-get c k j = elim (Option-cases (lookup k c.items)) [
    | inl miss ↦ rw (miss, get)
    | inr (item, hit) ↦
        let fresh = record item { last_used_time = (time c).1 } in
        let (same, _, _, _, _, _) = time_frame c in
        rw (hit, get, same, lookup-insert) (ground (arith, str_eq_iff k j))
  ]

  -- What a `Get` answers after each call: a `Put` sets its key, a `Delete` removes its key, and
  -- neither they nor a `Get` change the answer for any other key.
  pub get_after_call :
      (c : Lru V) (k j : Str) (v : V)
      → ((get (put c k v) j).1 ≡ (if str_eq k j then ok v else (get c j).1))
        × ((get (delete c k) j).1 ≡ (if str_eq k j then err cache_miss else (get c j).1))
        × ((get (get c k).0 j).1 ≡ (get c j).1)
  unfolding delete
  get_after_call c k j v = (
    rw (get-answer, get-answer, items-put, lookup-insert) (ground arith),
    rw (get-answer, get-answer, lookup-remove) (ground arith),
    rw (get-answer, get-answer) (answer-get c k j),
  )
