-- ===== src/Cache/Lru/Eviction.antt =====
-- `clean` of internal/cache/value_lru.go: what an overfull cache drops, and what it keeps.
use lets_proxy.Base.{
  ap, ℕ, zero, suc, ◌+◌, ◌≤◌, ◌<◌, ◌≡◌, refl, sym, List, [], ◌∷◌, none, some, Str, arith, leb, ◌==◌,
  length, All, take, str_eq_iff, Bool-cases, unless, unless-eq-none, unless-eq-some, some-injective,
  inl, inr, leb_iff, ==_iff, ◌⊎◌, ◌∙◌,
}
use lets_proxy.Base.Dict.{
  lookup, remove, All-remove, Distinct, Distinct-remove, lookup-remove, length-remove,
}
use lets_proxy.Cache.Lru.{Lru, Item, get_sorted_items, delete_first, clean}
use lets_proxy.Cache.Lru.Sorting.{
  get_sorted_items-IsSorted, get_sorted_items-All, length-get_sorted_items, lookup-get_sorted_items,
  Distinct-get_sorted_items, IsSorted-take-drop, lookup-drop, lookup-take,
}

module _ {ℓ} {V : Type ℓ} where
  abbrev pub IsKeyed : List (Str × Item V) → Type 0
  IsKeyed = All (λ e. e.1.key ≡ e.0)

  -- Every key of the first list is a key of the second.
  abbrev Within : List (Str × Item V) → List (Str × Item V) → Type ℓ
  Within xs m = All (λ e. (v : Item V) × (lookup e.0 m ≡ some v)) xs

  Within-remove :
      (k : Str) (xs m : List (Str × Item V))
      → lookup k xs ≡ none
      → Within xs m
      → Within xs (remove k m)
  unfolding lookup
  Within-remove k [] m n h = tt
  Within-remove k ((j, w) ∷ xs) m n ((v, e), h) = (
    (v, ground (arith, lookup-remove k j m, str_eq_iff k j, str_eq_iff j k)),
    Within-remove k xs m (ground arith) h,
  )

  -- The loop of `clean` deletes the first `n` keys of the slice, and runs in bounds.
  delete_first_lem :
      (n : ℕ) (sorted m : List (Str × Item V))
      → n ≤ length sorted
      → IsKeyed sorted
      → Distinct sorted
      → Distinct m
      → IsKeyed m
      → Within sorted m
      → (m' : List (Str × Item V)) × (delete_first n sorted m ≡ some m')
        × (length m' + n ≡ length m)
        × Distinct m'
        × IsKeyed m'
        × ((k : Str) → lookup k m' ≡ unless (lookup k (take n sorted)) (lookup k m))
  unfolding delete_first lookup
  delete_first_lem zero sorted m h ks d dm km w = (m, refl, omega arith, dm, km, λ k. refl)
  delete_first_lem (suc n) [] m h ks d dm km w = absurd (omega arith)
  delete_first_lem (suc n) ((i, x) ∷ sorted) m h (keyed, ks) (fresh, d) dm km ((v, e), w) =
      let (m', run, len, dm', km', look) =
        delete_first_lem n sorted (remove i m) (omega arith) ks d (Distinct-remove i m dm)
          (All-remove (λ e. e.1.key ≡ e.0) i m km) (Within-remove i sorted m fresh w) in
      (
        m',
        rw keyed run,
        omega (arith, length-remove i m v dm e),
        dm',
        km',
        λ k. ground (arith, look k, lookup-remove i k m, str_eq_iff i k),
      )

  Within-of_lookup :
      (xs m : List (Str × Item V))
      → Distinct xs
      → ((k : Str) (v : Item V) → lookup k xs ≡ some v → lookup k m ≡ some v)
      → Within xs m
  unfolding lookup
  Within-of_lookup [] m d f = tt
  Within-of_lookup ((i, x) ∷ xs) m (n, d) f = (
    (x, f i x (ground (arith, str_eq_iff i i))),
    Within-of_lookup xs m d (λ k v e. f k v (ground (arith, str_eq_iff i k, str_eq_iff k i))),
  )

  Within-get_sorted_items : (m : List (Str × Item V)) → Distinct m → Within (get_sorted_items m) m
  Within-get_sorted_items m d =
      Within-of_lookup (get_sorted_items m) m (Distinct-get_sorted_items m d)
        (λ k v e. rw (← lookup-get_sorted_items k m d) e)

  -- What `clean` does to the entries `m`, by its three branches: `m'` are those that are left.
  pub data Cleaned (c : Lru V) (m' : List (Str × Item V)) : Type ℓ where
    kept : (c.clean_count ≡ 0) ⊎ (length c.items ≤ c.max_size) → m' ≡ c.items → Cleaned c m'
    cleared :
        0 < c.clean_count
        → c.max_size < length c.items
        → c.max_size ≤ c.clean_count
        → m' ≡ []
        → Cleaned c m'
    evicted :
        0 < c.clean_count
        → c.max_size < length c.items
        → c.clean_count < c.max_size
        → length m' + c.clean_count ≡ length c.items
        → ((k : Str)
            → lookup k m'
              ≡ unless
                  (lookup k (take c.clean_count (get_sorted_items c.items)))
                  (lookup k c.items))
        → Cleaned c m'

  -- `clean` never panics, and does one of the three.
  pub clean_total :
      (c : Lru V)
      → IsKeyed c.items
      → Distinct c.items
      → (m' : List (Str × Item V)) × (clean c ≡ some (record c { items = m' }))
        × Distinct m'
        × IsKeyed m'
        × Cleaned c m'
  unfolding clean
  clean_total c ks d = elim (Bool-cases (c.clean_count == 0)) [
    | inl off ↦ (c.items, rw off, d, ks, kept (inl ((==_iff _ _).0 off)) refl)
    | inr on ↦ elim (Bool-cases (leb (length c.items) c.max_size)) [
      | inl fits ↦ (c.items, rw (on, fits), d, ks, kept (inr ((leb_iff _ _).0 fits)) refl)
      | inr over ↦ elim (Bool-cases (leb c.max_size c.clean_count)) [
        | inl whole ↦ (
          [],
          rw (on, over, whole),
          tt,
          tt,
          cleared (ground arith) (ground arith) (ground arith) refl,
        )
        | inr part ↦
            let sorted = get_sorted_items c.items in
            let (m', run, len, d', k', look) =
              delete_first_lem c.clean_count sorted c.items
                (ground (arith, length-get_sorted_items c.items))
                (get_sorted_items-All (λ e. e.1.key ≡ e.0) c.items ks)
                (Distinct-get_sorted_items c.items d) d ks (Within-get_sorted_items c.items d) in
            (
              m',
              rw (on, over, part, run),
              d',
              k',
              evicted (ground arith) (ground arith) (ground arith) len look,
            )
      ]
    ]
  ]

  -- An item that `clean` dropped was used no later than any item that it kept.
  pub Cleaned-oldest :
      (c : Lru V) (m' : List (Str × Item V)) (k j : Str) (a b : Item V)
      → Distinct c.items
      → Cleaned c m'
      → lookup k c.items ≡ some a
      → lookup k m' ≡ none
      → lookup j m' ≡ some b
      → a.last_used_time ≤ b.last_used_time
  unfolding lookup
  Cleaned-oldest c m' k j a b d (kept _ e) f g h = absurd (no_item (rw e at g) f)
    where
      no_item : lookup k c.items ≡ none → lookup k c.items ≡ some a → ⊥
      no_item p q = cc
  Cleaned-oldest c m' k j a b d (cleared _ _ _ e) f g h = absurd (no_item (rw e at h))
    where
      no_item : lookup j [] ≡ some b → ⊥
      no_item p = cc
  Cleaned-oldest c m' k j a b d (evicted _ _ _ _ look) f g h =
      let n = c.clean_count in
      let sorted = get_sorted_items c.items in
      let found_k : lookup k sorted ≡ some a = lookup-get_sorted_items k c.items d ∙ f in
      let same_j = lookup-get_sorted_items j c.items d in
      let (a', first) = unless-eq-none (lookup k (take n sorted)) (sym (look k) ∙ g) f in
      let (last, kept_j) = unless-eq-some (lookup j (take n sorted)) (sym (look j) ∙ h) in
      let same : a' ≡ a = some-injective _ _ (sym (lookup-take n k a' sorted first) ∙ found_k) in
      rw (← same) (
        IsSorted-take-drop n k j a' b sorted (get_sorted_items-IsSorted c.items) first
          (lookup-drop n j sorted last ∙ same_j ∙ kept_j))

  -- `clean` drops the items used least recently: for a cache whose keys are all distinct and stand
  -- in their own items, an item that it dropped was used no later than any item that it kept.
  pub clean-oldest :
      (c d : Lru V) (k j : Str) (a b : Item V)
      → IsKeyed c.items
      → Distinct c.items
      → clean c ≡ some d
      → lookup k c.items ≡ some a
      → lookup k d.items ≡ none
      → lookup j d.items ≡ some b
      → a.last_used_time ≤ b.last_used_time
  clean-oldest c d k j a b keyed distinct run f g h =
      let (m', e, _, _, cleaned) = clean_total c keyed distinct in
      let same : m' ≡ d.items = ap (λ x. x.items) (some-injective _ _ (sym e ∙ run)) in
      Cleaned-oldest c m' k j a b distinct cleaned f (ap (lookup k) same ∙ g)
        (ap (lookup j) same ∙ h)
