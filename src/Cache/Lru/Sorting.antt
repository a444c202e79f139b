-- ===== src/Cache/Lru/Sorting.antt =====
-- `getSortedItems` of internal/cache/value_lru.go: the sorted slice holds the map's entries.
use lets_proxy.Base.{
  ℕ, zero, suc, ◌≤◌, ◌≡◌, refl, List, [], ◌∷◌, none, some, Str, arith, leb, if◌then◌else◌, length,
  All, take, drop, str_eq, str_eq_iff, Bool-cases, inl, inr, All-mono, All-drop, leb-eq-false,
  leb_iff,
}
use lets_proxy.Base.Dict.{lookup, lookup-All, Distinct}
use lets_proxy.Cache.Lru.{Item, insert_sorted, get_sorted_items}

module _ {ℓ} {V : Type ℓ} where
  abbrev pub UsedAfter : ℕ → Str × Item V → Type 0
  UsedAfter t e = t ≤ e.1.last_used_time

  -- Each item was used no later than those behind it.
  abbrev pub IsSorted : List (Str × Item V) → Type 0
  IsSorted [] = Unit
  IsSorted (x ∷ xs) = All (UsedAfter x.1.last_used_time) xs × IsSorted xs

  insert_sorted-All :
      (P : Str × Item V → Type 0) (x : Str × Item V) (xs : List (Str × Item V))
      → P x
      → All P xs
      → All P (insert_sorted x xs)
  unfolding insert_sorted
  insert_sorted-All P x [] p h = (p, tt)
  insert_sorted-All P x (y ∷ ys) p (q, h) =
      elim (Bool-cases (leb x.1.last_used_time y.1.last_used_time)) [
        | inl first ↦ rw first (p, (q, h))
        | inr later ↦ rw later (q, insert_sorted-All P x ys p h)
      ]

  insert_sorted-IsSorted :
      (x : Str × Item V) (xs : List (Str × Item V)) → IsSorted xs → IsSorted (insert_sorted x xs)
  unfolding insert_sorted
  insert_sorted-IsSorted x [] h = (tt, tt)
  insert_sorted-IsSorted x (y ∷ ys) (q, h) =
      elim (Bool-cases (leb x.1.last_used_time y.1.last_used_time)) [
        | inl first ↦
            let le : x.1.last_used_time ≤ y.1.last_used_time = (leb_iff _ _).0 first in
            rw first ((le, All-mono (λ e k. omega arith) ys q), (q, h))
        | inr later ↦
            let lt = leb-eq-false x.1.last_used_time y.1.last_used_time later in
            rw later (
              insert_sorted-All (UsedAfter y.1.last_used_time) x ys (omega arith) q,
              insert_sorted-IsSorted x ys h,
            )
      ]

  pub get_sorted_items-IsSorted : (m : List (Str × Item V)) → IsSorted (get_sorted_items m)
  unfolding get_sorted_items
  get_sorted_items-IsSorted [] = tt
  get_sorted_items-IsSorted (x ∷ m) = insert_sorted-IsSorted x _ (get_sorted_items-IsSorted m)

  pub get_sorted_items-All :
      (P : Str × Item V → Type 0) (m : List (Str × Item V)) → All P m → All P (get_sorted_items m)
  unfolding get_sorted_items
  get_sorted_items-All P [] h = tt
  get_sorted_items-All P (x ∷ m) (p, h) =
      insert_sorted-All P x (get_sorted_items m) p (get_sorted_items-All P m h)

  length-insert_sorted :
      (x : Str × Item V) (xs : List (Str × Item V)) → length (insert_sorted x xs) ≡ suc (length xs)
  unfolding insert_sorted
  length-insert_sorted x [] = refl
  length-insert_sorted x (y ∷ ys) = ground (arith, length-insert_sorted x ys)

  pub length-get_sorted_items : (m : List (Str × Item V)) → length (get_sorted_items m) ≡ length m
  unfolding get_sorted_items
  length-get_sorted_items [] = refl
  length-get_sorted_items (x ∷ m) =
      ground (arith, length-insert_sorted x (get_sorted_items m), length-get_sorted_items m)

  lookup-insert_sorted :
      (k j : Str) (v : Item V) (xs : List (Str × Item V))
      → lookup k xs ≡ none
      → lookup j (insert_sorted (k, v) xs) ≡ (if str_eq k j then some v else lookup j xs)
  unfolding insert_sorted lookup
  lookup-insert_sorted k j v [] h = refl
  lookup-insert_sorted k j v ((i, w) ∷ ys) h =
      ground (arith, str_eq_iff k j, str_eq_iff i k, str_eq_iff i j, lookup-insert_sorted k j v ys)

  Distinct-insert_sorted :
      (k : Str) (v : Item V) (xs : List (Str × Item V))
      → lookup k xs ≡ none
      → Distinct xs
      → Distinct (insert_sorted (k, v) xs)
  unfolding insert_sorted lookup
  Distinct-insert_sorted k v [] h d = (refl, tt)
  Distinct-insert_sorted k v ((i, w) ∷ ys) h (n, d) =
      elim (Bool-cases (leb v.last_used_time w.last_used_time)) [
        | inl first ↦ rw first (h, (n, d))
        | inr later ↦ rw later (
          ground (arith, lookup-insert_sorted k i v ys, str_eq_iff k i, str_eq_iff i k),
          Distinct-insert_sorted k v ys (ground arith) d,
        )
      ]

  -- The sorted slice and the map give every key the same item.
  pub lookup-get_sorted_items :
      (k : Str) (m : List (Str × Item V)) → Distinct m → lookup k (get_sorted_items m) ≡ lookup k m
  unfolding get_sorted_items lookup
  lookup-get_sorted_items k [] d = refl
  lookup-get_sorted_items k ((j, v) ∷ m) (n, d) = ground (
    arith,
    lookup-insert_sorted j k v (get_sorted_items m),
    lookup-get_sorted_items j m d,
    lookup-get_sorted_items k m d,
  )

  pub Distinct-get_sorted_items :
      (m : List (Str × Item V)) → Distinct m → Distinct (get_sorted_items m)
  unfolding get_sorted_items
  Distinct-get_sorted_items [] d = tt
  Distinct-get_sorted_items ((j, v) ∷ m) (n, d) =
      Distinct-insert_sorted j v (get_sorted_items m) (rw (lookup-get_sorted_items j m d) n)
        (Distinct-get_sorted_items m d)

  -- In a sorted slice the first `n` items were used no later than the others.
  pub IsSorted-take-drop :
      (n : ℕ) (k j : Str) (a b : Item V) (xs : List (Str × Item V))
      → IsSorted xs
      → lookup k (take n xs) ≡ some a
      → lookup j (drop n xs) ≡ some b
      → a.last_used_time ≤ b.last_used_time
  unfolding lookup
  IsSorted-take-drop zero k j a b xs s e f = cc
  IsSorted-take-drop (suc n) k j a b [] s e f = cc
  IsSorted-take-drop (suc n) k j a b ((i, v) ∷ xs) (p, s) e f = elim (Bool-cases (str_eq i k)) [
    | inl same ↦
        let same_item : v ≡ a = ground arith in
        rw (← same_item) (
          lookup-All (UsedAfter v.last_used_time) j b (drop n xs)
            (All-drop (UsedAfter v.last_used_time) n xs p) f)
    | inr other ↦ IsSorted-take-drop n k j a b xs s (ground arith) f
  ]

  -- What stands in the slice and not among the first `n` items stands among the others.
  pub lookup-drop :
      (n : ℕ) (j : Str) (xs : List (Str × Item V))
      → lookup j (take n xs) ≡ none
      → lookup j (drop n xs) ≡ lookup j xs
  unfolding lookup
  lookup-drop zero j xs e = refl
  lookup-drop (suc n) j [] e = refl
  lookup-drop (suc n) j ((i, v) ∷ xs) e = ground (arith, lookup-drop n j xs)

  -- What stands among the first `n` items stands in the slice.
  pub lookup-take :
      (n : ℕ) (k : Str) (b : Item V) (xs : List (Str × Item V))
      → lookup k (take n xs) ≡ some b
      → lookup k xs ≡ some b
  unfolding lookup
  lookup-take zero k b xs e = cc
  lookup-take (suc n) k b [] e = e
  lookup-take (suc n) k b ((i, v) ∷ xs) e = ground (arith, lookup-take n k b xs)
