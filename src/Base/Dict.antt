-- ===== src/Base/Dict.antt =====
-- A Go map with string keys, as a list of its entries. The order of the list stands for the order
-- of an iteration; nothing that the modules prove depends on it.
use mathlib.Core.List.{List, [], ◌∷◌}
use mathlib.Core.Logic.{inl, inr}
use mathlib.Core.Option.{Option, none, some}
use mathlib.Core.Path.{◌≡◌, refl, subst}
use Prim.Native.Nat.{suc, ◌≤◌}
use native.Mathlib.Omega.{arith}
use lets_proxy.Base.Lists.{length, All}
use lets_proxy.Base.Tests.{if◌then◌else◌, Bool-cases}
use lets_proxy.Base.Text.{Str, str_eq, str_eq_iff, str_eq_refl}

module _ {ℓ} {V : Type ℓ} where
  -- `m[key]`
  unfoldable pub lookup : Str → List (Str × V) → Option V
  lookup key [] = none
  lookup key ((own, value) ∷ entries) = if str_eq own key then some value else lookup key entries

  -- `delete(m, key)`
  unfoldable pub remove : Str → List (Str × V) → List (Str × V)
  remove key [] = []
  remove key ((own, value) ∷ entries) =
      let rest = remove key entries in if str_eq own key then rest else (own, value) ∷ rest

  -- `m[key] = fresh`, in the place of the old entry.
  unfoldable pub insert : Str → V → List (Str × V) → List (Str × V)
  insert key fresh [] = (key, fresh) ∷ []
  insert key fresh ((own, value) ∷ entries) =
      let rest = insert key fresh entries in
      if str_eq own key then (key, fresh) ∷ entries else (own, value) ∷ rest

  pub lookup-remove :
      (gone key : Str) (entries : List (Str × V))
      → lookup key (remove gone entries) ≡ (if str_eq gone key then none else lookup key entries)
  unfolding lookup remove
  lookup-remove gone key [] = ground arith
  lookup-remove gone key ((own, value) ∷ entries) =
      let ih = lookup-remove gone key entries in
      ground (arith, ih, str_eq_iff gone key, str_eq_iff own gone, str_eq_iff own key)

  pub lookup-insert :
      (added key : Str) (fresh : V) (entries : List (Str × V))
      → lookup key (insert added fresh entries)
        ≡ (if str_eq added key then some fresh else lookup key entries)
  unfolding lookup insert
  lookup-insert added key fresh [] = ground arith
  lookup-insert added key fresh ((own, value) ∷ entries) =
      let ih = lookup-insert added key fresh entries in
      ground (arith, ih, str_eq_iff added key, str_eq_iff own added, str_eq_iff own key)

  pub lookup-insert_self :
      (key : Str) (fresh : V) (entries : List (Str × V))
      → lookup key (insert key fresh entries) ≡ some fresh
  lookup-insert_self key fresh entries =
      ground (arith, lookup-insert key key fresh entries, str_eq_refl key)

  pub length-insert-le :
      (k : Str) (v : V) (m : List (Str × V)) → length (insert k v m) ≤ suc (length m)
  unfolding insert
  length-insert-le k v [] = omega arith
  length-insert-le k v ((i, w) ∷ m) = ground (arith, length-insert-le k v m)

module _ {ℓ} {V : Type ℓ} where
  -- No key stands twice.
  abbrev pub Distinct : List (Str × V) → Type ℓ
  Distinct [] = Unit
  Distinct ((k, v) ∷ m) = (lookup k m ≡ none) × Distinct m

  pub Distinct-insert :
      (k : Str) (v : V) (m : List (Str × V)) → Distinct m → Distinct (insert k v m)
  unfolding insert lookup
  Distinct-insert k v [] h = (refl, tt)
  Distinct-insert k v ((j, w) ∷ m) (n, d) = elim (Bool-cases (str_eq j k)) [
    | inl same ↦
        let e : j ≡ k = (str_eq_iff j k).0 same in rw same (subst (λ x. lookup x m ≡ none) e n, d)
    | inr other ↦ rw other (
      ground (arith, lookup-insert k j v m, str_eq_iff k j, str_eq_iff j k),
      Distinct-insert k v m d,
    )
  ]

  pub Distinct-remove : (k : Str) (m : List (Str × V)) → Distinct m → Distinct (remove k m)
  unfolding remove
  Distinct-remove k [] d = tt
  Distinct-remove k ((j, w) ∷ m) (n, d) = elim (Bool-cases (str_eq j k)) [
    | inl same ↦ rw same (Distinct-remove k m d)
    | inr other ↦ rw other (ground (arith, lookup-remove k j m), Distinct-remove k m d)
  ]

  pub remove_absent : (k : Str) (m : List (Str × V)) → lookup k m ≡ none → remove k m ≡ m
  unfolding remove lookup
  remove_absent k [] h = refl
  remove_absent k ((j, w) ∷ m) h = ground (arith, remove_absent k m)

  pub length-remove :
      (k : Str) (m : List (Str × V)) (v : V)
      → Distinct m
      → lookup k m ≡ some v
      → suc (length (remove k m)) ≡ length m
  unfolding remove lookup
  length-remove k [] v d h = cc
  length-remove k ((j, w) ∷ m) v (n, d) h = elim (Bool-cases (str_eq j k)) [
    | inl same ↦
        let e : j ≡ k = (str_eq_iff j k).0 same in
        let gone : lookup k m ≡ none = subst (λ x. lookup x m ≡ none) e n in
        rw (same, remove_absent k m gone)
    | inr other ↦ rw other (ground (arith, length-remove k m v d))
  ]

  pub length-remove-le : (k : Str) (m : List (Str × V)) → length (remove k m) ≤ length m
  unfolding remove
  length-remove-le k [] = omega arith
  length-remove-le k ((j, w) ∷ m) = ground (arith, length-remove-le k m)

module _ {ℓ} {V : Type ℓ} (P : Str × V → Type 0) where
  pub lookup-All :
      (k : Str) (a : V) (xs : List (Str × V)) → All P xs → lookup k xs ≡ some a → P (k, a)
  unfolding lookup
  lookup-All k a [] h e = cc
  lookup-All k a ((j, v) ∷ xs) (p, h) e = elim (Bool-cases (str_eq j k)) [
    | inl same ↦
        let same_key : j ≡ k = (str_eq_iff j k).0 same in
        let same_item : v ≡ a = ground arith in rw (← same_key, ← same_item) p
    | inr other ↦ lookup-All k a xs h (ground arith)
  ]

  pub All-insert :
      (k : Str) (v : V) (m : List (Str × V)) → P (k, v) → All P m → All P (insert k v m)
  unfolding insert
  All-insert k v [] p h = (p, tt)
  All-insert k v ((j, w) ∷ m) p (q, h) = elim (Bool-cases (str_eq j k)) [
    | inl same ↦ rw same (p, h)
    | inr other ↦ rw other (q, All-insert k v m p h)
  ]

  pub All-remove : (k : Str) (m : List (Str × V)) → All P m → All P (remove k m)
  unfolding remove
  All-remove k [] h = tt
  All-remove k ((j, w) ∷ m) (q, h) = elim (Bool-cases (str_eq j k)) [
    | inl same ↦ rw same (All-remove k m h)
    | inr other ↦ rw other (q, All-remove k m h)
  ]

pub length-insert_present {ℓ} :
    {V : Type ℓ} (k : Str) (w v : V) (m : List (Str × V))
    → lookup k m ≡ some v
    → length (insert k w m) ≡ length m
unfolding insert lookup
length-insert_present k w v [] e = cc
length-insert_present k w v ((j, x) ∷ m) e = ground (arith, length-insert_present k w v m)
