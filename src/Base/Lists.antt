-- ===== src/Base/Lists.antt =====
-- Lists measured by native numbers, predicates on their items, and Boolean searches.
use Prim.Native.Nat.{ℕ, zero, suc, ◌+◌, ◌-◌, ◌≤◌, ◌<◌}
use mathlib.Core.Bool.{Bool, true, false, ◌&&◌, ◌||◌}
use mathlib.Core.List.{List, [], ◌∷◌, ◌++◌, map}
use mathlib.Core.Logic.{◌⊎◌, ◌↔◌, inl, inr}
use mathlib.Core.Option.{Option, none, some}
use mathlib.Core.Path.{◌≡◌, refl, ap, sym, subst}
use native.Mathlib.Omega.{arith}
use lets_proxy.Base.Tests.{if◌then◌else◌, Bool-cases}

module _ {ℓ} {A : Type ℓ} where
  abbrev pub length : List A → ℕ
  length [] = 0
  length (x ∷ xs) = suc (length xs)

  abbrev pub get_elem? : List A → ℕ → Option A
  get_elem? [] i = none
  get_elem? (x ∷ xs) zero = some x
  get_elem? (x ∷ xs) (suc i) = get_elem? xs i

  -- A write out of bounds changes nothing.
  abbrev pub set : List A → ℕ → A → List A
  set [] i v = []
  set (x ∷ xs) zero v = v ∷ xs
  set (x ∷ xs) (suc i) v = x ∷ set xs i v

  abbrev pub drop : ℕ → List A → List A
  drop zero xs = xs
  drop (suc n) [] = []
  drop (suc n) (x ∷ xs) = drop n xs

  abbrev pub take : ℕ → List A → List A
  take zero xs = []
  take (suc n) [] = []
  take (suc n) (x ∷ xs) = x ∷ take n xs

  abbrev pub any : (A → Bool) → List A → Bool
  any p [] = false
  any p (x ∷ xs) = p x || any p xs

  abbrev pub all : (A → Bool) → List A → Bool
  all p [] = true
  all p (x ∷ xs) = p x && all p xs

  -- The items that pass a test, in order.
  abbrev pub keep : (A → Bool) → List A → List A
  keep p [] = []
  keep p (x ∷ xs) = let rest = keep p xs in if p x then x ∷ rest else rest

  pub length-append : (xs ys : List A) → length (xs ++ ys) ≡ length xs + length ys
  length-append [] ys = omega arith
  length-append (x ∷ xs) ys = omega (arith, length-append xs ys)

  pub length-set : (xs : List A) (i : ℕ) (v : A) → length (set xs i v) ≡ length xs
  length-set [] i v = refl
  length-set (x ∷ xs) zero v = refl
  length-set (x ∷ xs) (suc i) v = ap suc (length-set xs i v)

  pub get_elem?-set :
      (xs : List A) (i : ℕ) (v : A) → i < length xs → get_elem? (set xs i v) i ≡ some v
  get_elem?-set [] i v h = elim h [ ]
  get_elem?-set (x ∷ xs) zero v h = refl
  get_elem?-set (x ∷ xs) (suc i) v h = get_elem?-set xs i v (omega arith)

  pub lt-get_elem? : (xs : List A) (i : ℕ) (v : A) → get_elem? xs i ≡ some v → i < length xs
  lt-get_elem? [] i v h = absurd (ground arith)
  lt-get_elem? (x ∷ xs) zero v h = omega arith
  lt-get_elem? (x ∷ xs) (suc i) v h = omega (arith, lt-get_elem? xs i v h)

  pub length-drop : (n : ℕ) (xs : List A) → length (drop n xs) ≡ length xs - n
  length-drop zero xs = omega arith
  length-drop (suc n) [] = omega arith
  length-drop (suc n) (x ∷ xs) = omega (arith, length-drop n xs)

  pub take-append-drop : (n : ℕ) (xs : List A) → take n xs ++ drop n xs ≡ xs
  take-append-drop zero xs = refl
  take-append-drop (suc n) [] = refl
  take-append-drop (suc n) (x ∷ xs) = ap (◌∷◌ x) (take-append-drop n xs)

  pub get_elem?-lt : (xs : List A) (i : ℕ) → i < length xs → (a : A) × (get_elem? xs i ≡ some a)
  get_elem?-lt [] i h = elim h [ ]
  get_elem?-lt (x ∷ xs) zero h = (x, refl)
  get_elem?-lt (x ∷ xs) (suc i) h = get_elem?-lt xs i (omega arith)

  -- To split on a computed list and keep the equation.
  pub List-cases : (xs : List A) → (xs ≡ []) ⊎ ((x : A) × (ys : List A) × (xs ≡ x ∷ ys))
  List-cases [] = inl refl
  List-cases (x ∷ ys) = inr (x, ys, refl)

module _ {ℓ κ} {A : Type ℓ} (P : A → Type κ) where
  -- Every item satisfies the predicate.
  abbrev pub All : List A → Type κ
  All [] = Unit
  All (x ∷ xs) = P x × All xs

  pub All-append : (xs ys : List A) → All xs → All ys → All (xs ++ ys)
  All-append [] ys h k = k
  All-append (x ∷ xs) ys (p, h) k = (p, All-append xs ys h k)

  pub All-append_right : (xs ys : List A) → All (xs ++ ys) → All ys
  All-append_right [] ys h = h
  All-append_right (x ∷ xs) ys (p, h) = All-append_right xs ys h

  pub All-drop : (n : ℕ) (xs : List A) → All xs → All (drop n xs)
  All-drop zero xs h = h
  All-drop (suc n) [] h = tt
  All-drop (suc n) (x ∷ xs) (p, h) = All-drop n xs h

  pub All-append_left : (xs ys : List A) → All (xs ++ ys) → All xs
  All-append_left [] ys h = tt
  All-append_left (x ∷ xs) ys (p, h) = (p, All-append_left xs ys h)

  pub All-get_elem? : (xs : List A) (i : ℕ) (a : A) → All xs → get_elem? xs i ≡ some a → P a
  All-get_elem? [] i a h e = cc
  All-get_elem? (x ∷ xs) zero a (p, h) e = let q : x ≡ a = cc in subst P q p
  All-get_elem? (x ∷ xs) (suc i) a (p, h) e = All-get_elem? xs i a h e

module _ {ℓ κ μ} {A : Type ℓ} {P : A → Type κ} {Q : A → Type μ} where
  pub All-mono : ((a : A) → P a → Q a) → (xs : List A) → All P xs → All Q xs
  All-mono f [] h = tt
  All-mono f (x ∷ xs) (p, h) = (f x p, All-mono f xs h)

-- Some item satisfies the predicate, and which.
abbrev pub Some {ℓ} : {A : Type ℓ} → (A → Type 0) → List A → Type 0
Some P [] = ⊥
Some P (x ∷ xs) = P x ⊎ Some P xs

-- The item stands in the list.
abbrev pub In : {A : Type 0} → A → List A → Type 0
In a = Some (λ x. a ≡ x)

pub In-append_right : {A : Type 0} (a : A) (xs ys : List A) → In a ys → In a (xs ++ ys)
In-append_right a [] ys h = h
In-append_right a (x ∷ xs) ys h = inr (In-append_right a xs ys h)

pub In-append_left : {A : Type 0} (a : A) (xs ys : List A) → In a xs → In a (xs ++ ys)
In-append_left a [] ys h = absurd h
In-append_left a (x ∷ xs) ys (inl e) = inl e
In-append_left a (x ∷ xs) ys (inr h) = inr (In-append_left a xs ys h)

pub In-append : {A : Type 0} (a : A) (xs ys : List A) → In a (xs ++ ys) → In a xs ⊎ In a ys
In-append a [] ys h = inr h
In-append a (x ∷ xs) ys (inl e) = inl (inl e)
In-append a (x ∷ xs) ys (inr h) = elim (In-append a xs ys h) [ inl l ↦ inl (inr l) | inr r ↦ inr r ]

pub In-map : {A B : Type 0} (f : A → B) (a : A) (xs : List A) → In a xs → In (f a) (map f xs)
In-map f a [] h = absurd h
In-map f a (x ∷ xs) (inl e) = inl (ap f e)
In-map f a (x ∷ xs) (inr h) = inr (In-map f a xs h)

pub All-In : {A : Type 0} (P : A → Type 0) (xs : List A) (a : A) → All P xs → In a xs → P a
All-In P [] a h m = absurd m
All-In P (x ∷ xs) a (p, h) (inl e) = subst P (sym e) p
All-In P (x ∷ xs) a (p, h) (inr m) = All-In P xs a h m

pub In→All : {A : Type 0} (P : A → Type 0) (xs : List A) → ((a : A) → In a xs → P a) → All P xs
In→All P [] f = tt
In→All P (x ∷ xs) f = (f x (inl refl), In→All P xs (λ a m. f a (inr m)))

-- An item in the middle of a list.
pub In-middle :
    {A : Type 0} (a : A) (xs : List A) (b : A) (ys : List A)
    → In a (b ∷ xs ++ ys)
    → In a (xs ++ b ∷ ys)
In-middle a [] b ys h = h
In-middle a (x ∷ xs) b ys (inl e) = inr (In-middle a xs b ys (inl e))
In-middle a (x ∷ xs) b ys (inr (inl e)) = inl e
In-middle a (x ∷ xs) b ys (inr (inr h)) = inr (In-middle a xs b ys (inr h))

pub Some-other :
    {A : Type 0} (P : A → Type 0) (xs : List A) (b : A) (ys : List A)
    → Some P (xs ++ b ∷ ys)
    → P b ⊎ Some P (xs ++ ys)
Some-other P [] b ys h = h
Some-other P (x ∷ xs) b ys (inl p) = inr (inl p)
Some-other P (x ∷ xs) b ys (inr h) = elim (Some-other P xs b ys h) [
  | inl p ↦ inl p
  | inr m ↦ inr (inr m)
]

pub In-split : {A : Type 0} (a : A) (zs : List A) → In a zs → (xs ys : List A) × (zs ≡ xs ++ a ∷ ys)
In-split a [] h = absurd h
In-split a (z ∷ zs) (inl e) = ([], zs, ap (λ x. x ∷ zs) (sym e))
In-split a (z ∷ zs) (inr h) = let (xs, ys, q) = In-split a zs h in (z ∷ xs, ys, ap (◌∷◌ z) q)

pub All-middle :
    {A : Type 0} (P : A → Type 0) (xs : List A) (b : A) (ys : List A)
    → All P (xs ++ b ∷ ys)
    → P b × All P (xs ++ ys)
All-middle P [] b ys h = h
All-middle P (x ∷ xs) b ys (p, h) = let (q, k) = All-middle P xs b ys h in (q, (p, k))

In→In-keep :
    {A : Type 0} (p : A → Bool) (a : A) (xs : List A) → In a xs → p a ≡ true → In a (keep p xs)
In→In-keep p a [] h e = absurd h
In→In-keep p a (x ∷ xs) (inl q) e = rw (rw q at e) (inl q)
In→In-keep p a (x ∷ xs) (inr h) e = elim (Bool-cases (p x)) [
  | inl t ↦ rw t (inr (In→In-keep p a xs h e))
  | inr f ↦ rw f (In→In-keep p a xs h e)
]

In-keep→In :
    {A : Type 0} (p : A → Bool) (a : A) (xs : List A) → In a (keep p xs) → In a xs × (p a ≡ true)
In-keep→In p a [] h = absurd h
In-keep→In p a (x ∷ xs) h = elim (Bool-cases (p x)) [
  | inl t ↦ elim (let c : In a (x ∷ keep p xs) = rw t at h in c) [
    | inl q ↦ (inl q, rw q t)
    | inr m ↦ let (i, e) = In-keep→In p a xs m in (inr i, e)
  ]
  | inr f ↦ let (i, e) = In-keep→In p a xs (rw f at h) in (inr i, e)
]

-- The items that `keep` leaves are those that stand in the list and pass the test.
pub In-keep :
    {A : Type 0} (p : A → Bool) (a : A) (xs : List A) → In a (keep p xs) ↔ (In a xs × (p a ≡ true))
In-keep p a xs = (In-keep→In p a xs, λ h. In→In-keep p a xs h.0 h.1)

pub length-keep-le {ℓ} : {A : Type ℓ} (p : A → Bool) (xs : List A) → length (keep p xs) ≤ length xs
length-keep-le p [] = omega arith
length-keep-le p (x ∷ xs) = ground (arith, length-keep-le p xs)
