-- ===== src/Contexts/Deadline.antt =====
-- internal/contexthelper/contexthelper.go: the deadline of a combined context is the least one.
use lets_proxy.Base.{
  ◌≡◌, refl, subst, sym, ap, ◌∙◌, ◌⊎◌, inl, inr, ℕ, ◌≤◌, List, [], ◌∷◌, Option, none, some, ltb,
  Option-cases, some-injective, arith, Some, if◌then◌else◌, Bool-cases,
}
use lets_proxy.Contexts.{Context, combine_deadline, combine_context}

abbrev pub HasDeadline : ℕ → Context → Type 0
HasDeadline d ctx = ctx.deadline ≡ some d

-- A deadline that was met before, or that one of the contexts has.
abbrev Candidate : Option ℕ → List Context → ℕ → Type 0
Candidate least contexts e = (least ≡ some e) ⊎ Some (HasDeadline e) contexts

-- The result is the least candidate, or there is none.
abbrev IsLeast : Option ℕ → Option ℕ → List Context → Type 0
IsLeast result least contexts =
    ((d : ℕ)
      → result ≡ some d
      → Candidate least contexts d × ((e : ℕ) → Candidate least contexts e → d ≤ e))
    × (result ≡ none → (e : ℕ) → Candidate least contexts e → ⊥)

IsLeast-skip :
    (result least : Option ℕ) (ctx : Context) (contexts : List Context)
    → ctx.deadline ≡ none
    → IsLeast result least contexts
    → IsLeast result least (ctx ∷ contexts)
IsLeast-skip result least ctx contexts q (found, missed) = (
  λ d h.
      let (a, b) = found d h in
      (elim a [ inl x ↦ inl x | inr s ↦ inr (inr s) ], λ e m. b e (without e m)),
  λ h e m. missed h e (without e m),
)
  where
    without : (e : ℕ) → Candidate least (ctx ∷ contexts) e → Candidate least contexts e
    without e (inl x) = inl x
    without e (inr (inl x)) = absurd cc
    without e (inr (inr s)) = inr s

-- One more deadline: `m` is the smaller of it and the least so far.
IsLeast-meet :
    (result least : Option ℕ) (ctx : Context) (contexts : List Context) (deadline m : ℕ)
    → ctx.deadline ≡ some deadline
    → (least ≡ some m) ⊎ (deadline ≡ m)
    → ((e : ℕ) → least ≡ some e → m ≤ e)
    → m ≤ deadline
    → IsLeast result (some m) contexts
    → IsLeast result least (ctx ∷ contexts)
IsLeast-meet result least ctx contexts deadline m q is below_least below (found, missed) = (
  λ d h. let (a, b) = found d h in (from d a, to d b),
  λ h e k. elim k [
    | inl x ↦ missed h m (inl refl)
    | inr (inl x) ↦ missed h m (inl refl)
    | inr (inr s) ↦ missed h e (inr s)
  ],
)
  where
    from : (d : ℕ) → Candidate (some m) contexts d → Candidate least (ctx ∷ contexts) d
    from d (inr s) = inr (inr s)
    from d (inl x) = elim is [ inl l ↦ inl (l ∙ x) | inr y ↦ inr (inl (q ∙ ap some y ∙ x)) ]

    to :
        (d : ℕ)
        → ((e : ℕ) → Candidate (some m) contexts e → d ≤ e)
        → (e : ℕ) → Candidate least (ctx ∷ contexts) e
        → d ≤ e
    to d b e (inl x) = omega (arith, b m (inl refl), below_least e x)
    to d b e (inr (inl x)) =
        let same : deadline ≡ e = some-injective _ _ (sym q ∙ x) in
        omega (arith, b m (inl refl), below, same)
    to d b e (inr (inr s)) = b e (inr s)

least_lem :
    (contexts : List Context) (least : Option ℕ)
    → IsLeast (combine_deadline contexts least) least contexts
unfolding combine_deadline
least_lem [] least = (
  λ d h. (inl h, λ e m. elim m [ inl f ↦ ground arith | inr s ↦ absurd s ]),
  λ h e m. elim m [ inl f ↦ cc | inr s ↦ s ],
)
least_lem (ctx ∷ contexts) least = elim (Option-cases ctx.deadline) [
  | inl q ↦
      let same : combine_deadline (ctx ∷ contexts) least ≡ combine_deadline contexts least =
        rw (combine_deadline, q) refl in
      subst (λ r. IsLeast r least (ctx ∷ contexts)) (sym same)
        (IsLeast-skip (combine_deadline contexts least) least ctx contexts q
          (least_lem contexts least))
  | inr (deadline, q) ↦ elim (Option-cases least) [
    | inl n ↦
        let result = combine_deadline contexts (some deadline) in
        let same : combine_deadline (ctx ∷ contexts) least ≡ result =
          rw (combine_deadline, q, n) refl in
        subst (λ r. IsLeast r least (ctx ∷ contexts)) (sym same)
          (IsLeast-meet result least ctx contexts deadline deadline q (inr refl) (λ e f. absurd cc)
            (omega arith) (least_lem contexts (some deadline)))
    | inr (x, n) ↦
        let m : ℕ = if ltb x deadline then x else deadline in
        let result = combine_deadline contexts (some m) in
        let same : combine_deadline (ctx ∷ contexts) least ≡ result =
          rw (combine_deadline, q, n) refl in
        let is : (x ≡ m) ⊎ (deadline ≡ m) = elim (Bool-cases (ltb x deadline)) [
          | inl t ↦ inl (rw t refl)
          | inr f ↦ inr (rw f refl)
        ] in
        let below : m ≤ x = ground arith in
        subst (λ r. IsLeast r least (ctx ∷ contexts)) (sym same)
          (IsLeast-meet result least ctx contexts deadline m q
            (elim is [ inl e ↦ inl (n ∙ ap some e) | inr e ↦ inr e ])
            (λ e f. let y : x ≡ e = some-injective _ _ (sym n ∙ f) in omega (arith, below, y))
            (ground arith) (least_lem contexts (some m)))
  ]
]

-- The deadline of a combined context is one that a context has, and none of the contexts has an
-- earlier one; it has none exactly if none of the contexts has.
pub combine_context-deadline :
    (contexts : List Context) (closed : Option ℕ)
    → ((d : ℕ)
        → (combine_context contexts closed).deadline ≡ some d
        → Some (HasDeadline d) contexts × ((e : ℕ) → Some (HasDeadline e) contexts → d ≤ e))
      × ((combine_context contexts closed).deadline ≡ none
          → (e : ℕ) → Some (HasDeadline e) contexts
          → ⊥)
unfolding combine_context
combine_context-deadline contexts closed =
    let (found, missed) = least_lem contexts none in
    (
      λ d h.
          let (a, b) = found d h in (elim a [ inl x ↦ absurd cc | inr s ↦ s ], λ e s. b e (inr s)),
      λ h e s. missed h e (inr s),
    )
