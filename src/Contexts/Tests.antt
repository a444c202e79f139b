-- ===== src/Contexts/Tests.antt =====
-- internal/contexthelper/contexthelper.go: two contexts with deadlines.
use lets_proxy.Base.{◌≡◌, refl, ℕ, ◌≤◌, List, [], ◌∷◌, some, none, Some}
use lets_proxy.Contexts.{Context, combine_context, drop_cancel_context}
use lets_proxy.Contexts.Deadline.{HasDeadline, combine_context-deadline}

abbrev until : ℕ → Context
until d = record { deadline = some d; error = none; value = λ key. some d }

abbrev contexts : List Context
contexts = drop_cancel_context (until 1) ∷ until 9 ∷ until 4 ∷ []

combine_test : (combine_context contexts none).deadline ≡ some 4
unfolding combine_context lets_proxy.Contexts.combine_deadline drop_cancel_context
combine_test = refl

combine_context-deadline_example :
    ((d : ℕ)
      → (combine_context contexts none).deadline ≡ some d
      → Some (HasDeadline d) contexts × ((e : ℕ) → Some (HasDeadline e) contexts → d ≤ e))
    × ((combine_context contexts none).deadline ≡ none
        → (e : ℕ) → Some (HasDeadline e) contexts
        → ⊥)
combine_context-deadline_example = combine_context-deadline contexts none
