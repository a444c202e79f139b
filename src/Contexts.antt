-- ===== src/Contexts.antt =====
-- internal/contexthelper/contexthelper.go: the combination of contexts. An instant is a number; the
-- value of a key, and an error, are none for nil.
pub mod Deadline
mod Tests
use lets_proxy.Base.{
  ℕ, List, [], ◌∷◌, Option, none, some, Bool, Str, if◌then◌else◌, ltb, get_elem?, Error, ◌&&◌,
}

-- `context.Context`: what its methods return.
pub record Context : Type 0 where
  pub deadline : Option ℕ
  pub error : Option Error
  pub value : Str → Option ℕ

-- The loop of `CombineContext` over the deadlines, with the least one so far.
unfoldable pub combine_deadline : List Context → Option ℕ → Option ℕ
combine_deadline [] least = least
combine_deadline (ctx ∷ contexts) least = elim ctx.deadline [
  | none ↦ combine_deadline contexts least
  | some deadline ↦ elim least [
    | none ↦ combine_deadline contexts (some deadline)
    | some d ↦ combine_deadline contexts (some (if ltb d deadline then d else deadline))
  ]
]

-- `Value`: the first that is not nil.
pub combine_value : List Context → Str → Option ℕ
combine_value [] key = none
combine_value (ctx ∷ contexts) key = elim (ctx.value key) [
  | some v ↦ some v
  | none ↦ combine_value contexts key
]

-- `CombineContext`, before and after `waitCloseAny` saw that the context of the index is done.
pub combine_context : List Context → Option ℕ → Context
combine_context contexts closed = record {
  deadline = combine_deadline contexts none;
  error = elim closed [
    | none ↦ none
    | some index ↦ elim (get_elem? contexts index) [ none ↦ none | some ctx ↦ ctx.error ]
  ];
  value = combine_value contexts;
}

-- `DropCancelContext`
pub drop_cancel_context : Context → Context
drop_cancel_context ctx = record { deadline = none; error = none; value = ctx.value }
