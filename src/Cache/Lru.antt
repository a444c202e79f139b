-- ===== src/Cache/Lru.antt =====
-- internal/cache/value_lru.go: the in-memory value cache that evicts the least recently used items.
-- Every method runs under the cache's lock, so a call is one step from state to state. A goroutine
-- that a call starts (`go c.clean()`, `go c.renumberTime()`) is counted in the state, and runs as
-- a later step of its own. `none` stands for a run-time panic (an index out of range).
pub mod Sorting
pub mod Invariant
pub mod Eviction
pub mod Renumber
pub mod Steps
pub mod Recency
mod Tests
use lets_proxy.Base.{
  ℕ, zero, suc, ◌+◌, ◌-◌, ◌/◌, ◌%◌, ◌^◌, List, [], ◌∷◌, Option, none, some, Bool, true, false, Str,
  leb, ltb, ◌==◌, if◌then◌else◌, length, Error, cache_miss, Result, ok, err,
}
use lets_proxy.Base.Dict.{lookup, insert, remove}

-- `memoryValueLRUItem`; the key is repeated in the item, as in the source.
pub record Item {ℓ} (V : Type ℓ) : Type ℓ where
  pub key : Str
  pub value : V
  pub last_used_time : ℕ

-- `MemoryValueLRU`; `cleaners` and `renumberers` are the goroutines started and not yet run.
pub record Lru {ℓ} (V : Type ℓ) : Type ℓ where
  pub max_size : ℕ
  pub clean_count : ℕ
  pub last_time : ℕ
  pub items : List (Str × Item V)
  pub cleaners : ℕ
  pub renumberers : ℕ

abbrev pub default_memory_limit_size : ℕ
default_memory_limit_size = 1000

abbrev pub default_lru_clean_count : ℕ
default_lru_clean_count = 300

-- `math.MaxUint64 / 2`
abbrev pub renumber_mark : ℕ
renumber_mark = 9_223_372_036_854_775_807

abbrev pub u64_mod : ℕ
u64_mod = 18_446_744_073_709_551_616

module _ {ℓ} {V : Type ℓ} where
  pub new_memory_value_lru : Lru V
  new_memory_value_lru = record {
    max_size = default_memory_limit_size;
    clean_count = default_lru_clean_count;
    last_time = 0;
    items = [];
    cleaners = 0;
    renumberers = 0;
  }

  -- `time`: an atomic increment that wraps at 2 ^ 64.
  unfoldable pub time : Lru V → Lru V × ℕ
  time c =
      let res = (c.last_time + 1) % u64_mod in
      let ticked = record c { last_time = res } in
      if res == renumber_mark
      then (record ticked { renumberers = c.renumberers + 1 }, res)
      else (ticked, res)

  unfoldable pub get : Lru V → Str → Lru V × Result V
  get c key = elim (lookup key c.items) [
    | none ↦ (c, err cache_miss)
    | some resp ↦
        let (c', now) = time c in
        (
          record c' { items = insert key (record resp { last_used_time = now }) c'.items },
          ok resp.value,
        )
  ]

  unfoldable pub put : Lru V → Str → V → Lru V
  put c key value =
      let (c', now) = time c in
      let items' =
        insert key (record { key = key; value = value; last_used_time = now }) c'.items in
      let stored = record c' { items = items' } in
      if ltb c.max_size (length items')
      then record stored { cleaners = c'.cleaners + 1 }
      else stored

  pub delete : Lru V → Str → Lru V
  delete c key = record c { items = remove key c.items }

  -- `sort.Slice` by the time of the last use, as an insertion sort.
  pub insert_sorted : Str × Item V → List (Str × Item V) → List (Str × Item V)
  insert_sorted x [] = x ∷ []
  insert_sorted x (y ∷ ys) =
      if leb x.1.last_used_time y.1.last_used_time then x ∷ y ∷ ys else y ∷ insert_sorted x ys

  pub get_sorted_items : List (Str × Item V) → List (Str × Item V)
  get_sorted_items [] = []
  get_sorted_items (x ∷ xs) = insert_sorted x (get_sorted_items xs)

  -- The loop of `renumberTime`: each item of the sorted slice is given its index. The items are
  -- pointers, so the write is seen in the map.
  pub renumber_from : ℕ → List (Str × Item V) → List (Str × Item V)
  renumber_from i [] = []
  renumber_from i ((k, item) ∷ items) =
      (k, record item { last_used_time = i }) ∷ renumber_from (i + 1) items

  pub renumber_time : Lru V → Lru V
  renumber_time c = record c { items = renumber_from 0 (get_sorted_items c.items) }

  -- The loop of `clean`: `for i := 0; i < CleanCount; i++ { delete(c.m, items[i].key) }`.
  pub delete_first : ℕ → List (Str × Item V) → List (Str × Item V) → Option (List (Str × Item V))
  delete_first zero sorted m = some m
  delete_first (suc n) [] m = none
  delete_first (suc n) (x ∷ sorted) m = delete_first n sorted (remove x.1.key m)

  pub clean : Lru V → Option (Lru V)
  clean c =
      if c.clean_count == 0
      then some c
      else if leb (length c.items) c.max_size
      then some c
      else if leb c.max_size c.clean_count
      then some (record c { items = [] })
      else elim (delete_first c.clean_count (get_sorted_items c.items) c.items) [
        | none ↦ none
        | some m ↦ some (record c { items = m })
      ]
