-- ===== src/Cache/Memory.antt =====
-- internal/cache/memory.go: a map from keys to bytes.
mod Tests
use lets_proxy.Base.{
  ◌≡◌, refl, ◌≢◌, List, [], Option, none, some, Str, Error, cache_miss, Result, ok, err, str_eq,
  str_eq_iff, str_eq_refl, arith,
}
use lets_proxy.Base.Dict.{lookup, insert, remove, lookup-insert, lookup-remove, lookup-insert_self}
use lets_proxy.Cache.Bytes.{Bytes, BytesLaws}

pub record MemoryCache : Type 0 where
  pub m : List (Str × Str)

pub new_memory_cache : MemoryCache
new_memory_cache = record { m = [] }

unfoldable pub get : MemoryCache → Str → Result Str
get c key = elim (lookup key c.m) [ some resp ↦ ok resp | none ↦ err cache_miss ]

unfoldable pub put : MemoryCache → Str → Str → MemoryCache × Option Error
put c key content = (record c { m = insert key content c.m }, none)

unfoldable pub delete : MemoryCache → Str → MemoryCache × Option Error
delete c key = (record c { m = remove key c.m }, none)

abbrev pub memory_bytes : Bytes
memory_bytes = record { Store = MemoryCache; get = get; put = put; delete = delete }

pub get-put : (s : MemoryCache) (k d : Str) → get (put s k d).0 k ≡ ok d
unfolding get put
get-put s k d = ground (arith, lookup-insert_self k d s.m)

pub get-put_ne : (s : MemoryCache) (k j d : Str) → j ≢ k → get (put s k d).0 j ≡ get s j
unfolding get put
get-put_ne s k j d ne = ground (arith, lookup-insert k j d s.m, str_eq_iff k j)

pub get-delete : (s : MemoryCache) (k : Str) → get (delete s k).0 k ≡ err cache_miss
unfolding get delete
get-delete s k = ground (arith, lookup-remove k k s.m, str_eq_refl k)

pub get-delete_ne : (s : MemoryCache) (k j : Str) → j ≢ k → get (delete s k).0 j ≡ get s j
unfolding get delete
get-delete_ne s k j ne = ground (arith, lookup-remove k j s.m, str_eq_iff k j)

-- The memory cache is a byte cache that tells all keys apart.
unfoldable pub memory_laws : BytesLaws memory_bytes
memory_laws = record {
  canon = λ k. k;
  get-put = λ s k d _. get-put s k d;
  get-put_ne = get-put_ne;
  get-delete = λ s k _. get-delete s k;
  get-delete_ne = get-delete_ne;
}
