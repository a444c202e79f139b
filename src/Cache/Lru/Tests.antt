-- ===== src/Cache/Lru/Tests.antt =====
-- internal/cache/value_lru.go on concrete caches.
use lets_proxy.Base.{
  ℕ, suc, ◌+◌, ◌≤◌, ◌<◌, ◌≡◌, refl, inr, List, [], ◌∷◌, none, some, Str, text, arith, length, ok,
  err, cache_miss, str_eq, if◌then◌else◌,
}
use lets_proxy.Base.Dict.{lookup, Distinct}
use lets_proxy.Cache.Lru.{Lru, Item, get, put, delete, clean, renumber_time, time, u64_mod}
use lets_proxy.Cache.Lru.Invariant.{Inv}
use lets_proxy.Cache.Lru.Eviction.{clean_total, clean-oldest, Cleaned, IsKeyed}
use lets_proxy.Cache.Lru.Steps.{here, next, puts, reached_bounded}
use lets_proxy.Cache.Lru.Recency.{clean-put_survives}

abbrev a : Str
a = text "a"

abbrev b : Str
b = text "b"

abbrev c : Str
c = text "c"

abbrev small : Lru ℕ
small = record {
  max_size = 2;
  clean_count = 1;
  last_time = 0;
  items = [];
  cleaners = 0;
  renumberers = 0;
}

small-Inv : Inv small
small-Inv = record { keyed = tt; distinct = tt; bounded = inr (omega arith) }

abbrev item : Str → ℕ → ℕ → Str × Item ℕ
item k v t = (k, record { key = k; value = v; last_used_time = t })

-- Three items in a cache for two.
abbrev full : Lru ℕ
full = record small { last_time = 3; items = item a 10 1 ∷ item b 20 2 ∷ item c 30 3 ∷ [] }

-- Without the oldest.
abbrev cleaned : Lru ℕ
cleaned = record full { items = item b 20 2 ∷ item c 30 3 ∷ [] }

put_three : put (put (put small a 10) b 20) c 30 ≡ record full { cleaners = 1 }
unfolding put time lets_proxy.Base.Dict.insert str_eq
put_three = refl

get_refreshes : (get full a).0.items ≡ item a 10 4 ∷ item b 20 2 ∷ item c 30 3 ∷ []
unfolding get time lookup str_eq lets_proxy.Base.Dict.insert
get_refreshes = refl

clean-full : clean full ≡ some cleaned
unfolding clean lets_proxy.Cache.Lru.delete_first lets_proxy.Cache.Lru.get_sorted_items
    lets_proxy.Cache.Lru.insert_sorted lets_proxy.Base.Dict.remove str_eq
clean-full = refl

reached_bounded_example :
    (length (put small a 10).items ≤ 2 + (put small a 10).cleaners)
    × ((n : ℕ)
        → (put small a 10).cleaners ≡ suc n
        → (e : Lru ℕ) × (clean (record (put small a 10) { cleaners = n }) ≡ some e) × Inv e)
reached_bounded_example =
    reached_bounded small (put small a 10) small-Inv (omega arith) (next here (puts a 10))

clean_total_example :
    (m' : List (Str × Item ℕ)) × (clean full ≡ some (record full { items = m' }))
    × Distinct m'
    × IsKeyed m'
    × Cleaned full m'
unfolding lookup str_eq
clean_total_example = clean_total full (refl, (refl, (refl, tt))) (refl, (refl, (refl, tt)))

clean-oldest_example : 1 ≤ 3
unfolding clean lookup str_eq lets_proxy.Cache.Lru.delete_first
    lets_proxy.Cache.Lru.get_sorted_items lets_proxy.Cache.Lru.insert_sorted
    lets_proxy.Base.Dict.remove
clean-oldest_example =
    clean-oldest full cleaned a c (item a 10 1).1 (item c 30 3).1 (refl, (refl, (refl, tt)))
      (refl, (refl, (refl, tt))) refl refl refl refl

clean-put_survives_example :
    (d : Lru ℕ) × (clean
        (put (record small { last_time = 2; items = item a 10 1 ∷ item b 20 2 ∷ [] }) c 30)
      ≡ some d)
    × (lookup c d.items ≡ some (record { key = c; value = 30; last_used_time = 3 }))
unfolding lookup str_eq
clean-put_survives_example =
    clean-put_survives (record small { last_time = 2; items = item a 10 1 ∷ item b 20 2 ∷ [] }) c 30
      (record {
        keyed = (refl, (refl, tt));
        distinct = (refl, (refl, tt));
        bounded = inr (omega arith);
      })
      (omega arith, (omega arith, tt)) (omega arith) (omega arith)
