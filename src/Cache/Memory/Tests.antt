-- ===== src/Cache/Memory/Tests.antt =====
-- internal/cache/memory.go on a concrete map.
use lets_proxy.Base.{◌≡◌, refl, text, ok}
use lets_proxy.Cache.Memory.{get, put, new_memory_cache}

read_back : get (put new_memory_cache (text "k") (text "v")).0 (text "k") ≡ ok (text "v")
unfolding get put new_memory_cache lets_proxy.Base.Dict.lookup lets_proxy.Base.Dict.insert
    lets_proxy.Base.str_eq
read_back = refl
