-- ===== src/Cache/Disk/Tests.antt =====
-- internal/cache/disk.go on concrete keys.
use lets_proxy.Base.{◌≡◌, refl, text, Str}
use lets_proxy.Cache.Disk.{disk_cache_sanitize_key, replace_byte}

abbrev traversal : Str
traversal = text "../a b"

sanitized : disk_cache_sanitize_key traversal ≡ text "..___a___b"
unfolding disk_cache_sanitize_key replace_byte
sanitized = refl
