-- ===== src/Cache/Disk.antt =====
-- internal/cache/disk.go: a file for each key, in one directory. The directory is a map from file
-- names to contents. A call of the operating system may fail for a reason of its own: that error is
-- an argument of each method, `none` if the call goes well. A failed call changes no file.
pub mod Keys
mod Tests
use lets_proxy.Base.{
  ℕ, ◌≡◌, refl, ◌≢◌, List, [], ◌∷◌, ◌++◌, Option, none, some, Str, text, Error, cache_miss, Result,
  ok, err, ◌==◌, if◌then◌else◌, str_eq_iff, str_eq_refl, arith,
}
use lets_proxy.Base.Dict.{lookup, insert, remove, lookup-insert, lookup-remove, lookup-insert_self}
use lets_proxy.Cache.Bytes.{Bytes, BytesLaws}

-- `strings.Replace(k, c, placeholder, -1)` for a string `c` of one byte.
pub replace_byte : ℕ → Str → Str → Str
replace_byte c placeholder [] = []
replace_byte c placeholder (b ∷ k) =
    let rest = replace_byte c placeholder k in if b == c then placeholder ++ rest else b ∷ rest

abbrev pub placeholder : Str
placeholder = text "___"

pub disk_cache_sanitize_key : Str → Str
disk_cache_sanitize_key k =
    let k = replace_byte b'/' placeholder k in
    let k = replace_byte 92 placeholder k in
    let k = replace_byte b':' placeholder k in
    let k = replace_byte b'"' placeholder k in
    let k = replace_byte 39 placeholder k in replace_byte b' ' placeholder k

pub record DiskCache : Type 0 where
  pub files : List (Str × Str)

-- `ioutil.ReadFile`, with `os.IsNotExist` turned into `ErrCacheMiss`.
pub get : Option Error → DiskCache → Str → Result Str
get (some e) c key = err e
get none c key = elim (lookup (disk_cache_sanitize_key key) c.files) [
  | none ↦ err cache_miss
  | some content ↦ ok content
]

pub put : Option Error → DiskCache → Str → Str → DiskCache × Option Error
put (some e) c key content = (c, some e)
put none c key content =
    (record c { files = insert (disk_cache_sanitize_key key) content c.files }, none)

-- `os.Remove`; that the file is not there is no error.
pub delete : Option Error → DiskCache → Str → DiskCache × Option Error
delete (some e) c key = (c, some e)
delete none c key = (record c { files = remove (disk_cache_sanitize_key key) c.files }, none)

-- The disk cache while the operating system fails no call.
abbrev pub disk_bytes : Bytes
disk_bytes = record { Store = DiskCache; get = get none; put = put none; delete = delete none }

get-put : (s : DiskCache) (k d : Str) → get none (put none s k d).0 k ≡ ok d
unfolding get put
get-put s k d = ground (arith, lookup-insert_self (disk_cache_sanitize_key k) d s.files)

get-put_ne :
    (s : DiskCache) (k j d : Str)
    → disk_cache_sanitize_key j ≢ disk_cache_sanitize_key k
    → get none (put none s k d).0 j ≡ get none s j
unfolding get put
get-put_ne s k j d ne =
    let k' = disk_cache_sanitize_key k in
    let j' = disk_cache_sanitize_key j in
    ground (arith, lookup-insert k' j' d s.files, str_eq_iff k' j')

get-delete : (s : DiskCache) (k : Str) → get none (delete none s k).0 k ≡ err cache_miss
unfolding get delete
get-delete s k =
    let k' = disk_cache_sanitize_key k in
    ground (arith, lookup-remove k' k' s.files, str_eq_refl k')

get-delete_ne :
    (s : DiskCache) (k j : Str)
    → disk_cache_sanitize_key j ≢ disk_cache_sanitize_key k
    → get none (delete none s k).0 j ≡ get none s j
unfolding get delete
get-delete_ne s k j ne =
    let k' = disk_cache_sanitize_key k in
    let j' = disk_cache_sanitize_key j in
    ground (arith, lookup-remove k' j' s.files, str_eq_iff k' j')

-- The disk cache is a byte cache that tells keys apart by their sanitized names.
pub disk_laws : BytesLaws disk_bytes
disk_laws = record {
  canon = disk_cache_sanitize_key;
  get-put = λ s k d _. get-put s k d;
  get-put_ne = get-put_ne;
  get-delete = λ s k _. get-delete s k;
  get-delete_ne = get-delete_ne;
}
