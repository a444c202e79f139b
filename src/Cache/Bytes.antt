-- ===== src/Cache/Bytes.antt =====
-- `Bytes` of internal/cache/interface.go: the methods, and what its comments ask of them. A method
-- takes and returns the state of the store. The store may treat two keys as one (`canon`).
use lets_proxy.Base.{◌≡◌, ◌≢◌, Option, none, Str, Error, cache_miss, Result, ok, err}

pub record Bytes : Type 1 where
  pub Store : Type 0
  pub get : Store → Str → Result Str
  pub put : Store → Str → Str → Store × Option Error
  pub delete : Store → Str → Store × Option Error

-- The name under which a key is stored, and which states are well formed.
pub record BytesLaws (c : Bytes) : Type 1 where
  pub canon : Str → Str
  pub get-put : (s : c.Store) (k d : Str) → (c.put s k d).1 ≡ none → c.get (c.put s k d).0 k ≡ ok d
  pub get-put_ne :
      (s : c.Store) (k j d : Str) → canon j ≢ canon k → c.get (c.put s k d).0 j ≡ c.get s j
  pub get-delete :
      (s : c.Store) (k : Str) → (c.delete s k).1 ≡ none → c.get (c.delete s k).0 k ≡ err cache_miss
  pub get-delete_ne :
      (s : c.Store) (k j : Str) → canon j ≢ canon k → c.get (c.delete s k).0 j ≡ c.get s j
