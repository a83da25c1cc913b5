-- ===== src/Gateway/Cache.antt =====
-- glaive/src/cache.rs: the storage of responses, and the handlers that read and write it.
pub mod Ranges
pub mod Stores
use glaive.Prelude.{
  ℕ, ◌+◌, ◌-◌, ◌≡◌, ◌≢◌, Option, none, some, Bool, true, false, List, [], ◌++◌, length, take, drop,
  add_usize, ltb, leb, ◌==◌, ◌&&◌, min, if◌then◌else◌,
}
use glaive.Session.Offset.{Bytes}

pub data CacheError : Type 0 where
  seek_out_of_range : ℕ → ℕ → CacheError
  response_too_large : ℕ → ℕ → CacheError
  empty_body : CacheError
  no_meta_found : CacheError
  meta_format : CacheError

pub data Result {ℓ} (A : Type ℓ) : Type ℓ where
  done : A → Result A
  failed : CacheError → Result A
  panicked : Result A

-- `pingora::cache::CacheMeta`, and its two binary parts.
pub record MetaFormat : Type 1 where
  pub CacheMeta : Type 0
  pub serialize : CacheMeta → Option (Bytes × Bytes)
  pub deserialize : Bytes × Bytes → Option CacheMeta
  pub fresh_until : CacheMeta → ℕ
  pub deserialize_serialize :
      (meta : CacheMeta) (raw : Bytes × Bytes)
      → serialize meta ≡ some raw
      → deserialize raw ≡ some meta

-- `scc::HashMap`, whose `insert_async` refuses a key that is there.
pub record SccHashMap (V : Type 0) : Type 1 where
  pub Map : Type 0
  pub get : Map → ℕ → Option V
  pub insert : Map → ℕ → V → Map
  pub remove : Map → ℕ → Map
  pub update : Map → ℕ → (V → V) → Map
  pub insert_new : (m : Map) (k : ℕ) (v : V) → get m k ≡ none → get (insert m k v) k ≡ some v
  pub insert_present :
      (m : Map) (k : ℕ) (v w : V) → get m k ≡ some w → get (insert m k v) k ≡ some w
  pub insert_ne : (m : Map) (k j : ℕ) (v : V) → j ≢ k → get (insert m k v) j ≡ get m j
  pub remove_self : (m : Map) (k : ℕ) → get (remove m k) k ≡ none
  pub remove_ne : (m : Map) (k j : ℕ) → j ≢ k → get (remove m k) j ≡ get m j
  pub update_self :
      (m : Map) (k : ℕ) (f : V → V) (v : V) → get m k ≡ some v → get (update m k f) k ≡ some (f v)

pub record SccCacheObject : Type 0 where
  pub meta : Bytes × Bytes
  pub body : Bytes

pub record CacheHitHandler : Type 0 where
  pub cache_object : SccCacheObject
  pub done_reading : Bool
  pub range_start : ℕ
  pub range_end : ℕ

unfoldable pub new_hit : SccCacheObject → CacheHitHandler
new_hit object = record {
  cache_object = object;
  done_reading = false;
  range_start = 0;
  range_end = length object.body;
}

-- `Bytes::slice`, which panics on a range that is not in the bytes.
abbrev pub slice : Bytes → ℕ → ℕ → Result (Option Bytes)
slice body from to =
    if leb from to && leb to (length body)
    then done (some (take (to - from) (drop from body)))
    else panicked

unfoldable pub read_body : CacheHitHandler → CacheHitHandler × Result (Option Bytes)
read_body h =
    if h.done_reading
    then (h, done none)
    else (record h { done_reading = true }, slice h.cache_object.body h.range_start h.range_end)

abbrev pub seek_end : CacheHitHandler → ℕ → Option ℕ → CacheHitHandler
seek_end h start none = record h { range_start = start; done_reading = false }
seek_end h start (some end) = record h {
  range_start = start;
  range_end = min (length h.cache_object.body) end;
  done_reading = false;
}

unfoldable pub seek : CacheHitHandler → ℕ → Option ℕ → CacheHitHandler × Result (Unit {0})
seek h start end =
    if leb (length h.cache_object.body) start
    then (h, failed (seek_out_of_range start (length h.cache_object.body)))
    else (seek_end h start end, done tt)

module _ (format : MetaFormat) (map : SccHashMap SccCacheObject) where
  open format use {CacheMeta, serialize, deserialize, fresh_until}
  open map use {Map, get, insert, remove, update}

  -- A key is given by its hash.
  pub record MemoryStorage : Type 0 where
    pub cache : Map
    pub max_file_size_bytes : Option ℕ
    pub reject_empty_body : Bool

  -- Whether there was something to remove.
  unfoldable pub purge : MemoryStorage → ℕ → MemoryStorage × Bool
  purge s key = (
    record s { cache = remove s.cache key },
    elim (get s.cache key) [ none ↦ false | some _ ↦ true ],
  )

  abbrev pub found_meta :
      MemoryStorage
      → ℕ
      → ℕ
      → SccCacheObject
      → Option CacheMeta
      → MemoryStorage × Result (Option (CacheMeta × CacheHitHandler))
  unfolding purge new_hit
  found_meta s now key object none = (s, failed meta_format)
  found_meta s now key object (some meta) =
      let hit = done (some (meta, new_hit object)) in
      if ltb (fresh_until meta) now then ((purge s key).0, hit) else (s, hit)

  abbrev pub found :
      MemoryStorage
      → ℕ
      → ℕ
      → Option SccCacheObject
      → MemoryStorage × Result (Option (CacheMeta × CacheHitHandler))
  unfolding found_meta
  found s now key none = (s, done none)
  found s now key (some object) = found_meta s now key object (deserialize object.meta)

  -- At the time `now`.
  unfoldable pub lookup :
      MemoryStorage → ℕ → ℕ → MemoryStorage × Result (Option (CacheMeta × CacheHitHandler))
  unfolding found
  lookup s now key = found s now key (get s.cache key)

  abbrev pub updated : MemoryStorage → ℕ → Option (Bytes × Bytes) → MemoryStorage × Result Bool
  updated s key none = (s, failed meta_format)
  updated s key (some raw) = elim (get s.cache key) [
    | none ↦ (s, failed no_meta_found)
    | some _ ↦ (record s { cache = update s.cache key (λ o. record o { meta = raw }) }, done true)
  ]

  unfoldable pub update_meta : MemoryStorage → ℕ → CacheMeta → MemoryStorage × Result Bool
  update_meta s key meta = updated s key (serialize meta)

  -- The handler has a copy of the storage, which shares its map: the map is given to `finish`.
  pub record CacheMissHandler : Type 0 where
    pub meta : Bytes × Bytes
    pub key : ℕ
    pub body_buf : Bytes

  abbrev pub miss_with : ℕ → Option (Bytes × Bytes) → Result CacheMissHandler
  miss_with key none = failed meta_format
  miss_with key (some raw) = done (record { meta = raw; key = key; body_buf = [] })

  unfoldable pub get_miss_handler : ℕ → CacheMeta → Result CacheMissHandler
  get_miss_handler key meta = miss_with key (serialize meta)

  abbrev pub too_large : Option ℕ → ℕ → ℕ → Option CacheError
  too_large none size more = none
  too_large (some max) size more =
      if ltb max (add_usize size more) then some (response_too_large more max) else none

  unfoldable pub write_body :
      MemoryStorage → CacheMissHandler → Bytes → CacheMissHandler × Result (Unit {0})
  write_body s h piece = elim (too_large s.max_file_size_bytes (length h.body_buf) (length piece)) [
    | some e ↦ (h, failed e)
    | none ↦ (record h { body_buf = h.body_buf ++ piece }, done tt)
  ]

  unfoldable pub finish : MemoryStorage → CacheMissHandler → MemoryStorage × Result ℕ
  finish s h = if (length h.body_buf == 0) && s.reject_empty_body then (s, failed empty_body) else (
    record s { cache = insert s.cache h.key (record { meta = h.meta; body = h.body_buf }) },
    done (add_usize (add_usize (length h.body_buf) (length h.meta.0)) (length h.meta.1)),
  )
