-- ===== src/Gateway/Cache/Stores.antt =====
-- glaive/src/cache.rs: a response that is written is the response that is read, and one that has
-- expired is gone.
use glaive.Prelude.{
  ℕ, ◌-◌, ◌≤◌, ◌<◌, ◌≡◌, refl, ap, ◌∙◌, none, some, true, List, [], ◌∷◌, ◌++◌, length, arith, ◌==◌,
  add_usize, usize_mod, Bool-cases, Option-cases, inl, inr, append-nil, append_assoc, length-append,
  take_of_length-le,
}
use mathlib.Core.List.{flatten}
use glaive.Session.Offset.{Bytes}
use glaive.Gateway.Cache.{
  Result, done, failed, panicked, no_meta_found, SccCacheObject, CacheHitHandler, new_hit,
  read_body, MetaFormat, SccHashMap, MemoryStorage, purge, lookup, update_meta, CacheMissHandler,
  get_miss_handler, write_body, finish,
}

module _ (format : MetaFormat) (map : SccHashMap SccCacheObject) where
  open format use {CacheMeta, serialize, deserialize, fresh_until}
  open map use {get, insert, remove}

  -- The writes of a body, piece by piece, until one fails.
  abbrev pub then_write :
      (CacheMissHandler format map → CacheMissHandler format map × Result (Unit {0}))
      → CacheMissHandler format map × Result (Unit {0})
      → CacheMissHandler format map × Result (Unit {0})
  then_write rest (h, done _) = rest h
  then_write rest (h, failed e) = (h, failed e)
  then_write rest (h, panicked) = (h, panicked)

  abbrev pub write_pieces :
      MemoryStorage format map
      → List Bytes
      → CacheMissHandler format map
      → CacheMissHandler format map × Result (Unit {0})
  unfolding write_body
  write_pieces s [] h = (h, done tt)
  write_pieces s (piece ∷ pieces) h =
      then_write (write_pieces s pieces) (write_body format map s h piece)

  -- A body that the storage takes.
  pub record Accepts (s : MemoryStorage format map) (body : Bytes) : Type 0 where
    pub fits : (max : ℕ) → s.max_file_size_bytes ≡ some max → length body ≤ max
    pub not_empty : s.reject_empty_body ≡ true → 0 < length body
    pub small : length body < usize_mod

  write_body-appends :
      (s : MemoryStorage format map) (h : CacheMissHandler format map) (piece : Bytes)
      → ((max : ℕ) → s.max_file_size_bytes ≡ some max → length (h.body_buf ++ piece) ≤ max)
      → length (h.body_buf ++ piece) < usize_mod
      → write_body format map s h piece ≡ (record h { body_buf = h.body_buf ++ piece }, done tt)
  unfolding write_body
  write_body-appends s h piece fits small = elim (Option-cases s.max_file_size_bytes) [
    | inl e ↦ ground (arith, e)
    | inr (max, e) ↦ ground (arith, e, fits max e, small, length-append h.body_buf piece)
  ]

  write_pieces-appends :
      (s : MemoryStorage format map) (pieces : List Bytes) (h : CacheMissHandler format map)
      → ((max : ℕ) → s.max_file_size_bytes ≡ some max → length (h.body_buf ++ flatten pieces) ≤ max)
      → length (h.body_buf ++ flatten pieces) < usize_mod
      → write_pieces s pieces h ≡ (record h { body_buf = h.body_buf ++ flatten pieces }, done tt)
  unfolding write_pieces flatten
  write_pieces-appends s [] h fits small = rw (append-nil h.body_buf) refl
  write_pieces-appends s (piece ∷ pieces) h fits small =
      let rest = flatten pieces in
      let assoc = append_assoc h.body_buf piece rest in
      let same = ap length assoc in
      let first = length-append (h.body_buf ++ piece) rest in
      let one =
        write_body-appends s h piece (λ max e. omega (arith, fits max e, same, first))
          (omega (arith, small, same, first)) in
      let more =
        write_pieces-appends s pieces (record h { body_buf = h.body_buf ++ piece })
          (λ max e. omega (arith, fits max e, same)) (omega (arith, small, same)) in
      rw one (more ∙ ap (λ b. (record h { body_buf = b }, done tt)) assoc)

  -- A response that was stored and is read back.
  pub record Stores (s : MemoryStorage format map) (now key : ℕ) (meta : CacheMeta)
      (pieces : List Bytes) : Type 0 where
    pub opened : CacheMissHandler format map
    pub written : CacheMissHandler format map
    pub stored : MemoryStorage format map
    pub size : ℕ
    pub hit : CacheHitHandler
    pub opens : get_miss_handler format map key meta ≡ done opened
    pub writes : write_pieces s pieces opened ≡ (written, done tt)
    pub finishes : finish format map s written ≡ (stored, done size)
    pub looks_up : lookup format map stored now key ≡ (stored, done (some (meta, hit)))
    pub reads : (read_body hit).1 ≡ done (some (flatten pieces))
    pub reads_once : (read_body (read_body hit).0).1 ≡ done none

  -- A response whose metadata can be written, whose body the storage takes, and whose key is not
  -- yet there: however its body is cut into pieces, the writes and the finish succeed, and until
  -- it expires a lookup of the key gives its metadata and a handler that reads the body, once.
  pub finish-Stores :
      (s : MemoryStorage format map) (now key : ℕ) (meta : CacheMeta) (raw : Bytes × Bytes)
      (pieces : List Bytes)
      → serialize meta ≡ some raw
      → get s.cache key ≡ none
      → Accepts s (flatten pieces)
      → now ≤ fresh_until meta
      → Stores s now key meta pieces
  unfolding get_miss_handler finish lookup read_body new_hit
  finish-Stores s now key meta raw pieces ser fresh accepts in_time =
      let body = flatten pieces in
      let object : SccCacheObject = record { meta = raw; body = body } in
      let opened : CacheMissHandler format map = record { meta = raw; key = key; body_buf = [] } in
      let stored : MemoryStorage format map = record s { cache = insert s.cache key object } in
      let there = map.insert_new s.cache key object fresh in
      let read_meta = format.deserialize_serialize meta raw ser in
      let whole = take_of_length-le (length body - 0) body (omega arith) in
      record {
        opened = opened;
        written = record opened { body_buf = body };
        stored = stored;
        size = add_usize (add_usize (length body) (length raw.0)) (length raw.1);
        hit = new_hit object;
        opens = ground (arith, ser);
        writes = write_pieces-appends s pieces opened accepts.fits accepts.small;
        finishes = elim (Bool-cases s.reject_empty_body) [
          | inl r ↦ ground (arith, r, accepts.not_empty r)
          | inr r ↦ elim (Bool-cases (length body == 0)) [
            | inl z ↦ ground (arith, r, z)
            | inr z ↦ ground (arith, r, z)
          ]
        ];
        looks_up = ground (arith, there, read_meta, in_time);
        reads = ground (arith, whole);
        reads_once = refl;
      }

  -- What a lookup of a response that has expired does.
  pub record Expires (s : MemoryStorage format map) (now key : ℕ) (meta : CacheMeta)
      (object : SccCacheObject) : Type 0 where
    pub still_given : (lookup format map s now key).1 ≡ done (some (meta, new_hit object))
    pub then_gone :
        (later : ℕ) → (lookup format map (lookup format map s now key).0 later key).1 ≡ done none
    pub not_revalidated :
        (new : CacheMeta) (raw : Bytes × Bytes)
        → serialize new ≡ some raw
        → (update_meta format map (lookup format map s now key).0 key new).1 ≡ failed no_meta_found

  -- A lookup of a response that has expired still gives it, but takes it out: the next lookup
  -- finds nothing, and an update of its metadata, as a revalidation makes it, is an error.
  pub lookup-Expires :
      (s : MemoryStorage format map) (now key : ℕ) (meta : CacheMeta) (object : SccCacheObject)
      → get s.cache key ≡ some object
      → deserialize object.meta ≡ some meta
      → fresh_until meta < now
      → Expires s now key meta object
  unfolding lookup purge update_meta
  lookup-Expires s now key meta object there read_meta late =
      let e : lookup format map s now key
          ≡ (record s { cache = remove s.cache key }, done (some (meta, new_hit object))) =
        ground (arith, there, read_meta, late) in
      let gone = map.remove_self s.cache key in
      record {
        still_given = rw e refl;
        then_gone = λ later. rw (e, gone) refl;
        not_revalidated = λ new raw ser. rw e (ground (arith, ser, gone));
      }
