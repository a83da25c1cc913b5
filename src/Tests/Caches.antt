-- ===== src/Tests/Caches.antt =====
-- A map and a format of metadata for the response cache, tests of it, and instances of its theorems.
use glaive.Prelude.{
  ℕ, ◌≡◌, ◌≢◌, refl, Option, none, some, true, List, [], ◌∷◌, arith, ◌==◌, if◌then◌else◌,
  Bool-cases, inl, inr, find, Option-cases,
}
use mathlib.Core.List.{flatten}
use glaive.Session.Offset.{Bytes}
use glaive.Text.{text}
use glaive.Gateway.Cache.{
  SccCacheObject, MetaFormat, SccHashMap, MemoryStorage, new_hit, read_body, seek, done,
}
use glaive.Gateway.Cache.Ranges.{Reads, seek-Reads}
use glaive.Gateway.Cache.Stores.{Accepts, Stores, finish-Stores, Expires, lookup-Expires}

module _ {V : Type 0} where
  abbrev put : List (ℕ × V) → ℕ → V → List (ℕ × V)
  put m k v = elim (find k m) [ none ↦ (k, v) ∷ m | some w ↦ m ]

  -- All entries of a key go.
  abbrev erase : ℕ → List (ℕ × V) → List (ℕ × V)
  erase k [] = []
  erase k ((j, v) ∷ m) = let rest = erase k m in if k == j then rest else (j, v) ∷ rest

  abbrev change : List (ℕ × V) → ℕ → (V → V) → List (ℕ × V)
  change [] k f = []
  change ((j, v) ∷ m) k f = if k == j then (j, f v) ∷ m else (j, v) ∷ change m k f

  put_new : (m : List (ℕ × V)) (k : ℕ) (v : V) → find k m ≡ none → find k (put m k v) ≡ some v
  put_new m k v e = ground (arith, e)

  put_present :
      (m : List (ℕ × V)) (k : ℕ) (v w : V) → find k m ≡ some w → find k (put m k v) ≡ some w
  put_present m k v w e = ground (arith, e)

  put_ne : (m : List (ℕ × V)) (k j : ℕ) (v : V) → j ≢ k → find j (put m k v) ≡ find j m
  put_ne m k j v ne = elim (Option-cases (find k m)) [
    | inl e ↦ ground (arith, e, ne)
    | inr (w, e) ↦ ground (arith, e)
  ]

  erase_self : (m : List (ℕ × V)) (k : ℕ) → find k (erase k m) ≡ none
  erase_self [] k = refl
  erase_self ((j, v) ∷ m) k = elim (Bool-cases (k == j)) [
    | inl e ↦ rw e (erase_self m k)
    | inr e ↦ rw (e, e) (erase_self m k)
  ]

  erase_ne : (m : List (ℕ × V)) (k j : ℕ) → j ≢ k → find j (erase k m) ≡ find j m
  erase_ne [] k j ne = refl
  erase_ne ((i, v) ∷ m) k j ne = elim (Bool-cases (k == i)) [
    | inl e ↦ ground (arith, erase_ne m k j ne, ne)
    | inr e ↦ ground (arith, erase_ne m k j ne)
  ]

  change_self :
      (m : List (ℕ × V)) (k : ℕ) (f : V → V) (v : V)
      → find k m ≡ some v
      → find k (change m k f) ≡ some (f v)
  change_self [] k f v e = absurd cc
  change_self ((j, w) ∷ m) k f v e = elim (Bool-cases (k == j)) [
    | inl t ↦ let same : w ≡ v = ground (arith, t, e) in rw (t, same, t) refl
    | inr t ↦ ground (arith, change_self m k f v (ground (arith, t, e)))
  ]

abbrev objects : SccHashMap SccCacheObject
objects = record {
  Map = List (ℕ × SccCacheObject);
  get = λ m k. find k m;
  insert = put;
  remove = λ m k. erase k m;
  update = change;
  insert_new = put_new;
  insert_present = put_present;
  insert_ne = put_ne;
  remove_self = erase_self;
  remove_ne = erase_ne;
  update_self = change_self;
}

-- The metadata is the time until which it is fresh.
abbrev read_time : Bytes × Bytes → Option ℕ
read_time ([], b) = none
read_time (t ∷ a, b) = some t

read_time-write :
    (t : ℕ) (raw : Bytes × Bytes)
    → ◌≡◌ {A = Option (Bytes × Bytes)} (some (t ∷ [], [])) (some raw)
    → read_time raw ≡ some t
read_time-write t ([], b) e = absurd cc
read_time-write t (s ∷ a, b) e = ground (arith, e)

abbrev times : MetaFormat
times = record {
  CacheMeta = ℕ;
  serialize = λ t. some (t ∷ [], []);
  deserialize = read_time;
  fresh_until = λ t. t;
  deserialize_serialize = read_time-write;
}

abbrev object : SccCacheObject
object = record { meta = (60 ∷ [], []); body = text "hello, cache" }

seek-Reads_example : Reads object 7 (some 100)
seek-Reads_example = seek-Reads object 7 (some 100)

reads_range : (read_body (seek (new_hit object) 7 (some 100)).0).1 ≡ done (some (text "cache"))
unfolding read_body seek new_hit
reads_range = refl

abbrev storage : MemoryStorage times objects
storage = record { cache = []; max_file_size_bytes = some 12; reject_empty_body = true }

storage-Accepts : Accepts times objects storage (text "hello, cache")
storage-Accepts = record {
  fits = λ max e. let same : 12 ≡ max = cc in omega (arith, same);
  not_empty = λ e. omega arith;
  small = omega arith;
}

finish-Stores_example : Stores times objects storage 50 7 60 (text "hello, " ∷ (text "cache" ∷ []))
unfolding flatten
finish-Stores_example =
    finish-Stores times objects storage 50 7 60 (60 ∷ [], []) (text "hello, " ∷ (text "cache" ∷ []))
      refl refl storage-Accepts (omega arith)

lookup-Expires_example :
    Expires times objects (record storage { cache = (7, object) ∷ [] }) 61 7 60 object
lookup-Expires_example =
    lookup-Expires times objects (record storage { cache = (7, object) ∷ [] }) 61 7 60 object refl
      refl (omega arith)
