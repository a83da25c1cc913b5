-- ===== src/Gateway/Cache/Ranges.antt =====
-- glaive/src/cache.rs: what a hit handler reads after a seek.
use glaive.Prelude.{
  ℕ, ◌-◌, ◌≤◌, ◌<◌, ◌≡◌, refl, Option, none, some, true, false, length, take, drop, arith, leb,
  ◌&&◌, min, Bool-cases, inl, inr, take_of_length-le,
}
use glaive.Session.Offset.{Bytes}
use glaive.Gateway.Cache.{
  Result, done, failed, panicked, seek_out_of_range, SccCacheObject, new_hit, read_body, seek,
}

-- The end of a range that is asked for, in a body of that length.
abbrev pub end_in : ℕ → Option ℕ → ℕ
end_in len none = len
end_in len (some end) = min len end

-- What a read after a seek gives, by the range.
pub data Ranged (object : SccCacheObject) (start : ℕ) (end : Option ℕ)
    : Result (Unit {0}) → Result (Option Bytes) → Type 0 where
  outside :
      length object.body ≤ start
      → Ranged object start end
          (failed (seek_out_of_range start (length object.body)))
          (done (some object.body))
  inside :
      start < length object.body
      → start ≤ end_in (length object.body) end
      → Ranged object start end
          (done tt)
          (done (some (take (end_in (length object.body) end - start) (drop start object.body))))
  reversed :
      start < length object.body
      → end_in (length object.body) end < start
      → Ranged object start end (done tt) panicked

abbrev pub Reads : SccCacheObject → ℕ → Option ℕ → Type 0
unfolding seek read_body new_hit
Reads object start end =
    Ranged object start end (seek (new_hit object) start end).1
      (read_body (seek (new_hit object) start end).0).1

Reads-outside :
    (object : SccCacheObject) (start : ℕ) (end : Option ℕ)
    → leb (length object.body) start ≡ true
    → Reads object start end
unfolding Reads seek read_body new_hit
Reads-outside object start end e =
    let n = length object.body in
    let all : take (n - 0) object.body ≡ object.body =
      take_of_length-le (n - 0) object.body (omega arith) in
    let whole : (leb 0 n && leb n n) ≡ true = ground arith in
    let at : n ≤ start = ground arith in rw (e, whole, all) (outside at)

-- The same of a range that ends at `to`.
Reads-inside :
    (object : SccCacheObject) (start : ℕ) (end : Option ℕ)
    → leb (length object.body) start ≡ false
    → Reads object start end
unfolding Reads seek read_body new_hit
Reads-inside object start none e =
    let n = length object.body in
    let fits : (leb start n && leb n n) ≡ true = ground (arith, e) in
    rw (e, fits) (inside (ground (arith, e)) (ground (arith, e)))
Reads-inside object start (some end) e =
    let n = length object.body in
    let to = min n end in
    elim (Bool-cases (leb start to)) [
      | inl f ↦
          let fits : (leb start to && leb to n) ≡ true = ground (arith, f) in
          rw (e, fits) (inside (ground (arith, e)) (ground (arith, f)))
      | inr f ↦
          let bad : (leb start to && leb to n) ≡ false = rw f refl in
          rw (e, bad) (reversed (ground (arith, e)) (ground (arith, f)))
    ]

-- After a seek on a fresh hit handler: a start outside the body is an error, which leaves the
-- handler as it was; else a read gives exactly the bytes of the range, cut at the body's end; and
-- a range whose end is before its start is accepted, and its read panics.
pub seek-Reads : (object : SccCacheObject) (start : ℕ) (end : Option ℕ) → Reads object start end
seek-Reads object start end = elim (Bool-cases (leb (length object.body) start)) [
  | inl e ↦ Reads-outside object start end e
  | inr e ↦ Reads-inside object start end e
]
