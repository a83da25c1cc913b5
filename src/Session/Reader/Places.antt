-- ===== src/Session/Reader/Places.antt =====
-- Reading chunks: where the reader stands in its buffer, and that no `take` leaves it.
use glaive.Prelude.{
  ℕ, ◌+◌, ◌-◌, ◌≤◌, ◌<◌, ◌≡◌, ◌⊎◌, refl, none, some, ok, err, panic, arith, usize_mod, ltb, ◌==◌,
  take, drop, length, Bool-cases, inl, inr, length-take, length-drop,
}
use glaive.Session.Offset.{Bytes}
use glaive.Session.Streams.{ChunkParser, ChunkStatus}
use glaive.Session.Reader.{ReadState, start, completed, done, partial, chunked, http10, BodyReader}
use glaive.Session.Reader.Takes.{
  Read, take_expected, take_chunk, take_head, parse_head, parse_chunked_buf, take_chunked,
}

-- Where a chunked reader stands in a buffer of the given size: it wants a new buffer, or it holds
-- an unfinished head at the end of the bytes that have come, or there is more to parse.
abbrev pub IsPlaced : ℕ → ReadState → Type 0
IsPlaced size (chunked _ from buf_end expecting) =
    ((from ≡ 0) × (buf_end ≡ 0))
    ⊎ (((from ≡ 0) × (0 < expecting) × (expecting ≤ buf_end) × (buf_end ≤ size))
        ⊎ ((0 < from) × (from < buf_end) × (buf_end ≤ size) × (expecting ≡ 0)))
IsPlaced size (completed _) = Unit
IsPlaced size (done _) = Unit
IsPlaced size start = ⊥
IsPlaced size (partial _ _) = ⊥
IsPlaced size (http10 _) = ⊥

-- What a call may give: no panic, and an offset only inside the buffer.
abbrev pub IsWithin : ℕ → Read → Type 0
IsWithin size (ok none) = Unit
IsWithin size (ok (some o)) = (o.from ≤ o.to) × (o.to ≤ size)
IsWithin size (err _) = Unit
IsWithin size panic = ⊥

-- The reader has a buffer of that size, and stands in it.
pub record IsSafe (size : ℕ) (r : BodyReader) : Type 0 where
  pub buffer : Bytes
  pub has : r.body_buffer ≡ some buffer
  pub same_size : length buffer ≡ size
  pub rewinds : r.rewind_buf_size ≤ size
  pub placed : IsPlaced size r.read_state

-- All that a `take` changes is the state.
pub record IsTaken (size : ℕ) (r r' : BodyReader) (result : Read) : Type 0 where
  pub same_buffer : r'.body_buffer ≡ r.body_buffer
  pub same_rewind : r'.rewind_buf_size ≡ r.rewind_buf_size
  pub placed : IsPlaced size r'.read_state
  pub within : IsWithin size result

-- The size that the bytes announce, if they do, leaves room for its head and its CRLF in a `usize`.
abbrev pub SizeFits : ChunkParser → Bytes → Type 0
SizeFits parser bs =
    (head size : ℕ)
    → parser.parse_chunk_size bs ≡ ChunkStatus.complete head size
    → head + size + 2 < usize_mod

-- The same of the bytes that `take_chunked` hands to the parser, where it does.
abbrev pub ParsedFits : ChunkParser → BodyReader → ℕ → ℕ → ℕ → Type 0
ParsedFits parser r from buf_end expecting =
    (buf : Bytes)
    → r.body_buffer ≡ some buf
    → 0 < buf_end
    → expecting ≡ 0
    → SizeFits parser (take (buf_end - from) (drop from buf))

-- A buffer of `size` bytes of which `buf_end` have come, and a reader with no more than the state.
module _ (r : BodyReader) (size total from0 buf_end : ℕ)
    (st : r.read_state ≡ chunked total from0 buf_end 0) (small : size < usize_mod)
    (fits : buf_end ≤ size) where
  take_expected-IsTaken :
      (expecting : ℕ)
      → 0 < buf_end
      → 0 < expecting
      → let t = take_expected r buf_end expecting in IsTaken size r t.0 t.1
  unfolding take_expected
  take_expected-IsTaken expecting pos owed = ground (arith, st)

  take_chunk-IsTaken :
      (from rest head chunk_size : ℕ)
      → from + rest ≡ buf_end
      → head ≤ rest
      → head + chunk_size + 2 < usize_mod
      → let t = take_chunk r from rest head chunk_size in IsTaken size r t.0 t.1
  unfolding take_chunk
  take_chunk-IsTaken from rest head chunk_size whole inside fine = ground (arith, st)

  take_head-IsTaken :
      (from rest : ℕ)
      → from + rest ≡ buf_end
      → 0 < rest
      → let t = take_head r buf_end rest in IsTaken size r t.0 t.1
  unfolding take_head
  take_head-IsTaken from rest whole some_rest = ground (arith, st)

  module _ (parser : ChunkParser) where
    parse_head-IsTaken :
        (from : ℕ) (rest : Bytes) (status : ChunkStatus)
        → parser.parse_chunk_size rest ≡ status
        → from + length rest ≡ buf_end
        → 0 < length rest
        → SizeFits parser rest
        → let t = parse_head parser r from buf_end rest in IsTaken size r t.0 t.1
    unfolding parse_head
    parse_head-IsTaken from rest (ChunkStatus.complete head n) e whole some_rest size_fits =
        rw (e, parse_head)
          (take_chunk-IsTaken from (length rest) head n whole (parser.head_fits rest head n e).1
            (size_fits head n e))
    parse_head-IsTaken from rest ChunkStatus.partial e whole some_rest size_fits =
        rw (e, parse_head) (take_head-IsTaken from (length rest) whole some_rest)
    parse_head-IsTaken from rest ChunkStatus.invalid e whole some_rest size_fits =
        ground (arith, e, st)

    pub take_chunked-IsTaken :
        (buf : Bytes) (from expecting : ℕ)
        → r.body_buffer ≡ some buf
        → length buf ≡ size
        → (0 < expecting) ⊎ (from < buf_end) ⊎ (buf_end ≡ 0)
        → ParsedFits parser r from buf_end expecting
        → let t = take_chunked parser r from buf_end expecting in IsTaken size r t.0 t.1
    unfolding take_chunked parse_chunked_buf
    take_chunked-IsTaken buf from expecting has whole owed size_fits =
        elim (Bool-cases (buf_end == 0)) [
          | inl e ↦ ground (arith, st)
          | inr e ↦ elim (Bool-cases (ltb 0 expecting)) [
            | inl h ↦ ground (arith, take_expected-IsTaken expecting)
            | inr h ↦
                let rest = take (buf_end - from) (drop from buf) in
                let whole_rest : from + length rest ≡ buf_end =
                  ground
                    (arith, length-take (buf_end - from) (drop from buf), length-drop from buf) in
                let some_rest : 0 < length rest = ground (arith, whole_rest) in
                let taken =
                  parse_head-IsTaken from rest (parser.parse_chunk_size rest) refl whole_rest
                    some_rest (size_fits buf has (ground (arith, e)) (ground (arith, h))) in
                ground (arith, has, taken)
          ]
        ]
