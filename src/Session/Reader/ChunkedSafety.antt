-- ===== src/Session/Reader/ChunkedSafety.antt =====
-- Reading chunks never indexes outside the buffer: an invariant of the reader's places in it.
use glaive.Prelude.{
  ℕ, zero, suc, ◌-◌, ◌≤◌, ◌<◌, ◌≡◌, ◌≢◌, refl, ◌∙◌, subst, none, some, [], ◌++◌, Outcome, ok, err,
  panic, arith, add_usize, usize_mod, take, drop, length, inl, inr, length-append,
}
use glaive.Session.Offset.{Bytes}
use glaive.Session.Streams.{AsyncRead, ChunkParser, Memory}
use glaive.Session.Reader.Collect.{Collected, next_body, collect, buffered}
use glaive.Session.Reader.{get_sliced_body, with_chunked_read}
use glaive.Session.Reader.{
  ReadState, start, completed, done, partial, chunked, http10, new_buf, BodyReader,
}
use glaive.Session.Reader.Takes.{take_new_buf, Read, take_chunked}
use glaive.Session.Reader.Reads.{fill, refill, read_chunked_at, read_chunked, read_body, then_take}
use glaive.Session.Reader.Places.{
  IsPlaced, IsWithin, IsSafe, IsTaken, ParsedFits, take_chunked-IsTaken,
}
use glaive.Session.Reader.Landing.{IsLanded, fill-IsLanded, refill-IsLanded}

-- A call of the reader hands no bytes to the parser that announce a size that overflows: in a new
-- buffer, in one that starts with an unfinished head, or in what is left of one.
pub record CallFits (io : AsyncRead) (parser : ChunkParser) (r : BodyReader) (s : io.Stream)
    : Type 0 where
  pub new :
      (total from buf_end expecting : ℕ)
      → r.read_state ≡ chunked total from buf_end expecting
      → from ≡ 0
      → buf_end ≡ 0
      → (k : ℕ) → (fill io r s).2 ≡ ok k
      → ParsedFits parser (fill io r s).0 0 k expecting
  pub more_of_head :
      (total from buf_end expecting : ℕ)
      → r.read_state ≡ chunked total from buf_end expecting
      → from ≡ 0
      → 0 < buf_end
      → (k : ℕ) → (refill io r s buf_end expecting).2 ≡ ok k
      → ParsedFits parser (refill io r s buf_end expecting).0 0 (add_usize expecting k) 0
  pub more_to_parse :
      (total from buf_end expecting : ℕ)
      → r.read_state ≡ chunked total from buf_end expecting
      → 0 < from
      → ParsedFits parser r from buf_end expecting

-- So do a number of calls, one after the other.
abbrev pub HeadsFit : (io : AsyncRead) → ChunkParser → ℕ → BodyReader → io.Stream → Type 0
HeadsFit io parser zero r s = Unit
HeadsFit io parser (suc calls) r s =
    let t = read_body io parser r s in CallFits io parser r s × HeadsFit io parser calls t.0 t.1

module _ (size : ℕ) (small : size < usize_mod) where
  -- A reader that a `take` left stands in the same buffer.
  of_taken :
      (r r' : BodyReader) (buf : Bytes) (result : Read)
      → r.body_buffer ≡ some buf
      → length buf ≡ size
      → r.rewind_buf_size ≤ size
      → IsTaken size r r' result
      → IsSafe size r' × IsWithin size result
  of_taken r r' buf result has whole rewinds t = (
    record {
      buffer = buf;
      has = t.same_buffer ∙ has;
      same_size = whole;
      rewinds = omega (arith, t.same_rewind);
      placed = t.placed;
    },
    t.within,
  )

  module _ (io : AsyncRead) (parser : ChunkParser) where
    open io use {Stream}

    take_new_buf-IsSafe :
        (r : BodyReader) (buf : Bytes) (total from0 end0 x buf_end expecting : ℕ)
        → r.body_buffer ≡ some buf
        → length buf ≡ size
        → r.rewind_buf_size ≤ size
        → r.read_state ≡ chunked total from0 end0 x
        → buf_end ≤ size
        → ParsedFits parser r 0 buf_end expecting
        → let t = take_new_buf parser r buf_end expecting in IsSafe size t.0 × IsWithin size t.1
    unfolding take_new_buf
    take_new_buf-IsSafe r buf total from0 end0 x buf_end expecting has whole rewinds st fits sizes =
        of_taken _ _ buf _ has whole rewinds (
          take_chunked-IsTaken (record r { read_state = new_buf r.read_state buf_end }) size total 0
            buf_end (ground (arith, st)) small fits parser buf 0 expecting has whole (ground arith)
            sizes)

    then_take-IsSafe :
        (f : BodyReader → ℕ → BodyReader × Read) (r r' : BodyReader) (room : ℕ) (s : Stream)
        (n : Outcome ℕ)
        → IsPlaced size r.read_state
        → r.rewind_buf_size ≤ size
        → (landed : IsLanded size room r r' n)
        → ((k : ℕ) → n ≡ ok k → IsSafe size (f r' k).0 × IsWithin size (f r' k).1)
        → let t = then_take io f (r', s, n) in IsSafe size t.0 × IsWithin size t.2
    then_take-IsSafe f r r' room s (ok k) placed rewinds landed go = go k refl
    then_take-IsSafe f r r' room s (err e) placed rewinds landed go = (
      record {
        buffer = landed.buffer;
        has = landed.has;
        same_size = landed.same_size;
        rewinds = omega arith;
        placed = rw landed.same_state placed;
      },
      tt,
    )
    then_take-IsSafe f r r' room s panic placed rewinds landed go = absurd (landed.returns refl)

    module _ (r : BodyReader) (s : Stream) (total from buf_end expecting : ℕ)
        (st : r.read_state ≡ chunked total from buf_end expecting) (safe : IsSafe size r)
        (sizes : CallFits io parser r s) where
      -- The three ways into `read_chunked`: a new buffer, more of a head, more to parse.
      read_new :
          from ≡ 0
          → buf_end ≡ 0
          → read_chunked io parser r s
            ≡ then_take io (λ r' n. take_new_buf parser r' n expecting) (fill io r s)
      unfolding read_chunked read_chunked_at
      read_new a b = ground (arith, st)

      read_head :
          from ≡ 0
          → 0 < buf_end
          → read_chunked io parser r s
            ≡ then_take io
                (λ r' n. take_new_buf parser r' (add_usize expecting n) 0)
                (refill io r s buf_end expecting)
      unfolding read_chunked read_chunked_at
      read_head a b = ground (arith, st)

      read_more :
          0 < from
          → read_chunked io parser r s
            ≡ (let (r', result) = take_chunked parser r from buf_end expecting in (r', s, result))
      unfolding read_chunked read_chunked_at
      read_more a = ground (arith, st)

      new-IsSafe :
          from ≡ 0
          → buf_end ≡ 0
          → let t = read_chunked io parser r s in IsSafe size t.0 × IsWithin size t.2
      new-IsSafe a b =
          let t = fill io r s in
          let landed : IsLanded size size r t.0 t.2 =
            subst (λ z. IsLanded z z r t.0 t.2) safe.same_size
              (fill-IsLanded io r safe.buffer s safe.has (omega arith)) in
          rw (read_new a b) (
            then_take-IsSafe (λ r' n. take_new_buf parser r' n expecting) r t.0 size t.1 t.2
              safe.placed safe.rewinds landed
              λ k e.
                take_new_buf-IsSafe t.0 landed.buffer total from buf_end expecting k expecting
                  landed.has landed.same_size (omega arith) (landed.same_state ∙ st)
                  (landed.bounded k e) (sizes.new total from buf_end expecting st a b k e))

      head-IsSafe :
          from ≡ 0
          → 0 < expecting
          → expecting ≤ buf_end
          → buf_end ≤ size
          → let t = read_chunked io parser r s in IsSafe size t.0 × IsWithin size t.2
      head-IsSafe a pos inside fits =
          let t = refill io r s buf_end expecting in
          let landed : IsLanded size (size - expecting) r t.0 t.2 =
            subst (λ z. IsLanded z (z - expecting) r t.0 t.2) safe.same_size
              (refill-IsLanded io r safe.buffer s buf_end expecting safe.has inside
                (omega arith)) in
          rw (read_head a (omega arith)) (
            then_take-IsSafe (λ r' n. take_new_buf parser r' (add_usize expecting n) 0) r t.0
              (size - expecting) t.1 t.2 safe.placed safe.rewinds landed
              λ k e.
                take_new_buf-IsSafe t.0 landed.buffer total from buf_end expecting
                  (add_usize expecting k) 0 landed.has landed.same_size (omega arith)
                  (landed.same_state ∙ st) (omega (arith, landed.bounded k e))
                  (sizes.more_of_head total from buf_end expecting st a (omega arith) k e))

      more-IsSafe :
          0 < from
          → from < buf_end
          → buf_end ≤ size
          → expecting ≡ 0
          → let t = read_chunked io parser r s in IsSafe size t.0 × IsWithin size t.2
      more-IsSafe pos inside fits none_owed = rw (read_more pos) (
          of_taken r _ safe.buffer _ safe.has safe.same_size safe.rewinds (
            take_chunked-IsTaken r size total from buf_end (ground (arith, st)) small fits parser
              safe.buffer from expecting safe.has safe.same_size (ground arith)
              (sizes.more_to_parse total from buf_end expecting st pos)))

      chunked-IsSafe : let t = read_chunked io parser r s in IsSafe size t.0 × IsWithin size t.2
      chunked-IsSafe = elim (rw st at safe.placed) [
        | inl (a, b) ↦ new-IsSafe a b
        | inr (inl (a, b, c, d)) ↦ head-IsSafe a b c d
        | inr (inr (a, b, c, d)) ↦ more-IsSafe a b c d
      ]

    -- A call on a safe reader leaves it safe, whatever the stream gives, and what the call returns
    -- is no panic, and no offset outside the buffer.
    pub read_body-IsSafe :
        (r : BodyReader) (s : Stream)
        → IsSafe size r
        → CallFits io parser r s
        → let t = read_body io parser r s in IsSafe size t.0 × IsWithin size t.2
    unfolding read_body
    read_body-IsSafe r s safe sizes = by_state r.read_state refl
      where
        by_state :
            (st : ReadState)
            → r.read_state ≡ st
            → let t = read_body io parser r s in IsSafe size t.0 × IsWithin size t.2
        by_state start st = absurd (rw st at safe.placed)
        by_state (completed n) st =
            let e : read_body io parser r s ≡ (r, s, ok none) = ground (arith, st) in
            rw e (safe, tt)
        by_state (done n) st =
            let e : read_body io parser r s ≡ (r, s, ok none) = ground (arith, st) in
            rw e (safe, tt)
        by_state (partial a b) st = absurd (rw st at safe.placed)
        by_state (chunked total from buf_end expecting) st =
            let e : read_body io parser r s ≡ read_chunked io parser r s = ground (arith, st) in
            rw e (chunked-IsSafe r s total from buf_end expecting st safe sizes)
        by_state (http10 n) st = absurd (rw st at safe.placed)

    next_body-returns :
        (again : BodyReader → Stream → Bytes → Collected io parser) (body : Bytes) (r : BodyReader)
        (s : Stream) (result : Read)
        → IsSafe size r
        → IsWithin size result
        → ((bs : Bytes) → (again r s bs).2 ≢ panic)
        → (next_body io parser again body (r, s, result)).2 ≢ panic
    unfolding get_sliced_body
    next_body-returns again body r s (ok none) safe inside more = λ h. cc
    next_body-returns again body r s (ok (some o)) safe inside more =
        let bs : Bytes = take (o.to - o.from) (drop o.from safe.buffer) in
        let e : get_sliced_body r o ≡ ok bs = ground (arith, safe.has, safe.same_size) in
        rw (e, next_body) (more (body ++ bs))
    next_body-returns again body r s (err x) safe inside more = λ h. cc
    next_body-returns again body r s panic safe inside more = absurd inside

    collect-returns :
        (fuel : ℕ) (r : BodyReader) (s : Stream) (body : Bytes)
        → IsSafe size r
        → HeadsFit io parser fuel r s
        → (collect io parser fuel r s body).2 ≢ panic
    unfolding collect
    collect-returns zero r s body safe sizes = λ h. cc
    collect-returns (suc fuel) r s body safe sizes =
        let t = read_body io parser r s in
        let both = read_body-IsSafe r s safe sizes.0 in
        next_body-returns (collect io parser fuel) body t.0 t.1 t.2 both.0 both.1
          (λ bs. collect-returns fuel t.0 t.1 bs both.0 sizes.1)

-- A reader set to read chunks does not panic and does not slice outside its buffer, however often it
-- is called, whatever the stream gives and whether or not it fails, so long as no chunk head that is
-- parsed on the way announces a size that with the head and its CRLF overflows a `usize`, and if no
-- bytes to rewind are left from before.
pub chunked-returns :
    (io : AsyncRead) (parser : ChunkParser) (m : Memory)
    → (r : BodyReader) (rewind : Bytes) (s : io.Stream) (fuel : ℕ)
    → HeadsFit io parser fuel (with_chunked_read m r rewind) s
    → r.rewind_buf_size ≡ 0
    → length (buffered m r rewind) < usize_mod
    → (collect io parser fuel (with_chunked_read m r rewind) s []).2 ≢ panic
unfolding with_chunked_read buffered
chunked-returns io parser m r rewind s fuel sizes fresh small =
    collect-returns (length (buffered m r rewind)) small io parser fuel _ s []
      (record {
        buffer = buffered m r rewind;
        has = refl;
        same_size = refl;
        rewinds = ground (arith, length-append rewind (m.uninit (r.body_size - length rewind)));
        placed = inl (refl, refl);
      })
      sizes
