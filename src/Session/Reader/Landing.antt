-- ===== src/Session/Reader/Landing.antt =====
-- Filling the buffer keeps its size and the reader's state, whatever the stream does.
use glaive.Prelude.{
  ℕ, ◌+◌, ◌-◌, ◌≤◌, ◌≡◌, ◌≢◌, refl, ◌∙◌, some, ◌++◌, Outcome, ok, err, panic, arith, ◌==◌, take,
  drop, length, Bool-cases, inl, inr, length-append, length-take, length-drop,
}
use glaive.Session.Offset.{Bytes}
use glaive.Session.Streams.{AsyncRead}
use glaive.Session.Reader.{BodyReader}
use glaive.Session.Reader.Reads.{overwrite, land, fill_buf, fill, refill_moved, refill_buf, refill}

length-overwrite :
    (buf bs : Bytes) (at : ℕ)
    → at + length bs ≤ length buf
    → length (overwrite buf at bs) ≡ length buf
unfolding overwrite
length-overwrite buf bs at h = omega (
  arith,
  length-append (take at buf) (bs ++ drop (at + length bs) buf),
  length-append bs (drop (at + length bs) buf),
  length-take at buf,
  length-drop (at + length bs) buf,
)

-- What filling the buffer leaves: the reader's state, a buffer of the same size, and at most
-- `room` bytes more in it.
pub record IsLanded (size room : ℕ) (r r' : BodyReader) (n : Outcome ℕ) : Type 0 where
  pub buffer : Bytes
  pub has : r'.body_buffer ≡ some buffer
  pub same_size : length buffer ≡ size
  pub same_state : r'.read_state ≡ r.read_state
  pub rewinds : r'.rewind_buf_size ≤ r.rewind_buf_size
  pub returns : n ≢ panic
  pub bounded : (k : ℕ) → n ≡ ok k → k ≤ room

module _ (io : AsyncRead) where
  open io use {Stream, read, read_fits, read_returns}

  land-IsLanded :
      (r : BodyReader) (buf : Bytes) (at room : ℕ) (s s' : Stream) (got : Outcome Bytes)
      → (read s room).1 ≡ got
      → at + room ≡ length buf
      → let t = land io r buf at (s', got) in IsLanded (length buf) room r t.0 t.2
  unfolding land
  land-IsLanded r buf at room s s' (ok bs) e whole =
      let fits = read_fits s room bs e in
      record {
        buffer = overwrite buf at bs;
        has = refl;
        same_size = length-overwrite buf bs at (omega (arith, fits));
        same_state = refl;
        rewinds = omega arith;
        returns = λ h. cc;
        bounded = λ k h. ground (arith, fits);
      }
  land-IsLanded r buf at room s s' (err x) e whole = record {
    buffer = buf;
    has = refl;
    same_size = refl;
    same_state = refl;
    rewinds = omega arith;
    returns = λ h. cc;
    bounded = λ k h. cc;
  }
  land-IsLanded r buf at room s s' panic e whole = absurd (read_returns s room e)

  pub fill-IsLanded :
      (r : BodyReader) (buf : Bytes) (s : Stream)
      → r.body_buffer ≡ some buf
      → r.rewind_buf_size ≤ length buf
      → let t = fill io r s in IsLanded (length buf) (length buf) r t.0 t.2
  unfolding fill fill_buf
  fill-IsLanded r buf s has fits = elim (Bool-cases (r.rewind_buf_size == 0)) [
    | inl e ↦
        let landed =
          land-IsLanded (record r { rewind_buf_size = 0 }) buf 0 (length buf) s
            (read s (length buf)).0 (read s (length buf)).1 refl (omega arith) in
        rw (has, fill)
          (rw e (record {
            buffer = landed.buffer;
            has = landed.has;
            same_size = landed.same_size;
            same_state = landed.same_state;
            rewinds = omega arith;
            returns = landed.returns;
            bounded = landed.bounded;
          }))
    | inr e ↦
        rw (has, fill)
          (rw e (record {
            buffer = buf;
            has = has;
            same_size = refl;
            same_state = refl;
            rewinds = omega arith;
            returns = λ h. cc;
            bounded = λ k h. ground arith;
          }))
  ]

  -- The head of `expecting` bytes that ends at `buf_end`, and the buffer with it at the front.
  abbrev pub head : Bytes → ℕ → ℕ → Bytes
  head buf buf_end expecting =
      take (buf_end - (buf_end - expecting)) (drop (buf_end - expecting) buf)

  pub length-head :
      (buf : Bytes) (buf_end expecting : ℕ)
      → expecting ≤ buf_end
      → buf_end ≤ length buf
      → length (head buf buf_end expecting) ≡ expecting
  length-head buf buf_end expecting inside fits = omega (
    arith,
    length-take (buf_end - (buf_end - expecting)) (drop (buf_end - expecting) buf),
    length-drop (buf_end - expecting) buf,
  )

  module _ (r : BodyReader) (buf : Bytes) (s : Stream) (buf_end expecting : ℕ)
      (has : r.body_buffer ≡ some buf) (inside : expecting ≤ buf_end)
      (fits : buf_end ≤ length buf) where
    abbrev pub moved : Bytes
    moved = overwrite buf 0 (head buf buf_end expecting)

    pub length-moved : length moved ≡ length buf
    length-moved =
        length-overwrite buf (head buf buf_end expecting) 0
          (omega (arith, length-head buf buf_end expecting inside fits))

    pub refill-eq-land :
        refill io r s buf_end expecting
        ≡ land io r moved expecting (read s (length moved - expecting))
    unfolding refill refill_buf refill_moved
    refill-eq-land = ground (arith, has, length-moved)

    pub refill-IsLanded :
        let t = refill io r s buf_end expecting in
        IsLanded (length buf) (length buf - expecting) r t.0 t.2
    refill-IsLanded =
        let room : ℕ = length moved - expecting in
        let landed =
          land-IsLanded r moved expecting room s (read s room).0 (read s room).1 refl
            (omega (arith, length-moved)) in
        rw refill-eq-land (record {
          buffer = landed.buffer;
          has = landed.has;
          same_size = landed.same_size ∙ length-moved;
          same_state = landed.same_state;
          rewinds = landed.rewinds;
          returns = landed.returns;
          bounded = λ k h. omega (arith, landed.bounded k h, length-moved);
        })
