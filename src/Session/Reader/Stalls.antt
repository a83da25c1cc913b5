-- ===== src/Session/Reader/Stalls.antt =====
-- A peer that closes in the middle of a chunk's head: the reader does not find out.
use glaive.Prelude.{
  ℕ, zero, suc, ◌+◌, ◌≤◌, ◌<◌, ◌≡◌, refl, sym, ◌∙◌, ap, subst, some, List, [], ◌∷◌, ok, arith,
  add_usize, take, drop, length, take-append-drop, take-append_le, take_all,
}
use glaive.Session.Offset.{Bytes}
use glaive.Session.Streams.{AsyncRead, ChunkParser, ChunkStatus}
use glaive.Session.Reader.{chunked, partial_chunk_head_limit, BodyReader}
use glaive.Session.Reader.Takes.{
  Read, some_offset, take_head, parse_head, parse_chunked_buf, take_chunked, take_new_buf,
}
use glaive.Session.Reader.Reads.{
  overwrite, land, refill, read_chunked_at, read_chunked, read_body, then_take,
}
use glaive.Session.Reader.Landing.{head, length-moved, refill-eq-land}

abbrev pub empty_slices : ℕ → List Read
empty_slices zero = []
empty_slices (suc n) = some_offset 0 0 ∷ empty_slices n

module _ (io : AsyncRead) (parser : ChunkParser) where
  -- A number of calls of the reader, with all that they return.
  unfoldable pub calls : ℕ → BodyReader → io.Stream → BodyReader × io.Stream × List Read
  unfolding read_body
  calls zero r s' = (r, s', [])
  calls (suc n) r s' =
      let (r1, s1, result) = read_body io parser r s' in
      let (r2, s2, results) = calls n r1 s1 in (r2, s2, result ∷ results)

  -- What the calls leave and return.
  pub record Stalls (s : io.Stream) (hd : Bytes) (n total : ℕ)
      (t : BodyReader × io.Stream × List Read) : Type 0 where
    pub state : t.0.read_state ≡ chunked total 0 (length hd) (length hd)
    pub same_stream : t.1 ≡ s
    pub returned : t.2 ≡ empty_slices n

module _ (io : AsyncRead) (parser : ChunkParser) (s : io.Stream)
    (ended : (room : ℕ) → io.read s room ≡ (s, ok [])) (hd : Bytes)
    (unfinished : parser.parse_chunk_size hd ≡ ChunkStatus.partial) (some_head : 0 < length hd)
    (short : length hd ≤ partial_chunk_head_limit) where
  -- The reader holds the unfinished head `hd`, at the end of the bytes that have come.
  pub record Holds (r : BodyReader) (total : ℕ) (buf_end : ℕ) (buf : Bytes) : Type 0 where
    pub state : r.read_state ≡ chunked total 0 buf_end (length hd)
    pub has : r.body_buffer ≡ some buf
    pub inside : length hd ≤ buf_end
    pub fits : buf_end ≤ length buf
    pub held : head io buf buf_end (length hd) ≡ hd

  stalled : BodyReader → ℕ → Bytes → BodyReader
  stalled r total buf = record r {
    read_state = chunked total 0 (length hd) (length hd);
    body_buffer = some buf;
  }

  overwrite_nothing : (buf : Bytes) (at : ℕ) → overwrite buf at [] ≡ buf
  unfolding overwrite
  overwrite_nothing buf at = let e : at + 0 ≡ at = omega arith in rw e (take-append-drop at buf)

  refill_ended :
      (r : BodyReader) (total buf_end : ℕ) (buf : Bytes)
      → Holds r total buf_end buf
      → refill io r s buf_end (length hd)
        ≡ (record r { body_buffer = some (overwrite buf 0 hd) }, s, ok 0)
  unfolding land
  refill_ended r total buf_end buf h =
      rw
        (
          refill-eq-land io r buf s buf_end (length hd) h.has h.inside h.fits,
          h.held,
          ended,
          overwrite_nothing,
        )
        refl

  front : (buf : Bytes) → take (length hd) (overwrite buf 0 hd) ≡ hd
  unfolding overwrite
  front buf = take-append_le (length hd) hd (drop (0 + length hd) buf) (omega arith) ∙ take_all hd

  length-front :
      (r : BodyReader) (total buf_end : ℕ) (buf : Bytes)
      → Holds r total buf_end buf
      → length (overwrite buf 0 hd) ≡ length buf
  length-front r total buf_end buf h =
      subst (λ x. length (overwrite buf 0 x) ≡ length buf) h.held
        (length-moved io r buf s buf_end (length hd) h.has h.inside h.fits)

  into_head :
      (r : BodyReader) (total buf_end : ℕ) (buf : Bytes)
      → Holds r total buf_end buf
      → read_body io parser r s
        ≡ then_take io
            (λ r' n. take_new_buf parser r' (add_usize (length hd) n) 0)
            (refill io r s buf_end (length hd))
  unfolding read_body read_chunked read_chunked_at
  into_head r total buf_end buf h = ground (arith, h.state, h.inside)

  -- The head is parsed again, and is still unfinished.
  take_again :
      (r : BodyReader) (total buf_end x : ℕ) (buf : Bytes)
      → r.read_state ≡ chunked total 0 buf_end x
      → r.body_buffer ≡ some buf
      → length hd ≤ length buf
      → take (length hd) buf ≡ hd
      → take_new_buf parser r (length hd) 0 ≡ (stalled r total buf, some_offset 0 0)
  unfolding take_new_buf take_chunked parse_chunked_buf parse_head take_head stalled
  take_again r total buf_end x buf st has fits eq = ground (arith, eq, unfinished, has, st)

  read_again :
      (r : BodyReader) (total buf_end : ℕ) (buf : Bytes)
      → Holds r total buf_end buf
      → read_body io parser r s ≡ (stalled r total (overwrite buf 0 hd), s, some_offset 0 0)
  unfolding stalled
  read_again r total buf_end buf h =
      let no_more : add_usize (length hd) 0 ≡ length hd = omega arith in
      let r' : BodyReader = record r { body_buffer = some (overwrite buf 0 hd) } in
      let again =
        take_again r' total buf_end (length hd) (overwrite buf 0 hd) h.state refl
          (omega (arith, length-front r total buf_end buf h, h.inside, h.fits)) (front buf) in
      into_head r total buf_end buf h
      ∙ rw (refill_ended r total buf_end buf h)
          (rw no_more (ap (λ (t : BodyReader × Read). (t.0, s, t.1)) again))

  stalled-Holds :
      (r : BodyReader) (total buf_end : ℕ) (buf : Bytes)
      → Holds r total buf_end buf
      → Holds (stalled r total (overwrite buf 0 hd)) total (length hd) (overwrite buf 0 hd)
  unfolding stalled
  stalled-Holds r total buf_end buf h = record {
    state = refl;
    has = refl;
    inside = omega arith;
    fits = omega (arith, length-front r total buf_end buf h, h.inside, h.fits);
    held = ground (arith, front buf);
  }

  calls_on :
      (n : ℕ) (r : BodyReader) (total buf_end : ℕ) (buf : Bytes)
      → Holds r total buf_end buf
      → let t = calls io parser n (stalled r total (overwrite buf 0 hd)) s in
        calls io parser (suc n) r s ≡ (t.0, t.1, some_offset 0 0 ∷ t.2)
  unfolding calls
  calls_on n r total buf_end buf h = rw (read_again r total buf_end buf h) refl

  -- Once the peer has closed with a chunk's head unfinished, every one of any number of further
  -- calls of the reader returns an empty slice, and no end and no error, and the reader goes on
  -- expecting the same head in the same place.
  pub calls_stall :
      (n : ℕ) (r : BodyReader) (total buf_end : ℕ) (buf : Bytes)
      → Holds r total buf_end buf
      → Stalls io parser s hd (suc n) total (calls io parser (suc n) r s)
  unfolding calls stalled
  calls_stall zero r total buf_end buf h =
      rw (calls_on zero r total buf_end buf h)
        (record { state = refl; same_stream = refl; returned = refl })
  calls_stall (suc n) r total buf_end buf h =
      let rest =
        calls_stall n (stalled r total (overwrite buf 0 hd)) total (length hd) (overwrite buf 0 hd)
          (stalled-Holds r total buf_end buf h) in
      subst (Stalls io parser s hd (suc (suc n)) total)
        (sym (calls_on (suc n) r total buf_end buf h))
        (record {
          state = rest.state;
          same_stream = rest.same_stream;
          returned = ap (λ x. some_offset 0 0 ∷ x) rest.returned;
        })
