-- ===== src/Session/Reader/Collect.antt =====
-- A body as its reader's client sees it: the slices of call after call, until the reader has no
-- more. The streams are those that do not fail.
use glaive.Prelude.{
  ℕ, zero, suc, ◌+◌, ◌-◌, ◌≤◌, ◌<◌, ◌≡◌, refl, sym, ◌∙◌, ap, none, some, [], ◌∷◌, ◌++◌, Outcome, ok,
  err, panic, arith, ltb, ◌==◌, take, drop, length, if◌then◌else◌, Bool-cases, eq-nil_of_length,
  inl, inr, usize_mod, take-take, take_all, take-append_le, length-append, length-take, length-drop,
}
use glaive.Session.Offset
use glaive.Session.Offset.{Offset, Bytes}
use glaive.Session.Streams.{AsyncRead, IsReliable, ChunkParser, Memory}
use glaive.Session.Reader.{ReadState, BodyReader, get_sliced_body, set_buffer}
use glaive.Session.Reader.Takes.{Read}
use glaive.Session.Reader.Reads.{overwrite, fill, read_body}

take-overwrite :
    (buf bs : Bytes) → length bs ≤ length buf → take (length bs) (overwrite buf 0 bs) ≡ bs
unfolding overwrite
take-overwrite buf bs h =
    take-append_le (length bs) bs (drop (0 + length bs) buf) (omega arith) ∙ take_all bs

length-overwrite :
    (buf bs : Bytes) → length bs ≤ length buf → length (overwrite buf 0 bs) ≡ length buf
unfolding overwrite
length-overwrite buf bs h =
    omega (arith, length-append bs (drop (0 + length bs) buf), length-drop (0 + length bs) buf)

module _ (io : AsyncRead) where
  open io use {Stream, incoming, read, read_next, read_fits}

  -- What the reader has still to see: the bytes to rewind, then those of the stream.
  abbrev pub pending : BodyReader → Bytes → Stream → Bytes
  pending r buf s =
      if r.rewind_buf_size == 0 then incoming s else take r.rewind_buf_size buf ++ incoming s

  -- A fill of the buffer `buf` gives the next bytes of what is pending, at its front.
  pub record Fills (r : BodyReader) (buf : Bytes) (s : Stream) : Type 0 where
    pub got : Bytes
    pub buffer : Bytes
    pub stream : Stream
    pub fills :
        fill io r s
        ≡ (record r { body_buffer = some buffer; rewind_buf_size = 0 }, stream, ok (length got))
    pub front : take (length got) buffer ≡ got
    pub fits : length got ≤ length buffer
    pub same_size : length buffer ≡ length buf
    pub splits : pending r buf s ≡ got ++ incoming stream
    pub ends : length got ≡ 0 → pending r buf s ≡ []

  -- The reader behind a fill, in the state `st`.
  abbrev pub left :
      {r : BodyReader} {buf : Bytes} {s : Stream} → Fills r buf s → ReadState → BodyReader
  left {r} f st = record r { read_state = st; body_buffer = some f.buffer; rewind_buf_size = 0 }

  module _ (reliable : IsReliable io) where
    pub fill-Fills :
        (r : BodyReader) (buf : Bytes) (s : Stream)
        → r.body_buffer ≡ some buf
        → 0 < length buf
        → r.rewind_buf_size ≤ length buf
        → Fills r buf s
    unfolding fill
    fill-Fills r buf s has room fits = elim (Bool-cases (r.rewind_buf_size == 0)) [
      | inl fresh ↦ record {
        got = got;
        buffer = overwrite buf 0 got;
        stream = (read s (length buf)).0;
        fills = ground (arith, has, reliable.read_gives s (length buf));
        front = take-overwrite buf got got_fits;
        fits = omega (arith, got_fits, length-overwrite buf got got_fits);
        same_size = length-overwrite buf got got_fits;
        splits = rw fresh (read_next s (length buf) got (reliable.read_gives s (length buf)));
        ends = λ e. rw fresh (reliable.gives_some s (length buf) room (eq-nil_of_length got e));
      }
      | inr rewind ↦ record {
        got = take r.rewind_buf_size buf;
        buffer = buf;
        stream = s;
        fills = ground (arith, has, length-take r.rewind_buf_size buf);
        front = ap (λ n. take n buf) whole;
        fits = omega (arith, length-take r.rewind_buf_size buf);
        same_size = refl;
        splits = rw rewind refl;
        ends = λ e. absurd (ground (arith, length-take r.rewind_buf_size buf));
      }
    ]
      where
        got : Bytes
        got = reliable.gives s (length buf)

        got_fits : length got ≤ length buf
        got_fits = read_fits s (length buf) got (reliable.read_gives s (length buf))

        whole : length (take r.rewind_buf_size buf) ≡ r.rewind_buf_size
        whole = omega (arith, length-take r.rewind_buf_size buf)

-- The loop of the reader's client: `body` has come so far.
module _ (io : AsyncRead) (parser : ChunkParser) where
  open io use {Stream}

  abbrev pub Collected : Type 0
  Collected = BodyReader × Stream × Outcome Bytes

  abbrev pub next_body :
      (BodyReader → Stream → Bytes → Collected) → Bytes → BodyReader × Stream × Read → Collected
  next_body again body (r, s, ok none) = (r, s, ok body)
  next_body again body (r, s, ok (some o)) = elim (get_sliced_body r o) [
    | ok bs ↦ again r s (body ++ bs)
    | err e ↦ (r, s, err e)
    | panic ↦ (r, s, panic)
  ]
  next_body again body (r, s, err e) = (r, s, err e)
  next_body again body (r, s, panic) = (r, s, panic)

  unfoldable pub collect : ℕ → BodyReader → Stream → Bytes → Collected
  collect zero r s body = (r, s, ok body)
  collect (suc fuel) r s body = next_body (collect fuel) body (read_body io parser r s)

module _ (io : AsyncRead) (parser : ChunkParser) where
  open io use {Stream}

  -- A slice of what a fill gave reaches the client.
  module _ {r : BodyReader} {buf : Bytes} {s : Stream} (f : Fills io r buf s) where
    pub next_body-slice :
        (again : BodyReader → Stream → Bytes → Collected io parser) (body : Bytes) (st : ReadState)
        (n : ℕ)
        → n ≤ length f.got
        → n < usize_mod
        → next_body io parser again body (left io f st, f.stream, ok (some (Offset.new 0 n)))
          ≡ again (left io f st) f.stream (body ++ take n f.got)
    unfolding get_sliced_body Offset.new
    next_body-slice again body st n h small =
        ground (arith, f.fits, sym (take-take n (length f.got) f.buffer h), ap (take n) f.front)

-- A reader whose buffer was just set has the bytes to rewind, and those of the stream, before it.
module _ (m : Memory) where
  unfoldable pub buffered : BodyReader → Bytes → Bytes
  buffered r rewind =
      if ltb (length rewind) r.body_size
      then rewind ++ m.uninit (r.body_size - length rewind)
      else rewind

  pub buffered_room :
      (r : BodyReader) (rewind : Bytes) → 0 < r.body_size → 0 < length (buffered r rewind)
  unfolding buffered
  buffered_room r rewind room = ground (
    arith,
    length-append rewind (m.uninit (r.body_size - length rewind)),
    m.uninit_length (r.body_size - length rewind),
  )

  buffered_fits : (r : BodyReader) (rewind : Bytes) → length rewind ≤ length (buffered r rewind)
  unfolding buffered
  buffered_fits r rewind =
      ground (arith, length-append rewind (m.uninit (r.body_size - length rewind)))

  take-buffered :
      (r : BodyReader) (rewind : Bytes) → take (length rewind) (buffered r rewind) ≡ rewind
  unfolding buffered
  take-buffered r rewind = ground (
    arith,
    take_all rewind,
    take-append_le (length rewind) rewind (m.uninit (r.body_size - length rewind)),
  )

  pub rewinds :
      (r : BodyReader) (rewind : Bytes)
      → r.rewind_buf_size ≡ 0
      → (set_buffer m r rewind).rewind_buf_size ≡ length rewind
  unfolding set_buffer
  rewinds r rewind fresh = ground (arith, fresh)

  pub pending-set :
      (io : AsyncRead) (r : BodyReader) (rewind : Bytes) (s : io.Stream)
      → r.rewind_buf_size ≡ 0
      → pending io (set_buffer m r rewind) (buffered r rewind) s ≡ rewind ++ io.incoming s
  pending-set io r [] s fresh = rw (rewinds r [] fresh)
  pending-set io r (b ∷ bs) s fresh =
      ground (arith, rewinds r (b ∷ bs) fresh, take-buffered r (b ∷ bs))

  pub rewinds_fit :
      (r : BodyReader) (rewind : Bytes)
      → r.rewind_buf_size ≡ 0
      → (set_buffer m r rewind).rewind_buf_size ≤ length (buffered r rewind)
  rewinds_fit r rewind fresh = omega (arith, rewinds r rewind fresh, buffered_fits r rewind)
