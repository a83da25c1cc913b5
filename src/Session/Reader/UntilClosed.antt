-- ===== src/Session/Reader/UntilClosed.antt =====
-- Reading a body until the peer closes, on streams that do not fail.
use glaive.Prelude.{
  ℕ, zero, suc, ◌+◌, ◌≤◌, ◌<◌, ◌≡◌, refl, ◌∙◌, ap, none, some, [], ◌++◌, ok, arith, usize_mod, ◌==◌,
  length, Bool-cases, inl, inr, take_all, length-append, append_assoc, append-nil,
}
use glaive.Session.Offset
use glaive.Session.Offset.{Offset, Bytes}
use glaive.Session.Streams.{AsyncRead, IsReliable, ChunkParser, Memory}
use glaive.Session.Reader.{completed, http10, BodyReader, set_buffer, with_until_closed_read}
use glaive.Session.Reader.Takes.{take_until_closed}
use glaive.Session.Reader.Reads.{read_until_closed, read_body}
use glaive.Session.Reader.Collect.{
  pending, Fills, fill-Fills, left, next_body-slice, Collected, collect, buffered, buffered_room,
  rewinds_fit, pending-set,
}

module _ (io : AsyncRead) (parser : ChunkParser) where
  open io use {Stream, incoming}

  -- The run ends `Completed` with all that was to come.
  abbrev pub Whole : Bytes → Bytes → Collected io parser → Type 0
  Whole body rest (r, s, result) =
      (r.read_state ≡ completed (length body + length rest)) × (result ≡ ok (body ++ rest))

  module _ (fuel : ℕ) (r : BodyReader) (buf : Bytes) (s : Stream) (body : Bytes)
      (st : r.read_state ≡ http10 (length body)) (f : Fills io r buf s)
      (small : length body + length f.got < usize_mod) where
    read_body-closed :
        length f.got ≡ 0
        → read_body io parser r s ≡ (left io f (completed (length body)), f.stream, ok none)
    unfolding read_body read_until_closed take_until_closed
    read_body-closed e = ground (arith, st, f.fills)

    read_body-open :
        0 < length f.got
        → read_body io parser r s ≡ (
          left io f (http10 (length body + length f.got)),
          f.stream,
          ok (some (Offset.new 0 (length f.got))),
        )
    unfolding read_body read_until_closed take_until_closed
    read_body-open h = ground (arith, st, f.fills)

    step_closed :
        length f.got ≡ 0 → Whole body (pending io r buf s) (collect io parser (suc fuel) r s body)
    unfolding collect
    step_closed e = rw (read_body-closed e, f.ends e, append-nil) (ground arith, refl)

    step_open :
        0 < length f.got
        → Whole (body ++ f.got) (incoming f.stream) (
            collect io parser fuel
              (left io f (http10 (length body + length f.got)))
              f.stream
              (body ++ f.got))
        → Whole body (pending io r buf s) (collect io parser (suc fuel) r s body)
    unfolding collect
    step_open h again =
        rw
          (
            read_body-open h,
            next_body-slice io parser f (collect io parser fuel) body
                (http10 (length body + length f.got)) (length f.got) (omega arith) (omega arith),
            take_all f.got,
            f.splits,
          )
          (
            ground
                (arith, again, length-append body f.got, length-append f.got (incoming f.stream)),
            ground (arith, again, append_assoc body f.got (incoming f.stream)),
          )

  collect-Whole :
      IsReliable io
      → (fuel : ℕ) (r : BodyReader) (buf : Bytes) (s : Stream) (body : Bytes)
      → r.body_buffer ≡ some buf
      → 0 < length buf
      → r.rewind_buf_size ≤ length buf
      → r.read_state ≡ http10 (length body)
      → length body + length (pending io r buf s) < usize_mod
      → length (pending io r buf s) < fuel
      → Whole body (pending io r buf s) (collect io parser fuel r s body)
  collect-Whole reliable zero r buf s body has room fits st small enough = absurd (omega arith)
  collect-Whole reliable (suc fuel) r buf s body has room fits st small enough =
      let f = fill-Fills io reliable r buf s has room fits in
      let total : length (pending io r buf s) ≡ length f.got + length (incoming f.stream) =
        ap length f.splits ∙ length-append f.got (incoming f.stream) in
      let behind = length-append body f.got in
      elim (Bool-cases (length f.got == 0)) [
        | inl e ↦ step_closed fuel r buf s body st f (omega arith) (ground arith)
        | inr e ↦ step_open fuel r buf s body st f (omega arith) (ground arith) (
            collect-Whole reliable fuel _ f.buffer f.stream (body ++ f.got) refl
              (omega (arith, f.same_size)) (omega arith) (ground (arith, behind)) (omega arith)
              (ground arith))
      ]

module _ (io : AsyncRead) (parser : ChunkParser) (m : Memory) where
  open io use {Stream, incoming}

  set_http10 :
      (r : BodyReader) (rewind : Bytes)
      → with_until_closed_read m r rewind ≡ record (set_buffer m r rewind) { read_state = http10 0 }
  unfolding with_until_closed_read
  set_http10 r rewind = refl

  -- A reader set to read until the peer closes, with nothing left to rewind from before, gives all
  -- the bytes to rewind and all those of the stream, and ends `Completed` with their number; one
  -- call more than there are bytes is enough.
  pub until_closed-Whole :
      IsReliable io
      → (r : BodyReader) (rewind : Bytes) (s : Stream) → r.rewind_buf_size ≡ 0
      → 0 < r.body_size
      → length (rewind ++ incoming s) < usize_mod
      → Whole io parser [] (rewind ++ incoming s) (
          collect io parser
            (length (rewind ++ incoming s) + 1)
            (with_until_closed_read m r rewind)
            s
            [])
  unfolding buffered set_buffer
  until_closed-Whole reliable r rewind s fresh room small =
      let whole = pending-set m io r rewind s fresh in
      rw (set_http10 r rewind, ← whole)
        (collect-Whole io parser reliable
          (length (pending io (set_buffer m r rewind) (buffered m r rewind) s) + 1)
          (record (set_buffer m r rewind) { read_state = http10 0 }) (buffered m r rewind) s [] refl
          (buffered_room m r rewind room) (rewinds_fit m r rewind fresh) refl
          (omega (arith, ap length whole)) (omega arith))
