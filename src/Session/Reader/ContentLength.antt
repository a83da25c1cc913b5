-- ===== src/Session/Reader/ContentLength.antt =====
-- Reading a body by its content length, on streams that do not fail.
use glaive.Prelude.{
  ℕ, zero, suc, ◌+◌, ◌-◌, ◌≤◌, ◌<◌, ◌≡◌, refl, some, [], ◌++◌, ok, err, connection_closed, arith,
  usize_mod, leb, ◌==◌, take, length, if◌then◌else◌, Bool-cases, inl, inr, take_all, take-append_le,
  take-append_ge, length-append, append_assoc,
}
use glaive.Session.Offset
use glaive.Session.Offset.{Offset, Bytes}
use glaive.Session.Streams.{AsyncRead, IsReliable, ChunkParser, Memory}
use glaive.Session.Reader.{
  completed, done, partial, BodyReader, set_buffer, with_content_length_read,
}
use glaive.Session.Reader.Takes.{take_partial}
use glaive.Session.Reader.Reads.{read_partially, read_body}
use glaive.Session.Reader.Collect.{
  pending, Fills, fill-Fills, left, next_body-slice, Collected, buffered, buffered_room,
  rewinds_fit, pending-set, collect,
}

module _ (io : AsyncRead) (parser : ChunkParser) where
  open io use {Stream, incoming}

  -- How the run ends: the whole body, or the end of the stream before it.
  abbrev pub Exact : Bytes → ℕ → Bytes → Collected io parser → Type 0
  Exact body to_read rest (r, s, result) =
      (r.read_state ≡ (
        if leb to_read (length rest)
        then completed (length body + to_read)
        else done (length body + length rest)))
      × (result ≡ (
          if leb to_read (length rest)
          then ok (body ++ take to_read rest)
          else err connection_closed))

  read_body-partial :
      (r : BodyReader) (buf : Bytes) (s : Stream) (read to_read : ℕ)
      → r.read_state ≡ partial read to_read
      → (f : Fills io r buf s)
      → read_body io parser r s ≡ (
          let (r', result) =
            take_partial
              (record r { body_buffer = some f.buffer; rewind_buf_size = 0 })
              (partial read to_read)
              (length f.got) in
          (r', f.stream, result))
  unfolding read_body read_partially
  read_body-partial r buf s read to_read st f = ground (arith, st, f.fills)

  collect-completed :
      (fuel : ℕ) (r : BodyReader) (s : Stream) (body : Bytes) (n : ℕ)
      → r.read_state ≡ completed n
      → 0 < fuel
      → collect io parser fuel r s body ≡ (r, s, ok body)
  unfolding collect read_body
  collect-completed zero r s body n st h = absurd (omega arith)
  collect-completed (suc fuel) r s body n st h = ground (arith, st)

  module _ (fuel : ℕ) (r : BodyReader) (buf : Bytes) (s : Stream) (body : Bytes) (to_read : ℕ)
      (room : 0 < length buf) (st : r.read_state ≡ partial (length body) to_read)
      (small : length body + to_read < usize_mod) (f : Fills io r buf s) where
    step_closed :
        length f.got ≡ 0
        → 0 < to_read
        → Exact body to_read (pending io r buf s) (collect io parser (suc fuel) r s body)
    unfolding collect take_partial
    step_closed e pos =
        rw (read_body-partial r buf s (length body) to_read st f, e, f.ends e)
          (ground arith, ground arith)

    whole_read :
        0 < to_read
        → to_read ≤ length f.got
        → read_body io parser r s ≡ (
          left io f (completed (length body + to_read)),
          f.stream,
          ok (some (Offset.new 0 to_read)),
        )
    unfolding take_partial
    whole_read pos h = ground (arith, read_body-partial r buf s (length body) to_read st f)

    step_whole :
        0 < fuel
        → 0 < to_read
        → to_read ≤ length f.got
        → Exact body to_read (pending io r buf s) (collect io parser (suc fuel) r s body)
    unfolding collect
    step_whole more pos h =
        rw
          (
            whole_read pos h,
            next_body-slice io parser f (collect io parser fuel) body
                (completed (length body + to_read)) to_read h (omega arith),
            collect-completed fuel (left io f (completed (length body + to_read))) f.stream
                (body ++ take to_read f.got) (length body + to_read) refl more,
            f.splits,
            take-append_le to_read f.got (incoming f.stream) h,
          )
          (ground (arith, covers), ground (arith, covers))
      where
        covers : to_read ≤ length (f.got ++ incoming f.stream)
        covers = omega (arith, length-append f.got (incoming f.stream))

    part_read :
        0 < length f.got
        → length f.got < to_read
        → read_body io parser r s ≡ (
          left io f (partial (length body + length f.got) (to_read - length f.got)),
          f.stream,
          ok (some (Offset.new 0 (length f.got))),
        )
    unfolding take_partial
    part_read pos h = ground (arith, read_body-partial r buf s (length body) to_read st f)

    step_part :
        0 < length f.got
        → length f.got < to_read
        → Exact (body ++ f.got) (to_read - length f.got) (incoming f.stream) (
            collect io parser fuel
              (left io f (partial (length body + length f.got) (to_read - length f.got)))
              f.stream
              (body ++ f.got))
        → Exact body to_read (pending io r buf s) (collect io parser (suc fuel) r s body)
    unfolding collect
    step_part pos h again =
        rw
          (
            part_read pos h,
            next_body-slice io parser f (collect io parser fuel) body
                (partial (length body + length f.got) (to_read - length f.got)) (length f.got)
                (omega arith) (omega arith),
            take_all f.got,
            f.splits,
          )
          (ground (arith, again, counts, behind), ground (arith, again, counts, whole_body))
      where
        counts : length (f.got ++ incoming f.stream) ≡ length f.got + length (incoming f.stream)
        counts = length-append f.got (incoming f.stream)

        behind : length (body ++ f.got) ≡ length body + length f.got
        behind = length-append body f.got

        whole_body :
            body ++ f.got ++ take (to_read - length f.got) (incoming f.stream)
            ≡ body ++ take to_read (f.got ++ incoming f.stream)
        whole_body =
            rw (take-append_ge to_read f.got (incoming f.stream) (omega arith))
              (append_assoc body f.got _)

  collect-Exact :
      IsReliable io
      → (fuel : ℕ) (r : BodyReader) (buf : Bytes) (s : Stream) (body : Bytes) (to_read : ℕ)
      → r.body_buffer ≡ some buf
      → 0 < length buf
      → r.rewind_buf_size ≤ length buf
      → r.read_state ≡ partial (length body) to_read
      → 0 < to_read
      → length body + to_read < usize_mod
      → to_read + 1 < fuel
      → Exact body to_read (pending io r buf s) (collect io parser fuel r s body)
  unfolding collect
  collect-Exact reliable zero r buf s body to_read has room fits st pos small enough =
      absurd (omega arith)
  collect-Exact reliable (suc fuel) r buf s body to_read has room fits st pos small enough =
      let f = fill-Fills io reliable r buf s has room fits in
      elim (Bool-cases (length f.got == 0)) [
        | inl e ↦ step_closed fuel r buf s body to_read room st small f (ground arith) pos
        | inr e ↦ elim (Bool-cases (leb to_read (length f.got))) [
          | inl h ↦
              step_whole fuel r buf s body to_read room st small f (omega arith) pos (ground arith)
          | inr h ↦
              step_part fuel r buf s body to_read room st small f (ground arith) (ground arith) (
                collect-Exact reliable fuel _ f.buffer f.stream (body ++ f.got)
                  (to_read - length f.got) refl (omega (arith, f.same_size)) (omega arith)
                  (ground (arith, length-append body f.got)) (ground arith)
                  (ground (arith, length-append body f.got)) (ground arith))
        ]
      ]

module _ (io : AsyncRead) (parser : ChunkParser) (m : Memory) where
  open io use {Stream, incoming}

  set_partial :
      (r : BodyReader) (rewind : Bytes) (len : ℕ)
      → 0 < len
      → with_content_length_read m r len rewind
        ≡ record (set_buffer m r rewind) { read_state = partial 0 len }
  unfolding with_content_length_read
  set_partial r rewind len pos = ground arith

  -- A reader set to a length, with nothing left to rewind from before, reads that many bytes and
  -- no more: first those to rewind, then those of the stream. It ends `Completed` with the body,
  -- or, if the stream ends too early, `Done` with the error that the connection is closed.
  pub content_length-Exact :
      IsReliable io
      → (r : BodyReader) (rewind : Bytes) (s : Stream) (len : ℕ) → r.rewind_buf_size ≡ 0
      → 0 < r.body_size
      → len < usize_mod
      → Exact io parser [] len
          (rewind ++ incoming s)
          (collect io parser (len + 2) (with_content_length_read m r len rewind) s [])
  unfolding with_content_length_read buffered
  content_length-Exact reliable r rewind s zero fresh room small =
      rw
        (collect-completed io parser 2 (record r { read_state = completed 0 }) s [] 0 refl
          (omega arith))
        (ground arith, ground arith)
  content_length-Exact reliable r rewind s (suc len) fresh room small =
      rw (set_partial r rewind (suc len) (omega arith), ← pending-set m io r rewind s fresh)
        (collect-Exact io parser reliable (suc len + 2)
          (record (set_buffer m r rewind) { read_state = partial 0 (suc len) })
          (buffered m r rewind) s [] (suc len) refl (buffered_room m r rewind room)
          (omega (arith, rewinds_fit m r rewind fresh)) refl (omega arith) (omega arith)
          (omega arith))
