-- ===== src/Session/Writer/Writes.antt =====
-- core/src/session/writer.rs: the writes. A call gives the writer, the sink and the result.
use glaive.Prelude.{
  ℕ, ◌-◌, Option, none, some, ◌++◌, Outcome, ok, err, panic, writing, premature_body, add_usize,
  ltb, leb, take, length, if◌then◌else◌,
}
use glaive.Session.Offset.{Bytes}
use glaive.Session.Streams.{AsyncWrite, Buf}
use glaive.Stream.WriteVec.{Wrote, write_vec_all}
use glaive.Session.Writer.{
  WriteState, start, completed, content_length, chunked_encoding, http10, crlf, last_chunk,
  BodyWriter, finished,
}
use glaive.Session.Writer.Hex.{hex}

abbrev pub Written : Type 0
Written = Outcome (Option ℕ)

-- `n` in hexadecimal and an end of line, the data, and an end of line.
unfoldable pub encode_chunk : Bytes → Bytes
encode_chunk buffer = hex (length buffer) ++ (crlf ++ (buffer ++ crlf))

module _ (io : AsyncWrite) where
  open io use {Sink, write_all, flush}

  abbrev pub Step : Type 0
  Step = BodyWriter × Sink × Written

  -- `stream.flush().await?`, then the result.
  abbrev pub flushed : BodyWriter → ℕ → Sink × Outcome (Unit {0}) → Step
  flushed w n (s, ok _) = (w, s, ok (some n))
  flushed w n (s, err e) = (w, s, err e)
  flushed w n (s, panic) = (w, s, panic)

  abbrev pub wrote_length : BodyWriter → ℕ → ℕ → ℕ → Sink × Outcome (Unit {0}) → Step
  wrote_length w total written n (s, ok _) =
      let w' : BodyWriter = record { write_state = content_length total (add_usize written n) } in
      if finished w' then flushed w' n (flush s) else (w', s, ok (some n))
  wrote_length w total written n (s, err e) = (w, s, err (writing e))
  wrote_length w total written n (s, panic) = (w, s, panic)

  unfoldable pub write_by_content_length : BodyWriter → Sink → Bytes → WriteState → Step
  unfolding finished
  write_by_content_length w s buffer (content_length total written) =
      let n = if ltb (total - written) (length buffer) then total - written else length buffer in
      if leb total written
      then (w, s, ok none)
      else wrote_length w total written n (write_all s (take n buffer))
  write_by_content_length w s buffer _ = (w, s, panic)

  abbrev pub wrote_until_closed : BodyWriter → ℕ → ℕ → Sink × Outcome (Unit {0}) → Step
  wrote_until_closed w written n (s, ok _) =
      flushed (record { write_state = http10 (add_usize written n) }) n (flush s)
  wrote_until_closed w written n (s, err e) = (w, s, err (writing e))
  wrote_until_closed w written n (s, panic) = (w, s, panic)

  unfoldable pub write_until_closed : BodyWriter → Sink → Bytes → WriteState → Step
  write_until_closed w s buffer (http10 written) =
      wrote_until_closed w written (length buffer) (write_all s buffer)
  write_until_closed w s buffer _ = (w, s, panic)

  -- The state changes only after the flush.
  abbrev pub flushed_chunk : BodyWriter → ℕ → ℕ → Sink × Outcome (Unit {0}) → Step
  flushed_chunk w written n (s, ok _) =
      (record { write_state = chunked_encoding (add_usize written n) }, s, ok (some n))
  flushed_chunk w written n (s, err e) = (w, s, err e)
  flushed_chunk w written n (s, panic) = (w, s, panic)

  -- `Bytes::chain` makes of the three pieces one buffer.
  module _ (bufs : Buf) (chain : Bytes → bufs.Buffer) where
    -- A loop that ran out of fuel is told from one that panicked.
    abbrev pub wrote_chunk : BodyWriter → Sink → ℕ → ℕ → Wrote io bufs → Option Step
    wrote_chunk w s written n none = none
    wrote_chunk w s written n (some (s', b, ok _)) = some (flushed_chunk w written n (flush s'))
    wrote_chunk w s written n (some (s', b, err e)) = some (w, s', err e)
    wrote_chunk w s written n (some (s', b, panic)) = some (w, s', panic)

    unfoldable pub write_by_chunked_encoding :
        ℕ → BodyWriter → Sink → Bytes → WriteState → Option Step
    write_by_chunked_encoding fuel w s buffer (chunked_encoding written) =
        wrote_chunk w s written (length buffer)
          (write_vec_all io bufs fuel s (chain (encode_chunk buffer)))
    write_by_chunked_encoding fuel w s buffer _ = some (w, s, panic)

    unfoldable pub write_body : ℕ → BodyWriter → Sink → Bytes → Option Step
    write_body fuel w s buffer = elim w.write_state [
      | completed _ ↦ some (w, s, ok none)
      | content_length total written ↦
          some (write_by_content_length w s buffer (content_length total written))
      | chunked_encoding written ↦
          write_by_chunked_encoding fuel w s buffer (chunked_encoding written)
      | http10 written ↦ some (write_until_closed w s buffer (http10 written))
      | start ↦ some (w, s, panic)
    ]

  unfoldable pub finish_content_length : BodyWriter → WriteState → BodyWriter × Written
  finish_content_length w (content_length total written) = (
    record { write_state = completed written },
    if ltb written total then err premature_body else ok (some written),
  )
  finish_content_length w _ = (w, panic)

  abbrev pub finished_chunks : ℕ → Sink × Outcome (Unit {0}) → Step
  finished_chunks written (s, ok _) =
      (record { write_state = completed written }, s, ok (some written))
  finished_chunks written (s, err e) =
      (record { write_state = completed written }, s, err (writing e))
  finished_chunks written (s, panic) = (record { write_state = completed written }, s, panic)

  unfoldable pub finish_chunked_encoding : BodyWriter → Sink → WriteState → Step
  finish_chunked_encoding w s (chunked_encoding written) =
      finished_chunks written (write_all s last_chunk)
  finish_chunked_encoding w s _ = (w, s, panic)

  unfoldable pub finish_until_closed : BodyWriter → WriteState → BodyWriter × Written
  finish_until_closed w (http10 written) =
      (record { write_state = completed written }, ok (some written))
  finish_until_closed w _ = (w, panic)

  abbrev pub with_sink : Sink → BodyWriter × Written → Step
  with_sink s (w, result) = (w, s, result)

  unfoldable pub finish : BodyWriter → Sink → Step
  unfolding finish_content_length finish_chunked_encoding finish_until_closed
  finish w s = elim w.write_state [
    | completed _ ↦ (w, s, ok none)
    | content_length total written ↦
        with_sink s (finish_content_length w (content_length total written))
    | chunked_encoding written ↦ finish_chunked_encoding w s (chunked_encoding written)
    | http10 written ↦ with_sink s (finish_until_closed w (http10 written))
    | start ↦ (w, s, ok none)
  ]
