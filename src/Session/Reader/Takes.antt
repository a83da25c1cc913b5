-- ===== src/Session/Reader/Takes.antt =====
-- core/src/session/reader.rs: what each read mode does with the bytes that are in the buffer.
use glaive.Prelude.{
  ℕ, ◌+◌, ◌-◌, unwrap, ◌>>=◌, Option, none, some, Outcome, ok, err, panic, connection_closed,
  chunk_over_limit, invalid_chunk, add_usize, ltb, leb, ◌==◌, length, if◌then◌else◌,
}
use glaive.Session.Offset
use glaive.Session.Offset.{Offset, Bytes}
use glaive.Session.Streams.{ChunkParser, ChunkStatus}
use glaive.Session.Reader.{
  ReadState, completed, done, partial, http10, finish_state, done_state, partial_chunk, multi_chunk,
  partial_chunk_head, new_buf, partial_chunk_head_limit, BodyReader,
}

abbrev pub Read : Type 0
Read = Outcome (Option Offset)

abbrev pub some_offset : ℕ → ℕ → Read
unfolding Offset.new
some_offset from len = ok (some (Offset.new from len))

abbrev pub with_state : BodyReader → ReadState → BodyReader
with_state r s = record r { read_state = s }

-- The `match self.read_state` of `read_partially`, once `n` bytes are in the buffer.
unfoldable pub take_partial : BodyReader → ReadState → ℕ → BodyReader × Read
unfolding Offset.new
take_partial r (partial read to_read) n =
    if n == 0
    then (with_state r (done read), err connection_closed)
    else if leb to_read n
    then (with_state r (completed (add_usize read to_read)), some_offset 0 to_read)
    else (with_state r (partial (add_usize read n) (to_read - n)), some_offset 0 n)
take_partial r s n = (r, panic)

-- The same of `read_until_closed`.
unfoldable pub take_until_closed : BodyReader → ReadState → ℕ → BodyReader × Read
unfolding Offset.new
take_until_closed r (http10 read) n =
    if n == 0
    then (with_state r (completed read), ok none)
    else (with_state r (http10 (add_usize read n)), some_offset 0 n)
take_until_closed r s n = (r, panic)

-- `Chunked` with a buffer to read from: `buf_end` bytes are in it, `expecting` are owed.
unfoldable pub take_expected : BodyReader → ℕ → ℕ → BodyReader × Read
unfolding Offset.new partial_chunk multi_chunk
take_expected r buf_end expecting =
    let payload = if ltb 2 expecting then expecting - 2 else 0 in
    if leb (buf_end + 2) expecting
    then (
      with_state r (partial_chunk r.read_state buf_end (expecting - buf_end)),
      some_offset 0 buf_end,
    )
    else if leb buf_end expecting
    then (
      with_state r (partial_chunk r.read_state payload (expecting - buf_end)),
      some_offset 0 payload,
    )
    else (with_state r (multi_chunk r.read_state payload expecting), some_offset 0 payload)

-- A complete head at `from`, of `head` bytes, in a rest of `size` bytes.
unfoldable pub take_chunk : BodyReader → ℕ → ℕ → ℕ → ℕ → BodyReader × Read
unfolding Offset.new finish_state partial_chunk multi_chunk
take_chunk r from size head chunk_size =
    let data_end = add_usize head chunk_size in
    let chunk_end = add_usize data_end 2 in
    let actual = if ltb size data_end then size - head else chunk_size in
    if chunk_size == 0
    then (with_state r (finish_state r.read_state 0), ok none)
    else if leb size chunk_end
    then (
      with_state r (partial_chunk r.read_state actual (chunk_end - size)),
      some_offset (from + head) actual,
    )
    else (
      with_state r (multi_chunk r.read_state chunk_size (from + chunk_end)),
      some_offset (from + head) chunk_size,
    )

-- A head that has not come whole.
unfoldable pub take_head : BodyReader → ℕ → ℕ → BodyReader × Read
unfolding Offset.new done_state partial_chunk_head
take_head r buf_end size =
    if ltb partial_chunk_head_limit size
    then (with_state r (done_state r.read_state 0), err chunk_over_limit)
    else (with_state r (partial_chunk_head r.read_state buf_end size), some_offset 0 0)

module _ (parser : ChunkParser) where
  open parser use {parse_chunk_size}

  unfoldable pub parse_head : BodyReader → ℕ → ℕ → Bytes → BodyReader × Read
  unfolding done_state
  parse_head r from buf_end rest = elim (parse_chunk_size rest) [
    | ChunkStatus.complete head chunk_size ↦ take_chunk r from (length rest) head chunk_size
    | ChunkStatus.partial ↦ take_head r buf_end (length rest)
    | ChunkStatus.invalid ↦ (with_state r (done_state r.read_state 0), err invalid_chunk)
  ]

  unfoldable pub parse_chunked_buf : BodyReader → ℕ → ℕ → BodyReader × Read
  unfolding Offset.slice
  parse_chunked_buf r from buf_end =
      elim (unwrap r.body_buffer >>= λ buf. Offset.slice buf from buf_end) [
        | ok rest ↦ parse_head r from buf_end rest
        | err e ↦ (r, err e)
        | panic ↦ (r, panic)
      ]

  -- The second half of `read_chunked`.
  unfoldable pub take_chunked : BodyReader → ℕ → ℕ → ℕ → BodyReader × Read
  unfolding done_state
  take_chunked r from buf_end expecting =
      if buf_end == 0
      then (with_state r (done_state r.read_state 0), err connection_closed)
      else if ltb 0 expecting
      then take_expected r buf_end expecting
      else parse_chunked_buf r from buf_end

  -- `self.read_state = self.read_state.new_buf(buf_end)`, then the second half.
  unfoldable pub take_new_buf : BodyReader → ℕ → ℕ → BodyReader × Read
  unfolding new_buf
  take_new_buf r buf_end expecting =
      take_chunked (with_state r (new_buf r.read_state buf_end)) 0 buf_end expecting
