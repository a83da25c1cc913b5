-- ===== src/Session/Reader/Reads.antt =====
-- core/src/session/reader.rs: the reads. A call gives the reader, the stream and the result.
use glaive.Prelude.{
  ℕ, ◌+◌, ◌-◌, none, some, ◌++◌, Outcome, ok, err, panic, add_usize, ltb, ◌==◌, take, drop, length,
  if◌then◌else◌,
}
use glaive.Session.Offset
use glaive.Session.Offset.{Offset, Bytes}
use glaive.Session.Streams.{AsyncRead, ChunkParser}
use glaive.Session.Reader.{ReadState, start, completed, done, partial, chunked, http10, BodyReader}
use glaive.Session.Reader.Takes.{Read, take_partial, take_until_closed, take_chunked, take_new_buf}

-- The bytes of a read land at `at`, and the rest of the buffer stays.
unfoldable pub overwrite : Bytes → ℕ → Bytes → Bytes
overwrite buf at bs = take at buf ++ (bs ++ drop (at + length bs) buf)

module _ (io : AsyncRead) where
  open io use {Stream, read}

  -- The bytes that a read gave land in the buffer; a failed read leaves it.
  unfoldable pub land :
      BodyReader → Bytes → ℕ → Stream × Outcome Bytes → BodyReader × Stream × Outcome ℕ
  unfolding overwrite
  land r buf at (s, ok bs) =
      (record r { body_buffer = some (overwrite buf at bs) }, s, ok (length bs))
  land r buf at (s, err e) = (record r { body_buffer = some buf }, s, err e)
  land r buf at (s, panic) = (record r { body_buffer = some buf }, s, panic)

  -- The rest of the last parse, once; else a read into the whole buffer.
  unfoldable pub fill_buf : BodyReader → Stream → Bytes → BodyReader × Stream × Outcome ℕ
  unfolding land
  fill_buf r s buf =
      let rewound = record r { rewind_buf_size = 0 } in
      if r.rewind_buf_size == 0
      then land rewound buf 0 (read s (length buf))
      else (rewound, s, ok r.rewind_buf_size)

  unfoldable pub fill : BodyReader → Stream → BodyReader × Stream × Outcome ℕ
  unfolding fill_buf
  fill r s = elim r.body_buffer [ none ↦ (r, s, panic) | some buf ↦ fill_buf r s buf ]

  abbrev pub then_take :
      (BodyReader → ℕ → BodyReader × Read)
      → BodyReader × Stream × Outcome ℕ
      → BodyReader × Stream × Read
  then_take f (r, s, ok n) = let (r', result) = f r n in (r', s, result)
  then_take f (r, s, err e) = (r, s, err e)
  then_take f (r, s, panic) = (r, s, panic)

  unfoldable pub read_partially : BodyReader → Stream → BodyReader × Stream × Read
  read_partially r s = then_take (λ r' n. take_partial r' r'.read_state n) (fill r s)

  unfoldable pub read_until_closed : BodyReader → Stream → BodyReader × Stream × Read
  read_until_closed r s = then_take (λ r' n. take_until_closed r' r'.read_state n) (fill r s)

  -- The bytes of an unfinished head move to the front, and a read goes behind them.
  unfoldable pub refill_moved : BodyReader → Stream → Bytes → ℕ → BodyReader × Stream × Outcome ℕ
  unfolding land
  refill_moved r s moved expecting =
      if ltb (length moved) expecting
      then (record r { body_buffer = some moved }, s, panic)
      else land r moved expecting (read s (length moved - expecting))

  unfoldable pub refill_buf : BodyReader → Stream → Bytes → ℕ → ℕ → BodyReader × Stream × Outcome ℕ
  unfolding refill_moved overwrite Offset.slice
  refill_buf r s buf buf_end expecting =
      elim (if ltb buf_end expecting
        then panic
        else Offset.slice buf (buf_end - expecting) buf_end) [
          | ok head ↦ refill_moved r s (overwrite buf 0 head) expecting
          | err e ↦ (r, s, err e)
          | panic ↦ (r, s, panic)
        ]

  unfoldable pub refill : BodyReader → Stream → ℕ → ℕ → BodyReader × Stream × Outcome ℕ
  unfolding refill_buf
  refill r s buf_end expecting = elim r.body_buffer [
    | none ↦ (r, s, panic)
    | some buf ↦ refill_buf r s buf buf_end expecting
  ]

  module _ (parser : ChunkParser) where
    unfoldable pub read_chunked_at : BodyReader → Stream → ReadState → BodyReader × Stream × Read
    read_chunked_at r s (chunked _ from buf_end expecting) =
        if from == 0
        then (if buf_end == 0
            then then_take (λ r' n. take_new_buf parser r' n expecting) (fill r s)
            else then_take (λ r' n. take_new_buf parser r' (add_usize expecting n) 0)
                (refill r s buf_end expecting))
        else (let (r', result) = take_chunked parser r from buf_end expecting in (r', s, result))
    read_chunked_at r s _ = (r, s, panic)

    unfoldable pub read_chunked : BodyReader → Stream → BodyReader × Stream × Read
    unfolding read_chunked_at
    read_chunked r s = read_chunked_at r s r.read_state

    unfoldable pub read_body : BodyReader → Stream → BodyReader × Stream × Read
    read_body r s = elim r.read_state [
      | completed _ ↦ (r, s, ok none)
      | done _ ↦ (r, s, ok none)
      | partial _ _ ↦ read_partially r s
      | chunked _ _ _ _ ↦ read_chunked r s
      | http10 _ ↦ read_until_closed r s
      | start ↦ (r, s, panic)
    ]
