-- ===== src/Session/Reader.antt =====
-- core/src/session/reader.rs: the state machine that reads an HTTP body off a stream, by content
-- length, by chunks or until the peer closes. The reads themselves are in the children.
pub mod Takes
pub mod Reads
pub mod Collect
pub mod ContentLength
pub mod UntilClosed
pub mod Places
pub mod Landing
pub mod ChunkedSafety
pub mod Stalls
pub mod Overflow
use glaive.Prelude.{
  ℕ, ◌-◌, ◌*◌, Bool, true, false, Option, none, some, ◌++◌, Outcome, unwrap, ◌>>=◌, add_usize, ltb,
  ◌==◌, length, if◌then◌else◌,
}
use glaive.Session.Offset
use glaive.Session.Offset.{Offset, Bytes}
use glaive.Session.Streams.{Memory}

pub data ReadState : Type 0 where
  start : ReadState
  completed : ℕ → ReadState
  done : ℕ → ReadState
  -- size read, remaining size
  partial : ℕ → ℕ → ReadState
  -- size read, next to read in the buffer, end of the buffer, expected from the stream
  chunked : ℕ → ℕ → ℕ → ℕ → ReadState
  http10 : ℕ → ReadState

unfoldable pub finish_state : ReadState → ℕ → ReadState
finish_state (partial read to_read) n = completed (add_usize read to_read)
finish_state (chunked read _ _ _) n = completed (add_usize read n)
finish_state (http10 read) n = completed (add_usize read n)
finish_state s n = s

unfoldable pub done_state : ReadState → ℕ → ReadState
done_state (partial read _) n = done (add_usize read n)
done_state (chunked read _ _ _) n = done (add_usize read n)
done_state (http10 read) n = done (add_usize read n)
done_state s n = s

unfoldable pub partial_chunk : ReadState → ℕ → ℕ → ReadState
partial_chunk (chunked read _ _ _) n to_read = chunked (add_usize read n) 0 0 to_read
partial_chunk s n to_read = s

unfoldable pub multi_chunk : ReadState → ℕ → ℕ → ReadState
multi_chunk (chunked read _ buf_end _) n buf_start = chunked (add_usize read n) buf_start buf_end 0
multi_chunk s n buf_start = s

unfoldable pub partial_chunk_head : ReadState → ℕ → ℕ → ReadState
partial_chunk_head (chunked read _ _ _) head_end head_size = chunked read 0 head_end head_size
partial_chunk_head s head_end head_size = s

unfoldable pub new_buf : ReadState → ℕ → ReadState
new_buf (chunked read _ _ _) buf_end = chunked read 0 buf_end 0
new_buf s buf_end = s

abbrev pub body_buffer_size : ℕ
body_buffer_size = 1024 * 64

abbrev pub partial_chunk_head_limit : ℕ
partial_chunk_head_limit = 1024 * 8

pub record BodyReader : Type 0 where
  pub read_state : ReadState
  pub body_buffer : Option Bytes
  pub body_size : ℕ
  pub rewind_buf_size : ℕ

unfoldable pub new : BodyReader
new = record {
  read_state = start;
  body_buffer = none;
  body_size = body_buffer_size;
  rewind_buf_size = 0;
}

unfoldable pub is_start : BodyReader → Bool
is_start r = elim r.read_state [ start ↦ true | _ ↦ false ]

unfoldable pub re_start : BodyReader → BodyReader
re_start r = record r { read_state = start }

unfoldable pub get_sliced_body : BodyReader → Offset → Outcome Bytes
unfolding Offset.get
get_sliced_body r o = do buf ← unwrap r.body_buffer; Offset.get o buf

unfoldable pub is_finished : BodyReader → Bool
is_finished r = elim r.read_state [ completed _ ↦ true | done _ ↦ true | _ ↦ false ]

unfoldable pub is_body_empty : BodyReader → Bool
is_body_empty r = elim r.read_state [ completed n ↦ n == 0 | _ ↦ false ]

module _ (m : Memory) where
  -- The bytes to rewind come first; the rest of the buffer is uncovered, not written.
  unfoldable pub set_buffer : BodyReader → Bytes → BodyReader
  set_buffer r rewind =
      let size = length rewind in
      record r {
        rewind_buf_size = if 0 == size then r.rewind_buf_size else size;
        body_buffer =
            some (if ltb size r.body_size then rewind ++ m.uninit (r.body_size - size) else rewind);
      }

  unfoldable pub with_chunked_read : BodyReader → Bytes → BodyReader
  unfolding set_buffer
  with_chunked_read r rewind = set_buffer (record r { read_state = chunked 0 0 0 0 }) rewind

  unfoldable pub with_content_length_read : BodyReader → ℕ → Bytes → BodyReader
  unfolding set_buffer
  with_content_length_read r length rewind =
      if length == 0
      then record r { read_state = completed 0 }
      else record (set_buffer r rewind) { read_state = partial 0 length }

  unfoldable pub with_until_closed_read : BodyReader → Bytes → BodyReader
  unfolding set_buffer
  with_until_closed_read r rewind = record (set_buffer r rewind) { read_state = http10 0 }
