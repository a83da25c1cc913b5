-- ===== src/Session/Modes.antt =====
-- core/src/session/downstream.rs and upstream.rs: the mode of a body that each session chooses by
-- the headers, and how the choices of the two go together.
pub mod Framing
pub mod Rfc
pub mod Response
pub mod Request
use glaive.Prelude.{
  ℕ, ◌+◌, ◌≡◌, refl, Option, none, some, Bool, true, false, arith, Bool-cases, Option-cases, inl,
  inr, if◌then◌else◌, ◌==◌,
}
use glaive.Session.Offset.{Bytes}
use glaive.Session.Streams.{Memory}
use glaive.Session.Reader
use glaive.Session.Reader.{
  ReadState, BodyReader, set_buffer, with_chunked_read, with_content_length_read,
  with_until_closed_read,
}
use glaive.Session.Writer
use glaive.Session.Writer.{
  WriteState, BodyWriter, with_chunked_encoding_write, with_content_length_write,
  with_until_closed_write,
}

pub data BodyMode : Type 0 where
  by_length : ℕ → BodyMode
  by_chunks : BodyMode
  until_closed : BodyMode

-- The mode that a reader or a writer is in, at its start.
abbrev pub read_mode : ReadState → Option BodyMode
read_mode (Reader.completed n) = some (by_length n)
read_mode (Reader.partial read n) = some (by_length (read + n))
read_mode (Reader.chunked _ _ _ _) = some by_chunks
read_mode (Reader.http10 _) = some until_closed
read_mode Reader.start = none
read_mode (Reader.done _) = none

abbrev pub write_mode : WriteState → Option BodyMode
write_mode (Writer.content_length n _) = some (by_length n)
write_mode (Writer.chunked_encoding _) = some by_chunks
write_mode (Writer.http10 _) = some until_closed
write_mode Writer.start = none
write_mode (Writer.completed _) = none

-- The mode of a message that is neither bodiless nor an upgrade: chunks before a
-- length, and without both the given mode.
abbrev pub framing : Bool → Option ℕ → BodyMode → BodyMode
framing true cl other = by_chunks
framing false (some n) other = by_length n
framing false none other = other

module _ (m : Memory) where
  pub chunked-read_mode :
      (r : BodyReader) (body : Bytes)
      → read_mode (with_chunked_read m r body).read_state ≡ some by_chunks
  unfolding with_chunked_read set_buffer
  chunked-read_mode r body = refl

  pub until_closed-read_mode :
      (r : BodyReader) (body : Bytes)
      → read_mode (with_until_closed_read m r body).read_state ≡ some until_closed
  unfolding with_until_closed_read set_buffer
  until_closed-read_mode r body = refl

  pub content_length-read_mode :
      (r : BodyReader) (n : ℕ) (body : Bytes)
      → read_mode (with_content_length_read m r n body).read_state ≡ some (by_length n)
  unfolding with_content_length_read set_buffer
  content_length-read_mode r n body = elim (Bool-cases (n == 0)) [
    | inl e ↦ ground (arith, e)
    | inr e ↦ ground (arith, e)
  ]
