-- ===== src/Session/Writer.antt =====
-- core/src/session/writer.rs: the state machine that writes an HTTP body to a stream, by content
-- length, by chunks or until the stream is closed.
pub mod Hex
pub mod Writes
pub mod Send
pub mod Chunks
pub mod Decode
use glaive.Prelude.{ℕ, Bool, true, false, List, [], ◌∷◌, leb}
use glaive.Session.Offset.{Bytes}

pub data WriteState : Type 0 where
  start : WriteState
  -- written size
  completed : ℕ → WriteState
  -- total size to write, written size
  content_length : ℕ → ℕ → WriteState
  chunked_encoding : ℕ → WriteState
  http10 : ℕ → WriteState

abbrev pub crlf : Bytes
crlf = b'\r' ∷ b'\n' ∷ []

-- `0`, and two ends of line.
abbrev pub last_chunk : Bytes
last_chunk = b'0' ∷ b'\r' ∷ b'\n' ∷ b'\r' ∷ b'\n' ∷ []

pub record BodyWriter : Type 0 where
  pub write_state : WriteState

unfoldable pub new : BodyWriter
new = record { write_state = start }

unfoldable pub with_content_length_write : BodyWriter → ℕ → BodyWriter
with_content_length_write w cl = record { write_state = content_length cl 0 }

unfoldable pub with_chunked_encoding_write : BodyWriter → BodyWriter
with_chunked_encoding_write w = record { write_state = chunked_encoding 0 }

unfoldable pub with_until_closed_write : BodyWriter → BodyWriter
with_until_closed_write w = record { write_state = http10 0 }

unfoldable pub finished : BodyWriter → Bool
finished w = elim w.write_state [
  | completed _ ↦ true
  | content_length total written ↦ leb total written
  | _ ↦ false
]
