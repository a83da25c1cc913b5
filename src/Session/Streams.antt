-- ===== src/Session/Streams.antt =====
-- The interfaces of what the sessions use and do not implement: tokio's byte streams, the memory
-- of a fresh `BytesMut`, and the `httparse` crate's reader of chunk sizes.
use glaive.Prelude.{
  ℕ, ◌≤◌, ◌<◌, ◌≡◌, Outcome, Bool, List, ok, panic, ◌++◌, ◌≢◌, length, take, drop, [],
}
use mathlib.Core.List.{flatten}
use glaive.Session.Offset.{Bytes}

-- `AsyncReadExt::read` fills the front of a buffer of the given length and reports how much. What
-- it gives are the next of the bytes that are still to come.
pub record AsyncRead : Type 1 where
  pub Stream : Type 0
  pub read : Stream → ℕ → Stream × Outcome Bytes
  pub incoming : Stream → Bytes
  pub read_next :
      (s : Stream) (room : ℕ) (bs : Bytes)
      → (read s room).1 ≡ ok bs
      → incoming s ≡ bs ++ incoming (read s room).0
  pub read_fits : (s : Stream) (room : ℕ) (bs : Bytes) → (read s room).1 ≡ ok bs → length bs ≤ room
  pub read_returns : (s : Stream) (room : ℕ) → (read s room).1 ≢ panic

-- What `BytesMut::set_len` uncovers: that many bytes of unknown content.
pub record Memory : Type 0 where
  pub uninit : ℕ → Bytes
  pub uninit_length : (n : ℕ) → length (uninit n) ≡ n

-- `httparse::Status` of `parse_chunk_size`: the length of the chunk's head and the chunk's size.
pub data ChunkStatus : Type 0 where
  complete : ℕ → ℕ → ChunkStatus
  partial : ChunkStatus
  invalid : ChunkStatus

-- A complete head lies inside the buffer that it was read from, and is not empty.
pub record ChunkParser : Type 0 where
  pub parse_chunk_size : Bytes → ChunkStatus
  pub head_fits :
      (bs : Bytes) (head size : ℕ)
      → parse_chunk_size bs ≡ complete head size
      → (0 < head) × (head ≤ length bs)

-- A stream that does not fail: a read with room for a byte gives one, while there is one to come.
pub record IsReliable (io : AsyncRead) : Type 0 where
  pub gives : (s : io.Stream) (room : ℕ) → Bytes
  pub read_gives : (s : io.Stream) (room : ℕ) → (io.read s room).1 ≡ ok (gives s room)
  pub gives_some : (s : io.Stream) (room : ℕ) → 0 < room → gives s room ≡ [] → io.incoming s ≡ []

-- `AsyncWrite` with tokio's `write_all` and `flush`, and the bytes that have gone out.
pub record AsyncWrite : Type 1 where
  pub Sink : Type 0
  pub written : Sink → Bytes
  pub write_all : Sink → Bytes → Sink × Outcome (Unit {0})
  pub flush : Sink → Sink × Outcome (Unit {0})
  pub is_write_vectored : Sink → Bool
  pub poll_write : Sink → Bytes → Sink × Outcome ℕ
  pub poll_write_vectored : Sink → List Bytes → Sink × Outcome ℕ
  pub write_all_writes :
      (s : Sink) (bs : Bytes)
      → (write_all s bs).1 ≡ ok tt
      → written (write_all s bs).0 ≡ written s ++ bs
  pub flush_keeps : (s : Sink) → written (flush s).0 ≡ written s
  -- A write takes some of the bytes that it is offered, from their front.
  pub poll_write_takes :
      (s : Sink) (bs : Bytes) (n : ℕ)
      → (poll_write s bs).1 ≡ ok n
      → (n ≤ length bs) × (written (poll_write s bs).0 ≡ written s ++ take n bs)
  pub poll_write_vectored_takes :
      (s : Sink) (bss : List Bytes) (n : ℕ)
      → (poll_write_vectored s bss).1 ≡ ok n
      → (n ≤ length (flatten bss))
        × (written (poll_write_vectored s bss).0 ≡ written s ++ take n (flatten bss))

-- `bytes::Buf`: what remains of a buffer, the pieces that it offers, and how it moves on.
pub record Buf : Type 1 where
  pub Buffer : Type 0
  pub remaining : Buffer → Bytes
  pub chunk : Buffer → Bytes
  pub chunks_vectored : Buffer → ℕ → List Bytes
  pub advance : Buffer → ℕ → Buffer
  pub chunk_offers : (b : Buffer) → (rest : Bytes) × (remaining b ≡ chunk b ++ rest)
  pub vectored_offers :
      (b : Buffer) (most : ℕ)
      → (rest : Bytes) × (remaining b ≡ flatten (chunks_vectored b most) ++ rest)
  pub advance_drops :
      (b : Buffer) (n : ℕ)
      → n ≤ length (remaining b)
      → remaining (advance b n) ≡ drop n (remaining b)
