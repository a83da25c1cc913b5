-- ===== src/Session/Reader/Overflow.antt =====
-- A chunk size that overflows a `usize`, which the reader does not check for.
use glaive.Prelude.{ℕ, ◌+◌, ◌≤◌, ◌<◌, ◌≡◌, some, ok, panic, arith, usize_mod, length}
use glaive.Session.Offset
use glaive.Session.Offset.{Offset, Bytes}
use glaive.Session.Reader.{BodyReader, chunked, get_sliced_body}
use glaive.Session.Reader.Takes.{take_chunk}

-- A size so large that the end of the chunk wraps round to a place inside the bytes at hand is not
-- refused: the reader hands out an offset that ends before it starts, and the slice panics.
pub take_chunk_overflows :
    (r : BodyReader) (buf : Bytes) (total from buf_end rest head size : ℕ)
    → r.body_buffer ≡ some buf
    → r.read_state ≡ chunked total 0 buf_end 0
    → from + rest ≡ buf_end
    → buf_end ≤ length buf
    → length buf < usize_mod
    → head ≤ rest
    → size < usize_mod
    → usize_mod ≤ head + size
    → head + size + 2 < usize_mod + rest
    → (o : Offset) × ((take_chunk r from rest head size).1 ≡ ok (some o))
      × (get_sliced_body (take_chunk r from rest head size).0 o ≡ panic)
unfolding take_chunk get_sliced_body
take_chunk_overflows r buf total from buf_end rest head size has st whole fits small inside word
      over near =
    (Offset.new (from + head) size, ground (arith, has, st), ground (arith, has, st))
