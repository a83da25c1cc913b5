-- ===== src/Session/Buffer/Holds.antt =====
-- core/src/session/buffer.rs: the store holds all that was written, or says that it does not.
use glaive.Prelude.{
  ℕ, ◌≤◌, ◌<◌, ◌≡◌, ap, true, false, List, [], ◌∷◌, ◌++◌, arith, length, length-append, append-nil,
  append_assoc, leb, add_usize, usize_mod, Bool-cases, inl, inr,
}
use mathlib.Core.List.{flatten}
use glaive.Session.Offset.{Bytes}
use glaive.Session.Buffer.{StorageBuffer, new, write_buffer}

unfoldable pub write_pieces : StorageBuffer → List Bytes → StorageBuffer
unfolding write_buffer
write_pieces b [] = b
write_pieces b (piece ∷ pieces) = write_pieces (write_buffer b piece) pieces

-- What a store with a capacity holds of a body: all of it, or a part and the mark.
pub data Holds (capacity : ℕ) (body : Bytes) : StorageBuffer → Type 0 where
  whole :
      length body ≤ capacity
      → Holds capacity body (record { buffer = body; capacity = capacity; truncated = false })
  part :
      (kept : Bytes)
      → capacity < length body
      → length kept ≤ capacity
      → Holds capacity body (record { buffer = kept; capacity = capacity; truncated = true })

write_buffer-Holds :
    (capacity : ℕ) (body piece : Bytes) (b : StorageBuffer)
    → length (body ++ piece) < usize_mod
    → Holds capacity body b
    → Holds capacity (body ++ piece) (write_buffer b piece)
unfolding write_buffer
write_buffer-Holds capacity body piece _ small (whole fits) =
    let total = length-append body piece in
    let sum : add_usize (length body) (length piece) ≡ length (body ++ piece) =
      omega (arith, total, small) in
    elim (Bool-cases (leb (length (body ++ piece)) capacity)) [
      | inl e ↦ rw (sum, e) (whole (ground arith))
      | inr e ↦ rw (sum, e) (part body (ground arith) fits)
    ]
write_buffer-Holds capacity body piece _ small (part kept over fits) =
    part kept (omega (arith, length-append body piece, over)) fits

write_pieces-Holds :
    (capacity : ℕ) (body : Bytes) (pieces : List Bytes) (b : StorageBuffer)
    → length (body ++ flatten pieces) < usize_mod
    → Holds capacity body b
    → Holds capacity (body ++ flatten pieces) (write_pieces b pieces)
unfolding write_pieces flatten
write_pieces-Holds capacity body [] b small h = rw (append-nil body) h
write_pieces-Holds capacity body (piece ∷ pieces) b small h =
    let assoc = append_assoc body piece (flatten pieces) in
    let same = ap length assoc in
    let first = length-append (body ++ piece) (flatten pieces) in
    rw⁻¹ assoc (
      write_pieces-Holds capacity (body ++ piece) pieces (write_buffer b piece)
        (omega (arith, small, same))
        (write_buffer-Holds capacity body piece b (omega (arith, small, same, first)) h))

-- After any writes to a new store it holds exactly the bytes that were written and is not marked,
-- when they fit its capacity; when they do not, it is marked as truncated, and what it holds is
-- within the capacity.
pub new-Holds :
    (capacity : ℕ) (pieces : List Bytes)
    → length (flatten pieces) < usize_mod
    → Holds capacity (flatten pieces) (write_pieces (new capacity) pieces)
unfolding new
new-Holds capacity pieces small =
    write_pieces-Holds capacity [] pieces (new capacity) small (whole (omega arith))
