-- ===== src/Session/Buffer.antt =====
-- core/src/session/buffer.rs: the store that keeps a request's body for a retry, up to a size.
pub mod Holds
use glaive.Prelude.{
  ℕ, Option, none, some, Bool, true, false, not, ◌&&◌, List, [], ◌++◌, length, add_usize, leb, ◌==◌,
  if◌then◌else◌,
}
use glaive.Session.Offset.{Bytes}

pub record StorageBuffer : Type 0 where
  pub buffer : Bytes
  pub capacity : ℕ
  pub truncated : Bool

unfoldable pub new : ℕ → StorageBuffer
new size = record { buffer = []; capacity = size; truncated = false }

unfoldable pub write_buffer : StorageBuffer → Bytes → StorageBuffer
write_buffer b bytes =
    if not b.truncated && leb (add_usize (length b.buffer) (length bytes)) b.capacity
    then record b { buffer = b.buffer ++ bytes }
    else record b { truncated = true }

unfoldable pub clear_buffer : StorageBuffer → StorageBuffer
clear_buffer b = record b { buffer = []; truncated = false }

unfoldable pub is_buffer_empty : StorageBuffer → Bool
is_buffer_empty b = length b.buffer == 0

unfoldable pub is_buffer_truncated : StorageBuffer → Bool
is_buffer_truncated b = b.truncated

unfoldable pub get_buffer : StorageBuffer → Option Bytes
unfolding is_buffer_empty
get_buffer b = if not (is_buffer_empty b) then some b.buffer else none
