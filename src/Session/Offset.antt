-- ===== src/Session/Offset.antt =====
-- core/src/session/offset.rs, `Offset`: ranges of a buffer, and the slices that they select.
use glaive.Prelude.{
  ℕ, ◌-◌, Bool, List, Outcome, ok, panic, add_usize, sub_usize, leb, ◌==◌, ◌&&◌, take, drop, length,
  if◌then◌else◌,
}

abbrev pub Bytes : Type 0
Bytes = List ℕ

-- `Offset(pub usize, pub usize)`: where the range starts and where it ends.
pub record Offset : Type 0 where
  pub from : ℕ
  pub to : ℕ

-- `&buf[from..to]`, which panics outside the buffer.
unfoldable pub slice : Bytes → ℕ → ℕ → Outcome Bytes
slice buf from to =
    if leb from to && leb to (length buf) then ok (take (to - from) (drop from buf)) else panic

unfoldable pub new : ℕ → ℕ → Offset
new start len = record { from = start; to = add_usize start len }

unfoldable pub get : Offset → Bytes → Outcome Bytes
unfolding slice
get o buf = slice buf o.from o.to

-- `Bytes::slice` has the bounds of an index by a range.
unfoldable pub get_bytes : Offset → Bytes → Outcome Bytes
unfolding slice
get_bytes o buf = slice buf o.from o.to

unfoldable pub len : Offset → ℕ
len o = sub_usize o.to o.from

unfoldable pub is_empty : Offset → Bool
is_empty o = o.to == o.from
