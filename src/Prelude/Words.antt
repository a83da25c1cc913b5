-- ===== src/Prelude/Words.antt =====
-- Machine words: Rust's `usize` on a 64-bit target, with the wrap-around of a release build.
use Prim.Native.Nat.{ℕ, ◌+◌, ◌-◌, ◌%◌, ◌^◌}

abbrev pub usize_mod : ℕ
usize_mod = 2 ^ 64

-- `a + b` on `usize`.
abbrev pub add_usize : ℕ → ℕ → ℕ
add_usize a b = (a + b) % usize_mod

-- `a - b` on `usize`.
abbrev pub sub_usize : ℕ → ℕ → ℕ
sub_usize a b = (a + usize_mod - b) % usize_mod
