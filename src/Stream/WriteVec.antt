-- ===== src/Stream/WriteVec.antt =====
-- core/src/stream/write_vec.rs: writing out a whole buffer, by vectored writes where the stream has
-- them. A poll that is pending is made again on the same state, so only the polls that are ready
-- show here.
pub mod Loop
use glaive.Prelude.{
  ℕ, zero, suc, ◌+◌, ◌-◌, ◌*◌, ◌≤◌, ◌<◌, ◌≡◌, ◌≢◌, ◌⊎◌, inl, inr, refl, sym, ◌∙◌, ap, Bool, true,
  false, Option, none, some, [], ◌∷◌, ◌++◌, Outcome, ok, err, panic, IoError, write_zero, arith,
  ◌==◌, take, drop, length, if◌then◌else◌, take-append-drop, length-drop, append_assoc, append-nil,
  Bool-cases,
}
use glaive.Session.Offset.{Bytes}
use glaive.Session.Streams.{AsyncWrite, Buf}

abbrev pub max_bufs : ℕ
max_bufs = 64

module _ (io : AsyncWrite) (bufs : Buf) where
  open io use {Sink, written, is_write_vectored, poll_write, poll_write_vectored}
  open bufs use {Buffer, remaining, chunk, chunks_vectored, advance}

  -- The write that `poll_write_vec` makes.
  unfoldable pub offer : Sink → Buffer → Sink × Outcome ℕ
  offer s b =
      if is_write_vectored s
      then poll_write_vectored s (chunks_vectored b max_bufs)
      else poll_write s (chunk b)

  abbrev pub advanced : Buffer → Sink × Outcome ℕ → Sink × Buffer × Outcome ℕ
  advanced b (s, ok n) = (s, advance b n, ok n)
  advanced b (s, err e) = (s, b, err e)
  advanced b (s, panic) = (s, b, panic)

  unfoldable pub poll_write_vec : Sink → Buffer → Sink × Buffer × Outcome ℕ
  unfolding offer
  poll_write_vec s b = if length (remaining b) == 0 then (s, b, ok 0) else advanced b (offer s b)

  abbrev pub Wrote : Type 0
  Wrote = Option (Sink × Buffer × Outcome (Unit {0}))

  abbrev pub wrote_some : (Sink → Buffer → Wrote) → Sink × Buffer × Outcome ℕ → Wrote
  wrote_some again (s, b, ok n) = if n == 0 then some (s, b, err write_zero) else again s b
  wrote_some again (s, b, err e) = some (s, b, err e)
  wrote_some again (s, b, panic) = some (s, b, panic)

  -- The loop of `WriteVecAll`; `none` when the fuel runs out.
  unfoldable pub write_vec_all : ℕ → Sink → Buffer → Wrote
  write_vec_all zero s b = none
  write_vec_all (suc fuel) s b =
      let rest = wrote_some (write_vec_all fuel) (poll_write_vec s b) in
      if length (remaining b) == 0 then some (s, b, ok tt) else rest
