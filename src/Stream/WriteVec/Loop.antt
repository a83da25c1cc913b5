-- ===== src/Stream/WriteVec/Loop.antt =====
-- The loop of `write_vec_all` ends, and what it reports as written has been written.
use glaive.Prelude.{
  ℕ, zero, suc, ◌≤◌, ◌<◌, ◌≡◌, refl, ◌∙◌, none, some, [], ◌++◌, Outcome, ok, err, panic, arith,
  ◌==◌, take, length, inl, inr, take-append-drop, take-append_le, length-append, length-drop,
  append_assoc, append-nil, Bool-cases, eq-nil_of_length,
}
use mathlib.Core.List.{flatten}
use glaive.Session.Offset.{Bytes}
use glaive.Session.Streams.{AsyncWrite, Buf}
use glaive.Stream.WriteVec.{
  max_bufs, offer, advanced, poll_write_vec, Wrote, wrote_some, write_vec_all,
}

module _ (io : AsyncWrite) (bufs : Buf) where
  open io use {
    Sink, written, is_write_vectored, poll_write, poll_write_vectored, poll_write_takes,
    poll_write_vectored_takes,
  }
  open bufs use {
    Buffer, remaining, chunk, chunks_vectored, advance, chunk_offers, vectored_offers,
    advance_drops,
  }

  -- A write of `n` bytes takes them from the front of what remains.
  abbrev Took : Sink → Bytes → Sink × Outcome ℕ → Type 0
  Took s rest (s', result) =
      (n : ℕ) → result ≡ ok n → (n ≤ length rest) × (written s' ≡ written s ++ take n rest)

  Took-prefix :
      (s : Sink) (bs rest whole : Bytes) (t : Sink × Outcome ℕ)
      → whole ≡ bs ++ rest
      → ((n : ℕ) → t.1 ≡ ok n → (n ≤ length bs) × (written t.0 ≡ written s ++ take n bs))
      → Took s whole t
  Took-prefix s bs rest whole t e law n h =
      let (short, out) = law n h in
      rw e (omega (arith, length-append bs rest), rw (take-append_le n bs rest short) out)

  offer-Took : (s : Sink) (b : Buffer) → Took s (remaining b) (offer io bufs s b)
  unfolding offer
  offer-Took s b = elim (Bool-cases (is_write_vectored s)) [
    | inl e ↦
        let (rest, whole) = vectored_offers b max_bufs in
        rw e (
          Took-prefix s (flatten (chunks_vectored b max_bufs)) rest (remaining b)
            (poll_write_vectored s (chunks_vectored b max_bufs)) whole
            (poll_write_vectored_takes s (chunks_vectored b max_bufs)))
    | inr e ↦
        let (rest, whole) = chunk_offers b in
        rw e (
          Took-prefix s (chunk b) rest (remaining b) (poll_write s (chunk b)) whole
            (poll_write_takes s (chunk b)))
  ]

  -- Everything has been written when the loop says so.
  abbrev pub Ends : Sink → Buffer → Wrote io bufs → Type 0
  Ends s b none = ⊥
  Ends s b (some (s', b', result)) =
      result ≡ ok tt → (written s' ≡ written s ++ remaining b) × (remaining b' ≡ [])

  Ends-after :
      (s s' : Sink) (b b' : Buffer) (w : Wrote io bufs)
      → written s' ++ remaining b' ≡ written s ++ remaining b
      → Ends s' b' w
      → Ends s b w
  Ends-after s s' b b' none e h = h
  Ends-after s s' b b' (some (s'', b'', result)) e h =
      λ done. let (out, nothing) = h done in (out ∙ e, nothing)

  advanced-Ends :
      (again : Sink → Buffer → Wrote io bufs) (s : Sink) (b : Buffer) (t : Sink × Outcome ℕ)
      → Took s (remaining b) t
      → ((s' : Sink) (b' : Buffer)
          → length (remaining b') < length (remaining b)
          → Ends s' b' (again s' b'))
      → Ends s b (wrote_some io bufs again (advanced io bufs b t))
  advanced-Ends again s b (s', ok n) took more =
      let (short, out) = took n refl in
      elim (Bool-cases (n == 0)) [
        | inl e ↦ rw e (λ h. cc)
        | inr e ↦ rw e (
            Ends-after s s' b (advance b n) (again s' (advance b n)) (regroups n short out) (
              more s' (advance b n)
                (ground (arith, advance_drops b n short, length-drop n (remaining b)))))
      ]
    where
      regroups :
          (n : ℕ)
          → n ≤ length (remaining b)
          → written s' ≡ written s ++ take n (remaining b)
          → written s' ++ remaining (advance b n) ≡ written s ++ remaining b
      regroups n short out = rw (out, advance_drops b n short, append_assoc, take-append-drop)
  advanced-Ends again s b (s', err e) took more = λ h. cc
  advanced-Ends again s b (s', panic) took more = λ h. cc

  -- With more fuel than bytes the loop ends, also on a stream that takes one byte at a time; and
  -- when it reports success, exactly the bytes of the buffer have gone out and none remain.
  pub write_vec_all-Ends :
      (fuel : ℕ) (s : Sink) (b : Buffer)
      → length (remaining b) < fuel
      → Ends s b (write_vec_all io bufs fuel s b)
  unfolding write_vec_all poll_write_vec
  write_vec_all-Ends zero s b h = absurd (omega arith)
  write_vec_all-Ends (suc fuel) s b h = elim (Bool-cases (length (remaining b) == 0)) [
    | inl e ↦
        let nothing = eq-nil_of_length (remaining b) (ground arith) in
        rw e (λ done. (rw (nothing, append-nil) refl, nothing))
    | inr e ↦ rw e (
        advanced-Ends (write_vec_all io bufs fuel) s b (offer io bufs s b) (offer-Took s b)
          λ s' b' less. write_vec_all-Ends fuel s' b' (omega arith))
  ]
