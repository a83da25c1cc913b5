-- ===== src/Session/Heads/Ends.antt =====
-- core/src/session/downstream.rs, upstream.rs: the loop that reads a head ends, and what it keeps.
use glaive.Prelude.{
  ℕ, zero, suc, ◌+◌, ◌-◌, ◌≤◌, ◌<◌, ◌≡◌, refl, ◌∙◌, ap, none, some, Bool-cases, inl, inr, [], ◌∷◌,
  ◌++◌, Outcome, ok, err, panic, ltb, arith, length, length-append, append_assoc, sym, subst,
}
use glaive.Session.Offset.{Bytes}
use glaive.Session.Streams.{AsyncRead}
use glaive.Session.Platform.{HeadStatus, complete, partial, invalid}
use glaive.Session.Heads.{Head, Ended, max_buffer_size, read_head, read_more, parsed_head}

module _ (io : AsyncRead) (spare : Bytes → ℕ) where
  open io use {Stream, read, incoming, read_next, read_fits}

  module _ {A : Type 0} (parse : Bytes → HeadStatus A) where
    -- A head that was read: the buffer is what came off the stream, it was read as the head, and it
    -- is at most one read above the limit.
    pub record Read (s s' : Stream) (before : Bytes) (head : Head A) : Type 0 where
      pub whole : before ++ incoming s ≡ head.bytes ++ incoming s'
      pub parses : parse head.bytes ≡ complete head.size head.parsed
      pub bounded :
          (room : ℕ)
          → ((buf : Bytes) → spare buf ≤ room)
          → length head.bytes ≤ max_buffer_size + room

    abbrev pub Ends : Stream → Bytes → Ended io spare parse → Type 0
    Ends s buf none = ⊥
    Ends s buf (some (s', ok none)) = (buf ≡ []) × (incoming s ≡ incoming s')
    Ends s buf (some (s', ok (some head))) = Read s s' buf head
    Ends s buf (some (s', err e)) = Unit
    Ends s buf (some (s', panic)) = Unit

    -- A read of some bytes on the way.
    Ends-after :
        (s s' : Stream) (buf bs : Bytes) (t : Ended io spare parse)
        → 0 < length bs
        → incoming s ≡ bs ++ incoming s'
        → Ends s' (buf ++ bs) t
        → Ends s buf t
    Ends-after s s' buf bs none some_read next e = e
    Ends-after s s' buf bs (some (s'', ok none)) some_read next (nil, same) =
        absurd (omega (arith, length-append buf bs, ap length nil))
    Ends-after s s' buf bs (some (s'', ok (some head))) some_read next e = record {
      whole = rw next (sym (append_assoc buf bs (incoming s')) ∙ e.whole);
      parses = e.parses;
      bounded = e.bounded;
    }
    Ends-after s s' buf bs (some (s'', err x)) some_read next e = e
    Ends-after s s' buf bs (some (s'', panic)) some_read next e = e

    parsed_head-Ends :
        (s : Stream) (buf : Bytes) (status : HeadStatus A) (again : Ended io spare parse)
        → parse buf ≡ status
        → ((room : ℕ) → ((b : Bytes) → spare b ≤ room) → length buf ≤ max_buffer_size + room)
        → Ends s buf again
        → Ends s buf (parsed_head io spare parse s buf status again)
    parsed_head-Ends s buf (complete size a) again e small more = record {
      whole = refl;
      parses = e;
      bounded = small;
    }
    parsed_head-Ends s buf partial again e small more = more
    parsed_head-Ends s buf invalid again e small more = tt

    read_more-Ends :
        (s s' : Stream) (buf : Bytes) (again : Stream → Bytes → Ended io spare parse)
        (r : Outcome Bytes)
        → read s (spare buf) ≡ (s', r)
        → length buf ≤ max_buffer_size
        → ((s'' : Stream) (b : ℕ) (bs : Bytes)
            → Ends s'' (buf ++ (b ∷ bs)) (again s'' (buf ++ (b ∷ bs))))
        → Ends s buf (read_more io spare parse buf again (s', r))
    read_more-Ends s s' buf again (err e) is small more = tt
    read_more-Ends s s' buf again panic is small more = tt
    read_more-Ends s s' [] again (ok []) is small more = (
      refl,
      subst (λ t. incoming s ≡ incoming t) (ap (λ h. h.0) is)
          (read_next s (spare []) [] (ap (λ h. h.1) is)),
    )
    read_more-Ends s s' (c ∷ buf) again (ok []) is small more = ground arith
    read_more-Ends s s' buf again (ok (b ∷ bs)) is small more =
        let got : (read s (spare buf)).1 ≡ ok (b ∷ bs) = ap (λ h. h.1) is in
        Ends-after s s' buf (b ∷ bs) _ (omega arith)
          (subst (λ t. incoming s ≡ (b ∷ bs) ++ incoming t) (ap (λ h. h.0) is)
            (read_next s (spare buf) (b ∷ bs) got))
          (parsed_head-Ends s' (buf ++ (b ∷ bs)) (parse (buf ++ (b ∷ bs)))
            (again s' (buf ++ (b ∷ bs))) refl
            (λ room fits.
              omega
                (arith, length-append buf (b ∷ bs), read_fits s (spare buf) (b ∷ bs) got, fits buf))
            (more s' b bs))

    -- The loop ends: with as much fuel as the limit leaves to read, and two more, it never runs
    -- out. A head that it gives was parsed of all that came off the stream, behind what the buffer
    -- had, and the buffer is at most one read longer than the limit; without a head and without an
    -- error nothing had come.
    pub read_head-Ends :
        (fuel : ℕ) (s : Stream) (buf : Bytes)
        → max_buffer_size + 1 - length buf < fuel
        → Ends s buf (read_head io spare parse fuel s buf)
    unfolding read_head
    read_head-Ends zero s buf h = absurd (omega arith)
    read_head-Ends (suc fuel) s buf h = elim (Bool-cases (ltb max_buffer_size (length buf))) [
      | inl over ↦ rw (over, Ends) tt
      | inr under ↦
          rw (under, Ends)
            (read_more-Ends s (read s (spare buf)).0 buf
              (λ s' buf'. read_head io spare parse fuel s' buf') (read s (spare buf)).1 refl
              (ground (arith, under))
              (λ s'' b bs. read_head-Ends fuel s'' (buf ++ (b ∷ bs)) (
                let le : length buf ≤ max_buffer_size = ground (arith, under) in
                omega (arith, length-append buf (b ∷ bs)))))
    ]
