-- ===== src/Session/Writer/Send.antt =====
-- A whole response body: the writes of its pieces, then `finish`.
use glaive.Prelude.{
  ℕ, ◌+◌, ◌-◌, ◌≤◌, ◌<◌, ◌≡◌, refl, sym, ◌∙◌, ap, Option, none, some, List, [], ◌∷◌, ◌++◌, ok, err,
  panic, premature_body, arith, usize_mod, ltb, leb, take, length, min, if◌then◌else◌, Bool-cases,
  inl, inr, append-nil, append_assoc, length-append, take_of_length-le, take-append, take-nil,
  take_all,
}
use mathlib.Core.List.{flatten}
use glaive.Session.Offset.{Bytes}
use glaive.Session.Streams.{AsyncWrite, Buf}
use glaive.Session.Writer.{completed, content_length, BodyWriter, with_content_length_write}
use glaive.Session.Writer.Writes.{
  Step, write_by_content_length, write_body, finish_content_length, finish,
}

module _ (io : AsyncWrite) (bufs : Buf) (chain : Bytes → bufs.Buffer) where
  open io use {Sink, written, write_all, flush, write_all_writes, flush_keeps}

  abbrev pub then_send :
      (BodyWriter → Sink → Option (Step io)) → Option (Step io) → Option (Step io)
  then_send rest none = none
  then_send rest (some (w, s, ok _)) = rest w s
  then_send rest (some (w, s, err e)) = some (w, s, err e)
  then_send rest (some (w, s, panic)) = some (w, s, panic)

  unfoldable pub send : ℕ → BodyWriter → Sink → List Bytes → Option (Step io)
  send fuel w s [] = some (finish io w s)
  send fuel w s (piece ∷ pieces) =
      then_send (λ w' s'. send fuel w' s' pieces) (write_body io bufs chain fuel w s piece)

  -- A sink that takes all that is written and flushed to it.
  pub record IsWritable : Type 0 where
    pub writes : (s : Sink) (bs : Bytes) → (write_all s bs).1 ≡ ok tt
    pub flushes : (s : Sink) → (flush s).1 ≡ ok tt

  module _ (writable : IsWritable) where
    -- One write by content length: what fits goes out.
    pub record Sends (w : BodyWriter) (s : Sink) (total sent : ℕ) (piece : Bytes) (fuel : ℕ)
        : Type 0 where
      pub sink : Sink
      pub result : Option ℕ
      pub sends :
          write_body io bufs chain fuel w s piece
          ≡ some (
            record {
              write_state = content_length total (sent + min (total - sent) (length piece));
            },
            sink,
            ok result,
          )
      pub out : written sink ≡ written s ++ take (total - sent) piece

    pub write_body-Sends :
        (w : BodyWriter) (s : Sink) (total sent : ℕ) (piece : Bytes) (fuel : ℕ)
        → w.write_state ≡ content_length total sent
        → sent ≤ total
        → total < usize_mod
        → Sends w s total sent piece fuel
    unfolding write_body write_by_content_length
    write_body-Sends w s total sent piece fuel st le small = elim (Bool-cases (leb total sent)) [
      | inl e ↦ record {
        sink = s;
        result = none;
        sends = ground (arith, st);
        out = let full : total - sent ≡ 0 = ground arith in rw full (sym (append-nil (written s)));
      }
      | inr e ↦ elim (Bool-cases (leb total (sent + n))) [
        | inl all ↦ record {
          sink = (flush after).0;
          result = some n;
          sends = ground (arith, st, writable.writes s (take n piece), writable.flushes after);
          out = flush_keeps after ∙ outs;
        }
        | inr more ↦ record {
          sink = after;
          result = some n;
          sends = ground (arith, st, writable.writes s (take n piece));
          out = outs;
        }
      ]
    ]
      where
        n : ℕ
        n = if ltb (total - sent) (length piece) then total - sent else length piece

        after : Sink
        after = (write_all s (take n piece)).0

        fitting : take n piece ≡ take (total - sent) piece
        fitting = ground (arith, take_all piece, take_of_length-le (total - sent) piece)

        outs : written after ≡ written s ++ take (total - sent) piece
        outs =
            write_all_writes s (take n piece) (writable.writes s (take n piece))
            ∙ ap (◌++◌ (written s)) fitting

    -- How a run by content length ends, `sent` bytes of `total` having gone out before.
    abbrev pub LengthSent : Sink → ℕ → ℕ → Bytes → Option (Step io) → Type 0
    LengthSent s total sent body none = ⊥
    LengthSent s total sent body (some (w, s', result)) =
        (w.write_state ≡ completed (sent + min (total - sent) (length body)))
        × (written s' ≡ written s ++ take (total - sent) body)
        × (result
            ≡ (if leb (total - sent) (length body) then ok (some total) else err premature_body))

    LengthSent-after :
        (s s' : Sink) (total sent : ℕ) (piece body : Bytes) (t : Option (Step io))
        → sent ≤ total
        → written s' ≡ written s ++ take (total - sent) piece
        → LengthSent s' total (sent + min (total - sent) (length piece)) body t
        → LengthSent s total sent (piece ++ body) t
    LengthSent-after s s' total sent piece body none le out h = h
    LengthSent-after s s' total sent piece body (some (w, s'', result)) le out (state, wire, res) =
        (
          state ∙ ap completed (omega (arith, sizes)),
          wire
              ∙ rw (out, take-append (total - sent) piece body)
                  (rw rest (append_assoc (written s) (take (total - sent) piece) _)),
          res ∙ ground (arith, sizes),
        )
      where
        sizes : length (piece ++ body) ≡ length piece + length body
        sizes = length-append piece body

        rest : total - (sent + min (total - sent) (length piece)) ≡ total - sent - length piece
        rest = omega arith

    send-LengthSent :
        (fuel : ℕ) (w : BodyWriter) (s : Sink) (total sent : ℕ) (pieces : List Bytes)
        → w.write_state ≡ content_length total sent
        → sent ≤ total
        → total < usize_mod
        → LengthSent s total sent (flatten pieces) (send fuel w s pieces)
    unfolding send finish finish_content_length flatten
    send-LengthSent fuel w s total sent [] st le small =
        let e : finish io w s ≡ (
          record { write_state = completed sent },
          s,
          if ltb sent total then err premature_body else ok (some sent),
        ) =
          ground (arith, st) in
        rw e (
          ap completed (omega arith),
          sym (append-nil (written s)) ∙ ap (◌++◌ (written s)) (sym (take-nil (total - sent))),
          ground arith,
        )
    send-LengthSent fuel w s total sent (piece ∷ pieces) st le small =
        let one = write_body-Sends w s total sent piece fuel st le small in
        rw one.sends (
          LengthSent-after s one.sink total sent piece (flatten pieces) _ le one.out (
            send-LengthSent fuel
              (record {
                write_state = content_length total (sent + min (total - sent) (length piece));
              })
              one.sink total (sent + min (total - sent) (length piece)) pieces refl (omega arith)
              small))

    -- Pieces of a body written by content length, and the body finished: on a sink that takes what
    -- it is given, exactly the first `cl` bytes of the pieces go out, whatever comes beyond them,
    -- and the end is a success with `cl` if the pieces hold that much, else the error of a
    -- premature body.
    pub content_length-LengthSent :
        (fuel : ℕ) (w : BodyWriter) (s : Sink) (cl : ℕ) (pieces : List Bytes)
        → cl < usize_mod
        → LengthSent s cl 0 (flatten pieces) (send fuel (with_content_length_write w cl) s pieces)
    unfolding with_content_length_write
    content_length-LengthSent fuel w s cl pieces small =
        send-LengthSent fuel (record { write_state = content_length cl 0 }) s cl 0 pieces refl
          (omega arith) small
