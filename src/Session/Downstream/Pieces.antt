-- ===== src/Session/Downstream/Pieces.antt =====
-- core/src/session/downstream.rs: one piece of a body that is written.
use glaive.Prelude.{
  ℕ, ◌+◌, ◌-◌, ◌≤◌, ◌<◌, ◌≡◌, refl, ap, ◌∙◌, Option, none, some, [], ◌++◌, ok, arith, usize_mod,
  add_usize, length, take, min, take-append, length-append,
}
use glaive.Session.Offset.{Bytes}
use glaive.Session.Writer.{WriteState, BodyWriter, content_length, http10}
use glaive.Session.Writer.Writes.{write_body, write_until_closed}
use glaive.Session.Writer.Send.{IsWritable, write_body-Sends}
use glaive.Session.Platform.{Platform}
use glaive.Session.Downstream.{Downstream}
use glaive.Session.Downstream.Responses.{write_response_body, after_write}

-- What a mode lets out of a piece.
abbrev pub let_out : WriteState → Bytes → Bytes
let_out (content_length total sent) bs = take (total - sent) bs
let_out _ bs = bs

-- What a piece makes of a mode.
abbrev pub moved : WriteState → Bytes → WriteState
moved (content_length total sent) bs = content_length total (sent + min (total - sent) (length bs))
moved (http10 n) bs = http10 (add_usize n (length bs))
moved ws bs = ws

-- A body by content length whose count is in its bounds, or a body until the end.
pub data Steady : WriteState → Type 0 where
  counted : (total sent : ℕ) → sent ≤ total → total < usize_mod → Steady (content_length total sent)
  unbounded : (n : ℕ) → n < usize_mod → Steady (http10 n)

pub moved-append :
    (ws : WriteState) (a b : Bytes) → Steady ws → moved (moved ws a) b ≡ moved ws (a ++ b)
moved-append _ a b (counted total sent le small) =
    let same_count : sent
          + min (total - sent) (length a)
          + min (total - (sent + min (total - sent) (length a))) (length b)
        ≡ sent + min (total - sent) (length (a ++ b)) =
      omega (arith, length-append a b) in
    ap (content_length total) same_count
moved-append _ a b (unbounded n small) =
    let same_count : add_usize (add_usize n (length a)) (length b) ≡ add_usize n (length (a ++ b)) =
      omega (arith, length-append a b) in
    ap http10 same_count

pub moved-nil : (ws : WriteState) → Steady ws → ws ≡ moved ws []
moved-nil _ (counted total sent le small) =
    let same_count : sent ≡ sent + min (total - sent) 0 = omega arith in
    ap (content_length total) same_count
moved-nil _ (unbounded n small) =
    let same_count : n ≡ add_usize n 0 = omega arith in ap http10 same_count

pub let_out-append :
    (ws : WriteState) (a b : Bytes)
    → Steady ws
    → let_out ws (a ++ b) ≡ let_out ws a ++ let_out (moved ws a) b
let_out-append _ a b (counted total sent le small) =
    let left : total - (sent + min (total - sent) (length a)) ≡ total - sent - length a =
      omega arith in
    rw left (take-append (total - sent) a b)
let_out-append _ a b (unbounded n small) = refl

module _ (net : Platform) (fuel : ℕ) where
  open net use {out, bufs, chain}
  open out use {written, write_all, flush, write_all_writes, flush_keeps}

  module _ (writable : IsWritable out bufs chain) where
    -- One piece that is written.
    pub record Wrote (d : Downstream net) (ws : WriteState) (bs : Bytes) : Type 0 where
      pub after : Downstream net
      pub result : Option ℕ
      pub writes : write_response_body net fuel d bs ≡ some (after, ok result)
      pub wire : written after.sink ≡ written d.sink ++ let_out ws bs
      pub next_is : after.body_writer.write_state ≡ moved ws bs
      pub steady : Steady (moved ws bs)
      pub buffer : after.write_body_vec_buffer ≡ d.write_body_vec_buffer
      pub splits :
          (rest : Bytes) → let_out ws (bs ++ rest) ≡ let_out ws bs ++ let_out (moved ws bs) rest

    -- What the session makes of a write that succeeds.
    record Resumed (d : Downstream net) (w : BodyWriter) (s : out.Sink) (n : Option ℕ)
        : Type 0 where
      session : Downstream net
      is : after_write net d (some (w, s, ok n)) ≡ some (session, ok n)
      sink : session.sink ≡ s
      writer : session.body_writer.write_state ≡ w.write_state
      buffer : session.write_body_vec_buffer ≡ d.write_body_vec_buffer

    after_write-Resumed :
        (d : Downstream net) (w : BodyWriter) (s : out.Sink) (n : Option ℕ) → Resumed d w s n
    after_write-Resumed d w s none = record {
      session = record d { body_writer = w; sink = s };
      is = refl;
      sink = refl;
      writer = refl;
      buffer = refl;
    }
    after_write-Resumed d w s (some n) = record {
      session = record d {
        body_writer = w;
        sink = s;
        buf_write_size = add_usize d.buf_write_size n;
      };
      is = refl;
      sink = refl;
      writer = refl;
      buffer = refl;
    }

    written-Wrote :
        (d : Downstream net) (ws : WriteState) (bs : Bytes) (w : BodyWriter) (s : out.Sink)
        (n : Option ℕ)
        → write_body out bufs chain fuel d.body_writer d.sink bs ≡ some (w, s, ok n)
        → w.write_state ≡ moved ws bs
        → Steady (moved ws bs)
        → written s ≡ written d.sink ++ let_out ws bs
        → ((rest : Bytes) → let_out ws (bs ++ rest) ≡ let_out ws bs ++ let_out (moved ws bs) rest)
        → Wrote d ws bs
    unfolding write_response_body
    written-Wrote d ws bs w s n e st steady wire splits =
        let a = after_write-Resumed d w s n in
        record {
          after = a.session;
          result = n;
          writes = ap (after_write net d) e ∙ a.is;
          wire = ap written a.sink ∙ wire;
          next_is = a.writer ∙ st;
          steady = steady;
          buffer = a.buffer;
          splits = splits;
        }

    writes_until_closed :
        (d : Downstream net) (n : ℕ) (bs : Bytes)
        → d.body_writer.write_state ≡ http10 n
        → write_body out bufs chain fuel d.body_writer d.sink bs
          ≡ some (
            record { write_state = http10 (add_usize n (length bs)) },
            (flush (write_all d.sink bs).0).0,
            ok (some (length bs)),
          )
    unfolding write_body write_until_closed
    writes_until_closed d n bs st =
        ground (arith, st, writable.writes d.sink bs, writable.flushes (write_all d.sink bs).0)

    pub Steady-Wrote :
        (d : Downstream net) (ws : WriteState) (bs : Bytes)
        → d.body_writer.write_state ≡ ws
        → Steady ws
        → Wrote d ws bs
    Steady-Wrote d ws bs st (unbounded n small) =
        written-Wrote d (http10 n) bs _ _ _ (writes_until_closed d n bs st) refl
          (unbounded _ (omega arith))
          (flush_keeps (write_all d.sink bs).0
            ∙ write_all_writes d.sink bs (writable.writes d.sink bs))
          (λ rest. refl)
    Steady-Wrote d ws bs st (counted total sent le small) =
        let one =
          write_body-Sends out bufs chain writable d.body_writer d.sink total sent bs fuel st le
            small in
        let left : total - (sent + min (total - sent) (length bs)) ≡ total - sent - length bs =
          omega arith in
        written-Wrote d (content_length total sent) bs _ one.sink one.result one.sends refl
          (counted _ _ (omega arith) small) one.out
          (λ rest. rw left (take-append (total - sent) bs rest))
