-- ===== src/Session/Upstream/Closes.antt =====
-- core/src/session/upstream.rs, `read_upstream_response`: a server that closes before its answer.
use glaive.Prelude.{
  ℕ, suc, ◌<◌, ◌≡◌, refl, Option, none, some, true, [], ok, panic, unwrap, arith, inl, inr, ◌⊎◌,
}
use glaive.Session.Offset
use glaive.Session.Offset.{Offset, Bytes}
use glaive.Session.Headers.Response.{ResponseHeader}
use glaive.Session.Reader.{is_start}
use glaive.Session.Platform.{Platform}
use glaive.Session.Heads.{read_head}
use glaive.Session.Upstream.{Upstream}
use glaive.Session.Upstream.Responses.{
  should_read_response_header, set_response_body_reader, is_reading_response_body_finished,
}
use glaive.Session.Upstream.Responses.Opening.{read_response, header_task, read_upstream_response}

module _ (net : Platform) where
  -- Nothing has been answered yet, or only a provisional answer whose body was not looked for.
  pub data Unanswered (u : Upstream net) : Type 0 where
    silent : u.response_header ≡ none → Unanswered u
    provisional :
        (o : Offset)
        → should_read_response_header net u ≡ true
        → is_start u.body_reader ≡ true
        → u.buf_body_offset ≡ some o
        → 0 < o.to
        → Unanswered u

  nothing_left : (o : Offset) → 0 < o.to → Offset.get o [] ≡ panic
  unfolding Offset.get Offset.slice
  nothing_left o h = ground arith

  read_closed :
      (fuel : ℕ) (u : Upstream net) (s : net.io.Stream)
      → net.io.read u.stream (net.spare []) ≡ (s, ok [])
      → read_response net (suc fuel) u ≡ some (record u { stream = s; buffer = [] }, ok tt)
  unfolding read_response read_head
  read_closed fuel u s e = rw e refl

  header_task-panics :
      (u : Upstream net) (r : Option (ResponseHeader net.http))
      → (r ≡ none) ⊎ (set_response_body_reader net u ≡ (u, panic))
      → header_task net u (unwrap r) ≡ (u, panic)
  unfolding is_reading_response_body_finished
  header_task-panics u none why = refl
  header_task-panics u (some h) (inl e) = absurd cc
  header_task-panics u (some h) (inr e) = ground (arith, e)

  reader-panics :
      (u : Upstream net) (s : net.io.Stream) (o : Offset)
      → is_start u.body_reader ≡ true
      → u.buf_body_offset ≡ some o
      → 0 < o.to
      → set_response_body_reader net (record u { stream = s; buffer = [] })
        ≡ (record u { stream = s; buffer = [] }, panic)
  unfolding set_response_body_reader
  reader-panics u s o st at some_bytes = ground (arith, st, at, nothing_left o some_bytes)

  Unanswered-reads : (u : Upstream net) → Unanswered u → should_read_response_header net u ≡ true
  unfolding should_read_response_header
  Unanswered-reads u (silent e) = ground (arith, e)
  Unanswered-reads u (provisional o should st at some_bytes) = should

  Unanswered-panics :
      (u : Upstream net) (s : net.io.Stream)
      → Unanswered u
      → (u.response_header ≡ none)
        ⊎ (set_response_body_reader net (record u { stream = s; buffer = [] })
            ≡ (record u { stream = s; buffer = [] }, panic))
  Unanswered-panics u s (silent e) = inl e
  Unanswered-panics u s (provisional o should st at some_bytes) =
      inr (reader-panics u s o st at some_bytes)

  -- A server that closes the connection where its answer is awaited, before any answer or after a
  -- provisional one, is no error of the reading of the head, and the task that should be made of
  -- the answer panics.
  pub read_upstream_response-panics :
      (fuel : ℕ) (u : Upstream net) (s : net.io.Stream)
      → Unanswered u
      → net.io.read u.stream (net.spare []) ≡ (s, ok [])
      → (read_response net (suc fuel) u ≡ some (record u { stream = s; buffer = [] }, ok tt))
        × (read_upstream_response net (suc fuel) u
            ≡ some (record u { stream = s; buffer = [] }, panic))
  unfolding read_upstream_response
  read_upstream_response-panics fuel u s un e =
      let closed = read_closed fuel u s e in
      let panics =
        header_task-panics (record u { stream = s; buffer = [] }) u.response_header
          (Unanswered-panics u s un) in
      (closed, ground (arith, Unanswered-reads u un, closed, panics))
