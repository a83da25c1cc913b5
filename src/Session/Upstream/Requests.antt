-- ===== src/Session/Upstream/Requests.antt =====
-- core/src/session/upstream.rs: writing a request, its header and its body.
use glaive.Prelude.{
  ℕ, Option, none, some, Bool, true, false, Outcome, ok, err, panic, writing, then_run, add_usize,
  length, if◌then◌else◌,
}
use glaive.Session.Offset.{Bytes}
use glaive.Session.Headers.Request
use glaive.Session.Headers.Request.{RequestHeader, build_to_buffer}
use glaive.Session.Lengths
use glaive.Session.Lengths.{is_header_value_chunk_encoding, get_content_length_value}
use glaive.Session.Writer.{
  BodyWriter, with_content_length_write, with_chunked_encoding_write, with_until_closed_write,
}
use glaive.Session.Writer.Writes
use glaive.Session.Platform.{Platform}
use glaive.Session.Task.{Task}
use glaive.Session.Upstream.{Upstream}
use glaive.Session.Upstream.Responses.{Step, force_close_response_body_reader}
use glaive.Text.{text}

module _ (net : Platform) where
  abbrev pub Run : Type 0 → Type 0
  Run R = Option (Step net R)

  abbrev pub writer_by_length : Option ℕ → BodyWriter → BodyWriter
  writer_by_length (some n) w = with_content_length_write w n
  writer_by_length none w = with_until_closed_write w

  unfoldable pub request_writer : RequestHeader net.http → BodyWriter → BodyWriter
  unfolding Lengths.is_request_upgrade Request.get_header is_header_value_chunk_encoding
      get_content_length_value with_content_length_write with_chunked_encoding_write
      with_until_closed_write
  request_writer h w =
      if Lengths.is_request_upgrade net.http h
      then with_until_closed_write w
      else if is_header_value_chunk_encoding
          (Request.get_header net.http h (text "transfer-encoding"))
      then with_chunked_encoding_write w
      else writer_by_length
          (get_content_length_value net.utf8
            (Request.get_header net.http h (text "content-length")))
          w

  unfoldable pub set_request_body_writer : Upstream net → RequestHeader net.http → Upstream net
  unfolding request_writer
  set_request_body_writer u h = record u { body_writer = request_writer h u.body_writer }

  abbrev pub flushed_head :
      Upstream net
      → RequestHeader net.http
      → ℕ
      → net.out.Sink × Outcome (Unit {0})
      → Step net (Unit {0})
  flushed_head u h n (s, ok _) = (
    record u { sink = s; request_header = some h; buf_write_size = add_usize u.buf_write_size n },
    ok tt,
  )
  flushed_head u h n (s, err e) = (record u { sink = s }, err e)
  flushed_head u h n (s, panic) = (record u { sink = s }, panic)

  abbrev pub wrote_head :
      Upstream net
      → RequestHeader net.http
      → ℕ
      → net.out.Sink × Outcome (Unit {0})
      → Step net (Unit {0})
  wrote_head u h n (s, ok _) = flushed_head u h n (net.out.flush s)
  wrote_head u h n (s, err e) = (record u { sink = s }, err (writing e))
  wrote_head u h n (s, panic) = (record u { sink = s }, panic)

  abbrev pub send_built :
      Upstream net → RequestHeader net.http → Outcome Bytes → Step net (Unit {0})
  send_built u h (ok bs) = wrote_head u h (length bs) (net.out.write_all u.sink bs)
  send_built u h (err e) = (u, err e)
  send_built u h panic = (u, panic)

  unfoldable pub write_request_header : Upstream net → RequestHeader net.http → Step net (Unit {0})
  unfolding set_request_body_writer build_to_buffer
  write_request_header u h = send_built (set_request_body_writer u h) h (build_to_buffer net.http h)

  abbrev pub after_write : Upstream net → Option (Writes.Step net.out) → Run (Option ℕ)
  after_write u none = none
  after_write u (some (w, s, ok (some n))) = some (
    record u { body_writer = w; sink = s; buf_write_size = add_usize u.buf_write_size n },
    ok (some n),
  )
  after_write u (some (w, s, ok none)) = some (record u { body_writer = w; sink = s }, ok none)
  after_write u (some (w, s, err e)) = some (record u { body_writer = w; sink = s }, err e)
  after_write u (some (w, s, panic)) = some (record u { body_writer = w; sink = s }, panic)

  unfoldable pub write_request_body : ℕ → Upstream net → Bytes → Run (Option ℕ)
  unfolding Writes.write_body
  write_request_body fuel u buffer =
      after_write u (Writes.write_body net.out net.bufs net.chain fuel u.body_writer u.sink buffer)

  abbrev pub flushed_body :
      Upstream net → Option ℕ → net.out.Sink × Outcome (Unit {0}) → Step net (Option ℕ)
  flushed_body u result (s, ok _) =
      (force_close_response_body_reader net (record u { sink = s }), ok result)
  flushed_body u result (s, err e) = (record u { sink = s }, err e)
  flushed_body u result (s, panic) = (record u { sink = s }, panic)

  abbrev pub after_finish : Upstream net → Writes.Step net.out → Step net (Option ℕ)
  after_finish u (w, s, ok result) =
      flushed_body (record u { body_writer = w }) result (net.out.flush s)
  after_finish u (w, s, err e) = (record u { body_writer = w; sink = s }, err e)
  after_finish u (w, s, panic) = (record u { body_writer = w; sink = s }, panic)

  unfoldable pub finish_writing_request_body : Upstream net → Step net (Option ℕ)
  unfolding Writes.finish force_close_response_body_reader
  finish_writing_request_body u = after_finish u (Writes.finish net.out u.body_writer u.sink)

  abbrev pub body_last : Bool → Upstream net → Option ℕ → Run Bool
  body_last last u _ = some (u, ok last)

  -- Only tasks of a body are expected; a piece that is empty is written too.
  unfoldable pub write_task : ℕ → Upstream net → Task net.http → Run Bool
  unfolding write_request_body
  write_task fuel u (Task.body none last) = some (u, ok last)
  write_task fuel u (Task.body (some bs) last) =
      then_run (write_request_body fuel u bs) (body_last last)
  write_task fuel u _ = some (u, panic)

  abbrev pub end_if : Upstream net → Bool → Run Bool
  end_if u false = some (u, ok false)
  end_if u true = then_run (some (finish_writing_request_body u)) λ u' _. some (u', ok true)

  unfoldable pub write_upstream_request : ℕ → Upstream net → Task net.http → Run Bool
  unfolding write_task finish_writing_request_body
  write_upstream_request fuel u task = then_run (write_task fuel u task) end_if
