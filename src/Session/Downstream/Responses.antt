-- ===== src/Session/Downstream/Responses.antt =====
-- core/src/session/downstream.rs: writing a response, its headers and its body.
use glaive.Prelude.{
  ℕ, Option, none, some, Bool, true, false, not, ◌&&◌, ◌||◌, [], Outcome, ok, err, panic, writing,
  ◌>>=◌, add_usize, ◌==◌, length, if◌then◌else◌,
}
use glaive.Session.Offset.{Bytes}
use glaive.Session.Http.{is_informational}
use glaive.Session.Headers.{named}
use glaive.Session.Headers.Request.{RequestHeader}
use glaive.Session.Headers.Response
use glaive.Session.Headers.Response.{ResponseHeader, build_to_buffer}
use glaive.Session.Lengths
use glaive.Session.Lengths.{is_header_value_chunk_encoding, get_content_length_value}
use glaive.Session.Reader.{with_content_length_read}
use glaive.Session.Writer.{
  BodyWriter, with_content_length_write, with_chunked_encoding_write, with_until_closed_write,
  finished,
}
use glaive.Session.Writer.Writes
use glaive.Session.Platform.{Platform}
use glaive.Session.Downstream.{
  Downstream, is_ignoring_response_headers, is_session_upgrade, is_session_keepalive, set_keepalive,
}
use glaive.Session.Downstream.Requests.{force_close_request_body_reader}
use glaive.Text.{text, same}

module _ (net : Platform) where
  abbrev pub Step : Type 0 → Type 0
  Step R = Downstream net × Outcome R

  -- A write may loop, on fuel.
  abbrev pub Run : Type 0 → Type 0
  Run R = Option (Step R)

  abbrev pub writer_by_length : Option ℕ → BodyWriter → BodyWriter
  writer_by_length (some n) w = with_content_length_write w n
  writer_by_length none w = with_until_closed_write w

  abbrev pub has_no_body : ℕ → Bool
  has_no_body status = (status == 204) || (status == 304)

  unfoldable pub response_writer :
      RequestHeader net.http → ResponseHeader net.http → BodyWriter → BodyWriter
  unfolding Lengths.is_request_upgrade Lengths.is_response_upgrade is_header_value_chunk_encoding
      get_content_length_value Response.get_header with_content_length_write
      with_chunked_encoding_write with_until_closed_write
  response_writer req h w =
      if same req.method (text "HEAD")
      then with_content_length_write w 0
      else if is_informational h.status && not (h.status == 101)
      then w
      else if Lengths.is_request_upgrade net.http req && Lengths.is_response_upgrade net.http h
      then with_until_closed_write w
      else if is_header_value_chunk_encoding
          (Response.get_header net.http h (text "transfer-encoding"))
      then with_chunked_encoding_write w
      else writer_by_length
          (get_content_length_value net.utf8
            (Response.get_header net.http h (text "content-length")))
          w

  abbrev pub writer_for :
      Option (RequestHeader net.http) → ResponseHeader net.http → BodyWriter → Outcome BodyWriter
  writer_for none h w = panic
  writer_for (some req) h w = ok (response_writer req h w)

  unfoldable pub set_response_body_writer :
      Downstream net → ResponseHeader net.http → Outcome BodyWriter
  unfolding response_writer with_content_length_write
  set_response_body_writer d h =
      if has_no_body h.status
      then ok (with_content_length_write d.body_writer 0)
      else writer_for d.request_header h d.body_writer

  -- A header that was sent and was not informational is not sent again.
  abbrev pub is_sent : Option (ResponseHeader net.http) → Bool → Bool
  is_sent none upgrade = false
  is_sent (some previous) upgrade = not (is_informational previous.status) || upgrade

  unfoldable pub updated :
      Downstream net → ResponseHeader net.http → Outcome (ResponseHeader net.http)
  unfolding Response.insert_header is_session_keepalive
  updated d h =
      if not (is_informational h.status) && d.update_response_headers
      then (do
        h' ←
            Response.insert_header net.http h (named (text "date"))
              (net.http.header_value net.http_date)
        Response.insert_header net.http h' (named (text "connection"))
            (some (if is_session_keepalive net d then text "keep-alive" else text "close")))
      else ok h

  -- An upgrade goes on reading what the client sends; any other answer ends it.
  abbrev pub turned : Downstream net → Bool → Downstream net
  turned d true = record d { upgrade = true }
  turned d false = record d { body_reader = with_content_length_read net.memory d.body_reader 0 [] }

  abbrev pub with_writer : Downstream net → Outcome BodyWriter → Outcome (Downstream net)
  with_writer d (ok w) = ok (record d { body_writer = w })
  with_writer d (err e) = err e
  with_writer d panic = panic

  unfoldable pub prepared : Downstream net → ResponseHeader net.http → Outcome (Downstream net)
  unfolding set_keepalive is_session_upgrade with_content_length_read set_response_body_writer
  prepared d h =
      let d' = if h.status == 101 then set_keepalive net d none else d in
      if (h.status == 101) || not (is_informational h.status)
      then (do
        upgrade ← is_session_upgrade net d' h
        with_writer (turned d' upgrade) (set_response_body_writer (turned d' upgrade) h))
      else ok d'

  abbrev pub sent : Downstream net → ResponseHeader net.http → ℕ → Downstream net
  sent d h n = record d { response_header = some h; buf_write_size = add_usize d.buf_write_size n }

  abbrev pub flushed_head :
      Downstream net
      → ResponseHeader net.http
      → ℕ
      → net.out.Sink × Outcome (Unit {0})
      → Step (Unit {0})
  flushed_head d h n (s, ok _) = (sent (record d { sink = s }) h n, ok tt)
  flushed_head d h n (s, err e) = (record d { sink = s }, err e)
  flushed_head d h n (s, panic) = (record d { sink = s }, panic)

  abbrev pub no_length : ResponseHeader net.http → Bool
  no_length h = elim (Response.get_header net.http h (text "content-length")) [
    | none ↦ true
    | some _ ↦ false
  ]

  abbrev pub wrote_head :
      Downstream net
      → ResponseHeader net.http
      → ℕ
      → net.out.Sink × Outcome (Unit {0})
      → Step (Unit {0})
  wrote_head d h n (s, ok _) =
      if (is_informational h.status || no_length h) || finished d.body_writer
      then flushed_head d h n (net.out.flush s)
      else (sent (record d { sink = s }) h n, ok tt)
  wrote_head d h n (s, err e) = (record d { sink = s }, err (writing e))
  wrote_head d h n (s, panic) = (record d { sink = s }, panic)

  abbrev pub send_built : Downstream net → ResponseHeader net.http → Outcome Bytes → Step (Unit {0})
  send_built d h (ok bs) = wrote_head d h (length bs) (net.out.write_all d.sink bs)
  send_built d h (err e) = (d, err e)
  send_built d h panic = (d, panic)

  abbrev pub send_prepared :
      Downstream net → ResponseHeader net.http → Outcome (Downstream net) → Step (Unit {0})
  send_prepared d h (ok d') = send_built d' h (build_to_buffer net.http h)
  send_prepared d h (err e) = (d, err e)
  send_prepared d h panic = (d, panic)

  abbrev pub send_updated : Downstream net → Outcome (ResponseHeader net.http) → Step (Unit {0})
  send_updated d (ok h) = send_prepared d h (prepared d h)
  send_updated d (err e) = (d, err e)
  send_updated d panic = (d, panic)

  abbrev pub unless_ignored :
      Downstream net → ResponseHeader net.http → Outcome Bool → Step (Unit {0})
  unless_ignored d h (ok true) = (d, ok tt)
  unless_ignored d h (ok false) =
      if is_sent d.response_header d.upgrade then (d, ok tt) else send_updated d (updated d h)
  unless_ignored d h (err e) = (d, err e)
  unless_ignored d h panic = (d, panic)

  unfoldable pub write_response_headers : Downstream net → ResponseHeader net.http → Step (Unit {0})
  unfolding is_ignoring_response_headers updated prepared finished build_to_buffer
      Response.get_header
  write_response_headers d h =
      unless_ignored d h (
        if is_informational h.status then is_ignoring_response_headers net d h.status else ok false)

  -- What a write of the body leaves, with the count of what went out.
  abbrev pub after_write : Downstream net → Option (Writes.Step net.out) → Run (Option ℕ)
  after_write d none = none
  after_write d (some (w, s, ok (some n))) = some (
    record d { body_writer = w; sink = s; buf_write_size = add_usize d.buf_write_size n },
    ok (some n),
  )
  after_write d (some (w, s, ok none)) = some (record d { body_writer = w; sink = s }, ok none)
  after_write d (some (w, s, err e)) = some (record d { body_writer = w; sink = s }, err e)
  after_write d (some (w, s, panic)) = some (record d { body_writer = w; sink = s }, panic)

  unfoldable pub write_response_body : ℕ → Downstream net → Bytes → Run (Option ℕ)
  unfolding Writes.write_body
  write_response_body fuel d buffer =
      after_write d (Writes.write_body net.out net.bufs net.chain fuel d.body_writer d.sink buffer)

  -- The buffer is cleared whatever the write gives.
  abbrev pub cleared : Run (Option ℕ) → Run (Option ℕ)
  cleared none = none
  cleared (some (d, result)) = some (record d { write_body_vec_buffer = [] }, result)

  unfoldable pub vectored_write_response_body : ℕ → Downstream net → Run (Option ℕ)
  unfolding write_response_body
  vectored_write_response_body fuel d =
      if length d.write_body_vec_buffer == 0
      then some (d, ok none)
      else cleared (write_response_body fuel d d.write_body_vec_buffer)

  abbrev pub flushed_body :
      Downstream net → Option ℕ → net.out.Sink × Outcome (Unit {0}) → Step (Option ℕ)
  flushed_body d result (s, ok _) =
      (force_close_request_body_reader net (record d { sink = s }), ok result)
  flushed_body d result (s, err e) = (record d { sink = s }, err e)
  flushed_body d result (s, panic) = (record d { sink = s }, panic)

  abbrev pub after_finish : Downstream net → Writes.Step net.out → Step (Option ℕ)
  after_finish d (w, s, ok result) =
      flushed_body (record d { body_writer = w }) result (net.out.flush s)
  after_finish d (w, s, err e) = (record d { body_writer = w; sink = s }, err e)
  after_finish d (w, s, panic) = (record d { body_writer = w; sink = s }, panic)

  unfoldable pub finish_writing_response_body : Downstream net → Step (Option ℕ)
  unfolding Writes.finish force_close_request_body_reader
  finish_writing_response_body d = after_finish d (Writes.finish net.out d.body_writer d.sink)
