-- ===== src/Session/Upstream/Responses.antt =====
-- core/src/session/upstream.rs: reading a response, its head and its body.
pub mod Opening
use glaive.Prelude.{
  ℕ, Option, none, some, Bool, true, false, not, ◌&&◌, List, [], Outcome, ok, err, panic, ◌>>=◌,
  then_ok, add_usize, ◌==◌, ◌||◌, leb, length, if◌then◌else◌,
}
use glaive.Session.Offset
use glaive.Session.Offset.{Offset, Bytes}
use glaive.Session.Headers.Request.{RequestHeader}
use glaive.Session.Headers.Response
use glaive.Session.Headers.Response.{ResponseHeader}
use glaive.Session.Lengths
use glaive.Session.Lengths.{is_header_value_chunk_encoding, get_content_length_value}
use glaive.Session.Reader.{
  BodyReader, is_start, is_finished, is_body_empty, with_chunked_read, with_content_length_read,
  with_until_closed_read, get_sliced_body,
}
use glaive.Session.Reader.Reads.{read_body}
use glaive.Session.Platform.{Platform}
use glaive.Session.Upstream.{Upstream, upgrades}
use glaive.Text.{text, same}

module _ (net : Platform) where
  abbrev pub Step : Type 0 → Type 0
  Step R = Upstream net × Outcome R

  abbrev pub is_head : Option (RequestHeader net.http) → Bool
  is_head none = false
  is_head (some h) = same h.method (text "HEAD")

  abbrev by_length : Option ℕ → BodyReader → Bytes → BodyReader
  by_length (some n) r body = with_content_length_read net.memory r n body
  by_length none r body = with_until_closed_read net.memory r body

  unfoldable pub framed_reader : ResponseHeader net.http → Bytes → BodyReader → BodyReader
  unfolding Response.get_header is_header_value_chunk_encoding with_chunked_read
      with_content_length_read with_until_closed_read get_content_length_value
  framed_reader h body r =
      if is_header_value_chunk_encoding (Response.get_header net.http h (text "transfer-encoding"))
      then with_chunked_read net.memory r body
      else by_length
          (get_content_length_value net.utf8
            (Response.get_header net.http h (text "content-length")))
          r body

  -- The branches of a switch of protocols.
  abbrev pub switched :
      ResponseHeader net.http → Bytes → BodyReader → Outcome Bool → Outcome BodyReader
  switched h body r (ok true) = ok (with_until_closed_read net.memory r body)
  switched h body r (ok false) = ok (framed_reader h body r)
  switched h body r (err e) = err e
  switched h body r panic = panic

  -- By the status: 101 asks whether the request was an upgrade, the other informational ones leave
  -- the reader, and 204 and 304 have no body.
  unfoldable pub response_reader :
      Option (RequestHeader net.http)
      → ResponseHeader net.http
      → Bytes
      → BodyReader
      → Outcome BodyReader
  unfolding framed_reader Lengths.is_request_upgrade with_until_closed_read with_content_length_read
  response_reader request h body r =
      if h.status == 101
      then switched h body r (upgrades net request)
      else if leb 100 h.status && leb h.status 199
      then ok r
      else if (h.status == 204) || (h.status == 304)
      then ok (with_content_length_read net.memory r 0 body)
      else ok (framed_reader h body r)

  abbrev pub with_reader : Upstream net → Outcome BodyReader → Step (Unit {0})
  with_reader u (ok r) = (record u { body_reader = r }, ok tt)
  with_reader u (err e) = (u, err e)
  with_reader u panic = (u, panic)

  abbrev pub by_response : Upstream net → Bytes → Option (ResponseHeader net.http) → Step (Unit {0})
  by_response u body none = (u, panic)
  by_response u body (some h) =
      with_reader u (response_reader u.request_header h body u.body_reader)

  abbrev pub choose_reader : Upstream net → Outcome Bytes → Step (Unit {0})
  choose_reader u (ok body) =
      if is_head u.request_header
      then (
        record u { body_reader = with_content_length_read net.memory u.body_reader 0 body },
        ok tt,
      )
      else by_response u body u.response_header
  choose_reader u (err e) = (u, err e)
  choose_reader u panic = (u, panic)

  abbrev pub body_at : Option Offset → Bytes → Outcome Bytes
  body_at none buffer = panic
  body_at (some o) buffer = Offset.get o buffer

  unfoldable pub set_response_body_reader : Upstream net → Step (Unit {0})
  unfolding is_start Offset.get response_reader with_content_length_read
  set_response_body_reader u =
      if is_start u.body_reader
      then choose_reader u (body_at u.buf_body_offset u.buffer)
      else (u, ok tt)

  abbrev pub after_read :
      Upstream net → BodyReader × net.io.Stream × Outcome (Option Offset) → Step (Option Offset)
  after_read u (r, s, result) = (record u { body_reader = r; stream = s }, result)

  unfoldable pub read_response_body : Upstream net → Step (Option Offset)
  unfolding set_response_body_reader read_body
  read_response_body u =
      then_ok (set_response_body_reader u)
        λ u' _. after_read u' (read_body net.io net.chunk_parser u'.body_reader u'.stream)

  abbrev pub take_body : Upstream net → Outcome Bytes → Step (Option Bytes)
  take_body u (ok bs) =
      (record u { buf_read_size = add_usize u.buf_read_size (length bs) }, ok (some bs))
  take_body u (err e) = (u, err e)
  take_body u panic = (u, panic)

  abbrev pub take_offset : Upstream net → Option Offset → Step (Option Bytes)
  take_offset u none = (u, ok none)
  take_offset u (some o) = take_body u (get_sliced_body u.body_reader o)

  unfoldable pub read_response_body_bytes : Upstream net → Step (Option Bytes)
  unfolding read_response_body get_sliced_body
  read_response_body_bytes u = then_ok (read_response_body u) take_offset

  unfoldable pub is_reading_response_body_finished : Upstream net → Step Bool
  unfolding set_response_body_reader is_finished
  is_reading_response_body_finished u =
      then_ok (set_response_body_reader u) λ u' _. (u', ok (is_finished u'.body_reader))

  unfoldable pub is_response_body_empty : Upstream net → Step Bool
  unfolding set_response_body_reader is_body_empty
  is_response_body_empty u =
      then_ok (set_response_body_reader u) λ u' _. (u', ok (is_body_empty u'.body_reader))

  unfoldable pub force_close_response_body_reader : Upstream net → Upstream net
  unfolding is_finished with_content_length_read
  force_close_response_body_reader u =
      if u.upgrade && not (is_finished u.body_reader)
      then record u { body_reader = with_content_length_read net.memory u.body_reader 0 [] }
      else u

  unfoldable pub should_read_response_header : Upstream net → Bool
  should_read_response_header u = elim u.response_header [
    | none ↦ true
    | some h ↦ if h.status == 101 then false else leb 100 h.status && leb h.status 199
  ]
