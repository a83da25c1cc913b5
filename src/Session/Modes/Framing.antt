-- ===== src/Session/Modes/Framing.antt =====
-- core/src/session/upstream.rs, downstream.rs: the modes that the headers of a response choose.
use glaive.Prelude.{
  ℕ, ◌≡◌, refl, ◌∙◌, Option, none, some, Bool, true, false, not, ◌&&◌, ◌||◌, ok, arith, Bool-cases,
  Option-cases, inl, inr, if◌then◌else◌, ◌==◌,
}
use glaive.Session.Offset.{Bytes}
use glaive.Session.Http.{is_http11, is_informational}
use glaive.Session.Headers.Request.{RequestHeader}
use glaive.Session.Headers.Response
use glaive.Session.Headers.Response.{ResponseHeader}
use glaive.Session.Lengths.{
  is_header_value_chunk_encoding, get_content_length_value, is_request_upgrade, is_response_upgrade,
}
use glaive.Session.Reader.{BodyReader, with_content_length_read, with_until_closed_read}
use glaive.Session.Writer.{
  BodyWriter, with_chunked_encoding_write, with_content_length_write, with_until_closed_write,
}
use glaive.Session.Platform.{Platform}
use glaive.Session.Upstream.Responses.{framed_reader, response_reader}
use glaive.Session.Downstream.Responses.{writer_by_length, response_writer}
use glaive.Session.Modes.{
  BodyMode, by_length, until_closed, read_mode, write_mode, framing, chunked-read_mode,
  until_closed-read_mode, content_length-read_mode,
}
use glaive.Text.{text, same}

module _ (net : Platform) where
  -- The mode of a response to a request, by the tests of the code.
  abbrev pub response_framing : ResponseHeader net.http → BodyMode
  response_framing h =
      framing
        (is_header_value_chunk_encoding (Response.get_header net.http h (text "transfer-encoding")))
        (get_content_length_value net.utf8 (Response.get_header net.http h (text "content-length")))
        until_closed

  abbrev pub response_mode : RequestHeader net.http → ResponseHeader net.http → BodyMode
  response_mode req h =
      if same req.method (text "HEAD") || ((h.status == 204) || (h.status == 304))
      then by_length 0
      else if is_request_upgrade net.http req && (h.status == 101)
      then until_closed
      else response_framing h

  framed_reader-read_mode :
      (h : ResponseHeader net.http) (body : Bytes) (r : BodyReader)
      → read_mode (framed_reader net h body r).read_state ≡ some (response_framing h)
  unfolding framed_reader
  framed_reader-read_mode h body r =
      let te =
        is_header_value_chunk_encoding
          (Response.get_header net.http h (text "transfer-encoding")) in
      let cl =
        get_content_length_value net.utf8
          (Response.get_header net.http h (text "content-length")) in
      elim (Bool-cases te) [
        | inl t ↦ rw t (chunked-read_mode net.memory r body)
        | inr t ↦ elim (Option-cases cl) [
          | inl c ↦ rw (t, c) (until_closed-read_mode net.memory r body)
          | inr (n, c) ↦ rw (t, c) (content_length-read_mode net.memory r n body)
        ]
      ]

  framed_writer-write_mode :
      (te : Bool) (cl : Option ℕ) (w : BodyWriter)
      → write_mode
          (if te then with_chunked_encoding_write w else writer_by_length net cl w).write_state
        ≡ some (framing te cl until_closed)
  unfolding with_content_length_write with_until_closed_write with_chunked_encoding_write
  framed_writer-write_mode true cl w = refl
  framed_writer-write_mode false none w = refl
  framed_writer-write_mode false (some n) w = refl

  pub response_writer-write_mode :
      (req : RequestHeader net.http) (h : ResponseHeader net.http) (w : BodyWriter)
      → (is_informational h.status && not (h.status == 101)) ≡ false
      → is_http11 h.version ≡ true
      → ((h.status == 204) || (h.status == 304)) ≡ false
      → write_mode (response_writer net req h w).write_state ≡ some (response_mode req h)
  unfolding response_writer is_response_upgrade with_content_length_write with_until_closed_write
  response_writer-write_mode req h w final v11 body =
      elim (Bool-cases (same req.method (text "HEAD"))) [
        | inl e ↦ rw e refl
        | inr e ↦ elim (Bool-cases (is_request_upgrade net.http req && (h.status == 101))) [
          | inl u ↦ ground (arith, e, u, v11)
          | inr u ↦ ground (
            arith,
            e,
            u,
            v11,
            framed_writer-write_mode
                (is_header_value_chunk_encoding
                  (Response.get_header net.http h (text "transfer-encoding")))
                (get_content_length_value net.utf8
                  (Response.get_header net.http h (text "content-length")))
                w,
          )
        ]
      ]

  pub response_reader-read_mode :
      (up down : RequestHeader net.http) (h : ResponseHeader net.http) (body : Bytes)
      (r : BodyReader)
      → (is_informational h.status && not (h.status == 101)) ≡ false
      → same up.method (text "HEAD") ≡ false
      → up.method ≡ down.method
      → is_request_upgrade net.http up ≡ is_request_upgrade net.http down
      → (b : BodyReader) × ((response_reader net (some up) h body r ≡ ok b)
          × (read_mode b.read_state ≡ some (response_mode down h)))
  unfolding response_reader
  response_reader-read_mode up down h body r final head m u =
      let no_head : same down.method (text "HEAD") ≡ false = rw (← m) head in
      elim (Bool-cases (h.status == 101)) [
        | inl s ↦ elim (Bool-cases (is_request_upgrade net.http up)) [
          | inl y ↦ (
            with_until_closed_read net.memory r body,
            (
              ground (arith, s, y),
              until_closed-read_mode net.memory r body ∙ ground (arith, s, y, u, no_head),
            ),
          )
          | inr n ↦ (
            framed_reader net h body r,
            (
              ground (arith, s, n),
              framed_reader-read_mode h body r ∙ ground (arith, s, n, u, no_head),
            ),
          )
        ]
        | inr s ↦ elim (Bool-cases ((h.status == 204) || (h.status == 304))) [
          | inl b ↦ (
            with_content_length_read net.memory r 0 body,
            (
              ground (arith, s, b, final),
              content_length-read_mode net.memory r 0 body ∙ ground (arith, s, b),
            ),
          )
          | inr b ↦ (
            framed_reader net h body r,
            (
              ground (arith, s, b, final),
              framed_reader-read_mode h body r ∙ ground (arith, s, b, no_head),
            ),
          )
        ]
      ]
