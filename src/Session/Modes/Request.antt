-- ===== src/Session/Modes/Request.antt =====
-- core/src/session/downstream.rs, `set_request_body_reader`, and upstream.rs,
-- `set_request_body_writer`: the modes of a request's body.
use glaive.Prelude.{
  ℕ, ◌≡◌, refl, Option, none, some, Bool, true, false, ◌&&◌, ok, arith, if◌then◌else◌,
}
use glaive.Session.Offset.{Bytes}
use glaive.Session.Http.{Version, http09, http10, http11, http2, http3, is_http11}
use glaive.Session.Headers.Request
use glaive.Session.Headers.Request.{RequestHeader}
use glaive.Session.Lengths.{
  is_header_value_chunk_encoding, get_content_length_value, is_request_upgrade,
}
use glaive.Session.Reader.{BodyReader, is_start, with_chunked_read, with_until_closed_read}
use glaive.Session.Writer.{
  BodyWriter, with_chunked_encoding_write, with_content_length_write, with_until_closed_write,
}
use glaive.Session.Platform.{Platform}
use glaive.Session.Upstream.{Upstream}
use glaive.Session.Upstream.Requests.{request_writer, writer_by_length, set_request_body_writer}
use glaive.Session.Downstream.{Downstream}
use glaive.Session.Downstream.Requests.{
  request_reader, by_length, set_request_body_reader, body_at, clear_retry,
}
use glaive.Session.Modes
use glaive.Session.Modes.{
  BodyMode, by_chunks, until_closed, read_mode, write_mode, framing, chunked-read_mode,
  until_closed-read_mode, content_length-read_mode,
}
use glaive.Text.{text}

module _ (net : Platform) where
  abbrev pub is_chunked : RequestHeader net.http → Bool
  is_chunked h =
      is_header_value_chunk_encoding (Request.get_header net.http h (text "transfer-encoding"))

  abbrev pub length_of : RequestHeader net.http → Option ℕ
  length_of h =
      get_content_length_value net.utf8 (Request.get_header net.http h (text "content-length"))

  -- Without chunks and a length a request of HTTP/1.1 has no body.
  abbrev pub request_mode : RequestHeader net.http → BodyMode
  request_mode h =
      framing (is_chunked h) (length_of h)
        (if is_http11 h.version then Modes.by_length 0 else until_closed)

  chosen-read_mode :
      (te : Bool) (cl : Option ℕ) (version : Version) (r : BodyReader) (body : Bytes)
      → read_mode
          (if te
            then with_chunked_read net.memory r body
            else by_length net cl version r body).read_state
        ≡ some (framing te cl (if is_http11 version then Modes.by_length 0 else until_closed))
  chosen-read_mode true cl version r body = chunked-read_mode net.memory r body
  chosen-read_mode false (some n) version r body = content_length-read_mode net.memory r n body
  chosen-read_mode false none http11 r body = content_length-read_mode net.memory r 0 body
  chosen-read_mode false none http09 r body = until_closed-read_mode net.memory r body
  chosen-read_mode false none http10 r body = until_closed-read_mode net.memory r body
  chosen-read_mode false none http2 r body = until_closed-read_mode net.memory r body
  chosen-read_mode false none http3 r body = until_closed-read_mode net.memory r body

  request_reader-read_mode :
      (h : RequestHeader net.http) (body : Bytes) (r : BodyReader)
      → read_mode (request_reader net h body r).read_state ≡ some (request_mode h)
  unfolding request_reader
  request_reader-read_mode h body r =
      chosen-read_mode (is_chunked h) (length_of h) h.version
        (if is_http11 h.version && is_request_upgrade net.http h
          then with_until_closed_read net.memory r body
          else r)
        body

  framed-write_mode :
      (upgrade te : Bool) (cl : Option ℕ) (w : BodyWriter)
      → write_mode
          (if upgrade
            then with_until_closed_write w
            else if te
            then with_chunked_encoding_write w
            else writer_by_length net cl w).write_state
        ≡ some (if upgrade then until_closed else framing te cl until_closed)
  unfolding with_content_length_write with_until_closed_write with_chunked_encoding_write
  framed-write_mode true te cl w = refl
  framed-write_mode false true cl w = refl
  framed-write_mode false false none w = refl
  framed-write_mode false false (some n) w = refl

  -- The modes of the two sessions for one request.
  pub record Chosen (d : Downstream net) (u : Upstream net) (h : RequestHeader net.http)
      : Type 0 where
    pub after : Downstream net
    pub sets : set_request_body_reader net d ≡ (after, ok tt)
    pub reads_by : read_mode after.body_reader.read_state ≡ some (request_mode h)
    pub writes_by :
        write_mode (set_request_body_writer net u h).body_writer.write_state
        ≡ some (
            if is_request_upgrade net.http h
            then until_closed
            else framing (is_chunked h) (length_of h) until_closed)

  sets_reader :
      (d : Downstream net) (h : RequestHeader net.http) (body : Bytes)
      → is_start d.body_reader ≡ true
      → body_at net d.buf_body_offset d.buffer ≡ ok body
      → d.request_header ≡ some h
      → set_request_body_reader net d ≡ (
        record d {
          retry_buffer = clear_retry net d.retry_buffer;
          body_reader = request_reader net h body d.body_reader;
        },
        ok tt,
      )
  unfolding set_request_body_reader
  sets_reader d h body st at req = ground (arith, st, at, req)

  -- A request that the downstream session has read the head of, and that the upstream session is to
  -- write: the one reads the body in chunks, else by its content length, else by the length 0 for
  -- HTTP/1.1 and until the end for other versions, whether the request is an upgrade or not; the
  -- other writes the bytes until the end for an upgrade, else in chunks, else by the content length,
  -- else the bytes until the end.
  pub request-Chosen :
      (d : Downstream net) (u : Upstream net) (h : RequestHeader net.http) (body : Bytes)
      → is_start d.body_reader ≡ true
      → body_at net d.buf_body_offset d.buffer ≡ ok body
      → d.request_header ≡ some h
      → Chosen d u h
  unfolding set_request_body_writer request_writer
  request-Chosen d u h body st at req = record {
    after = record d {
      retry_buffer = clear_retry net d.retry_buffer;
      body_reader = request_reader net h body d.body_reader;
    };
    sets = sets_reader d h body st at req;
    reads_by = request_reader-read_mode h body d.body_reader;
    writes_by =
        framed-write_mode (is_request_upgrade net.http h) (is_chunked h) (length_of h)
          u.body_writer;
  }
