-- ===== src/Session/Downstream/Requests.antt =====
-- core/src/session/downstream.rs: reading a request, its head and its body.
use glaive.Prelude.{
  ℕ, Option, none, some, Bool, true, false, not, ◌&&◌, [], Outcome, ok, err, panic,
  connection_closed, connect_error, then_ok, add_usize, ◌*◌, ◌==◌, length, if◌then◌else◌,
}
use glaive.Session.Offset
use glaive.Session.Offset.{Offset, Bytes}
use glaive.Session.Http.{Version, is_http11}
use glaive.Session.Headers.Request
use glaive.Session.Headers.Request.{RequestHeader}
use glaive.Session.Lengths
use glaive.Session.Lengths.{is_header_value_chunk_encoding, get_content_length_value}
use glaive.Session.Reader.{
  BodyReader, is_start, is_finished, is_body_empty, with_chunked_read, with_content_length_read,
  with_until_closed_read, get_sliced_body,
}
use glaive.Session.Reader.Reads.{read_body}
use glaive.Session.Buffer
use glaive.Session.Buffer.{StorageBuffer}
use glaive.Session.Platform.{Platform}
use glaive.Session.Task.{Task}
use glaive.Session.Downstream.{Downstream, is_request_upgrade}
use glaive.Text.{text}

abbrev pub body_buf_limit : ℕ
body_buf_limit = 1024 * 64

module _ (net : Platform) where
  abbrev pub Step : Type 0 → Type 0
  Step R = Downstream net × Outcome R

  -- The mode that the headers choose. An upgrade sets a mode, and the tests go on.
  abbrev pub by_length : Option ℕ → Version → BodyReader → Bytes → BodyReader
  by_length (some n) version r body = with_content_length_read net.memory r n body
  by_length none version r body =
      if is_http11 version
      then with_content_length_read net.memory r 0 body
      else with_until_closed_read net.memory r body

  unfoldable pub request_reader : RequestHeader net.http → Bytes → BodyReader → BodyReader
  unfolding Lengths.is_request_upgrade Request.get_header is_header_value_chunk_encoding
      with_chunked_read with_content_length_read with_until_closed_read get_content_length_value
  request_reader h body r =
      let r' =
        if is_http11 h.version && Lengths.is_request_upgrade net.http h
        then with_until_closed_read net.memory r body
        else r in
      if is_header_value_chunk_encoding (Request.get_header net.http h (text "transfer-encoding"))
      then with_chunked_read net.memory r' body
      else by_length
          (get_content_length_value net.utf8
            (Request.get_header net.http h (text "content-length")))
          h.version r' body

  abbrev pub clear_retry : Option StorageBuffer → Option StorageBuffer
  clear_retry none = none
  clear_retry (some b) = some (Buffer.clear_buffer b)

  abbrev pub body_at : Option Offset → Bytes → Outcome Bytes
  body_at none buffer = panic
  body_at (some o) buffer = Offset.get o buffer

  abbrev pub choose_reader :
      Downstream net → Outcome Bytes → Option (RequestHeader net.http) → Step (Unit {0})
  choose_reader d (ok body) (some h) =
      (record d { body_reader = request_reader h body d.body_reader }, ok tt)
  choose_reader d (ok body) none = (d, panic)
  choose_reader d (err e) h = (d, err e)
  choose_reader d panic h = (d, panic)

  unfoldable pub set_request_body_reader : Downstream net → Step (Unit {0})
  unfolding is_start Buffer.clear_buffer Offset.get request_reader
  set_request_body_reader d =
      if is_start d.body_reader
      then choose_reader (record d { retry_buffer = clear_retry d.retry_buffer })
          (body_at d.buf_body_offset d.buffer) d.request_header
      else (d, ok tt)

  unfoldable pub is_retry_buffer_truncated : Downstream net → Bool
  unfolding Buffer.is_buffer_truncated
  is_retry_buffer_truncated d = elim d.retry_buffer [
    | none ↦ false
    | some b ↦ Buffer.is_buffer_truncated b
  ]

  abbrev enabled : Option StorageBuffer → Option StorageBuffer
  enabled none = some (Buffer.new body_buf_limit)
  enabled (some b) = some b

  unfoldable pub enable_retry_buffer : Downstream net → Downstream net
  unfolding Buffer.new
  enable_retry_buffer d = record d { retry_buffer = enabled d.retry_buffer }

  unfoldable pub get_retry_buffer : Downstream net → Option Bytes
  unfolding is_retry_buffer_truncated Buffer.get_buffer
  get_retry_buffer d = elim d.retry_buffer [
    | none ↦ none
    | some b ↦ if is_retry_buffer_truncated d then none else Buffer.get_buffer b
  ]

  abbrev pub after_read :
      Downstream net → BodyReader × net.io.Stream × Outcome (Option Offset) → Step (Option Offset)
  after_read d (r, s, result) = (record d { body_reader = r; stream = s }, result)

  unfoldable pub read_request_body : Downstream net → Step (Option Offset)
  unfolding set_request_body_reader read_body
  read_request_body d =
      then_ok (set_request_body_reader d)
        λ d' _. after_read d' (read_body net.io net.chunk_parser d'.body_reader d'.stream)

  abbrev pub write_retry : Option StorageBuffer → Bytes → Option StorageBuffer
  write_retry none bs = none
  write_retry (some b) bs = some (Buffer.write_buffer b bs)

  abbrev pub take_body : Downstream net → Outcome Bytes → Step (Option Bytes)
  take_body d (ok bs) = (
    record d {
      buf_read_size = add_usize d.buf_read_size (length bs);
      retry_buffer = write_retry d.retry_buffer bs;
    },
    ok (some bs),
  )
  take_body d (err e) = (d, err e)
  take_body d panic = (d, panic)

  abbrev pub take_offset : Downstream net → Option Offset → Step (Option Bytes)
  take_offset d none = (d, ok none)
  take_offset d (some o) = take_body d (get_sliced_body d.body_reader o)

  unfoldable pub read_request_body_bytes : Downstream net → Step (Option Bytes)
  unfolding read_request_body get_sliced_body Buffer.write_buffer
  read_request_body_bytes d = then_ok (read_request_body d) take_offset

  unfoldable pub is_reading_request_body_finished : Downstream net → Step Bool
  unfolding set_request_body_reader is_finished
  is_reading_request_body_finished d =
      then_ok (set_request_body_reader d) λ d' _. (d', ok (is_finished d'.body_reader))

  unfoldable pub is_request_body_empty : Downstream net → Step Bool
  unfolding set_request_body_reader is_body_empty
  is_request_body_empty d =
      then_ok (set_request_body_reader d) λ d' _. (d', ok (is_body_empty d'.body_reader))

  unfoldable pub force_close_request_body_reader : Downstream net → Downstream net
  unfolding is_finished with_content_length_read
  force_close_request_body_reader d =
      if d.upgrade && not (is_finished d.body_reader)
      then record d { body_reader = with_content_length_read net.memory d.body_reader 0 [] }
      else d

  abbrev idled : Downstream net → net.io.Stream × Outcome Bytes → Step ℕ
  idled d (s, ok bs) = (record d { stream = s }, ok (length bs))
  idled d (s, err e) = (record d { stream = s }, err e)
  idled d (s, panic) = (record d { stream = s }, panic)

  unfoldable pub idle : Downstream net → Step ℕ
  idle d = idled d (net.io.read d.stream 1)

  abbrev not_expected : Downstream net → ℕ → Step (Option Bytes)
  not_expected d read = (d, err (if read == 0 then connection_closed else connect_error))

  abbrev read_or_idle : Downstream net → Bool → Step (Option Bytes)
  read_or_idle d true = then_ok (idle d) not_expected
  read_or_idle d false = read_request_body_bytes d

  unfoldable pub read_request_body_or_idle : Downstream net → Step (Option Bytes)
  unfolding is_reading_request_body_finished idle read_request_body_bytes
  read_request_body_or_idle d = then_ok (is_reading_request_body_finished d) read_or_idle

  abbrev body_task : Option Bytes → Downstream net → Step (Task net.http)
  body_task bs d =
      then_ok (is_reading_request_body_finished d) λ d' last. (d', ok (Task.body bs last))

  abbrev unless_upgrade : Downstream net → Outcome Bool → Step (Task net.http)
  unless_upgrade d (ok true) = (d, ok Task.done)
  unless_upgrade d (ok false) = body_task none d
  unless_upgrade d (err e) = (d, err e)
  unless_upgrade d panic = (d, panic)

  abbrev request_task : Downstream net → Option Bytes → Step (Task net.http)
  request_task d none = unless_upgrade d (is_request_upgrade net d)
  request_task d (some bs) = body_task (some bs) d

  unfoldable pub read_downstream_request : Downstream net → Step (Task net.http)
  unfolding read_request_body_or_idle is_reading_request_body_finished is_request_upgrade
  read_downstream_request d = then_ok (read_request_body_or_idle d) request_task
