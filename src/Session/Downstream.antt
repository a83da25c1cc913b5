-- ===== src/Session/Downstream.antt =====
-- core/src/session/downstream.rs: the session with a client. Its state, its headers and its
-- keep-alive are here, the reads and the writes in the children.
pub mod Opening
pub mod Requests
pub mod Responses
pub mod Tasks
pub mod Sends
pub mod Once
pub mod Pieces
pub mod Singly
pub mod Batches
pub mod Opens
pub mod Keeps
use glaive.Prelude.{
  ℕ, Option, none, some, Bool, true, false, not, ◌&&◌, List, [], ◌∷◌, Outcome, ok, err, panic,
  ◌>>=◌, ltb, ◌==◌, if◌then◌else◌,
}
use glaive.Session.Offset.{Offset, Bytes}
use glaive.Session.Http.{Version, is_http11}
use glaive.Session.Headers.{HeaderKey}
use glaive.Session.Headers.Request
use glaive.Session.Headers.Request.{RequestHeader}
use glaive.Session.Headers.Response.{ResponseHeader}
use glaive.Session.Lengths
use glaive.Session.Lengths.{is_response_upgrade}
use glaive.Session.Reader
use glaive.Session.Reader.{BodyReader}
use glaive.Session.Writer
use glaive.Session.Writer.{BodyWriter}
use glaive.Session.Buffer.{StorageBuffer}
use glaive.Session.Keepalive
use glaive.Session.Keepalive.{KeepaliveStatus, timeout, infinite, off}
use glaive.Session.Platform.{Platform}
use glaive.Text.{Text, text}

-- `set_keepalive`, which writes the one field.
unfoldable pub keepalive_of : Option ℕ → KeepaliveStatus
keepalive_of (some sec) = if ltb 0 sec then timeout sec else infinite
keepalive_of none = off

abbrev pub or_zero : Option ℕ → Option ℕ
or_zero (some sec) = some sec
or_zero none = some 0

module _ (net : Platform) where
  -- The two directions of the stream are two fields.
  pub record Downstream : Type 0 where
    pub stream : net.io.Stream
    pub sink : net.out.Sink
    pub buffer : Bytes
    pub write_body_vec_buffer : Bytes
    pub retry_buffer : Option StorageBuffer
    pub buf_headers_offset : Option Offset
    pub buf_body_offset : Option Offset
    pub request_header : Option (RequestHeader net.http)
    pub response_header : Option (ResponseHeader net.http)
    pub body_writer : BodyWriter
    pub body_reader : BodyReader
    pub buf_write_size : ℕ
    pub buf_read_size : ℕ
    pub keepalive_timeout : KeepaliveStatus
    pub read_timeout : Option ℕ
    pub write_timeout : Option ℕ
    pub upgrade : Bool
    pub update_response_headers : Bool
    pub ignore_response_headers : Bool

  unfoldable pub new : net.io.Stream → net.out.Sink → Downstream
  unfolding Reader.new Writer.new
  new stream sink = record {
    stream = stream;
    sink = sink;
    buffer = [];
    write_body_vec_buffer = [];
    retry_buffer = none;
    buf_headers_offset = none;
    buf_body_offset = none;
    request_header = none;
    response_header = none;
    body_writer = Writer.new;
    body_reader = Reader.new;
    buf_write_size = 0;
    buf_read_size = 0;
    keepalive_timeout = off;
    read_timeout = none;
    write_timeout = none;
    upgrade = false;
    update_response_headers = true;
    ignore_response_headers = false;
  }

  -- `expect`: the header of a request that has been read.
  abbrev pub request_of : Option (RequestHeader net.http) → Outcome (RequestHeader net.http)
  request_of (some h) = ok h
  request_of none = panic

  unfoldable pub get_request_headers : Downstream → Outcome (RequestHeader net.http)
  get_request_headers d = request_of d.request_header

  -- A change of the header goes back into the session.
  abbrev pub with_request : Downstream → Outcome (RequestHeader net.http) → Outcome Downstream
  with_request d (ok h) = ok (record d { request_header = some h })
  with_request d (err e) = err e
  with_request d panic = panic

  unfoldable pub append_header : Downstream → HeaderKey → Option Bytes → Outcome Downstream
  unfolding Request.append_header
  append_header d key value =
      with_request d
        (do h ← request_of d.request_header; Request.append_header net.http h key value)

  unfoldable pub insert_header : Downstream → HeaderKey → Option Bytes → Outcome Downstream
  unfolding Request.insert_header
  insert_header d key value =
      with_request d
        (do h ← request_of d.request_header; Request.insert_header net.http h key value)

  unfoldable pub remove_header : Downstream → Text → Outcome Downstream
  unfolding Request.remove_header
  remove_header d name =
      with_request d
        (do h ← request_of d.request_header; ok (Request.remove_header net.http h name))

  unfoldable pub get_header : Downstream → Text → Outcome (Option Bytes)
  unfolding Request.get_header
  get_header d name = do h ← request_of d.request_header; ok (Request.get_header net.http h name)

  unfoldable pub get_version : Downstream → Outcome Version
  get_version d = do h ← request_of d.request_header; ok h.version

  unfoldable pub get_method : Downstream → Outcome Text
  get_method d = do h ← request_of d.request_header; ok h.method

  unfoldable pub get_raw_path : Downstream → Outcome Bytes
  get_raw_path d = do h ← request_of d.request_header; ok h.raw_path

  unfoldable pub is_request_upgrade : Downstream → Outcome Bool
  unfolding Lengths.is_request_upgrade
  is_request_upgrade d = do
    h ← request_of d.request_header
    ok (Lengths.is_request_upgrade net.http h)

  unfoldable pub is_session_upgrade : Downstream → ResponseHeader net.http → Outcome Bool
  unfolding is_request_upgrade is_response_upgrade
  is_session_upgrade d response = do
    upgrade ← is_request_upgrade d
    ok (if upgrade then is_response_upgrade net.http response else false)

  unfoldable pub is_request_expect_continue : Downstream → Outcome Bool
  unfolding Lengths.is_request_expect_continue
  is_request_expect_continue d = do
    h ← request_of d.request_header
    ok (Lengths.is_request_expect_continue net.http h)

  -- The last test, which the second decides before it.
  abbrev not_expected : Downstream → Bool → Outcome Bool
  not_expected d false = ok true
  not_expected d true = do expects ← is_request_expect_continue d; ok (not expects)

  unfoldable pub is_ignoring_response_headers : Downstream → ℕ → Outcome Bool
  unfolding is_request_expect_continue
  is_ignoring_response_headers d status_code =
      if d.ignore_response_headers && not (status_code == 100)
      then not_expected d (status_code == 100)
      else ok false

  unfoldable pub set_keepalive : Downstream → Option ℕ → Downstream
  unfolding keepalive_of
  set_keepalive d seconds = record d { keepalive_timeout = keepalive_of seconds }

  unfoldable pub is_session_keepalive : Downstream → Bool
  is_session_keepalive d = elim d.keepalive_timeout [ off ↦ false | _ ↦ true ]

  abbrev pub connection_keepalive : Option Bytes → Option Bool
  connection_keepalive none = none
  connection_keepalive (some value) =
      Keepalive.is_connection_keepalive (record { bytes = value; utf8 = net.utf8 value })

  unfoldable pub is_connection_keepalive : Downstream → Outcome (Option Bool)
  unfolding get_header Keepalive.is_connection_keepalive
  is_connection_keepalive d = do
    value ← get_header d (text "connection")
    ok (connection_keepalive value)

  -- The client's own wish for a time is not read yet.
  abbrev pub get_keepalive_value : Downstream → Option ℕ × Option ℕ
  get_keepalive_value d = (none, none)

  abbrev pub by_version : Downstream → Version → Downstream
  by_version d version = set_keepalive d (if is_http11 version then some 0 else none)

  abbrev pub apply_wish : Downstream → Option Bool → Outcome Downstream
  apply_wish d (some true) = ok (set_keepalive d (or_zero (get_keepalive_value d).0))
  apply_wish d (some false) = ok (set_keepalive d none)
  apply_wish d none = do version ← get_version d; ok (by_version d version)

  unfoldable pub apply_session_keepalive : Downstream → Outcome Downstream
  unfolding is_connection_keepalive set_keepalive get_version
  apply_session_keepalive d = do wish ← is_connection_keepalive d; apply_wish d wish

  abbrev pub return_stream : Downstream → net.io.Stream × net.out.Sink
  return_stream d = (d.stream, d.sink)
