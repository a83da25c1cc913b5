-- ===== src/Session/Upstream.antt =====
-- core/src/session/upstream.rs: the session with a server. Its state, its headers and its
-- keep-alive are here, the reads and the writes in the children.
pub mod Responses
pub mod Requests
pub mod Closes
use glaive.Prelude.{
  ℕ, Option, none, some, Bool, true, false, List, [], ◌∷◌, Outcome, ok, err, panic, ◌>>=◌, ◌*◌, ◌+◌,
  ◌-◌, ◌^◌, leb, ◌==◌, if◌then◌else◌,
}
use glaive.Session.Offset.{Offset, Bytes}
use glaive.Session.Http.{Version, is_http11}
use glaive.Session.Headers.{HeaderKey}
use glaive.Session.Headers.Request.{RequestHeader}
use glaive.Session.Headers.Response
use glaive.Session.Headers.Response.{ResponseHeader}
use glaive.Session.Lengths
use glaive.Session.Lengths.{is_response_upgrade, parse_digits}
use glaive.Session.Reader
use glaive.Session.Reader.{BodyReader}
use glaive.Session.Writer
use glaive.Session.Writer.{BodyWriter}
use glaive.Session.Keepalive
use glaive.Session.Keepalive.{KeepaliveStatus, off}
use glaive.Session.Downstream.{keepalive_of, or_zero}
use glaive.Session.Platform.{Platform}
use glaive.Text.{Text, text, same, split, trim}

-- `str::parse::<u64>`, which takes a plus sign too.
unfoldable pub parse_u64 : Text → Option ℕ
unfolding parse_digits
parse_u64 [] = none
parse_u64 (c ∷ []) = parse_digits (2 ^ 64 - 1) 0 (c ∷ [])
parse_u64 (c ∷ (d ∷ t)) =
    if c == 43
    then parse_digits (2 ^ 64 - 1) 0 (d ∷ t)
    else parse_digits (2 ^ 64 - 1) 0 (c ∷ (d ∷ t))

-- `str::split_once`.
abbrev before_more : ℕ → Option (Text × Text) → Option (Text × Text)
before_more c none = none
before_more c (some (key, value)) = some (c ∷ key, value)

abbrev pub split_once : ℕ → Text → Option (Text × Text)
split_once sep [] = none
split_once sep (c ∷ t) =
    let rest = split_once sep t in if c == sep then some ([], t) else before_more c rest

-- A parameter of the Keep-Alive header. A number that is not one takes back what was set.
abbrev pub set_param : Option (Text × Text) → Option ℕ × Option ℕ → Option ℕ × Option ℕ
set_param none (timeout, max) = (timeout, max)
set_param (some (key, value)) (timeout, max) =
    if same (trim key) (text "timeout")
    then (parse_u64 (trim value), max)
    else if same (trim key) (text "max")
    then (timeout, parse_u64 (trim value))
    else (timeout, max)

unfoldable pub set_params : List Text → Option ℕ × Option ℕ → Option ℕ × Option ℕ
unfolding parse_u64
set_params [] found = found
set_params (param ∷ params) found = set_params params (set_param (split_once 61 param) found)

module _ (net : Platform) where
  -- The two directions of the stream are two fields.
  pub record Upstream : Type 0 where
    pub stream : net.io.Stream
    pub sink : net.out.Sink
    pub buffer : Bytes
    pub buf_headers_offset : Option Offset
    pub buf_body_offset : Option Offset
    pub request_header : Option (RequestHeader net.http)
    pub response_header : Option (ResponseHeader net.http)
    pub body_writer : BodyWriter
    pub body_reader : BodyReader
    pub buf_write_size : ℕ
    pub buf_read_size : ℕ
    pub keepalive_timeout : KeepaliveStatus
    pub read_timeout : Option ℕ
    pub write_timeout : Option ℕ
    pub upgrade : Bool

  unfoldable pub new : net.io.Stream → net.out.Sink → Upstream
  unfolding Reader.new Writer.new
  new stream sink = record {
    stream = stream;
    sink = sink;
    buffer = [];
    buf_headers_offset = none;
    buf_body_offset = none;
    request_header = none;
    response_header = none;
    body_writer = Writer.new;
    body_reader = Reader.new;
    buf_write_size = 0;
    buf_read_size = 0;
    keepalive_timeout = off;
    read_timeout = none;
    write_timeout = none;
    upgrade = false;
  }

  -- `expect`: the header of a response that has been read.
  abbrev pub response_of : Option (ResponseHeader net.http) → Outcome (ResponseHeader net.http)
  response_of (some h) = ok h
  response_of none = panic

  unfoldable pub get_response_headers : Upstream → Outcome (ResponseHeader net.http)
  get_response_headers u = response_of u.response_header

  abbrev pub with_response : Upstream → Outcome (ResponseHeader net.http) → Outcome Upstream
  with_response u (ok h) = ok (record u { response_header = some h })
  with_response u (err e) = err e
  with_response u panic = panic

  unfoldable pub append_header : Upstream → HeaderKey → Option Bytes → Outcome Upstream
  unfolding Response.append_header
  append_header u key value =
      with_response u
        (do h ← response_of u.response_header; Response.append_header net.http h key value)

  unfoldable pub insert_header : Upstream → HeaderKey → Option Bytes → Outcome Upstream
  unfolding Response.insert_header
  insert_header u key value =
      with_response u
        (do h ← response_of u.response_header; Response.insert_header net.http h key value)

  unfoldable pub remove_header : Upstream → Text → Outcome Upstream
  unfolding Response.remove_header
  remove_header u name =
      with_response u
        (do h ← response_of u.response_header; ok (Response.remove_header net.http h name))

  unfoldable pub get_header : Upstream → Text → Outcome (Option Bytes)
  unfolding Response.get_header
  get_header u name = do h ← response_of u.response_header; ok (Response.get_header net.http h name)

  unfoldable pub get_version : Upstream → Outcome Version
  get_version u = do h ← response_of u.response_header; ok h.version

  unfoldable pub get_status_code : Upstream → Outcome ℕ
  get_status_code u = do h ← response_of u.response_header; ok h.status

  unfoldable pub get_reason_phrase : Upstream → Outcome (Option Text)
  unfolding Response.get_reason_phrase
  get_reason_phrase u = do
    h ← response_of u.response_header
    ok (Response.get_reason_phrase net.http h)

  abbrev pub upgrades : Option (RequestHeader net.http) → Outcome Bool
  upgrades none = panic
  upgrades (some h) = ok (Lengths.is_request_upgrade net.http h)

  unfoldable pub is_request_upgrade : Upstream → Outcome Bool
  unfolding Lengths.is_request_upgrade
  is_request_upgrade u = upgrades u.request_header

  unfoldable pub is_session_upgrade : Upstream → ResponseHeader net.http → Outcome Bool
  unfolding is_request_upgrade is_response_upgrade
  is_session_upgrade u response = do
    upgrade ← is_request_upgrade u
    ok (if upgrade then is_response_upgrade net.http response else false)

  unfoldable pub set_keepalive : Upstream → Option ℕ → Upstream
  unfolding keepalive_of
  set_keepalive u seconds = record u { keepalive_timeout = keepalive_of seconds }

  unfoldable pub is_session_keepalive : Upstream → Bool
  is_session_keepalive u = elim u.keepalive_timeout [ off ↦ false | _ ↦ true ]

  abbrev connection_keepalive : Option Bytes → Option Bool
  connection_keepalive none = none
  connection_keepalive (some value) =
      Keepalive.is_connection_keepalive (record { bytes = value; utf8 = net.utf8 value })

  unfoldable pub is_connection_keepalive : Upstream → Outcome (Option Bool)
  unfolding get_header Keepalive.is_connection_keepalive
  is_connection_keepalive u = do
    value ← get_header u (text "connection")
    ok (connection_keepalive value)

  abbrev pub keepalive_params : Option Text → Option ℕ × Option ℕ
  keepalive_params none = (none, none)
  keepalive_params (some value) = set_params (split 44 value) (none, none)

  abbrev keepalive_text : Option Bytes → Option Text
  keepalive_text none = none
  keepalive_text (some value) = net.utf8 value

  unfoldable pub get_keepalive_value : Upstream → Outcome (Option ℕ × Option ℕ)
  unfolding get_header set_params
  get_keepalive_value u = do
    value ← get_header u (text "keep-alive")
    ok (keepalive_params (keepalive_text value))

  abbrev by_version : Upstream → Version → Upstream
  by_version u version = set_keepalive u (if is_http11 version then some 0 else none)

  abbrev apply_wish : Upstream → Option Bool → Outcome Upstream
  apply_wish u (some true) = do
    params ← get_keepalive_value u
    ok (set_keepalive u (or_zero params.0))
  apply_wish u (some false) = ok (set_keepalive u none)
  apply_wish u none = do version ← get_version u; ok (by_version u version)

  unfoldable pub apply_session_keepalive : Upstream → Outcome Upstream
  unfolding is_connection_keepalive set_keepalive get_version get_keepalive_value
  apply_session_keepalive u = do wish ← is_connection_keepalive u; apply_wish u wish

  abbrev pub return_stream : Upstream → net.io.Stream × net.out.Sink
  return_stream u = (u.stream, u.sink)
