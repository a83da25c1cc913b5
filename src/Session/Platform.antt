-- ===== src/Session/Platform.antt =====
-- What the two sessions stand on: the socket, the memory, and the crates that they call.
use glaive.Prelude.{ℕ, ◌≤◌, ◌≡◌, Option, List, length}
use glaive.Session.Offset.{Bytes}
use glaive.Session.Streams.{AsyncRead, AsyncWrite, Buf, ChunkParser, Memory}
use glaive.Session.Http.{Http}
use glaive.Text.{Text}

-- `httparse::Status` of a head: its length and what it holds.
pub data HeadStatus (A : Type 0) : Type 0 where
  complete : ℕ → A → HeadStatus A
  partial : HeadStatus A
  invalid : HeadStatus A

-- `httparse::Header`: its name and its value are slices of the buffer.
pub record ParsedHeader : Type 0 where
  pub name_start : ℕ
  pub name_len : ℕ
  pub value_start : ℕ
  pub value_len : ℕ

pub record ParsedRequest : Type 0 where
  pub method : Option Text
  pub path : Option Bytes
  pub version : Option ℕ
  pub headers : List ParsedHeader

pub record ParsedResponse : Type 0 where
  pub code : Option ℕ
  pub version : Option ℕ
  pub reason : Option Text
  pub headers : List ParsedHeader

-- A stream's two directions are apart. `spare` is the room that a buffer of the given content
-- offers to a read. A complete head lies inside the buffer that it was read from.
pub record Platform : Type 1 where
  pub http : Http
  pub io : AsyncRead
  pub out : AsyncWrite
  pub bufs : Buf
  pub chain : Bytes → bufs.Buffer
  pub memory : Memory
  pub chunk_parser : ChunkParser
  pub utf8 : Bytes → Option Text
  pub spare : Bytes → ℕ
  pub parse_request : Bytes → HeadStatus ParsedRequest
  pub parse_response : Bytes → HeadStatus ParsedResponse
  pub http_date : Text
  pub request_fits :
      (bs : Bytes) (size : ℕ) (r : ParsedRequest)
      → parse_request bs ≡ complete size r
      → size ≤ length bs
  pub response_fits :
      (bs : Bytes) (size : ℕ) (r : ParsedResponse)
      → parse_response bs ≡ complete size r
      → size ≤ length bs
