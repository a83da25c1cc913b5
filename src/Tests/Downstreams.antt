-- ===== src/Tests/Downstreams.antt =====
-- Tests of the session with a client, and instances of its theorems.
use glaive.Prelude.{ℕ, ◌≡◌, refl, none, some, true, false, List, [], ◌∷◌, ◌++◌, ok, arith}
use mathlib.Core.List.{flatten}
use glaive.Session.Http.{http11}
use glaive.Session.Headers
use glaive.Session.Headers.{
  get_raw_version, header_lines, write_fields, into_case_header_name, titled_header_name,
  titled_header_name_str,
}
use glaive.Session.Headers.Request
use glaive.Session.Headers.Request.{RequestHeader}
use glaive.Session.Headers.Response
use glaive.Session.Headers.Response.{ResponseHeader}
use glaive.Session.Lengths
use glaive.Session.Reader
use glaive.Session.Writer
use glaive.Session.Writer.{content_length}
use glaive.Session.Downstream
use glaive.Session.Downstream.{Downstream, new}
use glaive.Session.Downstream.Opening.{read_request}
use glaive.Session.Downstream.Responses
use glaive.Session.Downstream.Responses.{write_response_headers}
use glaive.Session.Downstream.Tasks.{write_downstream_response}
use glaive.Session.Downstream.Once.{write_each, Emits, write_each-Heads}
use glaive.Session.Downstream.Pieces.{counted}
use glaive.Session.Downstream.Singly.{body_tasks, write_singly}
use glaive.Session.Downstream.Batches.{SameWire, write_downstream_response-SameWire}
use glaive.Session.Downstream.Opens.{Opens, read_request-Opens}
use glaive.Session.Downstream.Keeps.{Decides, apply_session_keepalive-Decides}
use glaive.Session.Writer.Send.{IsWritable}
use glaive.Tests.Platforms.{http, platform, request_head}
use glaive.Tests.Samples.{tape, flat}
use glaive.Text.{Text, text}

abbrev request : RequestHeader http
request = record {
  method = text "GET";
  uri = text "/";
  version = http11;
  fields = record {
    headers = (text "connection", text "close") ∷ [];
    header_case = (text "connection", text "Connection") ∷ [];
  };
  raw_path = text "/";
}

abbrev answer : ℕ → ResponseHeader http
answer status = record {
  status = status;
  version = http11;
  fields = record { headers = []; header_case = [] };
  reason_phrase = none;
}

abbrev session : Downstream platform
session = record (new platform (request_head ++ text "body") (text "> ")) {
  request_header = some request;
}

read_request-Opens_example : Opens platform session (read_request platform 8194 session)
read_request-Opens_example = read_request-Opens platform 8194 session (omega arith)

apply_session_keepalive-Decides_example : Decides platform session request
unfolding new
apply_session_keepalive-Decides_example =
    apply_session_keepalive-Decides platform session request refl refl

abbrev headers : List (ResponseHeader http)
headers = answer 100 ∷ (answer 200 ∷ (answer 500 ∷ []))

abbrev response_program : Unit {0}
unfolding new write_each write_response_headers Downstream.is_ignoring_response_headers
    Responses.updated Responses.prepared Writer.finished Response.build_to_buffer
    Response.get_header Headers.get_header Response.insert_header Headers.insert_header
    into_case_header_name titled_header_name titled_header_name_str Downstream.is_session_keepalive
    Downstream.set_keepalive Downstream.is_session_upgrade Downstream.is_request_upgrade
    Lengths.is_request_upgrade Lengths.is_response_upgrade Request.get_header
    Responses.set_response_body_writer Responses.response_writer
    Lengths.is_header_value_chunk_encoding Lengths.get_content_length_value
    Writer.with_content_length_write Writer.with_chunked_encoding_write
    Writer.with_until_closed_write Reader.with_content_length_read get_raw_version write_fields
    header_lines Response.get_reason_phrase Reader.new Writer.new
response_program = tt

abbrev crlf : Text
crlf = 13 ∷ (10 ∷ [])

-- The second final header is not sent.
abbrev wire : Text
wire =
    text "> HTTP/1.1 100 "
    ++ (crlf
        ++ (crlf
            ++ (text "HTTP/1.1 200 OK"
                ++ (crlf
                    ++ (text "Date: today"
                        ++ (crlf ++ (text "Connection: close" ++ (crlf ++ crlf))))))))

abbrev written : Downstream platform
unfolding response_program
written = record (write_each platform session headers).0 { sink = wire }

writes_both : write_each platform session headers ≡ (written, ok tt)
unfolding response_program
writes_both = refl

write_each-Heads_example : Emits platform session written
write_each-Heads_example = write_each-Heads platform session written headers writes_both

tape-IsWritable : IsWritable tape flat (λ bs. bs)
tape-IsWritable = record { writes = λ s bs. refl; flushes = λ s. refl }

abbrev pieces : List Text
pieces = text "ab" ∷ ([] ∷ (text "c" ∷ []))

abbrev counting : Downstream platform
counting = record session { body_writer = record { write_state = content_length 3 0 } }

-- Four bytes of a body of three.
write_downstream_response-SameWire_example :
    SameWire platform 0 tape-IsWritable counting
      (content_length 3 0)
      (flatten pieces ++ text "d")
      true
      (write_singly platform 0 counting (body_tasks platform 0 pieces (text "d") true) false)
      (write_downstream_response platform 0 counting (body_tasks platform 0 pieces (text "d") true))
unfolding new
write_downstream_response-SameWire_example =
    write_downstream_response-SameWire platform 0 tape-IsWritable counting (content_length 3 0)
      pieces (text "d") true refl (counted 3 0 (omega arith) (omega arith)) refl
