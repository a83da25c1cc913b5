-- ===== src/Tests/Duplexes.antt =====
-- Tests of the two loops between the sessions, and instances of their theorems.
use glaive.Prelude.{
  ◌≡◌, refl, Option, none, some, true, false, [], ◌∷◌, Outcome, ok, err, panic, connection_closed,
  ◌++◌, arith,
}
use glaive.Session.Offset
use glaive.Session.KvOffset
use glaive.Session.Buffer
use glaive.Session.Keepalive
use glaive.Session.Lengths
use glaive.Session.Heads.{read_head, header_offsets}
use glaive.Session.Http.{http11}
use glaive.Session.Headers
use glaive.Session.Headers.Request
use glaive.Session.Headers.Request.{RequestHeader}
use glaive.Session.Headers.Response.{ResponseHeader}
use glaive.Session.Reader
use glaive.Session.Reader.Reads
use glaive.Session.Reader.Takes
use glaive.Session.Writer
use glaive.Session.Writer.Writes
use glaive.Session.Task
use glaive.Session.Task.{Task}
use glaive.Session.Downstream
use glaive.Session.Downstream.{Downstream}
use glaive.Session.Downstream.Opening.{append_parsed, build_request, read_request}
use glaive.Session.Upstream.Requests as Asks
use glaive.Session.Upstream.Requests.{write_request_header}
use glaive.Session.Downstream.Requests
use glaive.Session.Downstream.Requests.{is_reading_request_body_finished, read_downstream_request}
use glaive.Session.Downstream.Responses
use glaive.Session.Downstream.Tasks
use glaive.Session.Downstream.Tasks.{write_downstream_response}
use glaive.Session.Upstream
use glaive.Session.Upstream.{Upstream}
use glaive.Session.Upstream.Responses as Answers
use glaive.Session.Upstream.Responses.Opening.{read_upstream_response}
use glaive.Service.Duplex.{
  Duplex, running, start_process, begin_round, took_request, with_downstream,
}
use glaive.Service.Duplex.Order.{InOrder, Steps-InOrder}
use glaive.Service.Duplex.Reopens.{Answering, Panics, reopened-Panics}
use glaive.Service.Duplex.Starts.{start_process-panics}
use glaive.Service.Duplex.Steps.{Steps, stay, more, client_turns, client_reads}
use glaive.Service.Duplex.Channels.{Sound}
use glaive.Service.Duplex.Sound.{start_process-Sound}
use glaive.Tests.Platforms.{http, parse_known, platform, request_head}
use glaive.Text.{text}

abbrev request : RequestHeader http
request = record {
  method = text "GET";
  uri = text "/";
  version = http11;
  fields = record { headers = []; header_case = [] };
  raw_path = text "/";
}

abbrev answer : ResponseHeader http
answer = record {
  status = 200;
  version = http11;
  fields = record { headers = []; header_case = [] };
  reason_phrase = none;
}

-- A client whose request has no body, and that has closed its side.
abbrev client : Downstream platform
client = record (Downstream.new platform [] []) {
  request_header = some request;
  response_header = some answer;
  body_reader = record Reader.new { read_state = Reader.completed 0 };
  body_writer = record { write_state = Writer.http10 0 };
}

-- A server that is answering until it closes.
abbrev server : Upstream platform
server = record (Upstream.new platform (text "xy") []) {
  request_header = some request;
  response_header = some answer;
  body_reader = record Reader.new {
    read_state = Reader.http10 0;
    body_buffer = some (0 ∷ (0 ∷ (0 ∷ (0 ∷ []))));
  };
}

abbrev state : Duplex platform 0
state = record {
  downstream = client;
  upstream = server;
  requests = [];
  responses = [];
  client = record running { request_done = true };
  server = record running { request_done = true };
  permit = some false;
}

abbrev piece : Task http
piece = Task.body (some (text "xy")) false

abbrev server_after : Upstream platform
server_after = record server {
  stream = [];
  body_reader = record Reader.new {
    read_state = Reader.http10 2;
    body_buffer = some (text "xy" ++ (0 ∷ (0 ∷ [])));
  };
  buf_read_size = 2;
}

abbrev client_after : Downstream platform
client_after = record client {
  sink = text "xy";
  body_writer = record { write_state = Writer.http10 2 };
  buf_write_size = 2;
}

abbrev duplex_program : Unit {0}
unfolding Downstream.new Upstream.new Reader.new Writer.new read_upstream_response
    Answers.should_read_response_header Answers.is_reading_response_body_finished
    Answers.set_response_body_reader Answers.read_response_body_bytes Answers.read_response_body
    Reader.is_start Reader.is_finished Reads.read_body Reads.read_until_closed Reads.fill
    Reads.fill_buf Reads.land Reads.overwrite Takes.take_until_closed Reader.get_sliced_body
    Offset.get Offset.slice
duplex_program = tt

reads_piece : read_upstream_response platform 0 server ≡ some (server_after, ok piece)
unfolding duplex_program
reads_piece = refl

abbrev write_program : Unit {0}
unfolding duplex_program write_downstream_response Tasks.write_response_to_downstream
    Tasks.write_task Responses.write_response_body Writes.write_body Writes.write_until_closed
write_program = tt

writes_piece :
    write_downstream_response platform 0 client (piece ∷ []) ≡ some (client_after, ok false)
unfolding write_program
writes_piece = refl

is_read : is_reading_request_body_finished platform client_after ≡ (client_after, ok true)
unfolding duplex_program is_reading_request_body_finished Requests.set_request_body_reader
is_read = refl

state-Answering : Answering platform 0 state
state-Answering = record {
  client_runs = refl;
  server_runs = refl;
  client_waits = refl;
  server_waits = refl;
  no_requests = refl;
  no_responses = refl;
  held = false;
  in_round = refl;
}

reopened-Panics_example : Panics platform 0 state
unfolding Task.is_end Downstream.new
reopened-Panics_example =
    reopened-Panics platform 0 state piece server_after client_after client_after [] []
      state-Answering refl reads_piece writes_piece is_read refl

state-Panics : Panics platform 0 state
unfolding Task.is_end Downstream.new
state-Panics =
    reopened-Panics platform 0 state piece server_after client_after client_after [] []
      state-Answering refl reads_piece writes_piece is_read refl

Steps-InOrder_example : InOrder platform 0 state state-Panics.after
Steps-InOrder_example = Steps-InOrder platform 0 state state-Panics.after state-Panics.steps

start_process-panics_example :
    start_process platform 1 (Downstream.new platform [] []) (Upstream.new platform [] [])
    ≡ some panic
unfolding Downstream.new
start_process-panics_example =
    start_process-panics platform 0 (Downstream.new platform [] []) (Upstream.new platform [] []) []
      refl refl

-- A request with its head, from the first byte to the loops.
abbrev asking : Downstream platform
asking = Downstream.new platform request_head []

abbrev idle_server : Upstream platform
idle_server = Upstream.new platform [] []

abbrev state_of : Option (Outcome (Duplex platform 4)) → Duplex platform 4
state_of (some (ok s)) = s
state_of _ = record {
  downstream = asking;
  upstream = idle_server;
  requests = [];
  responses = [];
  client = running;
  server = running;
  permit = none;
}

abbrev start_program : Unit {0}
unfolding Downstream.new Upstream.new Reader.new Writer.new start_process read_request read_head
    parse_known build_request Request.build header_offsets KvOffset.new append_parsed
    Request.append_header Headers.append_header Headers.into_case_header_name KvOffset.get_key_bytes
    KvOffset.get_value_bytes Offset.get_bytes Offset.slice Reader.re_start
    Downstream.apply_session_keepalive Downstream.is_connection_keepalive
    Keepalive.is_connection_keepalive Keepalive.parse_connection_header Downstream.get_header
    Request.get_header Headers.get_header Downstream.set_keepalive Downstream.keepalive_of
    write_request_header Asks.set_request_body_writer Asks.request_writer Lengths.is_request_upgrade
    Lengths.is_header_value_chunk_encoding Lengths.get_content_length_value
    Writer.with_until_closed_write Request.build_to_buffer Headers.get_raw_version
    Headers.write_fields Headers.header_lines Requests.enable_retry_buffer Requests.get_retry_buffer
    Requests.is_retry_buffer_truncated Buffer.new Buffer.is_buffer_truncated Buffer.get_buffer
    Buffer.is_buffer_empty
start_program = tt

abbrev started : Duplex platform 4
started = state_of (start_process platform 4 asking idle_server)

starts : start_process platform 4 asking idle_server ≡ some (ok started)
unfolding start_program
starts = refl

-- The client's loop begins a round, and finds that the client has closed its side.
abbrev in_round : Duplex platform 4
in_round = begin_round platform 4 started

abbrev gone : Downstream platform
gone = (read_downstream_request platform in_round.downstream).0

abbrev failed : Duplex platform 4
failed = took_request platform 4 (with_downstream platform 4 in_round gone) (err connection_closed)

abbrev close_program : Unit {0}
unfolding start_program read_downstream_request is_reading_request_body_finished
    Requests.read_request_body_or_idle Requests.set_request_body_reader Requests.idle
    Reader.is_start Reader.is_finished Reader.with_content_length_read Reader.set_buffer Offset.get
    Buffer.clear_buffer
close_program = tt

closes : read_downstream_request platform in_round.downstream ≡ (gone, err connection_closed)
unfolding close_program
closes = refl

fails : Steps platform 4 started failed
unfolding start_program
fails = more started in_round failed refl (client_turns started refl refl refl) (
    more in_round failed failed refl
      (client_reads in_round gone (err connection_closed) refl refl refl (λ up. omega arith) closes)
      (stay failed))

start_process-Sound_example : Sound platform 4 failed
start_process-Sound_example =
    start_process-Sound platform 4 asking idle_server started failed starts fails
