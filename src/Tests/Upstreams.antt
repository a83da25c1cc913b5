-- ===== src/Tests/Upstreams.antt =====
-- Tests of the session with a server, and instances of its theorems.
use glaive.Prelude.{◌≡◌, refl, none, some, [], ◌∷◌, ok, panic, arith}
use glaive.Session.Http.{http11}
use glaive.Session.Offset
use glaive.Session.Headers.Request.{RequestHeader}
use glaive.Session.Headers.Response.{ResponseHeader}
use glaive.Session.Reader
use glaive.Session.Writer
use glaive.Session.Downstream
use glaive.Session.Downstream.{Downstream}
use glaive.Session.Upstream.{Upstream, new, set_params, parse_u64}
use glaive.Session.Upstream.Responses.{should_read_response_header}
use glaive.Session.Upstream.Responses.Opening.{read_response, read_upstream_response}
use glaive.Session.Upstream.Closes.{Unanswered, provisional, read_upstream_response-panics}
use glaive.Session.Modes.Request.{Chosen, request-Chosen}
use glaive.Tests.Platforms.{http, platform}
use glaive.Text.{text}

abbrev request : RequestHeader http
request = record {
  method = text "GET";
  uri = text "/";
  version = http11;
  fields = record {
    headers = (text "upgrade", text "websocket") ∷ [];
    header_case = (text "upgrade", text "Upgrade") ∷ [];
  };
  raw_path = text "/";
}

abbrev answer : ResponseHeader http
answer = record {
  status = 200;
  version = http11;
  fields = record {
    headers = (text "content-length", text "5") ∷ [];
    header_case = (text "content-length", text "Content-Length") ∷ [];
  };
  reason_phrase = none;
}

abbrev client : Downstream platform
client = record (Downstream.new platform [] []) {
  buffer = text "head";
  buf_body_offset = some (record { from = 4; to = 4 });
  request_header = some request;
}

abbrev server : Upstream platform
server = record (new platform [] []) {
  buffer = text "headbo";
  buf_body_offset = some (record { from = 4; to = 6 });
  request_header = some request;
  response_header = some answer;
}

abbrev mode_program : Unit {0}
unfolding Downstream.new new Reader.new Writer.new Reader.is_start Offset.get Offset.slice
mode_program = tt

request-Chosen_example : Chosen platform client server request
unfolding mode_program
request-Chosen_example = request-Chosen platform client server request [] refl refl refl

abbrev early : Upstream platform
early = record server { response_header = some (record answer { status = 103 }) }

early-Unanswered : Unanswered platform early
unfolding mode_program should_read_response_header
early-Unanswered = provisional (record { from = 4; to = 6 }) refl refl refl (omega arith)

read_upstream_response-panics_example :
    (read_response platform 1 early ≡ some (record early { stream = []; buffer = [] }, ok tt))
    × (read_upstream_response platform 1 early
        ≡ some (record early { stream = []; buffer = [] }, panic))
unfolding new
read_upstream_response-panics_example =
    read_upstream_response-panics platform 0 early [] early-Unanswered refl

reads_keepalive :
    set_params (text "timeout=5" ∷ (text " max = 9" ∷ [])) (none, none) ≡ (some 5, some 9)
unfolding set_params parse_u64 glaive.Session.Lengths.parse_digits
reads_keepalive = refl
