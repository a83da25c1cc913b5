-- ===== src/Session/Downstream/Opening.antt =====
-- core/src/session/downstream.rs: reading the head of a request.
use glaive.Prelude.{ℕ, Option, none, some, List, [], ◌∷◌, Outcome, ok, err, panic, ◌>>=◌, length}
use glaive.Session.Offset.{Bytes}
use glaive.Session.KvOffset
use glaive.Session.KvOffset.{KvOffset}
use glaive.Session.Headers.{cased}
use glaive.Session.Headers.Request
use glaive.Session.Headers.Request.{RequestHeader}
use glaive.Session.Reader.{re_start}
use glaive.Session.Platform.{Platform, ParsedRequest}
use glaive.Session.Heads.{Head, read_head, header_offsets, version_of}
use glaive.Session.Downstream.{Downstream, apply_session_keepalive}

abbrev pub or_nothing : Option Bytes → Bytes
or_nothing none = []
or_nothing (some bs) = bs

module _ (net : Platform) where
  abbrev pub Step : Type 0 → Type 0
  Step R = Downstream net × Outcome R

  -- The headers of the buffer, appended one by one.
  unfoldable pub append_parsed :
      RequestHeader net.http → List KvOffset → Bytes → Outcome (RequestHeader net.http)
  unfolding Request.append_header KvOffset.get_key_bytes KvOffset.get_value_bytes
  append_parsed h [] buffer = ok h
  append_parsed h (kv ∷ kvs) buffer = do
    name ← KvOffset.get_key_bytes kv buffer
    value ← KvOffset.get_value_bytes kv buffer
    h' ← Request.append_header net.http h (cased name) (some value)
    append_parsed h' kvs buffer

  unfoldable pub build_request : Head ParsedRequest → Outcome (RequestHeader net.http)
  unfolding Request.build header_offsets append_parsed
  build_request head = do
    h ←
        Request.build net.http (or_nothing head.parsed.method) (or_nothing head.parsed.path)
          (version_of head.parsed.version)
    append_parsed h (header_offsets head.parsed.headers) head.bytes

  abbrev pub placed : Downstream net → Head ParsedRequest → Downstream net
  placed d head = record d {
    buf_headers_offset = some (record { from = 0; to = head.size });
    buf_body_offset = some (record { from = head.size; to = length head.bytes });
  }

  abbrev pub started : Downstream net → Bytes → RequestHeader net.http → Downstream net
  started d bytes h = record d {
    buffer = bytes;
    request_header = some h;
    body_reader = re_start d.body_reader;
    response_header = none;
  }

  abbrev pub kept : Downstream net → Outcome (Downstream net) → Step (Unit {0})
  kept d (ok d') = (d', ok tt)
  kept d (err e) = (d, err e)
  kept d panic = (d, panic)

  abbrev pub accept_head :
      Downstream net → Head ParsedRequest → Outcome (RequestHeader net.http) → Step (Unit {0})
  accept_head d head (ok h) =
      let d' = started (placed d head) head.bytes h in kept d' (apply_session_keepalive net d')
  accept_head d head (err e) = (placed d head, err e)
  accept_head d head panic = (placed d head, panic)

  abbrev pub after_head :
      Downstream net
      → Option (net.io.Stream × Outcome (Option (Head ParsedRequest)))
      → Option (Step (Unit {0}))
  after_head d none = none
  after_head d (some (s, ok none)) = some (record d { stream = s; buffer = [] }, ok tt)
  after_head d (some (s, ok (some head))) =
      some (accept_head (record d { stream = s; buffer = [] }) head (build_request head))
  after_head d (some (s, err e)) = some (record d { stream = s; buffer = [] }, err e)
  after_head d (some (s, panic)) = some (record d { stream = s; buffer = [] }, panic)

  unfoldable pub read_request : ℕ → Downstream net → Option (Step (Unit {0}))
  unfolding read_head build_request re_start apply_session_keepalive
  read_request fuel d = after_head d (read_head net.io net.spare net.parse_request fuel d.stream [])
