-- ===== src/Session/Upstream/Responses/Opening.antt =====
-- core/src/session/upstream.rs: reading the head of a response, and the task that comes next.
use glaive.Prelude.{
  ℕ, Option, none, some, Bool, true, false, List, [], ◌∷◌, Outcome, ok, err, panic, unwrap, ◌>>=◌,
  then_ok, then_run, length,
}
use glaive.Session.Offset.{Bytes}
use glaive.Session.KvOffset
use glaive.Session.KvOffset.{KvOffset}
use glaive.Session.Headers.{cased}
use glaive.Session.Headers.Response
use glaive.Session.Headers.Response.{ResponseHeader}
use glaive.Session.Platform.{Platform, ParsedResponse}
use glaive.Session.Heads.{Head, read_head, header_offsets, version_of}
use glaive.Session.Task.{Task}
use glaive.Session.Upstream.{Upstream, is_session_upgrade}
use glaive.Session.Upstream.Responses.{
  Step, read_response_body_bytes, is_reading_response_body_finished, should_read_response_header,
}

module _ (net : Platform) where
  unfoldable pub append_parsed :
      ResponseHeader net.http → List KvOffset → Bytes → Outcome (ResponseHeader net.http)
  unfolding Response.append_header KvOffset.get_key_bytes KvOffset.get_value_bytes
  append_parsed h [] buffer = ok h
  append_parsed h (kv ∷ kvs) buffer = do
    name ← KvOffset.get_key_bytes kv buffer
    value ← KvOffset.get_value_bytes kv buffer
    h' ← Response.append_header net.http h (cased name) (some value)
    append_parsed h' kvs buffer

  unfoldable pub build_response : Head ParsedResponse → Outcome (ResponseHeader net.http)
  unfolding Response.build Response.set_reason_phrase header_offsets append_parsed
  build_response head = do
    code ← unwrap head.parsed.code
    h ← Response.build net.http code (version_of head.parsed.version)
    append_parsed (Response.set_reason_phrase net.http h head.parsed.reason)
        (header_offsets head.parsed.headers) head.bytes

  abbrev pub placed : Upstream net → Head ParsedResponse → Upstream net
  placed u head = record u {
    buf_headers_offset = some (record { from = 0; to = head.size });
    buf_body_offset = some (record { from = head.size; to = length head.bytes });
  }

  -- The buffer is set before the test of the upgrade, the header after it.
  abbrev pub upgraded : Upstream net → ResponseHeader net.http → Outcome Bool → Step net (Unit {0})
  upgraded u h (ok upgrade) = (record u { upgrade = upgrade; response_header = some h }, ok tt)
  upgraded u h (err e) = (u, err e)
  upgraded u h panic = (u, panic)

  abbrev pub accept_head :
      Upstream net → Head ParsedResponse → Outcome (ResponseHeader net.http) → Step net (Unit {0})
  accept_head u head (ok h) =
      let u' = record (placed u head) { buffer = head.bytes } in
      upgraded u' h (is_session_upgrade net u' h)
  accept_head u head (err e) = (placed u head, err e)
  accept_head u head panic = (placed u head, panic)

  abbrev pub after_head :
      Upstream net
      → Option (net.io.Stream × Outcome (Option (Head ParsedResponse)))
      → Option (Step net (Unit {0}))
  after_head u none = none
  after_head u (some (s, ok none)) = some (record u { stream = s; buffer = [] }, ok tt)
  after_head u (some (s, ok (some head))) =
      some (accept_head (record u { stream = s; buffer = [] }) head (build_response head))
  after_head u (some (s, err e)) = some (record u { stream = s; buffer = [] }, err e)
  after_head u (some (s, panic)) = some (record u { stream = s; buffer = [] }, panic)

  unfoldable pub read_response : ℕ → Upstream net → Option (Step net (Unit {0}))
  unfolding read_head build_response is_session_upgrade
  read_response fuel u =
      after_head u (read_head net.io net.spare net.parse_response fuel u.stream [])

  -- `response_header.clone().unwrap()`, then the end of the body.
  abbrev pub header_task :
      Upstream net → Outcome (ResponseHeader net.http) → Step net (Task net.http)
  header_task u (ok h) =
      then_ok (is_reading_response_body_finished net u) λ u' last. (u', ok (Task.header h last))
  header_task u (err e) = (u, err e)
  header_task u panic = (u, panic)

  abbrev pub body_task : Upstream net → Option Bytes → Step net (Task net.http)
  body_task u bs =
      then_ok (is_reading_response_body_finished net u) λ u' last. (u', ok (Task.body bs last))

  abbrev pub done_or_body : Upstream net → Bool → Step net (Task net.http)
  done_or_body u true = (u, ok Task.done)
  done_or_body u false = then_ok (read_response_body_bytes net u) body_task

  unfoldable pub read_upstream_response : ℕ → Upstream net → Option (Step net (Task net.http))
  unfolding should_read_response_header read_response is_reading_response_body_finished
      read_response_body_bytes
  read_upstream_response fuel u = elim (should_read_response_header net u) [
    | true ↦
        then_run (read_response fuel u) λ u' _. some (header_task u' (unwrap u'.response_header))
    | false ↦ some (then_ok (is_reading_response_body_finished net u) done_or_body)
  ]
