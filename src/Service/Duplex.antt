-- ===== src/Service/Duplex.antt =====
-- core/src/service/proxy/duplex.rs: the two loops that carry a request's body to the server and its
-- response to the client, and the channels of tasks between them. A branch of a `select!` is a
-- function of the state; which branch comes next is left to the step relation.
pub mod Steps
pub mod Answers
pub mod Order
pub mod Channels
pub mod Sound
pub mod Reopens
pub mod Starts
use glaive.Prelude.{
  ℕ, Option, none, some, Bool, true, false, ◌||◌, List, [], ◌∷◌, ◌++◌, Outcome, ok, err, panic,
  IoError, connection_closed, length, ltb,
}
use glaive.Session.Offset.{Bytes}
use glaive.Session.Headers.Request.{RequestHeader}
use glaive.Session.Task.{Task, is_end}
use glaive.Session.Platform.{Platform}
use glaive.Session.Downstream.{Downstream}
use glaive.Session.Downstream.Opening.{read_request}
use glaive.Session.Downstream.Requests.{
  enable_retry_buffer, get_retry_buffer, read_downstream_request,
}
use glaive.Session.Downstream.Tasks.{write_downstream_response}
use glaive.Session.Upstream.{Upstream, is_request_upgrade}
use glaive.Session.Upstream.Responses.Opening.{read_upstream_response}
use glaive.Session.Upstream.Requests.{write_request_header, write_upstream_request}

-- The capacity of each channel.
abbrev pub buffer_size : ℕ
buffer_size = 32

-- A loop's flags, and its result once it has ended. A loop that has ended has dropped its ends of
-- the two channels.
pub record Loop : Type 0 where
  pub request_done : Bool
  pub response_done : Bool
  pub ended : Option (Outcome (Unit {0}))

abbrev pub running : Loop
running = record { request_done = false; response_done = false; ended = none }

abbrev pub end_with : Loop → Outcome (Unit {0}) → Loop
end_with l result = record l { ended = some result }

abbrev pub has_failed : Option (Outcome (Unit {0})) → Bool
has_failed none = false
has_failed (some (ok _)) = false
has_failed (some (err _)) = true
has_failed (some panic) = true

module _ (net : Platform) (fuel : ℕ) where
  pub record Duplex : Type 0 where
    pub downstream : Downstream net
    pub upstream : Upstream net
    -- tasks on their way to the server, and to the client
    pub requests : List (Task net.http)
    pub responses : List (Task net.http)
    -- `handle_downstream` and `handle_upstream`
    pub client : Loop
    pub server : Loop
    -- In a round of the client's loop, whether a place in the channel to the server was reserved
    -- for it at its start.
    pub permit : Option Bool

  -- `tokio::try_join!` goes on until both loops have ended, or one has failed.
  abbrev pub is_stopped : Duplex → Bool
  is_stopped s = has_failed s.client.ended || has_failed s.server.ended

  -- What is sent once the server's loop has ended is lost, with no error.
  abbrev pub to_server : Duplex → Task net.http → Duplex
  to_server s task = elim s.server.ended [
    | none ↦ record s { requests = s.requests ++ (task ∷ []) }
    | some _ ↦ s
  ]

  -- `try_reserve`, at the start of a round.
  abbrev pub reserves : Duplex → Bool
  reserves s = elim s.server.ended [ none ↦ ltb (length s.requests) buffer_size | some _ ↦ false ]

  abbrev pub begin_round : Duplex → Duplex
  begin_round s = record s { permit = some (reserves s) }

  -- The end of a round of the client's loop, where a place that was not used is free again.
  abbrev pub with_client : Duplex → Loop → Duplex
  with_client s l = record s { client = l; permit = none }

  abbrev pub with_server : Duplex → Loop → Duplex
  with_server s l = record s { server = l }

  -- `handle_downstream`, the read of a request task.
  abbrev pub took_request : Duplex → Outcome (Task net.http) → Duplex
  took_request s (ok (Task.body bs last)) =
      with_client (to_server s (Task.body bs last)) (record s.client { request_done = last })
  took_request s (ok Task.done) = with_client s (record s.client { response_done = true })
  took_request s (ok _) = with_client s (end_with s.client panic)
  took_request s (err e) = with_client (to_server s (Task.failed e)) (end_with s.client (ok tt))
  took_request s panic = with_client s (end_with s.client panic)

  abbrev pub with_downstream : Duplex → Downstream net → Duplex
  with_downstream s d = record s { downstream = d }

  abbrev pub read_request_task : Duplex → Duplex
  read_request_task s =
      let (d, result) = read_downstream_request net s.downstream in
      took_request (with_downstream s d) result

  -- The write of all the response tasks that are there.
  abbrev pub wrote_responses : Duplex → Option (Downstream net × Outcome Bool) → Option Duplex
  wrote_responses s none = none
  wrote_responses s (some (d, ok last)) = some (
      with_client (with_downstream s d)
        (record s.client { request_done = last; response_done = last }))
  wrote_responses s (some (d, err e)) =
      some (with_client (with_downstream s d) (end_with s.client (err e)))
  wrote_responses s (some (d, panic)) =
      some (with_client (with_downstream s d) (end_with s.client panic))

  abbrev pub write_responses : Duplex → Option Duplex
  write_responses s =
      wrote_responses (record s { responses = [] })
        (write_downstream_response net fuel s.downstream s.responses)

  -- `handle_upstream`, the read of a response task. A client's loop that has ended takes no task,
  -- which is an error unless the request is an upgrade.
  abbrev pub refused : Duplex → Outcome Bool → Duplex
  refused s (ok true) = s
  refused s (ok false) = with_server s (end_with s.server (err connection_closed))
  refused s (err e) = with_server s (end_with s.server (err e))
  refused s panic = with_server s (end_with s.server panic)

  abbrev pub to_client : Duplex → Task net.http → Duplex
  to_client s task = elim s.client.ended [
    | none ↦ record s { responses = s.responses ++ (task ∷ []) }
    | some _ ↦ refused s (is_request_upgrade net s.upstream)
  ]

  abbrev pub to_client_if_open : Duplex → Task net.http → Duplex
  to_client_if_open s task = elim s.client.ended [
    | none ↦ record s { responses = s.responses ++ (task ∷ []) }
    | some _ ↦ s
  ]

  abbrev pub took_response : Duplex → Outcome (Task net.http) → Duplex
  took_response s (ok task) =
      let last = is_end net.http task in
      to_client (with_server s (record s.server { request_done = last; response_done = last })) task
  took_response s (err e) =
      let s' = to_client_if_open s (Task.failed e) in with_server s' (end_with s'.server (ok tt))
  took_response s panic = with_server s (end_with s.server panic)

  abbrev pub with_upstream : Duplex → Upstream net → Duplex
  with_upstream s u = record s { upstream = u }

  abbrev pub read_response_task : Duplex → Upstream net × Outcome (Task net.http) → Duplex
  read_response_task s (u, result) = took_response (with_upstream s u) result

  -- The write of a request task.
  abbrev pub wrote_request : Duplex → Upstream net × Outcome Bool → Duplex
  wrote_request s (u, ok last) =
      with_server (with_upstream s u) (record s.server { request_done = last })
  wrote_request s (u, err e) = with_server (with_upstream s u) (end_with s.server (err e))
  wrote_request s (u, panic) = with_server (with_upstream s u) (end_with s.server panic)

  -- `handle_process`, up to the loops, and the retry buffer that `handle_downstream` starts with.
  abbrev pub retried : Option Bytes → List (Task net.http)
  retried none = []
  retried (some bs) = Task.body (some bs) false ∷ []

  abbrev pub joined : Downstream net → Upstream net → Duplex
  joined d u = record {
    downstream = d;
    upstream = u;
    requests = retried (get_retry_buffer net d);
    responses = [];
    client = running;
    server = running;
    permit = none;
  }

  abbrev pub wrote_header : Downstream net → Upstream net × Outcome (Unit {0}) → Outcome Duplex
  wrote_header d (u, ok _) = ok (joined (enable_retry_buffer net d) u)
  wrote_header d (u, err e) = err e
  wrote_header d (u, panic) = panic

  abbrev pub with_header :
      Downstream net → Upstream net → Option (RequestHeader net.http) → Outcome Duplex
  with_header d u none = panic
  with_header d u (some h) = wrote_header d (write_request_header net u h)

  abbrev pub after_request :
      Upstream net → Option (Downstream net × Outcome (Unit {0})) → Option (Outcome Duplex)
  after_request u none = none
  after_request u (some (d, ok _)) = some (with_header d u d.request_header)
  after_request u (some (d, err e)) = some (err e)
  after_request u (some (d, panic)) = some panic

  unfoldable pub start_process : Downstream net → Upstream net → Option (Outcome Duplex)
  unfolding read_request write_request_header enable_retry_buffer get_retry_buffer
  start_process d u = after_request u (read_request net fuel d)
