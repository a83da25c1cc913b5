-- ===== src/Service/Duplex/Reopens.antt =====
-- core/src/service/proxy/duplex.rs: a request that is done is taken up again by its response.
use glaive.Prelude.{
  ℕ, ◌<◌, ◌≡◌, refl, ◌∙◌, subst, ap, none, some, Bool, true, false, [], ◌∷◌, ok, err, panic,
  IoError, connection_closed, connect_error, length, arith, ◌==◌, if◌then◌else◌,
}
use glaive.Session.Offset.{Bytes}
use glaive.Session.Task.{Task, is_end}
use glaive.Session.Platform.{Platform}
use glaive.Session.Downstream.{Downstream}
use glaive.Session.Downstream.Requests.{
  is_reading_request_body_finished, idle, read_request_body_or_idle, read_downstream_request,
}
use glaive.Session.Downstream.Tasks.{write_downstream_response}
use glaive.Session.Upstream.{Upstream}
use glaive.Session.Upstream.Responses.Opening.{read_upstream_response}
use glaive.Session.Upstream.Requests.{write_task, write_upstream_request}
use glaive.Service.Duplex.{
  buffer_size, Duplex, begin_round, took_request, with_downstream, read_response_task,
  wrote_request,
}
use glaive.Service.Duplex.Steps.{
  Step, client_turns, client_reads, client_writes, server_reads, server_writes, Steps, stay, more,
}

module _ (net : Platform) (fuel : ℕ) where
  -- Once the body is read, a further read is an error, whatever the client sends.
  abbrev pub idle_error : Bytes → IoError
  idle_error bs = if length bs == 0 then connection_closed else connect_error

  reads_on :
      (d d' : Downstream net) (s : net.io.Stream) (bs : Bytes)
      → is_reading_request_body_finished net d ≡ (d', ok true)
      → net.io.read d'.stream 1 ≡ (s, ok bs)
      → read_downstream_request net d ≡ (record d' { stream = s }, err (idle_error bs))
  unfolding read_downstream_request read_request_body_or_idle idle
  reads_on d d' s bs finished e = ground (arith, finished, e)

  failed-panics :
      (u : Upstream net) (e : IoError)
      → write_upstream_request net fuel u (Task.failed e) ≡ some (u, panic)
  unfolding write_upstream_request write_task
  failed-panics u e = refl

  -- A state in which the response goes on.
  pub record Answering (s : Duplex net fuel) : Type 0 where
    pub client_runs : s.client.ended ≡ none
    pub server_runs : s.server.ended ≡ none
    pub client_waits : s.client.response_done ≡ false
    pub server_waits : s.server.response_done ≡ false
    pub no_requests : s.requests ≡ []
    pub no_responses : s.responses ≡ []
    pub held : Bool
    pub in_round : s.permit ≡ some held

  -- Steps that end in a panic of the server's loop.
  pub record Panics (s : Duplex net fuel) : Type 0 where
    pub after : Duplex net fuel
    pub steps : Steps net fuel s after
    pub panics : after.server.ended ≡ some panic

  module _ (s : Duplex net fuel) (task : Task net.http) (u : Upstream net) (d d' : Downstream net)
      (stream : net.io.Stream) (bs : Bytes) where
    abbrev answered : Duplex net fuel
    answered = record s {
      upstream = u;
      responses = task ∷ [];
      server = record s.server {
        request_done = is_end net.http task;
        response_done = is_end net.http task;
      };
    }

    abbrev reopened : Duplex net fuel
    reopened = record answered {
      responses = [];
      downstream = d;
      client = record s.client { request_done = false; response_done = false };
      permit = none;
    }

    abbrev next_round : Duplex net fuel
    next_round = record reopened { permit = some true }

    abbrev failing : Duplex net fuel
    failing =
        took_request net fuel (with_downstream net fuel next_round (record d' { stream = stream }))
          (err (idle_error bs))

    abbrev panicked : Duplex net fuel
    panicked = wrote_request net fuel (record failing { requests = [] }) (u, panic)

    answers :
        Answering s
        → length s.responses < buffer_size
        → read_upstream_response net fuel s.upstream ≡ some (u, ok task)
        → Step net fuel s answered
    answers a room e =
        let same : read_response_task net fuel s (u, ok task) ≡ answered =
          ground (arith, a.client_runs, a.no_responses) in
        subst (Step net fuel s) same
          (server_reads s u (ok task) a.server_runs a.server_waits (λ run. room) e)

    writes_on :
        Answering s
        → write_downstream_response net fuel s.downstream (task ∷ []) ≡ some (d, ok false)
        → Step net fuel answered reopened
    writes_on a e =
        client_writes answered reopened a.held task [] a.client_runs a.in_round a.client_waits refl
          (ground (arith, e))

    turns_on : Answering s → Step net fuel reopened next_round
    turns_on a =
        let same : begin_round net fuel reopened ≡ next_round =
          ground (arith, a.server_runs, a.no_requests) in
        subst (Step net fuel reopened) same (client_turns reopened a.client_runs refl refl)

    fails_on :
        Answering s
        → is_reading_request_body_finished net d ≡ (d', ok true)
        → net.io.read d'.stream 1 ≡ (stream, ok bs)
        → Step net fuel next_round failing
    fails_on a finished e =
        client_reads next_round (record d' { stream = stream }) (err (idle_error bs)) a.client_runs
          refl refl (λ run. ground (arith, a.no_requests)) (reads_on d d' stream bs finished e)

    sends_failure : Answering s → failing.requests ≡ Task.failed (idle_error bs) ∷ []
    sends_failure a = ground (arith, a.server_runs, a.no_requests)

    failing_server : failing.server ≡ answered.server
    failing_server = ground arith

    panics_on : Answering s → is_end net.http task ≡ false → Step net fuel failing panicked
    panics_on a goes_on =
        server_writes failing (Task.failed (idle_error bs)) [] u panic
          (ap (λ l. l.ended) failing_server ∙ a.server_runs)
          (ap (λ l. l.request_done) failing_server ∙ goes_on) (sends_failure a)
          (ground (arith, failed-panics u (idle_error bs)))

    -- Both loops run, the client's loop is in a round, the channels are empty, and the request may
    -- be done or not. A response task comes that is not the last, and the client's session writes
    -- it; the body of the request has been read; and the client closes its side, or sends the first
    -- byte of its next request. Then there are steps to a panic of the server's loop: the response
    -- sets the request back to not done, its next read is an error, and the server's loop does not
    -- expect the failure.
    pub reopened-Panics :
        Answering s
        → is_end net.http task ≡ false
        → read_upstream_response net fuel s.upstream ≡ some (u, ok task)
        → write_downstream_response net fuel s.downstream (task ∷ []) ≡ some (d, ok false)
        → is_reading_request_body_finished net d ≡ (d', ok true)
        → net.io.read d'.stream 1 ≡ (stream, ok bs)
        → Panics s
    reopened-Panics a goes_on comes writes finished e = record {
      after = panicked;
      steps =
          more s answered panicked (ground (arith, a.client_runs, a.server_runs))
            (answers a (ground (arith, a.no_responses)) comes)
            (more answered reopened panicked (ground (arith, a.client_runs, a.server_runs))
              (writes_on a writes)
              (more reopened next_round panicked (ground (arith, a.client_runs, a.server_runs))
                (turns_on a)
                (more next_round failing panicked (ground (arith, a.client_runs, a.server_runs))
                  (fails_on a finished e)
                  (more failing panicked panicked (ground (arith, a.server_runs))
                    (panics_on a goes_on) (stay panicked)))));
      panics = refl;
    }
