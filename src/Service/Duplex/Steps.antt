-- ===== src/Service/Duplex/Steps.antt =====
-- core/src/service/proxy/duplex.rs: the steps of the two loops. `tokio::select!` takes any branch
-- that is enabled, and the two loops take turns in any order. The client's loop reserves a place in
-- the channel to the server before its `select!`, and holds it through the round. A send that waits
-- for room is a step that is taken later: only the same loop could tell. A branch that `select!`
-- drops before it is ready is no step.
use glaive.Prelude.{
  ℕ, suc, ◌<◌, ◌≡◌, none, some, Bool, true, false, not, ◌&&◌, ◌||◌, List, [], ◌∷◌, Outcome, ok, err,
  panic, length,
}
use glaive.Session.Task.{Task}
use glaive.Session.Platform.{Platform}
use glaive.Session.Downstream.{Downstream}
use glaive.Session.Downstream.Requests.{read_downstream_request}
use glaive.Session.Upstream.{Upstream}
use glaive.Session.Upstream.Responses.Opening.{read_upstream_response}
use glaive.Session.Upstream.Requests.{write_upstream_request}
use glaive.Service.Duplex.{
  buffer_size, is_stopped, end_with, Duplex, begin_round, took_request, with_downstream,
  with_client, with_server, write_responses, read_response_task, wrote_request,
}

module _ (net : Platform) (fuel : ℕ) where
  -- The failure of a read is sent behind the place that is reserved.
  abbrev pub HasRoom : Duplex net fuel → Outcome (Task net.http) → Type 0
  HasRoom s (ok _) = Unit
  HasRoom s (err _) = s.server.ended ≡ none → suc (length s.requests) < buffer_size
  HasRoom s panic = Unit

  -- A response task is sent when there is room, and at once when the client's loop has ended.
  abbrev pub HasResponseRoom : Duplex net fuel → Outcome (Task net.http) → Type 0
  HasResponseRoom s (ok _) = s.client.ended ≡ none → length s.responses < buffer_size
  HasResponseRoom s (err _) = s.client.ended ≡ none → length s.responses < buffer_size
  HasResponseRoom s panic = Unit

  pub data Step : Duplex net fuel → Duplex net fuel → Type 0 where
    client_turns :
        (s : Duplex net fuel)
        → s.client.ended ≡ none
        → s.permit ≡ none
        → (s.client.request_done && s.client.response_done) ≡ false
        → Step s (begin_round net fuel s)
    client_reads :
        (s : Duplex net fuel) (d : Downstream net) (result : Outcome (Task net.http))
        → s.client.ended ≡ none
        → s.permit ≡ some true
        → s.client.request_done ≡ false
        → HasRoom s result
        → read_downstream_request net s.downstream ≡ (d, result)
        → Step s (took_request net fuel (with_downstream net fuel s d) result)
    client_writes :
        (s s' : Duplex net fuel) (reserved : Bool) (task : Task net.http)
        (tasks : List (Task net.http))
        → s.client.ended ≡ none
        → s.permit ≡ some reserved
        → s.client.response_done ≡ false
        → s.responses ≡ task ∷ tasks
        → write_responses net fuel s ≡ some s'
        → Step s s'
    client_misses :
        (s : Duplex net fuel) (reserved : Bool) (result : Outcome (Unit {0}))
        → s.client.ended ≡ none
        → s.permit ≡ some reserved
        → s.client.response_done ≡ false
        → s.responses ≡ []
        → s.server.ended ≡ some result
        → Step s (with_client net fuel s (record s.client { response_done = true }))
    client_ends :
        (s : Duplex net fuel)
        → s.client.ended ≡ none
        → s.permit ≡ none
        → s.client.request_done ≡ true
        → s.client.response_done ≡ true
        → Step s (with_client net fuel s (end_with s.client (ok tt)))
    -- No branch is enabled, since no place was reserved: the loop breaks.
    client_stops :
        (s : Duplex net fuel) (reserved : Bool)
        → s.client.ended ≡ none
        → s.permit ≡ some reserved
        → (s.client.request_done || not reserved) ≡ true
        → s.client.response_done ≡ true
        → Step s (with_client net fuel s (end_with s.client (ok tt)))
    server_reads :
        (s : Duplex net fuel) (u : Upstream net) (result : Outcome (Task net.http))
        → s.server.ended ≡ none
        → s.server.response_done ≡ false
        → HasResponseRoom s result
        → read_upstream_response net fuel s.upstream ≡ some (u, result)
        → Step s (read_response_task net fuel s (u, result))
    server_writes :
        (s : Duplex net fuel) (task : Task net.http) (tasks : List (Task net.http))
        (u : Upstream net) (result : Outcome Bool)
        → s.server.ended ≡ none
        → s.server.request_done ≡ false
        → s.requests ≡ task ∷ tasks
        → write_upstream_request net fuel s.upstream task ≡ some (u, result)
        → Step s (wrote_request net fuel (record s { requests = tasks }) (u, result))
    server_misses :
        (s : Duplex net fuel) (result : Outcome (Unit {0}))
        → s.server.ended ≡ none
        → s.server.request_done ≡ false
        → s.requests ≡ []
        → s.client.ended ≡ some result
        → Step s (with_server net fuel s (record s.server { request_done = true }))
    server_ends :
        (s : Duplex net fuel)
        → s.server.ended ≡ none
        → s.server.request_done ≡ true
        → s.server.response_done ≡ true
        → Step s (with_server net fuel s (end_with s.server (ok tt)))

  -- Any number of steps while no loop has failed.
  pub data Steps : Duplex net fuel → Duplex net fuel → Type 0 where
    stay : (s : Duplex net fuel) → Steps s s
    more :
        (s t v : Duplex net fuel) → is_stopped net fuel s ≡ false → Step s t → Steps t v → Steps s v
