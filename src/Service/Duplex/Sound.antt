-- ===== src/Service/Duplex/Sound.antt =====
-- core/src/service/proxy/duplex.rs: what holds of the channels in every state of the two loops.
use glaive.Prelude.{
  ℕ, ◌≡◌, refl, subst, Option, none, some, Outcome, ok, err, panic, arith, Option-cases, inl, inr,
}
use glaive.Session.Headers.Request.{RequestHeader}
use glaive.Session.Task.{Task}
use glaive.Session.Platform.{Platform}
use glaive.Session.Downstream.{Downstream}
use glaive.Session.Downstream.Opening.{read_request}
use glaive.Session.Downstream.Requests.{enable_retry_buffer, get_retry_buffer}
use glaive.Session.Upstream.{Upstream}
use glaive.Session.Upstream.Requests.{write_request_header}
use glaive.Session.Downstream.Tasks.{write_downstream_response}
use glaive.Service.Duplex.{
  Duplex, with_upstream, with_downstream, start_process, joined, with_header, wrote_header,
  after_request,
}
use glaive.Service.Duplex.Steps.{
  HasRoom, HasResponseRoom, Step, client_turns, client_reads, client_writes, client_misses,
  client_ends, client_stops, server_reads, server_writes, server_misses, server_ends, Steps, stay,
  more,
}
use glaive.Service.Duplex.Channels.{
  Sound, kept-Sound, took_request-Sound, wrote_responses-Sound, took_response-Sound,
  wrote_request-Sound, taken-Sound,
}

module _ (net : Platform) (fuel : ℕ) where
  -- The room that a send needs does not depend on the sessions.
  HasRoom-with :
      (s : Duplex net fuel) (d : Downstream net) (result : Outcome (Task net.http))
      → HasRoom net fuel s result ≡ HasRoom net fuel (with_downstream net fuel s d) result
  HasRoom-with s d (ok task) = refl
  HasRoom-with s d (err e) = refl
  HasRoom-with s d panic = refl

  HasResponseRoom-with :
      (s : Duplex net fuel) (u : Upstream net) (result : Outcome (Task net.http))
      → HasResponseRoom net fuel s result
        ≡ HasResponseRoom net fuel (with_upstream net fuel s u) result
  HasResponseRoom-with s u (ok task) = refl
  HasResponseRoom-with s u (err e) = refl
  HasResponseRoom-with s u panic = refl

  Step-Sound : (s t : Duplex net fuel) → Step net fuel s t → Sound net fuel s → Sound net fuel t
  Step-Sound s t (client_turns _ run free on) so = record {
    requests_fit = so.requests_fit;
    responses_fit = so.responses_fit;
    bodies = so.bodies;
    reserved = λ held. ground (arith, held);
  }
  Step-Sound s t (client_reads _ d result run held on room e) so =
      took_request-Sound net fuel (with_downstream net fuel s d) result (so.reserved held)
        (subst (λ x. x) (HasRoom-with s d result) room) run
        (kept-Sound net fuel s _ refl so.responses_fit (λ x. x) (λ x. x) so)
  Step-Sound s t (client_writes _ _ held task tasks run in_round on some_tasks e) so =
      wrote_responses-Sound net fuel s t
        (write_downstream_response net fuel s.downstream s.responses) e run so
  Step-Sound s t (client_misses _ held result run in_round on empty up) so =
      kept-Sound net fuel s _ refl so.responses_fit (λ x. x) (λ x. absurd cc) so
  Step-Sound s t (client_ends _ run free req resp) so =
      kept-Sound net fuel s _ refl so.responses_fit (λ x. absurd cc) (λ x. absurd cc) so
  Step-Sound s t (client_stops _ held run in_round full resp) so =
      kept-Sound net fuel s _ refl so.responses_fit (λ x. absurd cc) (λ x. absurd cc) so
  Step-Sound s t (server_reads _ u result run on room e) so =
      took_response-Sound net fuel (with_upstream net fuel s u) result
        (subst (λ x. x) (HasResponseRoom-with s u result) room)
        (kept-Sound net fuel s _ refl so.responses_fit (λ x. x) (λ x. x) so)
  Step-Sound s t (server_writes _ task tasks u result run on some_tasks e) so =
      wrote_request-Sound net fuel (record s { requests = tasks }) u result
        (taken-Sound net fuel s task tasks some_tasks so)
  Step-Sound s t (server_misses _ result run on empty up) so =
      kept-Sound net fuel s _ refl so.responses_fit (λ x. x) (λ x. x) so
  Step-Sound s t (server_ends _ run req resp) so =
      kept-Sound net fuel s _ refl so.responses_fit (λ x. x) (λ x. x) so

  Steps-Sound : (s t : Duplex net fuel) → Steps net fuel s t → Sound net fuel s → Sound net fuel t
  Steps-Sound s t (stay _) so = so
  Steps-Sound s t (more _ v _ on one rest) so = Steps-Sound v t rest (Step-Sound s v one so)

  joined-Sound : (d : Downstream net) (u : Upstream net) → Sound net fuel (joined net fuel d u)
  joined-Sound d u = elim (Option-cases (get_retry_buffer net d)) [
    | inl e ↦ record {
      requests_fit = ground (arith, e);
      responses_fit = ground arith;
      bodies = λ run. rw e tt;
      reserved = λ held. absurd cc;
    }
    | inr (bs, e) ↦ record {
      requests_fit = ground (arith, e);
      responses_fit = ground arith;
      bodies = λ run. rw e tt;
      reserved = λ held. absurd cc;
    }
  ]

  started-Sound :
      (d : Downstream net) (t : Upstream net × Outcome (Unit {0})) (s : Duplex net fuel)
      → wrote_header net fuel d t ≡ ok s
      → Sound net fuel s
  started-Sound d (u, ok x) s e =
      let is : s ≡ joined net fuel (enable_retry_buffer net d) u = cc in
      rw is (joined-Sound (enable_retry_buffer net d) u)
  started-Sound d (u, err x) s e = absurd cc
  started-Sound d (u, panic) s e = absurd cc

  headed-Sound :
      (d : Downstream net) (u : Upstream net) (h : Option (RequestHeader net.http))
      (s : Duplex net fuel)
      → with_header net fuel d u h ≡ ok s
      → Sound net fuel s
  headed-Sound d u none s e = absurd cc
  headed-Sound d u (some h) s e = started-Sound d (write_request_header net u h) s e

  after-Sound :
      (u : Upstream net) (t : Option (Downstream net × Outcome (Unit {0}))) (s : Duplex net fuel)
      → after_request net fuel u t ≡ some (ok s)
      → Sound net fuel s
  after-Sound u none s e = absurd cc
  after-Sound u (some (d, ok x)) s e = headed-Sound d u d.request_header s (ground (arith, e))
  after-Sound u (some (d, err x)) s e = absurd (ground (arith, e))
  after-Sound u (some (d, panic)) s e = absurd (ground (arith, e))

  -- From the start of a process, however the two loops interleave, where no branch that `select!`
  -- drops has done a part of its work: neither channel holds more than its 32 tasks, and there is
  -- room for the task that the client's loop holds a place for, also when the server's loop has
  -- ended in between; and while the client's loop runs, all that is under way to the server are
  -- pieces of the request's body, so that the server's loop does not meet a task that it does not
  -- expect.
  pub start_process-Sound :
      (d : Downstream net) (u : Upstream net) (s t : Duplex net fuel)
      → start_process net fuel d u ≡ some (ok s)
      → Steps net fuel s t
      → Sound net fuel t
  unfolding start_process
  start_process-Sound d u s t started steps =
      Steps-Sound s t steps (after-Sound u (read_request net fuel d) s started)
