-- ===== src/Service/Duplex/Order.antt =====
-- core/src/service/proxy/duplex.rs: the client gets the response tasks in the order they were read.
use glaive.Prelude.{
  ℕ, ◌≡◌, refl, sym, ap, ◌∙◌, subst, Option, none, some, Bool, List, [], ◌++◌, Outcome, ok, err,
  panic, append_assoc, arith, Option-cases, inl, inr,
}
use glaive.Session.Task.{Task}
use glaive.Session.Platform.{Platform}
use glaive.Session.Downstream.{Downstream}
use glaive.Session.Downstream.Requests.{read_downstream_request}
use glaive.Session.Downstream.Tasks.{write_downstream_response}
use glaive.Session.Upstream.{Upstream}
use glaive.Session.Upstream.Requests.{write_upstream_request}
use glaive.Session.Upstream.Responses.Opening.{read_upstream_response}
use glaive.Service.Duplex.{
  Duplex, took_request, with_upstream, with_downstream, wrote_responses, took_response,
}
use glaive.Service.Duplex.Steps.{
  Step, client_turns, client_reads, client_writes, client_misses, client_ends, client_stops,
  server_reads, server_writes, server_misses, server_ends, Steps, stay, more,
}
use glaive.Service.Duplex.Answers.{
  brought, took_response-Kept, took_response_running, took_response_ended, wrote_request-Kept,
  wrote_request-responses,
}

module _ (net : Platform) (fuel : ℕ) where
  -- The calls on the client's session, and the response tasks that they hand to it.
  pub data ClientCalls : Downstream net → Downstream net → List (Task net.http) → Type 0 where
    no_calls : (d : Downstream net) → ClientCalls d d []
    read_call :
        (d d' e : Downstream net) (result : Outcome (Task net.http)) (given : List (Task net.http))
        → read_downstream_request net d ≡ (d', result)
        → ClientCalls d' e given
        → ClientCalls d e given
    write_call :
        (d d' e : Downstream net) (result : Outcome Bool) (tasks given : List (Task net.http))
        → write_downstream_response net fuel d tasks ≡ some (d', result)
        → ClientCalls d' e given
        → ClientCalls d e (tasks ++ given)

  -- The calls on the server's session, and the response tasks that they give.
  pub data ServerCalls : Upstream net → Upstream net → List (Task net.http) → Type 0 where
    no_calls : (u : Upstream net) → ServerCalls u u []
    read_call :
        (u u' v : Upstream net) (result : Outcome (Task net.http)) (read : List (Task net.http))
        → read_upstream_response net fuel u ≡ some (u', result)
        → ServerCalls u' v read
        → ServerCalls u v (brought net fuel result ++ read)
    write_call :
        (u u' v : Upstream net) (task : Task net.http) (result : Outcome Bool)
        (read : List (Task net.http))
        → write_upstream_request net fuel u task ≡ some (u', result)
        → ServerCalls u' v read
        → ServerCalls u v read

  -- Once the client's loop has ended, its session and the channel to it stay as they are.
  pub record Shut (s t : Duplex net fuel) (given : List (Task net.http))
      (result : Outcome (Unit {0})) : Type 0 where
    pub none_given : given ≡ []
    pub same_channel : t.responses ≡ s.responses
    pub still : t.client.ended ≡ some result

  -- What the steps between two states do with the response tasks: those that the calls on the
  -- server's session give, those that the calls on the client's session are handed, and those that
  -- are lost.
  pub record InOrder (s t : Duplex net fuel) : Type 0 where
    pub read : List (Task net.http)
    pub given : List (Task net.http)
    pub lost : List (Task net.http)
    pub server_calls : ServerCalls s.upstream t.upstream read
    pub client_calls : ClientCalls s.downstream t.downstream given
    pub in_order : s.responses ++ read ≡ given ++ (t.responses ++ lost)
    pub none_lost : t.client.ended ≡ none → lost ≡ []
    pub shut : (result : Outcome (Unit {0})) → s.client.ended ≡ some result → Shut s t given result

  -- A step that leaves the channel to the client alone, before the others.
  quiet :
      (s v t : Duplex net fuel)
      → v.responses ≡ s.responses
      → ((x : Outcome (Unit {0})) → s.client.ended ≡ some x → v.client.ended ≡ some x)
      → ((given : List (Task net.http))
          → ClientCalls v.downstream t.downstream given
          → ClientCalls s.downstream t.downstream given)
      → ((read : List (Task net.http))
          → ServerCalls v.upstream t.upstream read
          → ServerCalls s.upstream t.upstream read)
      → InOrder v t
      → InOrder s t
  quiet s v t same back client server o = record {
    read = o.read;
    given = o.given;
    lost = o.lost;
    server_calls = server o.read o.server_calls;
    client_calls = client o.given o.client_calls;
    in_order = ap (λ x. x ++ o.read) (sym same) ∙ o.in_order;
    none_lost = o.none_lost;
    shut = λ x e.
        let u = o.shut x (back x e) in
        record { none_given = u.none_given; same_channel = u.same_channel ∙ same; still = u.still };
  }

  took_request-keeps :
      (s : Duplex net fuel) (result : Outcome (Task net.http))
      → let t = took_request net fuel s result in
        (t.responses ≡ s.responses) × (t.downstream ≡ s.downstream) × (t.upstream ≡ s.upstream)
  took_request-keeps s (ok (Task.header h last)) = (refl, refl, refl)
  took_request-keeps s (ok (Task.body bs last)) = (ground arith, ground arith, ground arith)
  took_request-keeps s (ok (Task.trailer t)) = (refl, refl, refl)
  took_request-keeps s (ok Task.done) = (refl, refl, refl)
  took_request-keeps s (ok (Task.failed e)) = (refl, refl, refl)
  took_request-keeps s (err e) = (ground arith, ground arith, ground arith)
  took_request-keeps s panic = (refl, refl, refl)

  -- The write hands all that waits to the client's session.
  wrote-InOrder :
      (s v t : Duplex net fuel) (r : Option (Downstream net × Outcome Bool))
      → s.client.ended ≡ none
      → write_downstream_response net fuel s.downstream s.responses ≡ r
      → wrote_responses net fuel (record s { responses = [] }) r ≡ some v
      → InOrder v t
      → InOrder s t
  wrote-InOrder s v t none run w e o = absurd cc
  wrote-InOrder s v t (some (d, result)) run w e o =
      let here = after result e in
      record {
        read = o.read;
        given = s.responses ++ o.given;
        lost = o.lost;
        server_calls = subst (λ u. ServerCalls u t.upstream o.read) here.2 o.server_calls;
        client_calls =
            write_call s.downstream d t.downstream result s.responses o.given w
              (subst (λ x. ClientCalls x t.downstream o.given) here.1 o.client_calls);
        in_order =
            ap (λ x. s.responses ++ x) (ap (λ x. x ++ o.read) (sym here.0) ∙ o.in_order)
            ∙ sym (append_assoc s.responses o.given (t.responses ++ o.lost));
        none_lost = o.none_lost;
        shut = λ x y. absurd cc;
      }
    where
      after :
          (result : Outcome Bool)
          → wrote_responses net fuel (record s { responses = [] }) (some (d, result)) ≡ some v
          → (v.responses ≡ []) × (v.downstream ≡ d) × (v.upstream ≡ s.upstream)
      after (ok last) e = (ground (arith, e), ground (arith, e), ground (arith, e))
      after (err x) e = (ground (arith, e), ground (arith, e), ground (arith, e))
      after panic e = (ground (arith, e), ground (arith, e), ground (arith, e))

  -- A read, of which the tasks are sent while the client's loop runs, and lost once it has ended.
  took-InOrder :
      (s t : Duplex net fuel) (u : Upstream net) (result : Outcome (Task net.http))
      → read_upstream_response net fuel s.upstream ≡ some (u, result)
      → InOrder (took_response net fuel (with_upstream net fuel s u) result) t
      → InOrder s t
  took-InOrder s t u result e o =
      let s' = with_upstream net fuel s u in
      let k = took_response-Kept net fuel s' result in
      let server : ServerCalls s.upstream t.upstream (brought net fuel result ++ o.read) =
        read_call s.upstream u t.upstream result o.read e
          (subst (λ x. ServerCalls x t.upstream o.read) k.upstream o.server_calls) in
      let client : ClientCalls s.downstream t.downstream o.given =
        subst (λ x. ClientCalls x t.downstream o.given) k.downstream o.client_calls in
      elim (Option-cases s.client.ended) [
        | inl run ↦ record {
          read = brought net fuel result ++ o.read;
          given = o.given;
          lost = o.lost;
          server_calls = server;
          client_calls = client;
          in_order =
              sym (append_assoc s.responses (brought net fuel result) o.read)
              ∙ ap (λ x. x ++ o.read) (sym (took_response_running net fuel s' result run))
              ∙ o.in_order;
          none_lost = o.none_lost;
          shut = λ x y. absurd cc;
        }
        | inr (ended, up) ↦
            let here = o.shut ended (ap (λ l. l.ended) k.client ∙ up) in
            let channel = took_response_ended net fuel s' result ended up in
            record {
              read = brought net fuel result ++ o.read;
              given = o.given;
              lost = brought net fuel result ++ o.read;
              server_calls = server;
              client_calls = client;
              in_order =
                  ap (λ x. x ++ (brought net fuel result ++ o.read))
                    (sym (here.same_channel ∙ channel))
                  ∙ ap (λ x. x ++ (t.responses ++ (brought net fuel result ++ o.read)))
                      (sym here.none_given);
              none_lost = λ x. absurd (cc here.still);
              shut = λ x y.
                  let again = o.shut x (ap (λ l. l.ended) k.client ∙ y) in
                  record {
                    none_given = again.none_given;
                    same_channel = again.same_channel ∙ channel;
                    still = again.still;
                  };
            }
      ]

  Step-InOrder : (s v t : Duplex net fuel) → Step net fuel s v → InOrder v t → InOrder s t
  Step-InOrder s v t (client_turns _ run free on) =
      quiet s v t refl (λ x e. e) (λ g c. c) (λ r c. c)
  Step-InOrder s v t (client_reads _ d result run held on room e) =
      let k = took_request-keeps (with_downstream net fuel s d) result in
      quiet s v t k.0 (λ x y. absurd cc)
        (λ g c.
          read_call s.downstream d t.downstream result g e
            (subst (λ x. ClientCalls x t.downstream g) k.1 c))
        (λ r c. subst (λ x. ServerCalls x t.upstream r) k.2 c)
  Step-InOrder s v t (client_writes _ _ held task tasks run in_round on some_tasks e) =
      wrote-InOrder s v t (write_downstream_response net fuel s.downstream s.responses) run refl e
  Step-InOrder s v t (client_misses _ held result run in_round on empty up) =
      quiet s v t refl (λ x e. absurd cc) (λ g c. c) (λ r c. c)
  Step-InOrder s v t (client_ends _ run free req resp) =
      quiet s v t refl (λ x e. absurd cc) (λ g c. c) (λ r c. c)
  Step-InOrder s v t (client_stops _ held run in_round full resp) =
      quiet s v t refl (λ x e. absurd cc) (λ g c. c) (λ r c. c)
  Step-InOrder s v t (server_reads _ u result run on room e) = took-InOrder s t u result e
  Step-InOrder s v t (server_writes _ task tasks u result run on some_tasks e) =
      let s' : Duplex net fuel = record s { requests = tasks } in
      let k = wrote_request-Kept net fuel s' u result in
      quiet s v t (wrote_request-responses net fuel s' u result)
        (λ x y. ap (λ l. l.ended) k.client ∙ y)
        (λ g c. subst (λ x. ClientCalls x t.downstream g) k.downstream c)
        (λ r c.
          write_call s.upstream u t.upstream task result r e
            (subst (λ x. ServerCalls x t.upstream r) k.upstream c))
  Step-InOrder s v t (server_misses _ result run on empty up) =
      quiet s v t refl (λ x e. e) (λ g c. c) (λ r c. c)
  Step-InOrder s v t (server_ends _ run req resp) =
      quiet s v t refl (λ x e. e) (λ g c. c) (λ r c. c)

  -- However the two loops interleave: what waits for the client at first, and then all that the
  -- calls on the server's session give, is what the calls on the client's session are handed, then
  -- what still waits, then what is lost. Nothing is doubled or overtaken, nothing is lost while the
  -- client's loop runs, and once that has ended its session is handed nothing more.
  pub Steps-InOrder : (s t : Duplex net fuel) → Steps net fuel s t → InOrder s t
  Steps-InOrder s t (stay _) = record {
    read = [];
    given = [];
    lost = [];
    server_calls = no_calls s.upstream;
    client_calls = no_calls s.downstream;
    in_order = refl;
    none_lost = λ e. refl;
    shut = λ x e. record { none_given = refl; same_channel = refl; still = e };
  }
  Steps-InOrder s t (more _ v _ on one rest) = Step-InOrder s v t one (Steps-InOrder v t rest)
