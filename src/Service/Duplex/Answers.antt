-- ===== src/Service/Duplex/Answers.antt =====
-- core/src/service/proxy/duplex.rs: what the read of a response task does to the channel to the
-- client.
use glaive.Prelude.{
  ℕ, ◌≡◌, refl, sym, append-nil, Option, none, some, Bool, true, false, List, [], ◌∷◌, ◌++◌,
  Outcome, ok, err, panic, arith,
}
use glaive.Session.Task.{Task, is_end}
use glaive.Session.Platform.{Platform}
use glaive.Session.Upstream.{Upstream, is_request_upgrade}
use glaive.Service.Duplex.{
  Loop, Duplex, with_upstream, refused, to_client_if_open, took_response, wrote_request,
}

module _ (net : Platform) (fuel : ℕ) where
  -- What the server's loop leaves alone.
  pub record Kept (s t : Duplex net fuel) : Type 0 where
    pub client : t.client ≡ s.client
    pub downstream : t.downstream ≡ s.downstream
    pub requests : t.requests ≡ s.requests
    pub permit : t.permit ≡ s.permit
    pub upstream : t.upstream ≡ s.upstream

  kept :
      (s : Duplex net fuel) (responses : List (Task net.http)) (server : Loop)
      → Kept s (record s { responses = responses; server = server })
  kept s responses server = record {
    client = refl;
    downstream = refl;
    requests = refl;
    permit = refl;
    upstream = refl;
  }

  refused-Kept :
      (s : Duplex net fuel) (upgrade : Outcome Bool) → Kept s (refused net fuel s upgrade)
  refused-Kept s (ok true) = kept s _ _
  refused-Kept s (ok false) = kept s _ _
  refused-Kept s (err e) = kept s _ _
  refused-Kept s panic = kept s _ _

  chosen-Kept :
      (s a b : Duplex net fuel) (ended : Option (Outcome (Unit {0})))
      → Kept s a
      → Kept s b
      → Kept s (elim ended [ none ↦ a | some _ ↦ b ])
  chosen-Kept s a b none ka kb = ka
  chosen-Kept s a b (some _) ka kb = kb

  abbrev with_flags : Duplex net fuel → Task net.http → Duplex net fuel
  with_flags s task = record s {
    server = record s.server {
      request_done = is_end net.http task;
      response_done = is_end net.http task;
    };
  }

  of_flags :
      (s t : Duplex net fuel) (server : Loop) → Kept (record s { server = server }) t → Kept s t
  of_flags s t server k = record {
    client = k.client;
    downstream = k.downstream;
    requests = k.requests;
    permit = k.permit;
    upstream = k.upstream;
  }

  ended-Kept :
      (s t : Duplex net fuel) (server : Loop) → Kept s t → Kept s (record t { server = server })
  ended-Kept s t server k = record {
    client = k.client;
    downstream = k.downstream;
    requests = k.requests;
    permit = k.permit;
    upstream = k.upstream;
  }

  pub took_response-Kept :
      (s : Duplex net fuel) (result : Outcome (Task net.http))
      → Kept s (took_response net fuel s result)
  took_response-Kept s (ok task) = of_flags s _ _ (
      chosen-Kept (with_flags s task)
        (record (with_flags s task) { responses = s.responses ++ (task ∷ []) })
        (refused net fuel (with_flags s task) (is_request_upgrade net s.upstream)) s.client.ended
        (kept _ _ _) (refused-Kept (with_flags s task) _))
  took_response-Kept s (err e) = ended-Kept s (to_client_if_open net fuel s (Task.failed e)) _ (
      chosen-Kept s (record s { responses = s.responses ++ (Task.failed e ∷ []) }) s s.client.ended
        (kept _ _ _) (kept s s.responses s.server))
  took_response-Kept s panic = kept s _ _

  -- The tasks that a read brings: the failure, where it fails.
  abbrev pub brought : Outcome (Task net.http) → List (Task net.http)
  brought (ok task) = task ∷ []
  brought (err e) = Task.failed e ∷ []
  brought panic = []

  pub took_response_running :
      (s : Duplex net fuel) (result : Outcome (Task net.http))
      → s.client.ended ≡ none
      → (took_response net fuel s result).responses ≡ s.responses ++ brought result
  took_response_running s (ok task) e = ground (arith, e)
  took_response_running s (err x) e = ground (arith, e)
  took_response_running s panic e = sym (append-nil s.responses)

  refused-responses :
      (s : Duplex net fuel) (upgrade : Outcome Bool)
      → (refused net fuel s upgrade).responses ≡ s.responses
  refused-responses s (ok true) = refl
  refused-responses s (ok false) = refl
  refused-responses s (err e) = refl
  refused-responses s panic = refl

  pub took_response_ended :
      (s : Duplex net fuel) (result : Outcome (Task net.http)) (ended : Outcome (Unit {0}))
      → s.client.ended ≡ some ended
      → (took_response net fuel s result).responses ≡ s.responses
  took_response_ended s (ok task) ended e =
      ground (arith, e, refused-responses (with_flags s task) (is_request_upgrade net s.upstream))
  took_response_ended s (err x) ended e = ground (arith, e)
  took_response_ended s panic ended e = refl

  -- So does the write of a request task.
  pub wrote_request-Kept :
      (s : Duplex net fuel) (u : Upstream net) (result : Outcome Bool)
      → Kept (with_upstream net fuel s u) (wrote_request net fuel s (u, result))
  wrote_request-Kept s u (ok last) = kept _ _ _
  wrote_request-Kept s u (err e) = kept _ _ _
  wrote_request-Kept s u panic = kept _ _ _

  pub wrote_request-responses :
      (s : Duplex net fuel) (u : Upstream net) (result : Outcome Bool)
      → (wrote_request net fuel s (u, result)).responses ≡ s.responses
  wrote_request-responses s u (ok last) = refl
  wrote_request-responses s u (err e) = refl
  wrote_request-responses s u panic = refl
