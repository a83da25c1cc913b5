-- ===== src/Service/Duplex/Channels.antt =====
-- core/src/service/proxy/duplex.rs: what each branch of the two loops does to the channels.
use glaive.Prelude.{
  ℕ, suc, ◌≤◌, ◌<◌, ◌≡◌, refl, sym, ap, subst, Option, none, some, Bool, true, List, [], ◌∷◌, ◌++◌,
  Outcome, ok, err, panic, length, length-append, append-nil, arith, ◌∙◌, Option-cases, inl, inr,
}
use glaive.Session.Task.{Task}
use glaive.Session.Platform.{Platform}
use glaive.Session.Downstream.{Downstream}
use glaive.Session.Upstream.{Upstream}
use glaive.Service.Duplex.{
  buffer_size, Duplex, took_request, wrote_responses, took_response, wrote_request,
}
use glaive.Service.Duplex.Steps.{HasRoom, HasResponseRoom}
use glaive.Service.Duplex.Answers.{
  brought, took_response-Kept, took_response_running, took_response_ended,
}

module _ (net : Platform) (fuel : ℕ) where
  length_put :
      (tasks : List (Task net.http)) (task : Task net.http)
      → length (tasks ++ (task ∷ [])) ≡ suc (length tasks)
  length_put tasks task = omega (arith, length-append tasks (task ∷ []))

  abbrev pub AllBodies : List (Task net.http) → Type 0
  AllBodies [] = Unit
  AllBodies (Task.body bs last ∷ tasks) = AllBodies tasks
  AllBodies (Task.header _ _ ∷ tasks) = ⊥
  AllBodies (Task.trailer _ ∷ tasks) = ⊥
  AllBodies (Task.done ∷ tasks) = ⊥
  AllBodies (Task.failed _ ∷ tasks) = ⊥

  AllBodies-append :
      (tasks : List (Task net.http)) (bs : Option (List ℕ)) (last : Bool)
      → AllBodies tasks
      → AllBodies (tasks ++ (Task.body bs last ∷ []))
  AllBodies-append [] bs last all = tt
  AllBodies-append (Task.body _ _ ∷ tasks) bs last all = AllBodies-append tasks bs last all
  AllBodies-append (Task.header _ _ ∷ tasks) bs last all = absurd all
  AllBodies-append (Task.trailer _ ∷ tasks) bs last all = absurd all
  AllBodies-append (Task.done ∷ tasks) bs last all = absurd all
  AllBodies-append (Task.failed _ ∷ tasks) bs last all = absurd all

  AllBodies-tail :
      (task : Task net.http) (tasks : List (Task net.http))
      → AllBodies (task ∷ tasks)
      → AllBodies tasks
  AllBodies-tail (Task.body _ _) tasks all = all
  AllBodies-tail (Task.header _ _) tasks all = absurd all
  AllBodies-tail (Task.trailer _) tasks all = absurd all
  AllBodies-tail Task.done tasks all = absurd all
  AllBodies-tail (Task.failed _) tasks all = absurd all

  -- The channels are within their capacity, also where a place is reserved, and while the client's
  -- loop runs, all that is under way to the server are pieces of the request's body.
  pub record Sound (s : Duplex net fuel) : Type 0 where
    pub requests_fit : length s.requests ≤ buffer_size
    pub responses_fit : length s.responses ≤ buffer_size
    pub bodies : s.client.ended ≡ none → AllBodies s.requests
    pub reserved : s.permit ≡ some true → length s.requests < buffer_size

  pub kept-Sound :
      (s t : Duplex net fuel)
      → t.requests ≡ s.requests
      → length t.responses ≤ buffer_size
      → (t.client.ended ≡ none → s.client.ended ≡ none)
      → (t.permit ≡ some true → s.permit ≡ some true)
      → Sound s
      → Sound t
  kept-Sound s t requests fit back held so = record {
    requests_fit = rw requests so.requests_fit;
    responses_fit = fit;
    bodies = λ run. rw requests (so.bodies (back run));
    reserved = λ place. omega (arith, ap length requests, so.reserved (held place));
  }

  put-Sound :
      (s t : Duplex net fuel) (task : Task net.http)
      → length s.requests < buffer_size
      → t.requests ≡ s.requests ++ (task ∷ [])
      → t.responses ≡ s.responses
      → t.permit ≡ none
      → (t.client.ended ≡ none → AllBodies (s.requests ++ (task ∷ [])))
      → Sound s
      → Sound t
  put-Sound s t task room requests responses free all so = record {
    requests_fit = omega (arith, length_put s.requests task, room, ap length requests);
    responses_fit = omega (arith, so.responses_fit, ap length responses);
    bodies = λ run. rw requests (all run);
    reserved = λ place. absurd cc;
  }

  -- Where the server's loop has ended, what is sent is lost.
  sent-Sound :
      (s t : Duplex net fuel) (task : Task net.http)
      → length s.requests < buffer_size
      → (s.server.ended ≡ none → t.requests ≡ s.requests ++ (task ∷ []))
      → ((x : Outcome (Unit {0})) → s.server.ended ≡ some x → t.requests ≡ s.requests)
      → t.responses ≡ s.responses
      → t.permit ≡ none
      → (t.client.ended ≡ none → s.client.ended ≡ none)
      → (t.client.ended ≡ none → AllBodies (s.requests ++ (task ∷ [])))
      → Sound s
      → Sound t
  sent-Sound s t task room up down responses free back all so = elim (Option-cases s.server.ended) [
    | inl e ↦ put-Sound s t task room (up e) responses free all so
    | inr (x, e) ↦
        kept-Sound s t (down x e) (omega (arith, so.responses_fit, ap length responses)) back
          (λ place. absurd cc) so
  ]

  pub took_request-Sound :
      (s : Duplex net fuel) (result : Outcome (Task net.http))
      → length s.requests < buffer_size
      → HasRoom net fuel s result
      → s.client.ended ≡ none
      → Sound s
      → Sound (took_request net fuel s result)
  took_request-Sound s (ok (Task.body bs last)) room free run so =
      sent-Sound s _ (Task.body bs last) room (λ e. ground (arith, e)) (λ x e. ground (arith, e))
        (ground arith) refl (λ _. run) (λ _. AllBodies-append s.requests bs last (so.bodies run)) so
  took_request-Sound s (ok (Task.header h last)) room free run so =
      kept-Sound s _ refl so.responses_fit (λ e. absurd cc) (λ e. absurd cc) so
  took_request-Sound s (ok (Task.trailer t)) room free run so =
      kept-Sound s _ refl so.responses_fit (λ e. absurd cc) (λ e. absurd cc) so
  took_request-Sound s (ok Task.done) room free run so =
      kept-Sound s _ refl so.responses_fit (λ e. e) (λ e. absurd cc) so
  took_request-Sound s (ok (Task.failed x)) room free run so =
      kept-Sound s _ refl so.responses_fit (λ e. absurd cc) (λ e. absurd cc) so
  took_request-Sound s (err x) room free run so =
      sent-Sound s _ (Task.failed x) room (λ e. ground (arith, e)) (λ y e. ground (arith, e))
        (ground arith) refl (λ e. absurd cc) (λ e. absurd cc) so
  took_request-Sound s panic room free run so =
      kept-Sound s _ refl so.responses_fit (λ e. absurd cc) (λ e. absurd cc) so

  pub wrote_responses-Sound :
      (s s' : Duplex net fuel) (r : Option (Downstream net × Outcome Bool))
      → wrote_responses net fuel (record s { responses = [] }) r ≡ some s'
      → s.client.ended ≡ none
      → Sound s
      → Sound s'
  wrote_responses-Sound s s' none e run so = absurd cc
  wrote_responses-Sound s s' (some (d, ok last)) e run so =
      kept-Sound s s' (ground (arith, e)) (ground (arith, e)) (λ _. run)
        (λ p. absurd (ground (arith, e, p))) so
  wrote_responses-Sound s s' (some (d, err x)) e run so =
      kept-Sound s s' (ground (arith, e)) (ground (arith, e)) (λ _. run)
        (λ p. absurd (ground (arith, e, p))) so
  wrote_responses-Sound s s' (some (d, panic)) e run so =
      kept-Sound s s' (ground (arith, e)) (ground (arith, e)) (λ _. run)
        (λ p. absurd (ground (arith, e, p))) so

  pub took_response-Sound :
      (s : Duplex net fuel) (result : Outcome (Task net.http))
      → HasResponseRoom net fuel s result
      → Sound s
      → Sound (took_response net fuel s result)
  took_response-Sound s result room so =
      let k = took_response-Kept net fuel s result in
      kept-Sound s (took_response net fuel s result) k.requests fits
        (λ y. ap (λ l. l.ended) (sym k.client) ∙ y) (λ y. sym k.permit ∙ y) so
    where
      brought_fits :
          (r : Outcome (Task net.http))
          → HasResponseRoom net fuel s r
          → s.client.ended ≡ none
          → length (s.responses ++ brought net fuel r) ≤ buffer_size
      brought_fits (ok task) free e = omega (arith, length_put s.responses task, free e)
      brought_fits (err x) free e = omega (arith, length_put s.responses (Task.failed x), free e)
      brought_fits panic free e =
          omega (arith, so.responses_fit, ap length (append-nil s.responses))

      fits : length (took_response net fuel s result).responses ≤ buffer_size
      fits = elim (Option-cases s.client.ended) [
        | inl e ↦ rw (took_response_running net fuel s result e) (brought_fits result room e)
        | inr (x, e) ↦ rw (took_response_ended net fuel s result x e) so.responses_fit
      ]

  pub wrote_request-Sound :
      (s : Duplex net fuel) (u : Upstream net) (result : Outcome Bool)
      → Sound s
      → Sound (wrote_request net fuel s (u, result))
  wrote_request-Sound s u (ok last) so = kept-Sound s _ refl so.responses_fit (λ e. e) (λ e. e) so
  wrote_request-Sound s u (err x) so = kept-Sound s _ refl so.responses_fit (λ e. e) (λ e. e) so
  wrote_request-Sound s u panic so = kept-Sound s _ refl so.responses_fit (λ e. e) (λ e. e) so

  pub taken-Sound :
      (s : Duplex net fuel) (task : Task net.http) (tasks : List (Task net.http))
      → s.requests ≡ task ∷ tasks
      → Sound s
      → Sound (record s { requests = tasks })
  taken-Sound s task tasks e so = record {
    requests_fit = omega (arith, so.requests_fit, ap length e);
    responses_fit = so.responses_fit;
    bodies = λ run. AllBodies-tail task tasks (subst AllBodies e (so.bodies run));
    reserved = λ place. omega (arith, so.reserved place, ap length e);
  }
