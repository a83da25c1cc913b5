-- ===== src/Session/Downstream/Once.antt =====
-- core/src/session/downstream.rs, `write_response_headers`: a client gets one final header at most.
use glaive.Prelude.{
  ◌≡◌, refl, sym, ap, ◌∙◌, subst, Bool, true, false, List, [], ◌∷◌, ◌++◌, Outcome, ok, err, panic,
  then_ok, arith, Bool-cases, inl, inr, append-nil, append_assoc,
}
use glaive.Session.Offset.{Bytes}
use glaive.Session.Http.{is_informational}
use glaive.Session.Headers.Response.{ResponseHeader, build_to_buffer}
use glaive.Session.Platform.{Platform}
use glaive.Session.Downstream.{Downstream}
use glaive.Session.Downstream.Responses.{
  Step, is_sent, updated, unless_ignored, write_response_headers,
}
use glaive.Session.Downstream.Sends.{Sends, send_updated-Sends}

module _ (net : Platform) where
  open net use {http, out}
  open out use {Sink, written, write_all, flush, write_all_writes, flush_keeps}

  abbrev pub Locked : Downstream net → Type 0
  Locked d = is_sent net d.response_header d.upgrade ≡ true

  -- What a call that succeeds has done: nothing, or it has sent the header, which it does only while
  -- no final header has gone out.
  pub data Did (d d' : Downstream net) (h : ResponseHeader http) : Type 0 where
    skips : d' ≡ d → Did d d' h
    sends : is_sent net d.response_header d.upgrade ≡ false → Sends net d d' h → Did d d' h

  unless_ignored-Did :
      (d d' : Downstream net) (h : ResponseHeader http) (ignored : Outcome Bool)
      → unless_ignored net d h ignored ≡ (d', ok tt)
      → Did d d' h
  unless_ignored-Did d d' h (ok true) e = skips (sym (ap (λ x. x.0) e))
  unless_ignored-Did d d' h (ok false) e =
      elim (Bool-cases (is_sent net d.response_header d.upgrade)) [
        | inl y ↦ skips (ground (arith, e, y))
        | inr n ↦
            sends n (send_updated-Sends net d d' h (updated net d h) refl (ground (arith, e, n)))
      ]
  unless_ignored-Did d d' h (err x) e = absurd cc
  unless_ignored-Did d d' h panic e = absurd cc

  unless_ignored-Locked :
      (d d' : Downstream net) (h : ResponseHeader http) (ignored : Outcome Bool)
      → Locked d
      → unless_ignored net d h ignored ≡ (d', ok tt)
      → d' ≡ d
  unless_ignored-Locked d d' h (ok true) locked e = sym (ap (λ x. x.0) e)
  unless_ignored-Locked d d' h (ok false) locked e = ground (arith, e, locked)
  unless_ignored-Locked d d' h (err x) locked e = absurd cc
  unless_ignored-Locked d d' h panic locked e = absurd cc

  -- Several headers, one call after another, until one fails.
  unfoldable pub write_each : Downstream net → List (ResponseHeader http) → Step net (Unit {0})
  write_each d [] = (d, ok tt)
  write_each d (h ∷ hs) = then_ok (write_response_headers net d h) λ d' _. write_each d' hs

  -- Bytes that are the heads of any number of informational responses, and of a final one after
  -- them or of none.
  pub data Heads : Bytes → Type 0 where
    nothing : Heads []
    final :
        (h : ResponseHeader http) (bs : Bytes)
        → build_to_buffer http h ≡ ok bs
        → is_informational h.status ≡ false
        → Heads bs
    interim :
        (h : ResponseHeader http) (bs rest : Bytes)
        → build_to_buffer http h ≡ ok bs
        → is_informational h.status ≡ true
        → Heads rest
        → Heads (bs ++ rest)

  then_each :
      (d' : Downstream net) (hs : List (ResponseHeader http)) (t : Step net (Unit {0}))
      → then_ok t (λ x _. write_each x hs) ≡ (d', ok tt)
      → (d1 : Downstream net) × ((t ≡ (d1, ok tt)) × (write_each d1 hs ≡ (d', ok tt)))
  then_each d' hs (d1, ok tt) e = (d1, (refl, e))
  then_each d' hs (d1, err x) e = absurd cc
  then_each d' hs (d1, panic) e = absurd cc

  write_each-Locked :
      (d d' : Downstream net) (hs : List (ResponseHeader http))
      → Locked d
      → write_each d hs ≡ (d', ok tt)
      → d' ≡ d
  unfolding write_each write_response_headers
  write_each-Locked d d' [] locked e = sym (ap (λ x. x.0) e)
  write_each-Locked d d' (h ∷ hs) locked e =
      let (d1, (one, more)) = then_each d' hs (write_response_headers net d h) e in
      let same : d1 ≡ d = unless_ignored-Locked d d1 h _ locked one in
      write_each-Locked d1 d' hs (rw same locked) more ∙ same

  abbrev pub Emits : Downstream net → Downstream net → Type 0
  Emits d d' = (bs : Bytes) × ((written d'.sink ≡ written d.sink ++ bs) × Heads bs)

  after_sent :
      (d d1 d' : Downstream net) (h : ResponseHeader http) (hs : List (ResponseHeader http))
      → Sends net d d1 h
      → (is_sent net d1.response_header d1.upgrade ≡ false → Emits d1 d')
      → write_each d1 hs ≡ (d', ok tt)
      → Emits d d'
  after_sent d d1 d' h hs s more e = elim (Bool-cases (is_informational s.header.status)) [
    | inr is_final ↦
        let locked : Locked d1 = rw s.kept (ground (arith, is_final)) in
        let same : d' ≡ d1 = write_each-Locked d1 d' hs locked e in
        (
          s.bytes,
          (ap (λ x. written x.sink) same ∙ s.wire, final s.header s.bytes s.builds is_final),
        )
    | inl info ↦ elim (Bool-cases (is_sent net d1.response_header d1.upgrade)) [
      | inl locked ↦
          let same : d' ≡ d1 = write_each-Locked d1 d' hs locked e in
          (
            s.bytes ++ [],
            (
              ap (λ x. written x.sink) same
                  ∙ s.wire
                  ∙ ap (◌++◌ (written d.sink)) (sym (append-nil s.bytes)),
              interim s.header s.bytes [] s.builds info nothing,
            ),
          )
      | inr open_still ↦
          let (rest, (wire, heads)) = more open_still in
          (
            s.bytes ++ rest,
            (
              wire ∙ ap (λ x. x ++ rest) s.wire ∙ append_assoc (written d.sink) s.bytes rest,
              interim s.header s.bytes rest s.builds info heads,
            ),
          )
    ]
  ]

  -- Headers written one call after another, all with success: what has gone out are the heads of
  -- informational responses, and after them the head of one final response at most, whatever the
  -- headers were that the session was given.
  pub write_each-Heads :
      (d d' : Downstream net) (hs : List (ResponseHeader http))
      → write_each d hs ≡ (d', ok tt)
      → Emits d d'
  unfolding write_each write_response_headers
  write_each-Heads d d' [] e =
      ([], (ap (λ x. written x.0.sink) (sym e) ∙ sym (append-nil (written d.sink)), nothing))
  write_each-Heads d d' (h ∷ hs) e =
      let (d1, (one, more)) = then_each d' hs (write_response_headers net d h) e in
      elim (unless_ignored-Did d d1 h _ one) [
        | skips same ↦ subst (λ x. Emits x d') same (write_each-Heads d1 d' hs more)
        | sends free s ↦ after_sent d d1 d' h hs s (λ _. write_each-Heads d1 d' hs more) more
      ]
