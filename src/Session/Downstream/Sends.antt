-- ===== src/Session/Downstream/Sends.antt =====
-- core/src/session/downstream.rs, `write_response_headers`: what a header that goes out leaves.
use glaive.Prelude.{
  ℕ, ◌≡◌, refl, sym, ap, ◌∙◌, Option, none, some, Bool, true, false, not, ◌&&◌, ◌||◌, ◌++◌, Outcome,
  ok, err, panic, ◌>>=◌, >>=_inv, arith, Bool-cases, inl, inr, if◌then◌else◌, ◌==◌,
}
use glaive.Session.Offset.{Bytes}
use glaive.Session.Http.{is_informational}
use glaive.Session.Headers
use glaive.Session.Headers.{HeaderKey, named}
use glaive.Session.Headers.Response
use glaive.Session.Headers.Response.{ResponseHeader, build_to_buffer}
use glaive.Session.Writer.{BodyWriter}
use glaive.Session.Platform.{Platform}
use glaive.Session.Downstream.{Downstream, set_keepalive, is_session_upgrade, is_session_keepalive}
use glaive.Session.Downstream.Responses.{
  updated, turned, with_writer, set_response_body_writer, prepared, sent, flushed_head, wrote_head,
  send_built, send_prepared, send_updated,
}
use glaive.Text.{text}

module _ (net : Platform) where
  open net use {http, out}
  open out use {Sink, written, write_all, flush, write_all_writes, flush_keeps}

  abbrev response_status : Outcome (ResponseHeader http) → ℕ → ℕ
  response_status (ok h) other = h.status
  response_status (err _) other = other
  response_status panic other = other

  flushed_head_inv :
      (d d' : Downstream net) (h : ResponseHeader http) (n : ℕ) (t : Sink × Outcome (Unit {0}))
      → flushed_head net d h n t ≡ (d', ok tt)
      → (d'.response_header ≡ some h) × (d'.sink ≡ t.0)
  flushed_head_inv d d' h n (s, ok tt) e =
      (sym (ap (λ x. x.0.response_header) e), sym (ap (λ x. x.0.sink) e))
  flushed_head_inv d d' h n (s, err x) e = absurd cc
  flushed_head_inv d d' h n (s, panic) e = absurd cc

  wrote_head_if :
      (d d' : Downstream net) (h : ResponseHeader http) (n : ℕ) (s : Sink) (flushes : Bool)
      → (if flushes
          then flushed_head net d h n (flush s)
          else (sent net (record d { sink = s }) h n, ok tt))
        ≡ (d', ok tt)
      → (d'.response_header ≡ some h) × (written d'.sink ≡ written s)
  wrote_head_if d d' h n s true e =
      let i = flushed_head_inv d d' h n (flush s) e in (i.0, ap written i.1 ∙ flush_keeps s)
  wrote_head_if d d' h n s false e =
      (sym (ap (λ x. x.0.response_header) e), sym (ap (λ x. written x.0.sink) e))

  wrote_head_inv :
      (d d' : Downstream net) (h : ResponseHeader http) (n : ℕ) (t : Sink × Outcome (Unit {0}))
      → wrote_head net d h n t ≡ (d', ok tt)
      → (d'.response_header ≡ some h) × ((written d'.sink ≡ written t.0) × (t.1 ≡ ok tt))
  wrote_head_inv d d' h n (s, ok tt) e = let i = wrote_head_if d d' h n s _ e in (i.0, (i.1, refl))
  wrote_head_inv d d' h n (s, err x) e = absurd cc
  wrote_head_inv d d' h n (s, panic) e = absurd cc

  -- A header that has gone out, its bytes, and that it was the given one but for what was inserted.
  pub record Sends (d d' : Downstream net) (h : ResponseHeader http) : Type 0 where
    pub header : ResponseHeader http
    pub bytes : Bytes
    pub same_status : header.status ≡ h.status
    pub builds : build_to_buffer http header ≡ ok bytes
    pub kept : d'.response_header ≡ some header
    pub wire : written d'.sink ≡ written d.sink ++ bytes

  send_built-Sends :
      (d d' : Downstream net) (h : ResponseHeader http) (built : Outcome Bytes)
      → build_to_buffer http h ≡ built
      → send_built net d h built ≡ (d', ok tt)
      → Sends d d' h
  send_built-Sends d d' h (ok bs) b e =
      let i = wrote_head_inv d d' h _ (write_all d.sink bs) e in
      record {
        header = h;
        bytes = bs;
        same_status = refl;
        builds = b;
        kept = i.0;
        wire = i.1.0 ∙ write_all_writes d.sink bs i.1.1;
      }
  send_built-Sends d d' h (err x) b e = absurd cc
  send_built-Sends d d' h panic b e = absurd cc

  with_writer-sink :
      (d d' : Downstream net) (w : Outcome BodyWriter)
      → with_writer net d w ≡ ok d'
      → d'.sink ≡ d.sink
  with_writer-sink d d' (ok w) e = ground (arith, e)
  with_writer-sink d d' (err x) e = absurd cc
  with_writer-sink d d' panic e = absurd cc

  turned-sink : (d : Downstream net) (upgrade : Bool) → (turned net d upgrade).sink ≡ d.sink
  turned-sink d true = refl
  turned-sink d false = refl

  turns-sink :
      (d d' : Downstream net) (h : ResponseHeader http) (upgrade : Outcome Bool)
      → (do
        y ← upgrade
        with_writer net (turned net d y) (set_response_body_writer net (turned net d y) h))
        ≡ ok d'
      → d'.sink ≡ d.sink
  turns-sink d d' h (ok y) e =
      with_writer-sink (turned net d y) d' (set_response_body_writer net (turned net d y) h) e
      ∙ turned-sink d y
  turns-sink d d' h (err x) e = absurd cc
  turns-sink d d' h panic e = absurd cc

  prepared-sink :
      (d d' : Downstream net) (h : ResponseHeader http)
      → prepared net d h ≡ ok d'
      → d'.sink ≡ d.sink
  unfolding prepared set_keepalive
  prepared-sink d d' h e =
      let d1 : Downstream net = if h.status == 101 then set_keepalive net d none else d in
      let same_sink : d1.sink ≡ d.sink = ground arith in
      elim (Bool-cases ((h.status == 101) || not (is_informational h.status))) [
        | inl y ↦
            turns-sink d1 d' h (is_session_upgrade net d1 h) (ground (arith, e, y)) ∙ same_sink
        | inr n ↦ ground (arith, e, n, same_sink)
      ]

  inserted-status :
      (h h' : ResponseHeader http) (key : HeaderKey) (value : Option Bytes)
      → Response.insert_header http h key value ≡ ok h'
      → h'.status ≡ h.status
  unfolding Response.insert_header
  inserted-status h h' key value e =
      let (f, (one, more)) =
        >>=_inv (Headers.insert_header http h.fields key value) (λ f. ok (record h { fields = f }))
          h' e in
      sym (ap (λ x. response_status x h'.status) more)

  updated-status :
      (d : Downstream net) (h h' : ResponseHeader http)
      → updated net d h ≡ ok h'
      → h'.status ≡ h.status
  unfolding updated
  updated-status d h h' e =
      elim (Bool-cases (not (is_informational h.status) && d.update_response_headers)) [
        | inl y ↦
            let (h1, (one, more)) =
              >>=_inv
                (Response.insert_header http h (named (text "date"))
                  (http.header_value net.http_date))
                (λ h1. Response.insert_header http h1 (named (text "connection")) (some value)) h'
                (ground (arith, e, y)) in
            inserted-status h1 h' (named (text "connection")) (some value) more
            ∙ inserted-status h h1 (named (text "date")) (http.header_value net.http_date) one
        | inr n ↦ ground (arith, e, n)
      ]
    where
      value : Bytes
      value = if is_session_keepalive net d then text "keep-alive" else text "close"

  Sends-through :
      (d d1 d' : Downstream net) (h h1 : ResponseHeader http)
      → d1.sink ≡ d.sink
      → h1.status ≡ h.status
      → Sends d1 d' h1
      → Sends d d' h
  Sends-through d d1 d' h h1 sink status s = record {
    header = s.header;
    bytes = s.bytes;
    same_status = s.same_status ∙ status;
    builds = s.builds;
    kept = s.kept;
    wire = s.wire ∙ ap (λ x. written x ++ s.bytes) sink;
  }

  send_prepared-Sends :
      (d d' : Downstream net) (h : ResponseHeader http) (p : Outcome (Downstream net))
      → prepared net d h ≡ p
      → send_prepared net d h p ≡ (d', ok tt)
      → Sends d d' h
  send_prepared-Sends d d' h (ok d1) p e =
      Sends-through d d1 d' h h (prepared-sink d d1 h p) refl
        (send_built-Sends d1 d' h (build_to_buffer http h) refl e)
  send_prepared-Sends d d' h (err x) p e = absurd cc
  send_prepared-Sends d d' h panic p e = absurd cc

  pub send_updated-Sends :
      (d d' : Downstream net) (h : ResponseHeader http) (p : Outcome (ResponseHeader http))
      → updated net d h ≡ p
      → send_updated net d p ≡ (d', ok tt)
      → Sends d d' h
  send_updated-Sends d d' h (ok h1) p e =
      Sends-through d d d' h h1 refl (updated-status d h h1 p)
        (send_prepared-Sends d d' h1 (prepared net d h1) refl e)
  send_updated-Sends d d' h (err x) p e = absurd cc
  send_updated-Sends d d' h panic p e = absurd cc
