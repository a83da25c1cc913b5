-- ===== src/Session/Downstream/Keeps.antt =====
-- core/src/session/downstream.rs: whether the connection is kept, and what the client is told of it.
use glaive.Prelude.{
  ◌≡◌, refl, ap, ◌∙◌, Option, none, some, Bool, true, false, ok, >>=_inv, arith, if◌then◌else◌,
}
use glaive.Session.Offset.{Bytes}
use glaive.Session.Http.{is_http11, is_informational}
use glaive.Session.Headers
use glaive.Session.Headers.{
  named, titled_header_name, titled_header_name_str, into_case_header_name,
}
use glaive.Session.Headers.Inserts.{insert_header-Inserts}
use glaive.Session.Headers.Request
use glaive.Session.Headers.Request.{RequestHeader}
use glaive.Session.Headers.Response
use glaive.Session.Headers.Response.{ResponseHeader}
use glaive.Session.Keepalive.{infinite, off}
use glaive.Session.Platform.{Platform}
use glaive.Session.Downstream.{
  Downstream, keepalive_of, set_keepalive, get_header, get_version, connection_keepalive,
  is_connection_keepalive, is_session_keepalive, apply_wish, apply_session_keepalive,
}
use glaive.Session.Downstream.Responses.{updated}
use glaive.Text.{text}

module _ (net : Platform) where
  open net use {http}

  -- The wish of the Connection header, else the version decides.
  abbrev pub keeps : RequestHeader http → Bool
  keeps h = elim (connection_keepalive net (Request.get_header http h (text "connection"))) [
    | some wish ↦ wish
    | none ↦ is_http11 h.version
  ]

  abbrev pub told : Bool → Bytes
  told keep = if keep then text "keep-alive" else text "close"

  -- What the session decides, and what an answer then says.
  pub record Decides (d : Downstream net) (h : RequestHeader http) : Type 0 where
    pub after : Downstream net
    pub applies : apply_session_keepalive net d ≡ ok after
    pub status : after ≡ record d { keepalive_timeout = if keeps h then infinite else off }
    pub tells :
        (answer updated_answer : ResponseHeader http)
        → is_informational answer.status ≡ false
        → d.update_response_headers ≡ true
        → updated net after answer ≡ ok updated_answer
        → Response.get_header http updated_answer (text "connection") ≡ some (told (keeps h))

  applies_wish :
      (d : Downstream net) (h : RequestHeader http) (wish : Option Bool)
      → d.request_header ≡ some h
      → apply_wish net d wish
        ≡ ok (record d {
          keepalive_timeout =
              if (elim wish [ some w ↦ w | none ↦ is_http11 h.version ]) then infinite else off;
        })
  unfolding set_keepalive keepalive_of get_version
  applies_wish d h (some true) e = refl
  applies_wish d h (some false) e = refl
  applies_wish d h none e = ground (arith, e)

  applies-keeps :
      (d : Downstream net) (h : RequestHeader http)
      → d.request_header ≡ some h
      → apply_session_keepalive net d
        ≡ ok (record d { keepalive_timeout = if keeps h then infinite else off })
  unfolding apply_session_keepalive is_connection_keepalive get_header
  applies-keeps d h e = ground (
    arith,
    e,
    applies_wish d h (connection_keepalive net (Request.get_header http h (text "connection"))) e,
  )

  inserts_connection :
      (answer answer' : ResponseHeader http) (value : Bytes)
      → http.header_name (text "connection") ≡ some (text "connection")
      → Response.insert_header http answer (named (text "connection")) (some value) ≡ ok answer'
      → Response.get_header http answer' (text "connection") ≡ some value
  unfolding Response.insert_header Response.get_header
  inserts_connection answer answer' value valid e =
      let (f, (one, more)) =
        >>=_inv (Headers.insert_header http answer.fields (named (text "connection")) (some value))
          (λ f. ok (record answer { fields = f })) answer' e in
      let i = insert_header-Inserts http answer.fields (text "connection") value valid in
      let same_fields : f ≡ i.after = ground (arith, one, i.inserts) in
      let fields_are : answer'.fields ≡ f = ground (arith, more) in
      rw (fields_are, same_fields) i.found

  updated-tells :
      (d : Downstream net) (answer answer' : ResponseHeader http)
      → http.header_name (text "connection") ≡ some (text "connection")
      → is_informational answer.status ≡ false
      → d.update_response_headers ≡ true
      → updated net d answer ≡ ok answer'
      → Response.get_header http answer' (text "connection")
        ≡ some (told (is_session_keepalive net d))
  unfolding updated
  updated-tells d answer answer' valid final on e =
      let (dated, (one, more)) =
        >>=_inv
          (Response.insert_header http answer (named (text "date"))
            (http.header_value net.http_date))
          (λ x.
            Response.insert_header http x (named (text "connection"))
              (some (told (is_session_keepalive net d))))
          answer' (ground (arith, e, final, on)) in
      inserts_connection dated answer' (told (is_session_keepalive net d)) valid more

  is_kept :
      (d : Downstream net) (keep : Bool)
      → is_session_keepalive net (record d { keepalive_timeout = if keep then infinite else off })
        ≡ keep
  unfolding is_session_keepalive
  is_kept d true = refl
  is_kept d false = refl

  -- Once a request's header is there, the keep-alive follows its Connection header, or the version
  -- where that does not say: kept without a limit for HTTP/1.1, closed for the others. A final answer
  -- whose headers are brought up to date then has a Connection header that tells the client exactly
  -- that.
  pub apply_session_keepalive-Decides :
      (d : Downstream net) (h : RequestHeader http)
      → http.header_name (text "connection") ≡ some (text "connection")
      → d.request_header ≡ some h
      → Decides d h
  apply_session_keepalive-Decides d h valid e = record {
    after = record d { keepalive_timeout = if keeps h then infinite else off };
    applies = applies-keeps d h e;
    status = refl;
    tells = λ answer answer' final on is.
        updated-tells (record d { keepalive_timeout = if keeps h then infinite else off }) answer
          answer' valid final on is
        ∙ ap (λ k. some (told k)) (is_kept d (keeps h));
  }
