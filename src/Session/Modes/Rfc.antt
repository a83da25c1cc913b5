-- ===== src/Session/Modes/Rfc.antt =====
-- RFC 9112, 6.3, for responses with one transfer coding or none, against the choice of
-- core/src/session/upstream.rs and downstream.rs.
use glaive.Prelude.{
  ℕ, ◌<◌, ◌^◌, ◌≡◌, ◌⊎◌, refl, Option, none, some, true, false, ◌||◌, [], ◌∷◌, arith, inl, inr,
  ◌==◌,
}
use glaive.Session.Offset.{Bytes}
use glaive.Session.Keepalive.{lower, eq_ignore_case}
use glaive.Session.Http.{http11, to_lower}
use glaive.Session.Headers.Request
use glaive.Session.Headers.Request.{RequestHeader}
use glaive.Session.Headers.Response
use glaive.Session.Headers.Response.{ResponseHeader}
use glaive.Session.Lengths.{
  is_header_value_chunk_encoding, get_content_length_value, is_request_upgrade,
}
use glaive.Session.Lengths.Decimal.{all_digits, value_from, plain, get_content_length_value-Numeral}
use glaive.Session.Platform.{Platform}
use glaive.Session.Modes.{BodyMode, by_length, by_chunks, until_closed, framing}
use glaive.Session.Modes.Framing.{response_mode}
use glaive.Text.{Text, text, same}

-- The mode by the two headers' values: the chunked coding comes before a length; without a coding
-- the length is a number of decimal digits; without both the body goes on until the end.
pub data Framed (utf8 : Bytes → Option Text) (te cl : Option Bytes) : BodyMode → Type 0 where
  chunks : (bs : Bytes) → te ≡ some bs → to_lower bs ≡ text "chunked" → Framed utf8 te cl by_chunks
  counted :
      (bs : Bytes) (c : ℕ) (t : Text)
      → te ≡ none
      → cl ≡ some bs
      → utf8 bs ≡ some (c ∷ t)
      → all_digits (c ∷ t) ≡ true
      → value_from 0 (c ∷ t) < 2 ^ 63
      → Framed utf8 te cl (by_length (value_from 0 (c ∷ t)))
  closes : te ≡ none → cl ≡ none → Framed utf8 te cl until_closed

eq_ignore_case-to_lower : (s t : Text) → to_lower s ≡ to_lower t → eq_ignore_case s t ≡ true
eq_ignore_case-to_lower [] [] e = refl
eq_ignore_case-to_lower [] (d ∷ t) e = absurd cc
eq_ignore_case-to_lower (c ∷ s) [] e = absurd cc
eq_ignore_case-to_lower (c ∷ s) (d ∷ t) e =
    let one : lower c ≡ lower d = cc in
    let rest = eq_ignore_case-to_lower s t (cc) in rw rest (rw one (ground arith))

is_chunked :
    (bs : Bytes) → to_lower bs ≡ text "chunked" → is_header_value_chunk_encoding (some bs) ≡ true
unfolding is_header_value_chunk_encoding
is_chunked bs e = eq_ignore_case-to_lower bs (text "chunked") e

no_coding : is_header_value_chunk_encoding none ≡ false
unfolding is_header_value_chunk_encoding
no_coding = refl

no_length : (utf8 : Bytes → Option Text) → get_content_length_value utf8 none ≡ none
unfolding get_content_length_value
no_length utf8 = refl

framing-Framed :
    (utf8 : Bytes → Option Text) (te cl : Option Bytes) (mode : BodyMode)
    → Framed utf8 te cl mode
    → framing (is_header_value_chunk_encoding te) (get_content_length_value utf8 cl) until_closed
      ≡ mode
framing-Framed utf8 te cl _ (chunks bs e chunked) = rw e (rw (is_chunked bs chunked) refl)
framing-Framed utf8 te cl _ (counted bs c t e f g digits small) = rw e (
    rw f (
      rw no_coding (
        rw
          ((get_content_length_value-Numeral utf8 bs (c ∷ t) (value_from 0 (c ∷ t)) g).1
            (plain c t digits, small))
          refl)))
framing-Framed utf8 te cl _ (closes e f) = rw e (rw f (rw no_coding (rw (no_length utf8) refl)))

module _ (net : Platform) where
  -- The mode of a response to a request.
  pub data RfcMode (req : RequestHeader net.http) (h : ResponseHeader net.http)
      : BodyMode → Type 0 where
    bodiless :
        (same req.method (text "HEAD") ≡ true) ⊎ ((h.status ≡ 204) ⊎ (h.status ≡ 304))
        → RfcMode req h (by_length 0)
    switched :
        (value : Bytes)
        → same req.method (text "HEAD") ≡ false
        → h.status ≡ 101
        → req.version ≡ http11
        → Request.get_header net.http req (text "upgrade") ≡ some value
        → RfcMode req h until_closed
    framed :
        (mode : BodyMode)
        → same req.method (text "HEAD") ≡ false
        → ((h.status == 101) || ((h.status == 204) || (h.status == 304))) ≡ false
        → Framed net.utf8
            (Response.get_header net.http h (text "transfer-encoding"))
            (Response.get_header net.http h (text "content-length"))
            mode
        → RfcMode req h mode

  asks_upgrade :
      (req : RequestHeader net.http) (value : Bytes)
      → req.version ≡ http11
      → Request.get_header net.http req (text "upgrade") ≡ some value
      → is_request_upgrade net.http req ≡ true
  unfolding is_request_upgrade
  asks_upgrade req value e f = rw f (rw e refl)

  pub response_mode-RfcMode :
      (req : RequestHeader net.http) (h : ResponseHeader net.http) (mode : BodyMode)
      → RfcMode req h mode
      → response_mode net req h ≡ mode
  response_mode-RfcMode req h _ (bodiless (inl e)) = rw e refl
  response_mode-RfcMode req h _ (bodiless (inr (inl e))) = ground (arith, e)
  response_mode-RfcMode req h _ (bodiless (inr (inr e))) = ground (arith, e)
  response_mode-RfcMode req h _ (switched value head s e f) =
      ground (arith, head, s, asks_upgrade req value e f)
  response_mode-RfcMode req h mode (framed _ head s f) = ground (
    arith,
    head,
    s,
    framing-Framed net.utf8 (Response.get_header net.http h (text "transfer-encoding"))
        (Response.get_header net.http h (text "content-length")) mode f,
  )
