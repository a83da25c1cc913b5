-- ===== src/Session/Downstream/Opens.antt =====
-- core/src/session/downstream.rs: reading a request's head ends, and no byte behind the head is lost.
use glaive.Prelude.{
  ℕ, ◌+◌, ◌-◌, ◌≤◌, ◌<◌, ◌≡◌, refl, sym, subst, Option, none, some, Bool, true, false, [], ◌++◌,
  Outcome, ok, err, panic, >>=_inv, arith, length, take, drop, length-drop, take_all, if◌then◌else◌,
  inl, inr, ◌⊎◌,
}
use glaive.Session.Offset
use glaive.Session.Offset.{Bytes}
use glaive.Session.Headers.Request.{RequestHeader}
use glaive.Session.Http.{is_http11}
use glaive.Session.Keepalive.{KeepaliveStatus, infinite, off}
use glaive.Session.Reader.{is_start, re_start}
use glaive.Session.Platform.{Platform, ParsedRequest, complete}
use glaive.Session.Heads.{Head, read_head, max_buffer_size}
use glaive.Session.Heads.Ends.{Read, Ends, read_head-Ends}
use glaive.Session.Downstream.{
  keepalive_of, by_version, Downstream, set_keepalive, is_connection_keepalive, get_version,
  apply_wish, apply_session_keepalive,
}
use glaive.Session.Downstream.Opening.{
  Step, build_request, placed, started, kept, accept_head, after_head, read_request,
}
use glaive.Session.Downstream.Requests.{request_reader, set_request_body_reader, clear_retry}

module _ (net : Platform) where
  open net use {io}
  open io use {incoming}

  -- The keep-alive is all that its application changes.
  record Applies (d d' : Downstream net) : Type 0 where
    status : KeepaliveStatus
    is : d' ≡ record d { keepalive_timeout = status }

  apply_wish-Applies :
      (d d' : Downstream net) (wish : Option Bool) → apply_wish net d wish ≡ ok d' → Applies d d'
  unfolding set_keepalive keepalive_of
  apply_wish-Applies d d' (some true) e = record { status = infinite; is = ground (arith, e) }
  apply_wish-Applies d d' (some false) e = record { status = off; is = ground (arith, e) }
  apply_wish-Applies d d' none e =
      let (version, (one, more)) =
        >>=_inv (get_version net d) (λ v. ok (by_version net d v)) d' e in
      record {
        status = keepalive_of (if is_http11 version then some 0 else none);
        is = ground (arith, more);
      }

  apply_session_keepalive-Applies :
      (d d' : Downstream net) → apply_session_keepalive net d ≡ ok d' → Applies d d'
  unfolding apply_session_keepalive
  apply_session_keepalive-Applies d d' e =
      let (wish, (one, more)) = >>=_inv (is_connection_keepalive net d) (apply_wish net d) d' e in
      apply_wish-Applies d d' wish more

  -- A request whose head has been read, and the reader of its body.
  pub record Opened (d d' : Downstream net) : Type 0 where
    pub head : Head ParsedRequest
    pub request : RequestHeader net.http
    pub next : Downstream net
    pub parses : net.parse_request head.bytes ≡ complete head.size head.parsed
    pub whole : incoming d.stream ≡ head.bytes ++ incoming d'.stream
    pub bounded :
        (room : ℕ)
        → ((buf : Bytes) → net.spare buf ≤ room)
        → length head.bytes ≤ max_buffer_size + room
    pub header_is : d'.request_header ≡ some request
    pub builds : build_request net head ≡ ok request
    pub sets : set_request_body_reader net d' ≡ (next, ok tt)
    pub reader_is :
        next.body_reader
        ≡ request_reader net request (drop head.size head.bytes) (re_start d.body_reader)

  slice_rest :
      (bs : Bytes) (size : ℕ)
      → size ≤ length bs
      → Offset.slice bs size (length bs) ≡ ok (drop size bs)
  unfolding Offset.slice
  slice_rest bs size le =
      let all : take (length bs - size) (drop size bs) ≡ drop size bs =
        subst (λ n. take n (drop size bs) ≡ drop size bs) (length-drop size bs)
          (take_all (drop size bs)) in
      ground (arith, all)

  sets_started :
      (d : Downstream net) (head : Head ParsedRequest) (h : RequestHeader net.http)
      (status : KeepaliveStatus)
      → head.size ≤ length head.bytes
      → set_request_body_reader net
          (record (started net (placed net d head) head.bytes h) { keepalive_timeout = status })
        ≡ (
          record (started net (placed net d head) head.bytes h) {
            keepalive_timeout = status;
            retry_buffer = clear_retry net d.retry_buffer;
            body_reader = request_reader net h (drop head.size head.bytes) (re_start d.body_reader);
          },
          ok tt,
        )
  unfolding set_request_body_reader is_start re_start Offset.get
  sets_started d head h status le = rw (slice_rest head.bytes head.size le) refl

  -- How the reading ends.
  abbrev pub Opens : Downstream net → Option (Step net (Unit {0})) → Type 0
  Opens d none = ⊥
  Opens d (some (d', ok _)) =
      (incoming d.stream ≡ incoming d'.stream) × (d' ≡ record d { stream = d'.stream; buffer = [] })
      ⊎ Opened d d'
  Opens d (some (d', err _)) = Unit
  Opens d (some (d', panic)) = Unit

  kept-Opens :
      (d : Downstream net) (s : io.Stream) (head : Head ParsedRequest) (h : RequestHeader net.http)
      (applied : Outcome (Downstream net))
      → Read io net.spare net.parse_request d.stream s [] head
      → build_request net head ≡ ok h
      → apply_session_keepalive net
          (started net (placed net (record d { stream = s; buffer = [] }) head) head.bytes h)
        ≡ applied
      → Opens d (
          some (
            kept net
              (started net (placed net (record d { stream = s; buffer = [] }) head) head.bytes h)
              applied))
  kept-Opens d s head h (ok d') read built e =
      let d1 : Downstream net = record d { stream = s; buffer = [] } in
      let a =
        apply_session_keepalive-Applies (started net (placed net d1 head) head.bytes h) d' e in
      inr (
        subst (Opened d) (sym a.is) (record {
          head = head;
          request = h;
          next = _;
          parses = read.parses;
          whole = read.whole;
          bounded = read.bounded;
          header_is = refl;
          builds = built;
          sets =
              sets_started d1 head h a.status
                (net.request_fits head.bytes head.size head.parsed read.parses);
          reader_is = refl;
        }))
  kept-Opens d s head h (err x) read built e = tt
  kept-Opens d s head h panic read built e = tt

  accept_head-Opens :
      (d : Downstream net) (s : io.Stream) (head : Head ParsedRequest)
      (built : Outcome (RequestHeader net.http))
      → Read io net.spare net.parse_request d.stream s [] head
      → build_request net head ≡ built
      → Opens d (some (accept_head net (record d { stream = s; buffer = [] }) head built))
  accept_head-Opens d s head (ok h) read e = kept-Opens d s head h _ read e refl
  accept_head-Opens d s head (err x) read e = tt
  accept_head-Opens d s head panic read e = tt

  after_head-Opens :
      (d : Downstream net) (t : Option (io.Stream × Outcome (Option (Head ParsedRequest))))
      → Ends io net.spare net.parse_request d.stream [] t
      → Opens d (after_head net d t)
  after_head-Opens d none e = e
  after_head-Opens d (some (s, ok none)) (nil, same) = inl (same, refl)
  after_head-Opens d (some (s, ok (some head))) e =
      accept_head-Opens d s head (build_request net head) e refl
  after_head-Opens d (some (s, err x)) e = tt
  after_head-Opens d (some (s, panic)) e = tt

  -- Reading the head of a request ends within 8194 reads. A success is one of two. Either the client
  -- has closed before the first byte, and only the stream and the buffer have changed. Or a head was
  -- parsed of what came off the stream, all of which the buffer holds, at most one read more than
  -- the limit; then the mode of the body can be chosen without a panic, and its reader gets the bytes
  -- behind the head, all of them and no others.
  pub read_request-Opens :
      (fuel : ℕ) (d : Downstream net)
      → max_buffer_size + 1 < fuel
      → Opens d (read_request net fuel d)
  unfolding read_request
  read_request-Opens fuel d h =
      after_head-Opens d (read_head io net.spare net.parse_request fuel d.stream [])
        (read_head-Ends io net.spare net.parse_request fuel d.stream [] (omega (arith, h)))
