-- ===== src/Gateway/Proxy/Replies.antt =====
-- glaive/src/path.rs, auth.rs, limiter.rs: each part answers a request that it ends, once.
use glaive.Prelude.{
  ℕ, ◌≡◌, refl, sym, ap, ◌∙◌, Option, none, some, Bool, true, false, List, [], ◌∷◌, Bool-cases, inl,
  inr,
}
use glaive.Text.{Text, contains, remove_first}
use glaive.Gateway.Context.{
  Isize, exceeds, Reply, Message, takes, reply_with, Session, RouterCtx, HeaderValue,
}
use glaive.Gateway.Path.{select_cluster, selected, set_modified, find_prefix, serialized_uri}
use glaive.Gateway.Auth
use glaive.Gateway.Auth.{AuthType, Consumer, Decoded, Key, Jwt, basic_key, basic_jwt}
use glaive.Gateway.Limiter.{RateLimiter, limited}

abbrev answer : ℕ → Message → Option Isize → Reply
answer status message limit = record { status_code = status; message = message; rate_limit = limit }

-- A session before and after a handler, and whether the handler ends the request.
pub data Replied (s : Session) : Session → Bool → Type 0 where
  goes_on : (t : Session) → t.replies ≡ s.replies → t.client ≡ s.client → Replied s t false
  ended :
      (t : Session) (reply : Reply)
      → t.replies ≡ reply ∷ s.replies
      → t.keepalive ≡ false
      → t.client ≡ s.client
      → takes s.client ≡ true
      → Replied s t true
  panicked :
      (t : Session) → t.client.has_panicked ≡ true → takes s.client ≡ false → Replied s t true

pub Replied-then :
    (r s t : Session) (stop : Bool)
    → s.replies ≡ r.replies
    → s.client ≡ r.client
    → Replied s t stop
    → Replied r t stop
Replied-then r s t false e c (goes_on _ f g) = goes_on t (f ∙ e) (g ∙ c)
Replied-then r s t true e c (ended _ reply f k g w) =
    ended t reply (rw (sym e) f) k (g ∙ c) (ap takes (sym c) ∙ w)
Replied-then r s t true e c (panicked _ p w) = panicked t p (ap takes (sym c) ∙ w)

pub replied :
    (s : Session) (status : ℕ) (message : Message) (limit : Option Isize)
    → Replied s (reply_with s status message limit) true
replied s status message limit = elim (Bool-cases (takes s.client)) [
  | inl e ↦ rw e (ended _ (answer status message limit) refl refl refl e)
  | inr e ↦ rw e (panicked _ refl e)
]

module _ (parses : Text → Bool) where
  set_modified-Replied :
      (s : Session) (t : Text) → Replied s (set_modified parses s t).0 (set_modified parses s t).1
  set_modified-Replied s [] = goes_on _ refl refl
  set_modified-Replied s (c ∷ t) = elim (Bool-cases (parses (c ∷ t))) [
    | inl e ↦ rw e (goes_on _ refl refl)
    | inr e ↦ rw e (replied _ _ _ _)
  ]

  selected-Replied :
      (s : Session) (ctx : RouterCtx) (uri : Text) (found : Option (Text × ℕ))
      → Replied s (selected parses s ctx uri found).0 (selected parses s ctx uri found).1.1
  selected-Replied s ctx uri none = replied _ _ _ _
  selected-Replied s ctx uri (some (prefix, idx)) = set_modified-Replied s (remove_first prefix uri)

  pub select_cluster-Replied :
      (prefixes : List (Text × ℕ)) (uri : Text) (s : Session) (ctx : RouterCtx)
      → Replied s
          (select_cluster parses prefixes uri s ctx).0
          (select_cluster parses prefixes uri s ctx).1.1
  unfolding select_cluster
  select_cluster-Replied prefixes uri s ctx = elim (Bool-cases (parses uri)) [
    | inl e ↦ rw e (selected-Replied s ctx uri (find_prefix (serialized_uri uri) prefixes))
    | inr e ↦ rw e (replied _ _ _ _)
  ]

check_key-Replied :
    (key : Key) (s : Session) (creds : Option Text)
    → Replied s (Auth.check_key key s creds).0 (Auth.check_key key s creds).1
check_key-Replied key s none = replied _ _ _ _
check_key-Replied key s (some creds) =
    elim (Bool-cases (contains (Auth.cleaned creds) key.allowed)) [
      | inl e ↦ rw e (goes_on _ refl refl)
      | inr e ↦ rw e (replied _ _ _ _)
    ]

pub check_key_header-Replied :
    (key : Key) (s : Session) (header : Option HeaderValue)
    → Replied s (Auth.check_key_header key s header).0 (Auth.check_key_header key s header).1
check_key_header-Replied key s none = replied _ _ _ _
check_key_header-Replied key s (some value) = check_key-Replied key s value.utf8

check_acl-Replied :
    (s : Session) (client : Consumer) (found : Option Consumer)
    → Replied s (Auth.check_acl s client found).0 (Auth.check_acl s client found).1
check_acl-Replied s client none = replied _ _ _ _
check_acl-Replied s client (some defined) = elim (Bool-cases (Auth.share defined.acl client.acl)) [
  | inl e ↦ rw e (goes_on _ refl refl)
  | inr e ↦ rw e (replied _ _ _ _)
]

check_defined-Replied :
    (defined : Option (List Consumer)) (s : Session) (found : Option Consumer)
    → Replied s (Auth.check_defined defined s found).0 (Auth.check_defined defined s found).1
check_defined-Replied none s none = replied _ _ _ _
check_defined-Replied (some consumers) s none = replied _ _ _ _
check_defined-Replied none s (some client) = replied _ _ _ _
check_defined-Replied (some consumers) s (some client) =
    check_acl-Replied s client (Auth.find_consumer client.name consumers)

module _ (decode : Text → Text → Decoded) where
  check_token-Replied :
      (defined consumers : Option (List Consumer)) (s : Session) (d : Decoded)
      → Replied s
          (Auth.check_token decode defined consumers s d).0
          (Auth.check_token decode defined consumers s d).1
  check_token-Replied defined none s (Auth.valid claims) = goes_on _ refl refl
  check_token-Replied defined (some consumers) s (Auth.valid claims) =
      check_defined-Replied defined s (Auth.find_consumer claims.consumer consumers)
  check_token-Replied defined consumers s (Auth.refused error) = replied _ _ _ _

  check_jwt-Replied :
      (defined consumers : Option (List Consumer)) (jwt : Jwt) (s : Session) (token : Option Text)
      → Replied s
          (Auth.check_jwt decode defined consumers jwt s token).0
          (Auth.check_jwt decode defined consumers jwt s token).1
  check_jwt-Replied defined consumers jwt s none = replied _ _ _ _
  check_jwt-Replied defined consumers jwt s (some token) =
      check_token-Replied defined consumers s (decode (Auth.cleaned token) jwt.secret)

  pub check_jwt_header-Replied :
      (defined consumers : Option (List Consumer)) (jwt : Jwt) (s : Session)
      (header : Option HeaderValue)
      → Replied s
          (Auth.check_jwt_header decode defined consumers jwt s header).0
          (Auth.check_jwt_header decode defined consumers jwt s header).1
  check_jwt_header-Replied defined consumers jwt s none = replied _ _ _ _
  check_jwt_header-Replied defined consumers jwt s (some value) =
      check_jwt-Replied defined consumers jwt s value.utf8

pub limited-Replied :
    (limiter : RateLimiter) (limit : Isize) (s : Session) (key : Option Text) (rate : limiter.Rate)
    → Replied s (limited limiter limit s key rate).0.1 (limited limiter limit s key rate).1
limited-Replied limiter limit s none rate = goes_on _ refl refl
limited-Replied limiter limit s (some key) rate =
    elim (Bool-cases (exceeds (limiter.observe rate key).1 limit)) [
      | inl e ↦ rw e (replied _ _ _ _)
      | inr e ↦ rw e (goes_on _ refl refl)
    ]
