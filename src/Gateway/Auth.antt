-- ===== src/Gateway/Auth.antt =====
-- glaive/src/auth.rs: authentication by key and by token, and authorization by consumer.
pub mod Authorized
use glaive.Prelude.{ℕ, Option, none, some, Bool, true, false, List, [], ◌∷◌, if◌then◌else◌}
use glaive.Text.{Text, text, same, contains, trim, trim_start_matches}
use glaive.Gateway.Context.{
  Session, HeaderValue, error_response, invalid_api_key, unable_to_parse_key, key_is_required,
  unauthorized_consumer, consumer_not_found, unauthorized_access_control, undefined_consumer,
  invalid_token, unable_to_parse_token, token_is_required,
}

pub record Key : Type 0 where
  pub allowed : List Text

pub record Jwt : Type 0 where
  pub secret : Text

pub record Consumer : Type 0 where
  pub name : Text
  pub acl : List Text

pub data AuthType : Type 0 where
  key_auth : Key → AuthType
  jwt_auth : Jwt → AuthType
  external : AuthType

pub record Claims : Type 0 where
  pub exp : ℕ
  pub consumer : Text

-- What `jsonwebtoken::decode` gives: the claims, or the text of its error.
pub data Decoded : Type 0 where
  valid : Claims → Decoded
  refused : Text → Decoded

-- The credential without its scheme.
abbrev pub cleaned : Text → Text
cleaned t = trim (trim_start_matches (text "Bearer ") t)

abbrev pub check_key : Key → Session → Option Text → Session × Bool
check_key key s none = (error_response s 502 unable_to_parse_key, true)
check_key key s (some creds) =
    if contains (cleaned creds) key.allowed
    then (s, false)
    else (error_response s 403 invalid_api_key, true)

abbrev pub check_key_header : Key → Session → Option HeaderValue → Session × Bool
check_key_header key s none = (error_response s 403 key_is_required, true)
check_key_header key s (some value) = check_key key s value.utf8

unfoldable pub basic_key : Key → Session → Session × Bool
basic_key key s = check_key_header key s s.authorization

abbrev pub find_consumer : Text → List Consumer → Option Consumer
find_consumer name [] = none
find_consumer name (c ∷ cs) = if same name c.name then some c else find_consumer name cs

-- Some item of the first list is in the second.
abbrev pub share : List Text → List Text → Bool
share [] allowed = false
share (item ∷ items) allowed = if contains item allowed then true else share items allowed

-- The access control of the consumer that the gateway knows, against the service's.
abbrev pub check_acl : Session → Consumer → Option Consumer → Session × Bool
check_acl s client none = (error_response s 502 consumer_not_found, true)
check_acl s client (some defined) =
    if share defined.acl client.acl
    then (s, false)
    else (error_response s 403 unauthorized_access_control, true)

abbrev pub check_defined : Option (List Consumer) → Session → Option Consumer → Session × Bool
check_defined defined s none = (error_response s 403 unauthorized_consumer, true)
check_defined none s (some client) = (error_response s 502 undefined_consumer, true)
check_defined (some consumers) s (some client) =
    check_acl s client (find_consumer client.name consumers)

abbrev pub authorize :
    Option (List Consumer) → Option (List Consumer) → Session → Claims → Session × Bool
authorize defined none s claims = (s, false)
authorize defined (some consumers) s claims =
    check_defined defined s (find_consumer claims.consumer consumers)

-- `decode token secret` is the `jsonwebtoken` crate's, of HS256 with its default checks.
module _ (decode : Text → Text → Decoded) where
  abbrev pub check_token :
      Option (List Consumer) → Option (List Consumer) → Session → Decoded → Session × Bool
  check_token defined consumers s (valid claims) = authorize defined consumers s claims
  check_token defined consumers s (refused error) =
      (error_response s 403 (invalid_token error), true)

  abbrev pub check_jwt :
      Option (List Consumer) → Option (List Consumer) → Jwt → Session → Option Text → Session × Bool
  check_jwt defined consumers jwt s none = (error_response s 400 unable_to_parse_token, true)
  check_jwt defined consumers jwt s (some token) =
      check_token defined consumers s (decode (cleaned token) jwt.secret)

  abbrev pub check_jwt_header :
      Option (List Consumer)
      → Option (List Consumer)
      → Jwt
      → Session
      → Option HeaderValue
      → Session × Bool
  check_jwt_header defined consumers jwt s none = (error_response s 403 token_is_required, true)
  check_jwt_header defined consumers jwt s (some value) =
      check_jwt defined consumers jwt s value.utf8

  -- `defined` are the gateway's consumers, `consumers` the cluster's.
  unfoldable pub basic_jwt :
      Option (List Consumer) → Option (List Consumer) → Jwt → Session → Session × Bool
  basic_jwt defined consumers jwt s = check_jwt_header defined consumers jwt s s.authorization
