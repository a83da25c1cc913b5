-- ===== src/Gateway/Context.antt =====
-- glaive/src/proxy.rs, response.rs, request.rs: what the gateway knows of a request, and what it
-- answers by itself.
use glaive.Prelude.{
  ℕ, Option, none, some, Bool, true, false, ◌&&◌, List, [], ◌∷◌, ltb, if◌then◌else◌,
}
use glaive.Text.{Text, text, strip_prefix, trim}

-- Rust's `isize`: a number, or one below zero.
pub data Isize : Type 0 where
  pos : ℕ → Isize
  negsuc : ℕ → Isize

abbrev pub exceeds : Isize → Isize → Bool
exceeds (pos a) (pos b) = ltb b a
exceeds (pos a) (negsuc b) = true
exceeds (negsuc a) (pos b) = false
exceeds (negsuc a) (negsuc b) = ltb a b

-- The texts of the error responses.
pub data Message : Type 0 where
  invalid_path : Message
  path_does_not_exist : Message
  invalid_path_result : Message
  restricted_ip_address : Message
  too_many_request : Message
  invalid_api_key : Message
  unable_to_parse_key : Message
  key_is_required : Message
  unauthorized_consumer : Message
  consumer_not_found : Message
  unauthorized_access_control : Message
  undefined_consumer : Message
  invalid_token : Text → Message
  unable_to_parse_token : Message
  token_is_required : Message

-- The status, the message, and the limit where the three rate limit headers are sent.
pub record Reply : Type 0 where
  pub status_code : ℕ
  pub message : Message
  pub rate_limit : Option Isize

-- A header's value: what `from_utf8` of its bytes gives, and what the stricter `to_str` does.
pub record HeaderValue : Type 0 where
  pub utf8 : Option Text
  pub visible : Option Text

-- Whether the writes of a header and of a body to the client succeed, which is up to the proxy's
-- framework and the client, and whether an answer has panicked, where one of them did not.
pub record Client : Type 0 where
  pub takes_header : Bool
  pub takes_body : Bool
  pub has_panicked : Bool

abbrev pub takes : Client → Bool
takes c = c.takes_header && c.takes_body

-- The request as it came and with the URI that is set for the upstream, and the answers that were
-- written, the last first.
pub record Session : Type 0 where
  pub path : Text
  pub uri : Text
  pub authorization : Option HeaderValue
  pub x_forwarded_for : Option HeaderValue
  pub x_real_ip : Option HeaderValue
  pub remote_addr : Option Text
  pub replies : List Reply
  pub keepalive : Bool
  pub client : Client

pub record RouterCtx : Type 0 where
  pub cluster_identity : Option Text
  pub cluster_address : ℕ
  pub proxy_retry : ℕ
  pub uri_origin : Option Text
  pub client_address : Option Text
  pub client_credentials : Option Text
  pub enable_endpoint : Bool

unfoldable pub new_ctx : RouterCtx
new_ctx = record {
  cluster_identity = none;
  cluster_address = 0;
  proxy_retry = 0;
  uri_origin = none;
  client_address = none;
  client_credentials = none;
  enable_endpoint = false;
}

-- The two writes to the client are unwrapped: where one of them fails the handler panics. The
-- session keeps the panic up to the end of `request_filter`, and no handler goes on after it.
abbrev pub reply_with : Session → ℕ → Message → Option Isize → Session
reply_with s status message limit =
    if takes s.client
    then record s {
      replies = record { status_code = status; message = message; rate_limit = limit } ∷ s.replies;
      keepalive = false;
    }
    else record s { client = record s.client { has_panicked = true } }

abbrev pub error_response : Session → ℕ → Message → Session
error_response s status message = reply_with s status message none

-- `unwrap_or_default`.
abbrev pub or_empty : Option Text → Text
or_empty none = []
or_empty (some t) = t

-- `value.split(", ")`, of which only the first piece is used: what stands before the first comma
-- that a space follows.
abbrev pub first_listed : Text → Text
first_listed [] = []
first_listed (c ∷ t) = elim (strip_prefix (text ", ") (c ∷ t)) [
  | some rest ↦ []
  | none ↦ c ∷ first_listed t
]

unfoldable pub get_client_ip : Session → Option Text
get_client_ip s = elim s.x_forwarded_for [
  | some value ↦ some (trim (first_listed (or_empty value.visible)))
  | none ↦ elim s.x_real_ip [ some value ↦ some (or_empty value.visible) | none ↦ s.remote_addr ]
]

-- `get_req_header_value(session, "Authorization")`.
abbrev pub visible_of : Option HeaderValue → Option Text
visible_of none = none
visible_of (some value) = value.visible
